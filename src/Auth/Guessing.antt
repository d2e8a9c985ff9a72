-- ===== src/Auth/Guessing.antt =====
-- Several failed logins of any names from any addresses, one after the other.
use monitoring_maxval.Base.{
  ℕ, suc, ◌+◌, ◌*◌, ◌≤◌, ◌<◌, Bool, true, false, ◌&&◌, not, List, [], ◌∷◌, leb, ltb, keep, length,
  take, is_some, ◌≡◌, refl, subst₂, ◌∙◌, arith, Option-cases, Bool-cases, inl, inr,
}
use monitoring_maxval.Base.Rows.{count, In, count-insert, count_mono}
use monitoring_maxval.UnstableLink.{minute_us}
use monitoring_maxval.Base.Text.{Text, same_text_refl}
use monitoring_maxval.Auth.Database.{FailedLoginAttempt, AuthStore, Settings}
use monitoring_maxval.Auth.Users.{normalize_username}
use monitoring_maxval.Auth.Counting.{Counted, nobody, counted, passed}
use monitoring_maxval.Auth.Logins.{
  find_block, get_active_block, counts, add_failure, block_after, trim_failures,
  record_failed_login, new_failure,
}
use monitoring_maxval.Auth.Throttle.{record_failed_login-blocks, take-all}

module _ {A : Type 0} where
  count-keep :
      (p q : A → Bool) (rows : List A)
      → ((a : A) → In a rows → q a ≡ true → p a ≡ true)
      → count q (keep p rows) ≡ count q rows
  unfolding count
  count-keep p q [] h = refl
  count-keep p q (x ∷ rows) h =
      ground (arith, h x (inl refl), count-keep p q rows (λ a i. h a (inr i)))

  count_lt :
      (p q : A → Bool) (a : A) (rows : List A)
      → In a rows
      → ((b : A) → p b ≡ true → q b ≡ true)
      → q a ≡ true
      → p a ≡ false
      → count p rows + 1 ≤ count q rows
  unfolding count
  count_lt p q a [] i h e f = absurd i
  count_lt p q a (x ∷ rows) (inl g) h e f = ground (arith, count_mono p q rows h)
  count_lt p q a (x ∷ rows) (inr i) h e f = ground (arith, h x, count_lt p q a rows i h e f)

-- A failed login: the name as it was typed, the address and the instant.
pub record LoginFailure : Type 0 where
  pub username : Text
  pub ip_address : Text
  pub at : ℕ

-- `record_failed_login` for each of these, in their order.
unfoldable pub fail_all : Settings → List LoginFailure → AuthStore → AuthStore
fail_all settings [] db = db
fail_all settings (f ∷ fs) db =
    fail_all settings fs (record_failed_login settings f.at f.username f.ip_address db).1

-- A failed login of this name, normalized, from this address, in whose window the last instant lies.
pub record IsRecentGuess (settings : Settings) (last : ℕ) (name ip_address : Text)
    (f : LoginFailure) : Type 0 where
  pub same_name : normalize_username f.username ≡ name
  pub same_address : f.ip_address ≡ ip_address
  pub recent : last ≤ f.at + settings.login_block_minutes * minute_us

block_after-failures :
    (settings : Settings) (now : ℕ) (u ip : Text) (db : AuthStore)
    → ((block_after settings now u ip db).1.failures ≡ db.failures)
      × ((block_after settings now u ip db).1.next_failure ≡ db.next_failure)
unfolding block_after
block_after-failures settings now u ip db =
    elim (Bool-cases
      (leb settings.login_max_attempts (count (counts settings now u ip) db.failures))) [
        | inr q ↦ rw q (refl, refl)
        | inl q ↦ elim (Option-cases (find_block u ip db.blocks)) [
          | inl e ↦ rw q (rw e (refl, refl))
          | inr (b, e) ↦ rw q (rw e (refl, refl))
        ]
      ]

module _ (settings : Settings) (last base : ℕ) (u ip : Text) where
  -- The rows written since the first id was given.
  abbrev own : FailedLoginAttempt → Bool
  own f = leb base f.id

  abbrev own_recent : FailedLoginAttempt → Bool
  own_recent f = counts settings last u ip f && own f

  -- Since then `k` rows were written and are still there, at least `m` of them for the name and the
  -- address in the window.
  record HasWritten (k m : ℕ) (db : AuthStore) : Type 0 where
    pub next : db.next_failure ≡ base + k
    pub written : count own db.failures ≡ k
    pub recent : m ≤ count own_recent db.failures

  add_other-HasWritten :
      (k m t : ℕ) (v ip' : Text) (db : AuthStore)
      → HasWritten k m db
      → HasWritten (suc k) m (add_failure t v ip' db)
  unfolding add_failure
  add_other-HasWritten k m t v ip' db h = record {
    next = omega (arith, h.next);
    written =
        ground (arith, count-insert own (new_failure t v ip' db) db.failures, h.next, h.written);
    recent = omega (arith, count-insert own_recent (new_failure t v ip' db) db.failures, h.recent);
  }

  add_failure-HasWritten :
      (k m t : ℕ) (db : AuthStore)
      → last ≤ t + settings.login_block_minutes * minute_us
      → HasWritten k m db
      → HasWritten (suc k) (suc m) (add_failure t u ip db)
  unfolding add_failure counts
  add_failure-HasWritten k m t db w h = record {
    next = omega (arith, h.next);
    written =
        ground (arith, count-insert own (new_failure t u ip db) db.failures, h.next, h.written);
    recent = ground (
      arith,
      count-insert own_recent (new_failure t u ip db) db.failures,
      same_text_refl u,
      same_text_refl ip,
      h.next,
      h.recent,
    );
  }

  trim_failures-HasWritten :
      (k m : ℕ) (db : AuthStore) → k ≤ 100 → HasWritten k m db → HasWritten k m (trim_failures db)
  unfolding trim_failures
  trim_failures-HasWritten k m db le h =
      let newer : FailedLoginAttempt → FailedLoginAttempt → Bool = λ f g. ltb f.id g.id in
      let stays : (f : FailedLoginAttempt)
          → In f db.failures
          → own f ≡ true
          → ltb (count (newer f) db.failures) 100 ≡ true =
        λ f i o. ground (
          arith,
          count_lt (newer f) own f db.failures i (λ g e. ground arith) o (ground arith),
          h.written,
        ) in
      record {
        next = h.next;
        written = count-keep _ own db.failures stays ∙ h.written;
        recent = omega (
          arith,
          count-keep _ own_recent db.failures (λ f i o. stays f i (ground arith)),
          h.recent,
        );
      }

  block_after-HasWritten :
      (k m t : ℕ) (v ip' : Text) (db : AuthStore)
      → HasWritten k m db
      → HasWritten k m (block_after settings t v ip' db).1
  block_after-HasWritten k m t v ip' db h =
      let (kept, next) = block_after-failures settings t v ip' db in
      record { next = rw next h.next; written = rw kept h.written; recent = rw kept h.recent }

module _ (settings : Settings) (last base : ℕ) (u ip : Text) (short : length u ≤ 64) where
  abbrev Written : ℕ → ℕ → AuthStore → Type 0
  Written = HasWritten settings last base u ip

  record_failed_login-HasWritten :
      (k m : ℕ) (f : LoginFailure) (db : AuthStore)
      → k < 100
      → Written k m db
      → Written (suc k) m (record_failed_login settings f.at f.username f.ip_address db).1
  unfolding record_failed_login
  record_failed_login-HasWritten k m f db le h =
      let v = take 64 (normalize_username f.username) in
      trim_failures-HasWritten settings last base u ip (suc k) m _ (omega (arith, le)) (
        block_after-HasWritten settings last base u ip (suc k) m f.at v f.ip_address _
          (add_other-HasWritten settings last base u ip k m f.at v f.ip_address db h))

  record_guess-HasWritten :
      (k m : ℕ) (f : LoginFailure) (db : AuthStore)
      → IsRecentGuess settings last u ip f
      → k < 100
      → Written k m db
      → Written (suc k) (suc m) (record_failed_login settings f.at f.username f.ip_address db).1
  unfolding record_failed_login
  record_guess-HasWritten k m f db g le h = rw (g.same_name) (
      rw (g.same_address) (
        rw (take-all 64 u short) (
          trim_failures-HasWritten settings last base u ip (suc k) (suc m) _ (omega (arith, le)) (
            block_after-HasWritten settings last base u ip (suc k) (suc m) f.at u ip _
              (add_failure-HasWritten settings last base u ip k m f.at db g.recent h)))))

  fail_all-HasWritten :
      {n : ℕ} {fs : List LoginFailure} (k m : ℕ) (db : AuthStore)
      → Counted (IsRecentGuess settings last u ip) n fs
      → k + length fs ≤ 100
      → Written k m db
      → Written (k + length fs) (m + n) (fail_all settings fs db)
  unfolding fail_all
  fail_all-HasWritten k m db nobody le h =
      subst₂ (λ a b. Written a b db) (omega arith) (omega arith) h
  fail_all-HasWritten k m db (counted {n = n} {a = f} {rows = fs} g c) le h =
      subst₂ (λ a b. Written a b (fail_all settings (f ∷ fs) db)) (omega arith) (omega arith)
        (fail_all-HasWritten (suc k) (suc m) _ c (omega (arith, le))
          (record_guess-HasWritten k m f db g (omega (arith, le)) h))
  fail_all-HasWritten k m db (passed {n = n} {a = f} {rows = fs} g c) le h =
      subst₂ (λ a b. Written a b (fail_all settings (f ∷ fs) db)) (omega arith) refl
        (fail_all-HasWritten (suc k) m _ c (omega (arith, le))
          (record_failed_login-HasWritten k m f db (omega (arith, le)) h))

-- Where no stored failed login has an id that is still to be given, and the normalized name has at most
-- 64 characters: take fewer than 100 failed logins of any names from any addresses in a row, of which
-- `n` are of the name from the address, and the last instant at most `login_block_minutes` after each
-- of these. If `n + 1` is at least `login_max_attempts`, a failed login of the name from the address at
-- the last instant blocks the two at every instant before `login_block_minutes` after it and at none
-- from that on.
pub fail_all-get_active_block :
    (settings : Settings) (last later n : ℕ) (username ip_address : Text) (fs : List LoginFailure)
    (db : AuthStore)
    → count (λ f. leb db.next_failure (FailedLoginAttempt.id f)) db.failures ≡ 0
    → length (normalize_username username) ≤ 64
    → Counted (IsRecentGuess settings last (normalize_username username) ip_address) n fs
    → settings.login_max_attempts ≤ n + 1
    → length fs < 100
    → is_some (
        (get_active_block later username ip_address
          (record_failed_login settings last username ip_address (fail_all settings fs db)).1).0)
      ≡ not (leb (last + settings.login_block_minutes * minute_us) later)
fail_all-get_active_block settings last later n username ip fs db fresh short c many few =
    let u = normalize_username username in
    let base = db.next_failure in
    let mine = own_recent settings last base u ip in
    let start : HasWritten settings last base u ip 0 0 db = record {
      next = omega arith;
      written = fresh;
      recent = omega arith;
    } in
    let db' = fail_all settings fs db in
    let h = fail_all-HasWritten settings last base u ip short 0 0 db c (omega (arith, few)) start in
    record_failed_login-blocks settings last later username ip db' short (
      omega (
        arith,
        count_mono mine (counts settings last u ip) db'.failures (λ f e. ground arith),
        h.recent,
        many,
      ))
