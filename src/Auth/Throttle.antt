-- ===== src/Auth/Throttle.antt =====
-- The blocks of services/auth.py: when a failed login sets one, how long it holds, what lifts it.
use monitoring_maxval.Base.{
  ℕ, ◌+◌, ◌*◌, ◌≤◌, true, ◌&&◌, not, Option, none, some, List, [], ◌∷◌, leb, keep, take, length,
  is_some, bit, ◌≡◌, refl, ap, ◌∙◌, arith, zero, suc, Option-cases, ==-refl, inl, inr,
}
use monitoring_maxval.Base.Rows.{count, count-insert, insert, update}
use monitoring_maxval.UnstableLink.{minute_us}
use monitoring_maxval.Base.Text.{Text, same_text, same_text_refl}
use monitoring_maxval.Auth.Database.{LoginBlock, AuthStore, Settings, User}
use monitoring_maxval.Auth.Users.{normalize_username}
use monitoring_maxval.Auth.Counting.{Counted, IsRecentFailure, count-counts}
use monitoring_maxval.Auth.Logins.{
  find_block, get_active_block, counts, add_failure, set_block, block_after, trim_failures,
  record_failed_login, complete_login, new_failure,
}

pub take-all : {A : Type 0} (n : ℕ) (xs : List A) → length xs ≤ n → take n xs ≡ xs
take-all zero [] h = refl
take-all zero (x ∷ xs) h = ground arith
take-all (suc n) [] h = refl
take-all (suc n) (x ∷ xs) h = ap (λ ys. x ∷ ys) (take-all n xs (omega arith))

abbrev until : ℕ → LoginBlock → LoginBlock
until t b = record b { blocked_until = t }

find_block-update :
    (t : ℕ) (u ip : Text) (bs : List LoginBlock) {b : LoginBlock}
    → find_block u ip bs ≡ some b
    → find_block u ip (update LoginBlock.id b.id (until t) bs) ≡ some (until t b)
unfolding find_block update
find_block-update t u ip [] e = cc
find_block-update t u ip (x ∷ bs) {b} e =
    ground (arith, ==-refl b.id, find_block-update t u ip bs {b = b})

find_block-insert :
    (u ip : Text) (b : LoginBlock) (bs : List LoginBlock)
    → b.username ≡ u
    → b.ip_address ≡ ip
    → find_block u ip bs ≡ none
    → find_block u ip (insert b bs) ≡ some b
unfolding find_block insert
find_block-insert u ip b [] e f h =
    rw (ap (λ v. same_text v u) e ∙ same_text_refl u)
      (rw (ap (λ v. same_text v ip) f ∙ same_text_refl ip) refl)
find_block-insert u ip b (x ∷ bs) e f h = ground (arith, find_block-insert u ip b bs e f)

-- The block that the name and the address have afterwards holds until the given instant.
HoldsUntil : ℕ → Text → Text → Option LoginBlock × AuthStore → Type 0
HoldsUntil t u ip (none, db) = ⊥
HoldsUntil t u ip (some b, db) = (find_block u ip db.blocks ≡ some b) × (b.blocked_until ≡ t)

set_block-HoldsUntil :
    (t : ℕ) (u ip : Text) (db : AuthStore)
    → HoldsUntil t u ip (set_block t u ip (find_block u ip db.blocks) db)
unfolding HoldsUntil
set_block-HoldsUntil t u ip db = elim (Option-cases (find_block u ip db.blocks)) [
  | inl e ↦ rw e (find_block-insert u ip _ db.blocks refl refl e, refl)
  | inr (b, e) ↦ rw e (find_block-update t u ip db.blocks e, refl)
]

block_after-HoldsUntil :
    (settings : Settings) (now : ℕ) (u ip : Text) (db : AuthStore)
    → leb settings.login_max_attempts (count (counts settings now u ip) db.failures) ≡ true
    → HoldsUntil
        (now + settings.login_block_minutes * minute_us)
        u
        ip
        (block_after settings now u ip db)
unfolding block_after
block_after-HoldsUntil settings now u ip db h =
    rw h (set_block-HoldsUntil (now + settings.login_block_minutes * minute_us) u ip db)

IsBlocked : ℕ → Text → Text → AuthStore → Type 0
IsBlocked t u ip db =
    (b : LoginBlock) × (find_block u ip db.blocks ≡ some b) × (b.blocked_until ≡ t)

after_trim :
    (t : ℕ) (u ip : Text) (out : Option LoginBlock × AuthStore)
    → HoldsUntil t u ip out
    → IsBlocked t u ip (trim_failures out.1)
unfolding trim_failures HoldsUntil IsBlocked
after_trim t u ip (none, db) h = absurd h
after_trim t u ip (some b, db) h = (b, h.0, h.1)

active_until :
    (t later : ℕ) (u ip : Text) (db : AuthStore)
    → IsBlocked t (normalize_username u) ip db
    → is_some ((get_active_block later u ip db).0) ≡ not (leb t later)
unfolding get_active_block IsBlocked
active_until t later u ip db (b, e, q) = rw e (ground (arith, q))

counts-new :
    (settings : Settings) (now : ℕ) (u ip : Text) (db : AuthStore)
    → counts settings now u ip (new_failure now u ip db) ≡ true
unfolding counts
counts-new settings now u ip db = rw (same_text_refl u) (rw (same_text_refl ip) (ground arith))

count-add_failure :
    (settings : Settings) (now : ℕ) (u ip : Text) (db : AuthStore)
    → count (counts settings now u ip) ((add_failure now u ip db).failures)
      ≡ count (counts settings now u ip) db.failures + 1
unfolding add_failure
count-add_failure settings now u ip db =
    count-insert (counts settings now u ip) (new_failure now u ip db) db.failures
    ∙ ap (λ b. count (counts settings now u ip) db.failures + bit b)
        (counts-new settings now u ip db)

block_after-is_some :
    (settings : Settings) (now : ℕ) (u ip : Text) (db : AuthStore)
    → is_some ((block_after settings now u ip db).0)
      ≡ leb settings.login_max_attempts (count (counts settings now u ip) db.failures)
unfolding block_after
block_after-is_some settings now u ip db = elim (Option-cases (find_block u ip db.blocks)) [
  | inl e ↦ rw e (ground arith)
  | inr (b, e) ↦ rw e (ground arith)
]

-- If the failed logins of a normalized name of at most 64 characters from one address that lie within
-- the last `login_block_minutes` reach `login_max_attempts` together with the new one, then after
-- `record_failed_login` that name and address are blocked at every instant before
-- `now + login_block_minutes` and at none from it on.
pub record_failed_login-blocks :
    (settings : Settings) (now later : ℕ) (username ip_address : Text) (db : AuthStore)
    → length (normalize_username username) ≤ 64
    → settings.login_max_attempts
      ≤ count (counts settings now (normalize_username username) ip_address) db.failures + 1
    → is_some (
        (get_active_block later username ip_address
          ((record_failed_login settings now username ip_address db).1)).0)
      ≡ not (leb (now + settings.login_block_minutes * minute_us) later)
unfolding record_failed_login
record_failed_login-blocks settings now later username ip db short many =
    rw (take-all 64 (normalize_username username) short) (
      active_until _ later username ip _ (
        after_trim _ _ ip _ (
          block_after-HoldsUntil settings now (normalize_username username) ip _
            (ground (arith, count-add_failure settings now (normalize_username username) ip db)))))

-- If `n` of the stored failed logins are of the name, normalized and cut to 64 characters, from the
-- address, and not older than `login_block_minutes`, then `record_failed_login` returns a block exactly
-- if `n + 1`, the new one included, is at least `login_max_attempts`.
pub record_failed_login-is_some :
    (settings : Settings) (now n : ℕ) (username ip_address : Text) (db : AuthStore)
    → Counted
        (IsRecentFailure settings now (take 64 (normalize_username username)) ip_address)
        n
        db.failures
    → is_some ((record_failed_login settings now username ip_address db).0)
      ≡ leb settings.login_max_attempts (n + 1)
unfolding record_failed_login
record_failed_login-is_some settings now n username ip db c =
    let name = take 64 (normalize_username username) in
    block_after-is_some settings now name ip (add_failure now name ip db)
    ∙ ap (leb settings.login_max_attempts) (
        count-add_failure settings now name ip db
        ∙ ap (λ k. k + 1) (count-counts settings now name ip c))

no_block :
    (u ip : Text) (bs : List LoginBlock)
    → find_block u ip (
        keep
          (λ b. not (same_text (LoginBlock.username b) u && same_text (LoginBlock.ip_address b) ip))
          bs)
      ≡ none
unfolding find_block
no_block u ip [] = refl
no_block u ip (b ∷ bs) = ground (arith, no_block u ip bs)

-- After `complete_login` the name and the address are not blocked at any instant.
pub complete_login-get_active_block :
    (now later : ℕ) (user : User) (ip_address username : Text) (db : AuthStore)
    → (get_active_block later username ip_address
        (complete_login now user ip_address username db)).0
      ≡ none
unfolding complete_login get_active_block
complete_login-get_active_block now later user ip username db =
    rw (no_block (normalize_username username) ip db.blocks) refl
