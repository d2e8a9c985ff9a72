-- ===== src/TargetChecks/Synced.antt =====
-- The columns of the primary check after `ensure_primary_check`, and the other checks.
use monitoring_maxval.Base.{
  ℕ, ◌≤◌, Bool, true, false, not, none, List, [], ◌∷◌, keep, ◌==◌, ◌≡◌, refl, sym, ap, ◌∙◌, subst,
  arith, Bool-cases, Option-cases, inl, inr, ◌⊎◌,
}
use monitoring_maxval.Base.Rows.{
  count, first, insert, update, In, has_key, count-pos, first-none, first-In,
}
use monitoring_maxval.Model.{Store, MonitorTarget, TargetCheck}
use monitoring_maxval.TargetChecks.Rules.{
  is_primary_of, primary_check_name, sync_primary_check, ensure_primary_check, new_primary,
  add_check, with_checks,
}
use monitoring_maxval.TargetChecks.Primary.{
  ChecksAreSound, HasOnePrimary, ensure_primary_check-HasOnePrimary,
}

-- The lookups and updates of a table by keys that are not repeated.
module _ {A : Type 0} (key : A → ℕ) where
  equal_In :
      (a b : A) (xs : List A)
      → In a xs
      → In b xs
      → (key a == key b) ≡ true
      → count (has_key key (key b)) xs ≤ 1
      → a ≡ b
  unfolding count
  equal_In a b [] i j e u = absurd i
  equal_In a b (x ∷ xs) (inl p) (inl q) e u = sym p ∙ q
  equal_In a b (x ∷ xs) (inl p) (inr j) e u = ground (arith, count-pos (has_key key (key b)) b xs j)
  equal_In a b (x ∷ xs) (inr i) (inl q) e u = ground (arith, count-pos (has_key key (key b)) a xs i)
  equal_In a b (x ∷ xs) (inr i) (inr j) e u = equal_In a b xs i j e (ground arith)

  two_In :
      (p : A → Bool) (a b : A) (xs : List A)
      → In a xs
      → In b xs
      → p a ≡ true
      → p b ≡ true
      → (key a == key b) ≡ false
      → 2 ≤ count p xs
  unfolding count
  two_In p a b [] i j e f n = absurd i
  two_In p a b (x ∷ xs) (inl q) (inl r) e f n = ground arith
  two_In p a b (x ∷ xs) (inl q) (inr j) e f n = ground (arith, count-pos p b xs j f)
  two_In p a b (x ∷ xs) (inr i) (inl r) e f n = ground (arith, count-pos p a xs i e)
  two_In p a b (x ∷ xs) (inr i) (inr j) e f n = ground (arith, two_In p a b xs i j e f n)

  In-update :
      (k : ℕ) (f : A → A) (c : A) (xs : List A)
      → In c (update key k f xs)
      → (x : A) × In x xs × (((key x == k) ≡ true) × (f x ≡ c) ⊎ ((key x == k) ≡ false) × (x ≡ c))
  unfolding update
  In-update k f c [] i = absurd i
  In-update k f c (x ∷ xs) (inl q) = elim (Bool-cases (key x == k)) [
    | inl e ↦ (x, inl refl, inl (e, rw e at q))
    | inr e ↦ (x, inl refl, inr (e, rw e at q))
  ]
  In-update k f c (x ∷ xs) (inr i) = let (y, j, r) = In-update k f c xs i in (y, inr j, r)

  update_same :
      (k : ℕ) (f : A → A) (xs : List A)
      → ((a : A) → In a xs → (key a == k) ≡ true → f a ≡ a)
      → update key k f xs ≡ xs
  unfolding update
  update_same k f [] h = refl
  update_same k f (x ∷ xs) h =
      rw (update_same k f xs (λ a i. h a (inr i))) (elim (Bool-cases (key x == k)) [
        | inl e ↦ rw e (ap (λ y. y ∷ xs) (h x (inl refl) e))
        | inr e ↦ rw e refl
      ])

  keep-update :
      (q : A → Bool) (k : ℕ) (f : A → A) (xs : List A)
      → ((a : A) → In a xs → (key a == k) ≡ true → (q a ≡ false) × (q (f a) ≡ false))
      → keep q (update key k f xs) ≡ keep q xs
  unfolding update
  keep-update q k f [] h = refl
  keep-update q k f (x ∷ xs) h =
      ground (arith, h x (inl refl), keep-update q k f xs (λ a i. h a (inr i)))

In-insert : {A : Type 0} (c a : A) (xs : List A) → In c (insert a xs) → In c xs ⊎ (a ≡ c)
unfolding insert
In-insert c a [] (inl e) = inr e
In-insert c a [] (inr i) = absurd i
In-insert c a (x ∷ xs) (inl e) = inl (inl e)
In-insert c a (x ∷ xs) (inr i) = elim (In-insert c a xs i) [ inl j ↦ inl (inr j) | inr e ↦ inr e ]

keep-insert :
    {A : Type 0} (q : A → Bool) (a : A) (xs : List A)
    → q a ≡ false
    → keep q (insert a xs) ≡ keep q xs
unfolding insert
keep-insert q a [] e = ground arith
keep-insert q a (x ∷ xs) e = ground (arith, keep-insert q a xs e)

-- The columns that the check has from its target, and the others that a primary check leaves empty.
pub record Follows (target : MonitorTarget) (c : TargetCheck) : Type 0 where
  pub name : c.name ≡ primary_check_name
  pub checker_type : c.checker_type ≡ target.checker_type
  pub address_override : c.address_override ≡ none
  pub port : c.port ≡ target.port
  pub path : c.path ≡ "/"
  pub timeout_seconds : c.timeout_seconds ≡ none
  pub retries : c.retries ≡ 0
  pub enabled : c.enabled ≡ true
  pub display_order : c.display_order ≡ 0

-- The checks but for the primary check of the target.
abbrev pub others : ℕ → Store → List TargetCheck
others target_id db = keep (λ c. not (is_primary_of target_id c)) db.checks

pub record IsInStep (target : MonitorTarget) (db db' : Store) : Type 0 where
  pub one_primary : HasOnePrimary target db db'
  pub follows :
      (c : TargetCheck) → In c db'.checks → is_primary_of target.id c ≡ true → Follows target c
  pub others_stay : others target.id db' ≡ others target.id db
  pub again : ensure_primary_check target db' ≡ db'

module _ (target : MonitorTarget) (db : Store) (h : ChecksAreSound db) where
  abbrev IsSynced : TargetCheck → Type 0
  IsSynced c = sync_primary_check target c ≡ c

  IsSynced-Follows : (c : TargetCheck) → IsSynced c → Follows target c
  unfolding sync_primary_check
  IsSynced-Follows c e = record {
    name = sym (ap (λ d. TargetCheck.name d) e);
    checker_type = sym (ap (λ d. TargetCheck.checker_type d) e);
    address_override = sym (ap (λ d. TargetCheck.address_override d) e);
    port = sym (ap (λ d. TargetCheck.port d) e);
    path = sym (ap (λ d. TargetCheck.path d) e);
    timeout_seconds = sym (ap (λ d. TargetCheck.timeout_seconds d) e);
    retries = sym (ap (λ d. TargetCheck.retries d) e);
    enabled = sym (ap (λ d. TargetCheck.enabled d) e);
    display_order = sym (ap (λ d. TargetCheck.display_order d) e);
  }

  -- The two branches.
  AllSynced : Store → Type 0
  AllSynced db' =
      (c : TargetCheck) → In c db'.checks → is_primary_of target.id c ≡ true → IsSynced c

  updated-AllSynced :
      (primary : TargetCheck)
      → In primary db.checks
      → is_primary_of target.id primary ≡ true
      → AllSynced
          (with_checks (update TargetCheck.id primary.id (sync_primary_check target) db.checks) db)
  unfolding sync_primary_check AllSynced
  updated-AllSynced primary i p c j q =
      let (x, k, r) =
        In-update TargetCheck.id primary.id (sync_primary_check target) c db.checks j in
      elim r [
        | inl (_, e) ↦ subst IsSynced e refl
        | inr (n, e) ↦
            absurd (two_found x k n (subst (λ d. is_primary_of target.id d ≡ true) (sym e) q))
      ]
    where
      two_found :
          (x : TargetCheck)
          → In x db.checks
          → (x.id == primary.id) ≡ false
          → is_primary_of target.id x ≡ true
          → ⊥
      two_found x k n q = omega (
        arith,
        two_In TargetCheck.id (is_primary_of target.id) x primary db.checks k i q p n,
        h.one_primary target.id,
      )

  inserted-AllSynced :
      count (is_primary_of target.id) db.checks ≡ 0 → AllSynced (add_check (new_primary target) db)
  unfolding sync_primary_check AllSynced
  inserted-AllSynced z c j q = elim (In-insert c (new_primary target db.next_check) db.checks j) [
    | inl i ↦ absurd (omega (arith, count-pos (is_primary_of target.id) c db.checks i q, z))
    | inr e ↦ subst IsSynced e refl
  ]

  others-update :
      (primary : TargetCheck)
      → In primary db.checks
      → is_primary_of target.id primary ≡ true
      → others target.id
          (with_checks (update TargetCheck.id primary.id (sync_primary_check target) db.checks) db)
        ≡ others target.id db
  unfolding sync_primary_check
  others-update primary i p =
      keep-update TargetCheck.id (λ c. not (is_primary_of target.id c)) primary.id
        (sync_primary_check target) db.checks
        λ a j e.
          let same = equal_In TargetCheck.id a primary db.checks j i e (h.keys.once primary.id) in
          let q = subst (λ d. is_primary_of target.id d ≡ true) (sym same) p in
          (ground arith, ground arith)

  ensured-AllSynced : AllSynced (ensure_primary_check target db)
  unfolding ensure_primary_check
  ensured-AllSynced = elim (Option-cases (first (is_primary_of target.id) db.checks)) [
    | inl e ↦
        rw (e, ensure_primary_check)
          (inserted-AllSynced (first-none (is_primary_of target.id) db.checks e))
    | inr (primary, e) ↦
        let found = first-In (is_primary_of target.id) db.checks {a = primary} e in
        rw (e, ensure_primary_check) (updated-AllSynced primary found.0 found.1)
  ]

  ensured-others : others target.id (ensure_primary_check target db) ≡ others target.id db
  unfolding ensure_primary_check
  ensured-others = elim (Option-cases (first (is_primary_of target.id) db.checks)) [
    | inl e ↦
        rw (e, ensure_primary_check)
          (keep-insert (λ c. not (is_primary_of target.id c)) (new_primary target db.next_check)
            db.checks (ground arith))
    | inr (primary, e) ↦
        let found = first-In (is_primary_of target.id) db.checks {a = primary} e in
        rw (e, ensure_primary_check) (others-update primary found.0 found.1)
  ]

-- Where the primary check of the target is in step already, nothing changes.
synced_stays :
    (target : MonitorTarget) (db : Store)
    → ChecksAreSound db
    → count (is_primary_of target.id) db.checks ≡ 1
    → ((c : TargetCheck)
        → In c db.checks
        → is_primary_of target.id c ≡ true
        → sync_primary_check target c ≡ c)
    → ensure_primary_check target db ≡ db
unfolding ensure_primary_check
synced_stays target db h one synced =
    elim (Option-cases (first (is_primary_of target.id) db.checks)) [
      | inl e ↦ absurd (omega (arith, first-none (is_primary_of target.id) db.checks e, one))
      | inr (c, e) ↦
          let found = first-In (is_primary_of target.id) db.checks {a = c} e in
          rw (e, ensure_primary_check)
            (ap (λ cs. with_checks cs db)
              (update_same TargetCheck.id c.id (sync_primary_check target) db.checks λ a i q.
                subst (λ d. sync_primary_check target d ≡ d)
                  (sym (equal_In TargetCheck.id a c db.checks i found.0 q (h.keys.once c.id)))
                  (synced c found.0 found.1)))
    ]

-- Where the keys of the checks are unique and no target has two primary checks, both still hold after
-- `ensure_primary_check`. Then the target has exactly one primary check, with the name, checker, port
-- and other columns that a primary check of this target has; the other targets have as many as before,
-- and all checks but that one are the same rows in the same order. A second call changes nothing.
pub ensure_primary_check-IsInStep :
    (target : MonitorTarget) (db : Store)
    → ChecksAreSound db
    → IsInStep target db (ensure_primary_check target db)
unfolding AllSynced
ensure_primary_check-IsInStep target db h =
    let db' = ensure_primary_check target db in
    let one = ensure_primary_check-HasOnePrimary target db h in
    let synced = ensured-AllSynced target db h in
    record {
      one_primary = one;
      follows = λ c i q. IsSynced-Follows target db h c (synced c i q);
      others_stay = ensured-others target db h;
      again = synced_stays target db' one.sound (ground (arith, one.counts target.id)) synced;
    }
