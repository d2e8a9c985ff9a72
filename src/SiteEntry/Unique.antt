-- ===== src/SiteEntry/Unique.antt =====
-- A site has one entry target at most.
use monitoring_maxval.Base.{
  ℕ, ◌+◌, ◌≤◌, Bool, true, false, ◌&&◌, Option, none, some, List, [], ◌∷◌, keep, if◌then◌else◌,
  ◌==◌, bit, ==-refl, ◌≡◌, refl, arith, sym, subst, inl, inr, Bool-cases, ==→eq,
}
use monitoring_maxval.Base.Result.{ok, ok_injective}
use monitoring_maxval.Base.Rows.{
  count, update, In, has_key, count-pos, count_mono, count_or, count-update, count-update_key,
  count-update_le,
}
use monitoring_maxval.Base.Sort.{sort, place, In-keep, In-sort}
use monitoring_maxval.Model.{Store, MonitorTarget}
use monitoring_maxval.SiteEntry.{
  is_entry_of, set_entry, with_targets, is_other_entry, previous_entry, without_previous,
  previous_id, set_site_entry, is_entry_kind, head?,
}

module _ {A : Type 0} where
  head?-In : {a : A} (xs : List A) → head? xs ≡ some a → In a xs
  head?-In [] e = cc
  head?-In (x ∷ xs) e = inl cc

  head?-place :
      (before : A → A → Bool) (b : A) (xs : List A) → (head? (place before b xs) ≡ none) → ⊥
  unfolding place
  head?-place before b [] e = cc
  head?-place before b (x ∷ xs) e = elim (Bool-cases (before x b)) [
    | inl q ↦ (let e' = rw q at e in cc)
    | inr q ↦ (let e' = rw q at e in cc)
  ]

  head?-sort-keep :
      (before : A → A → Bool) (p : A → Bool) (xs : List A)
      → head? (sort before (keep p xs)) ≡ none
      → count p xs ≡ 0
  unfolding sort count
  head?-sort-keep before p [] e = refl
  head?-sort-keep before p (x ∷ xs) e = elim (Bool-cases (p x)) [
    | inl q ↦ absurd (head?-place before x (sort before (keep p xs)) (rw q at e))
    | inr q ↦ rw q (omega (arith, head?-sort-keep before p xs (rw q at e)))
  ]

module _ {A : Type 0} (key : A → ℕ) where
  In-update_ne :
      (k : ℕ) (f : A → A) (a : A) (xs : List A)
      → (key a == k) ≡ false
      → In a xs
      → In a (update key k f xs)
  unfolding update
  In-update_ne k f a [] n i = i
  In-update_ne k f a (x ∷ xs) n (inl e) =
      inl (subst (λ y. (if key y == k then f y else y) ≡ a) (sym e) (rw n refl))
  In-update_ne k f a (x ∷ xs) n (inr i) = inr (In-update_ne k f a xs n i)

  -- The rows with the key of a row are that row, so they count as it does.
  count-key_and :
      (q : A → Bool) (a : A) (xs : List A)
      → In a xs
      → count (has_key key (key a)) xs ≤ 1
      → count (λ x. has_key key (key a) x && q x) xs ≤ bit (q a)
  unfolding count
  count-key_and q a [] i u = absurd i
  count-key_and q a (x ∷ xs) (inl e) u = ground (
    arith,
    e,
    ==-refl (key a),
    count_mono (λ x. has_key key (key a) x && q x) (has_key key (key a)) xs
        (λ y h. ground (arith, h)),
  )
  count-key_and q a (x ∷ xs) (inr i) u =
      ground
        (arith, count-pos (has_key key (key a)) a xs i (==-refl (key a)), count-key_and q a xs i)

-- Keys are not used twice, and a site has one entry target at most (the index of the table).
pub record EntriesAreUnique (targets : List MonitorTarget) : Type 0 where
  pub keys : (k : ℕ) → count (has_key MonitorTarget.id k) targets ≤ 1
  pub one_entry : (site_id : ℕ) → count (is_entry_of site_id) targets ≤ 1

clear-EntriesAreUnique :
    (k : ℕ) (targets : List MonitorTarget)
    → EntriesAreUnique targets
    → EntriesAreUnique (update MonitorTarget.id k (set_entry false) targets)
clear-EntriesAreUnique k targets h = record {
  keys = λ j. omega (
    arith,
    h.keys j,
    count-update_key MonitorTarget.id j k (set_entry false) targets (λ t. refl),
  );
  one_entry = λ s. omega (
    arith,
    h.one_entry s,
    count-update_le MonitorTarget.id (is_entry_of s) k (set_entry false) targets
        (λ t e. ground (arith, e)),
  );
}

-- The site has no entry but perhaps this target, so that the target may become its entry.
set-EntriesAreUnique :
    (target : MonitorTarget) (targets : List MonitorTarget)
    → EntriesAreUnique targets
    → In target targets
    → count (is_other_entry target) targets ≡ 0
    → EntriesAreUnique (update MonitorTarget.id target.id (set_entry true) targets)
      × (count
            (is_entry_of target.site_id)
            (update MonitorTarget.id target.id (set_entry true) targets)
          ≡ 1)
set-EntriesAreUnique target targets h i z = (
  record {
    keys = λ j. omega (
      arith,
      h.keys j,
      count-update_key MonitorTarget.id j target.id (set_entry true) targets (λ t. refl),
    );
    one_entry = λ s. elim (Bool-cases (target.site_id == s)) [
      | inl q ↦
          subst
            (λ k.
              count (is_entry_of k) (update MonitorTarget.id target.id (set_entry true) targets)
              ≤ 1)
            (==→eq target.site_id s q) (omega (arith, exactly))
      | inr q ↦ ground (arith, q, changes s, h.one_entry s)
    ];
  },
  exactly,
)
  where
    changes :
        (s : ℕ)
        → count (is_entry_of s) (update MonitorTarget.id target.id (set_entry true) targets)
            + bit (is_entry_of s target)
          ≡ count (is_entry_of s) targets + bit (is_entry_of s (set_entry true target))
    changes s =
        count-update MonitorTarget.id (is_entry_of s) target (set_entry true) targets i
          (h.keys target.id)

    only_target :
        count (is_entry_of target.site_id) targets ≤ bit (is_entry_of target.site_id target)
    only_target = omega (
      arith,
      z,
      count_or (is_entry_of target.site_id) (is_other_entry target)
          (λ t. has_key MonitorTarget.id target.id t && is_entry_of target.site_id t) targets
          (λ t e. elim (Bool-cases (t.id == target.id)) [
            | inl q ↦ inr (rw (q, e) refl)
            | inr q ↦ inl (rw (e, q) refl)
          ]),
      count-key_and MonitorTarget.id (is_entry_of target.site_id) target targets i
          (h.keys target.id),
    )

    exactly :
        count
          (is_entry_of target.site_id)
          (update MonitorTarget.id target.id (set_entry true) targets)
        ≡ 1
    exactly = ground (
      arith,
      ==-refl target.site_id,
      changes target.site_id,
      only_target,
      count-pos (is_entry_of target.site_id) target targets i,
    )

abbrev AfterSetting : MonitorTarget → Bool → Option ℕ × Store → Type 0
AfterSetting target enabled out =
    EntriesAreUnique out.1.targets
    × (bit enabled ≤ count (is_entry_of target.site_id) out.1.targets)

after_previous :
    (target : MonitorTarget) (db : Store) (found : Option MonitorTarget)
    → previous_entry target db ≡ found
    → EntriesAreUnique db.targets
    → In target db.targets
    → AfterSetting target true (
      previous_id found,
      with_targets
          (update MonitorTarget.id target.id (set_entry true) (without_previous found db.targets))
          db,
    )
unfolding previous_entry
after_previous target db none e h i =
    let done =
      set-EntriesAreUnique target db.targets h i
        (head?-sort-keep _ (is_other_entry target) db.targets e) in
    (done.0, omega (arith, done.1))
after_previous target db (some previous) e h i =
    let stands =
      In-keep (is_other_entry target) db.targets
        (In-sort _ previous (keep (is_other_entry target) db.targets) (head?-In _ e)) in
    let cleared = update MonitorTarget.id previous.id (set_entry false) db.targets in
    let done =
      set-EntriesAreUnique target cleared (clear-EntriesAreUnique previous.id db.targets h)
        (In-update_ne MonitorTarget.id previous.id (set_entry false) target db.targets
          (ground (arith, stands.1)) i)
        (ground (
          arith,
          stands.1,
          h.one_entry target.site_id,
          count-update MonitorTarget.id (is_other_entry target) previous (set_entry false)
              db.targets stands.0 (h.keys previous.id),
          count_mono (is_other_entry target) (is_entry_of target.site_id) db.targets
              (λ t e. ground (arith, e)),
        )) in
    (done.0, omega (arith, done.1))

-- `set_site_entry` keeps every site at one entry target at most, and where an entry was set, the site of
-- the target has exactly one.
pub set_site_entry-EntriesAreUnique :
    (target : MonitorTarget) (enabled : Bool) (db : Store) {out : Option ℕ × Store}
    → EntriesAreUnique db.targets
    → In target db.targets
    → set_site_entry target enabled db ≡ ok out
    → AfterSetting target enabled out
unfolding set_site_entry
set_site_entry-EntriesAreUnique target false db {out} h i e =
    subst (AfterSetting target false) (ok_injective e)
      (clear-EntriesAreUnique target.id db.targets h, omega arith)
set_site_entry-EntriesAreUnique target true db {out} h i e =
    elim (Bool-cases (is_entry_kind target.kind)) [
      | inl q ↦
          subst (AfterSetting target true) (ok_injective (rw q at e))
            (after_previous target db (previous_entry target db) refl h i)
      | inr q ↦ absurd {0} (let e' = rw q at e in cc)
    ]
