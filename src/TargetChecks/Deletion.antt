-- ===== src/TargetChecks/Deletion.antt =====
-- The database that `target_check_delete` leaves.
use monitoring_maxval.Base.{
  ℕ, Bool, true, not, none, some, List, [], ◌∷◌, map, keep, ◌==◌, ◌≡◌, refl, arith, subst, subst₂,
  ◌||◌, ◌⊎◌, ap, inl, inr, false, if◌then◌else◌,
}
use monitoring_maxval.Base.Rows.{count, find, find-key, find-keep, In}
use monitoring_maxval.Model.{
  Store, MonitorTarget, TargetCheck, TargetCheckResult, Incident, IncidentStatus, SourceKind,
  is_active,
}
use monitoring_maxval.Incidents.Checks.{
  has_check, check_of_target, resolve_with, resolve_where, resolve_target_check_silently,
}
use monitoring_maxval.TargetChecks.Silent.{detached}
use monitoring_maxval.TargetChecks.Handlers.{
  Response, deleted_message, delete_check, commit_delete, target_check_delete,
}
use monitoring_maxval.TargetChecks.Answers.{of_done, change_check-Ends_found}

-- The incident as the administrator's deletion closes it.
pub record IsClosed (now : ℕ) (before after : Incident) : Type 0 where
  pub same_id : after.id ≡ before.id
  pub same_target : after.target_id ≡ before.target_id
  pub same_kind : after.source_kind ≡ before.source_kind
  pub same_opening : after.opened_at ≡ before.opened_at
  pub status : after.status ≡ IncidentStatus.resolved
  pub resolved_at : after.resolved_at ≡ some now
  pub check_id : after.check_id ≡ none

pub record IsGone (now target_id check_id : ℕ) (db db' : Store) : Type 0 where
  pub row : find TargetCheck.id check_id db'.checks ≡ none
  pub results : count (λ r. TargetCheckResult.check_id r == check_id) db'.check_results ≡ 0
  pub incidents : count (has_check check_id) db'.incidents ≡ 0
  pub closed :
      (i : Incident)
      → In i db.incidents
      → (check_of_target target_id check_id SourceKind.check i ≡ true)
        ⊎ (check_of_target target_id check_id SourceKind.check_tls i ≡ true)
      → (j : Incident) × In j db'.incidents × IsClosed now i j
  pub past :
      (i : Incident)
      → In i db.incidents
      → has_check check_id i ≡ true
      → is_active i.status ≡ false
      → In (record i { check_id = none }) db'.incidents
  pub others :
      (i : Incident) → In i db.incidents → has_check check_id i ≡ false → In i db'.incidents
  pub other_checks :
      (k : ℕ)
      → (check_id == k) ≡ false
      → find TargetCheck.id k db'.checks ≡ find TargetCheck.id k db.checks

find-keep-none :
    (k : ℕ) (cs : List TargetCheck) → find TargetCheck.id k (keep (λ c. not (c.id == k)) cs) ≡ none
unfolding find
find-keep-none k [] = refl
find-keep-none k (c ∷ cs) = ground (arith, find-keep-none k cs)

count-keep_none : {A : Type 0} (p : A → Bool) (xs : List A) → count p (keep (λ a. not (p a)) xs) ≡ 0
unfolding count
count-keep_none p [] = refl
count-keep_none p (x ∷ xs) = ground (arith, count-keep_none p xs)

count-detached : (k : ℕ) (is : List Incident) → count (has_check k) (map (detached k) is) ≡ 0
unfolding count
count-detached k [] = refl
count-detached k (i ∷ is) = ground (arith, count-detached k is)

In-map : {A : Type 0} (f : A → A) (a : A) (xs : List A) → In a xs → In (f a) (map f xs)
In-map f a [] i = absurd i
In-map f a (x ∷ xs) (inl e) = inl (ap f e)
In-map f a (x ∷ xs) (inr i) = inr (In-map f a xs i)

find-delete :
    (id k : ℕ) (cs : List TargetCheck)
    → (id == k) ≡ false
    → find TargetCheck.id k (keep (λ c. not (c.id == id)) cs) ≡ find TargetCheck.id k cs
find-delete id k cs n = find-keep TargetCheck.id k (λ c. not (c.id == id)) cs (λ c e. ground arith)

module _ (now : ℕ) (target : MonitorTarget) (check : TargetCheck) (db : Store) where
  abbrev chosen : Incident → Bool
  chosen i =
      check_of_target target.id check.id SourceKind.check i
      || check_of_target target.id check.id SourceKind.check_tls i

  -- What the deletion does to one incident.
  abbrev change : Incident → Incident
  change i =
      detached check.id (if chosen i then resolve_with now (deleted_message check) true i else i)

  change_In :
      (i : Incident)
      → In i db.incidents
      → In (change i) (commit_delete now target check db).incidents
  unfolding commit_delete delete_check resolve_target_check_silently resolve_where
  change_In i s = In-map (detached check.id) _ _ (
      In-map (λ j. if chosen j then resolve_with now (deleted_message check) true j else j) i
        db.incidents s)

  change-IsClosed : (i : Incident) → chosen i ≡ true → IsClosed now i (change i)
  change-IsClosed i e = rw e (record {
    same_id = refl;
    same_target = refl;
    same_kind = refl;
    same_opening = refl;
    status = refl;
    resolved_at = refl;
    check_id = refl;
  })

  change_past :
      (i : Incident)
      → has_check check.id i ≡ true
      → is_active i.status ≡ false
      → change i ≡ record i { check_id = none }
  change_past i h a = ground arith

  change_other : (i : Incident) → has_check check.id i ≡ false → change i ≡ i
  change_other i h = ground arith

  commit_delete-IsGone : IsGone now target.id check.id db (commit_delete now target check db)
  unfolding commit_delete delete_check resolve_target_check_silently resolve_where
  commit_delete-IsGone =
      let closed = resolve_target_check_silently now target check (deleted_message check) true db in
      record {
        row = find-keep-none check.id db.checks;
        results =
            count-keep_none (λ r. TargetCheckResult.check_id r == check.id) closed.check_results;
        incidents = count-detached check.id closed.incidents;
        closed = λ i s e. (change i, change_In i s, change-IsClosed i (ground arith));
        past = λ i s h a.
            subst (λ j. In j (commit_delete now target check db).incidents) (change_past i h a)
              (change_In i s);
        others = λ i s h.
            subst (λ j. In j (commit_delete now target check db).incidents) (change_other i h)
              (change_In i s);
        other_checks = λ k n. find-delete check.id k db.checks n;
      }

-- After a check was deleted, it is not found, and no result and no incident refers to it. Each incident
-- that was open about it or its certificate is there as resolved at this instant and detached, each
-- earlier one of it is only detached, each other incident is there as it was, and the other checks are
-- found as before.
pub target_check_delete-IsGone :
    (now target_id check_id : ℕ) (db : Store) {check : TargetCheck}
    → find TargetCheck.id check_id db.checks ≡ some check
    → (target_check_delete true now target_id check_id db).0 ≡ Response.done
    → IsGone now target_id check_id db (target_check_delete true now target_id check_id db).1
unfolding target_check_delete
target_check_delete-IsGone now target_id check_id db {check} e d =
    of_done
      (change_check-Ends_found (IsGone now target_id check_id db) (commit_delete now) target_id
        check_id db {check = check} e
        λ target f.
          subst₂ (λ t k. IsGone now t k db (commit_delete now target check db))
            (find-key MonitorTarget.id target_id db.targets {a = target} f)
            (find-key TargetCheck.id check_id db.checks {a = check} e)
            (commit_delete-IsGone now target check db))
      d
