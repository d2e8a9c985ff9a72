-- ===== src/TargetChecks/Kept.antt =====
-- What any sequence of requests to the handlers keeps.
use monitoring_maxval.Base.{
  leb, leb→le, ==→eq, bit, ℕ, ◌+◌, ◌≤◌, Bool, true, false, not, some, List, [], ◌∷◌, ◌==◌, ◌≡◌,
  refl, arith, subst, sym, Bool-cases, inl, inr, ap, ◌∙◌,
}
use monitoring_maxval.Base.Rows.{
  count, find, update, KeysAreUnique, count-insert, count-keep, count-update_eq,
  insert-KeysAreUnique, update-KeysAreUnique, keep-KeysAreUnique, find-update_ne, find-keep,
  find-insert,
}
use monitoring_maxval.Model.{Store, TargetCheck}
use monitoring_maxval.TargetChecks.Rules.{of_target, is_primary_of, has_check_capacity}
use monitoring_maxval.TargetChecks.Primary.{ChecksAreSound}
use monitoring_maxval.TargetChecks.SameCheck.{KeepsIdentity}
use monitoring_maxval.TargetChecks.Silent.{IncidentsAreSound}
use monitoring_maxval.TargetChecks.Form.{Services, CheckForm}
use monitoring_maxval.TargetChecks.Handlers.{
  Response, target_check_create, target_check_update, target_check_toggle, target_check_delete,
}
use monitoring_maxval.TargetChecks.Steps.{
  Step, target_check_create-Step, target_check_update-Step, target_check_toggle-Step,
  target_check_delete-Step,
}

-- A request with the instant at which it is handled.
pub data Request : Type 0 where
  create_check : CheckForm → ℕ → Request
  update_check : CheckForm → ℕ → ℕ → Request
  toggle_check : ℕ → ℕ → Request
  remove_check : ℕ → ℕ → Request

unfoldable pub handle : Services → ℕ → Request → Store → Response × Store
handle s now (Request.create_check form target_id) db = target_check_create s form true target_id db
handle s now (Request.update_check form target_id check_id) db =
    target_check_update s form true now target_id check_id db
handle s now (Request.toggle_check target_id check_id) db =
    target_check_toggle true now target_id check_id db
handle s now (Request.remove_check target_id check_id) db =
    target_check_delete true now target_id check_id db

unfoldable pub handle_all : Services → List (ℕ × Request) → Store → Store
handle_all s [] db = db
handle_all s ((now, r) ∷ rs) db = handle_all s rs (handle s now r db).1

handle-Step : (s : Services) (now : ℕ) (r : Request) (db : Store) → Step db (handle s now r db).1
unfolding handle
handle-Step s now (Request.create_check form target_id) db =
    target_check_create-Step s form true target_id db
handle-Step s now (Request.update_check form target_id check_id) db =
    target_check_update-Step s form true now target_id check_id db
handle-Step s now (Request.toggle_check target_id check_id) db =
    target_check_toggle-Step true now target_id check_id db
handle-Step s now (Request.remove_check target_id check_id) db =
    target_check_delete-Step true now target_id check_id db

-- What holds of the tables of checks and incidents: unique keys, at most one primary check for a
-- target, at most sixteen checks for a target, and sound incidents.
pub record IsSound (db : Store) : Type 0 where
  pub checks : ChecksAreSound db
  pub capacity : (target_id : ℕ) → count (of_target target_id) db.checks ≤ 16
  pub incidents : IncidentsAreSound db

count-update_same :
    (q : TargetCheck → Bool) (k : ℕ) {f : TargetCheck → TargetCheck} (db db' : Store)
    → ((c : TargetCheck) → q (f c) ≡ q c)
    → db'.checks ≡ update TargetCheck.id k f db.checks
    → count q db'.checks ≡ count q db.checks
count-update_same q k {f} db db' h e =
    ap (count q) e ∙ count-update_eq TargetCheck.id q k f db.checks h

same_of_target :
    (t : ℕ) {f : TargetCheck → TargetCheck}
    → KeepsIdentity f
    → (c : TargetCheck) → of_target t (f c) ≡ of_target t c
same_of_target t i c = ap (λ k. k == t) ((i c).target_lem)

same_primary_of :
    (t : ℕ) {f : TargetCheck → TargetCheck}
    → KeepsIdentity f
    → (c : TargetCheck) → is_primary_of t (f c) ≡ is_primary_of t c
same_primary_of t i c = rw ((i c).target_lem, (i c).primary_lem) refl

keys_of :
    (db db' : Store) {rows : List TargetCheck}
    → db'.checks ≡ rows
    → db'.next_check ≡ db.next_check
    → KeysAreUnique TargetCheck.id db.next_check rows
    → KeysAreUnique TargetCheck.id db'.next_check db'.checks
keys_of db db' e n h = rw (e, n) h

-- There is room for the new check of the target, and a new check of another target takes none.
room_for :
    (t u : ℕ) (db : Store)
    → has_check_capacity t db ≡ true
    → count (of_target u) db.checks ≤ 16
    → bit (t == u) + count (of_target u) db.checks ≤ 16
unfolding has_check_capacity
room_for t u db room h = elim (Bool-cases (t == u)) [
  | inr q ↦ rw q (omega (arith, h))
  | inl q ↦ rw q (
      leb→le (1 + count (of_target u) db.checks) 16 (
        subst (λ k. leb (1 + count (of_target k) db.checks) 16 ≡ true) (==→eq t u q)
          (ground (arith, room))))
]

Step-IsSound : {db db' : Store} → Step db db' → IsSound db → IsSound db'
unfolding has_check_capacity
Step-IsSound (Step.same e) h = subst IsSound (sym e) h
Step-IsSound {db} {db'} (Step.created target_id make i t p room e) h =
    subst IsSound (sym e) (record {
      checks = record {
        keys =
            insert-KeysAreUnique TargetCheck.id db.next_check (make db.next_check) db.checks
              (i db.next_check) h.checks.keys;
        one_primary = λ u. ground (
          arith,
          count-insert (is_primary_of u) (make db.next_check) db.checks,
          p db.next_check,
          h.checks.one_primary u,
        );
      };
      capacity = λ u. ground (
        arith,
        count-insert (of_target u) (make db.next_check) db.checks,
        t (db.next_check),
        room_for target_id u db room (h.capacity u),
      );
      incidents = record {
        formed = record { keys = h.incidents.formed.keys; one_open = h.incidents.formed.one_open };
        plain = h.incidents.plain;
      };
    })
Step-IsSound {db} {db'} (Step.changed check f e n i c x s) h = record {
  checks = record {
    keys = keys_of db db' c x (
        update-KeysAreUnique TargetCheck.id db.next_check check.id f db.checks (λ a. (i a).id_lem)
          h.checks.keys);
    one_primary = λ u. omega (
      arith,
      count-update_same (is_primary_of u) check.id db db' (same_primary_of u i) c,
      h.checks.one_primary u,
    );
  };
  capacity = λ u.
      omega (
        arith,
        count-update_same (of_target u) check.id db db' (same_of_target u i) c,
        h.capacity u,
      );
  incidents = s h.incidents;
}
Step-IsSound {db} {db'} (Step.deleted check e n c x s) h = record {
  checks = record {
    keys = keys_of db db' c x (
        keep-KeysAreUnique TargetCheck.id db.next_check (λ a. not (a.id == check.id)) db.checks
          h.checks.keys);
    one_primary = λ u. rw c (
        omega (
          arith,
          count-keep (is_primary_of u) (λ a. not (a.id == check.id)) db.checks,
          h.checks.one_primary u,
        ));
  };
  capacity = λ u. rw c (
      omega
        (arith, count-keep (of_target u) (λ a. not (a.id == check.id)) db.checks, h.capacity u));
  incidents = s h.incidents;
}

-- The requests of any sequence, each with its instant, keep the tables sound: the keys of checks and
-- incidents unique, one primary check for a target at most, sixteen checks for a target at most, and
-- one open incident for a slot at most.
pub handle_all-IsSound :
    (s : Services) (requests : List (ℕ × Request)) (db : Store)
    → IsSound db
    → IsSound (handle_all s requests db)
unfolding handle_all
handle_all-IsSound s [] db h = h
handle_all-IsSound s ((now, r) ∷ rs) db h =
    handle_all-IsSound s rs (handle s now r db).1 (Step-IsSound (handle-Step s now r db) h)

other_key :
    (k : ℕ) (db : Store) (check : TargetCheck) {c : TargetCheck}
    → find TargetCheck.id check.id db.checks ≡ some check
    → check.is_primary ≡ false
    → find TargetCheck.id k db.checks ≡ some c
    → c.is_primary ≡ true
    → (k == check.id) ≡ false
other_key k db check {c} e n f p = elim (Bool-cases (k == check.id)) [
  | inr q ↦ q
  | inl q ↦ (let same = ==→eq k check.id q in cc)
]

Step-primary :
    {db db' : Store} (k : ℕ) {c : TargetCheck}
    → Step db db'
    → find TargetCheck.id k db.checks ≡ some c
    → c.is_primary ≡ true
    → find TargetCheck.id k db'.checks ≡ some c
Step-primary k (Step.same e) f p = rw e f
Step-primary {db} k {c} (Step.created t make i o q room e) f p =
    rw e (find-insert TargetCheck.id k (make db.next_check) db.checks {b = c} f)
Step-primary {db} k (Step.changed check g e n i c x s) f p = rw c (
    find-update_ne TargetCheck.id k check.id g db.checks (λ a. (i a).id_lem)
      (other_key k db check e n f p)
    ∙ f)
Step-primary {db} k (Step.deleted check e n c x s) f p = rw c (
    find-keep TargetCheck.id k (λ a. not (a.id == check.id)) db.checks
      (λ a j. ground (arith, j, other_key k db check e n f p))
    ∙ f)

-- No sequence of requests changes or deletes a primary check.
pub handle_all-primary :
    (s : Services) (requests : List (ℕ × Request)) (db : Store) (k : ℕ) {c : TargetCheck}
    → find TargetCheck.id k db.checks ≡ some c
    → c.is_primary ≡ true
    → find TargetCheck.id k (handle_all s requests db).checks ≡ some c
unfolding handle_all
handle_all-primary s [] db k f p = f
handle_all-primary s ((now, r) ∷ rs) db k {c} f p =
    handle_all-primary s rs (handle s now r db).1 k {c = c}
      (Step-primary k {c = c} (handle-Step s now r db) f p) p
