-- ===== src/TargetChecks/Silent.antt =====
-- How the silent resolution of incidents and the deletion of a check leave the incidents.
use monitoring_maxval.Base.{
  is_some, ◌||◌, ◌⊎◌, ◌&&◌, ℕ, Bool, true, false, none, [], map, if◌then◌else◌, ◌≡◌, refl, arith,
}
use monitoring_maxval.Base.Rows.{count-map_or, count, count-map_le, count-map_eq, has_key}
use monitoring_maxval.Model.{Store, MonitorTarget, TargetCheck, Incident, SourceKind, same_kind}
use monitoring_maxval.Incidents.Effect.{Effect}
use monitoring_maxval.Incidents.Slots.{IsWellFormed, Slot, in_slot}
use monitoring_maxval.Incidents.Invariant.{Effect-IsWellFormed}
use monitoring_maxval.Incidents.Checks.{
  check_of_target, resolve_with, resolve_where, resolve_target_check_silently,
  resolve_check_tls_silently, has_check,
}
use monitoring_maxval.Base.Text.{String}
use monitoring_maxval.TargetChecks.Handlers.{delete_check}

-- An incident about the availability of a target that refers to one of its checks.
abbrev pub has_availability_check : Incident → Bool
has_availability_check i = same_kind i.source_kind SourceKind.availability && is_some i.check_id

pub record IncidentsAreSound (db : Store) : Type 0 where
  pub formed : IsWellFormed db
  pub plain : count has_availability_check db.incidents ≡ 0

-- The checks stay as they are, and the incidents sound.
pub record IsSilent (db db' : Store) : Type 0 where
  pub checks_lem : db'.checks ≡ db.checks
  pub next_lem : db'.next_check ≡ db.next_check
  pub incidents_lem : IncidentsAreSound db → IncidentsAreSound db'

pub IsSilent-refl : {db : Store} → IsSilent db db
IsSilent-refl = record { checks_lem = refl; next_lem = refl; incidents_lem = λ h. h }

has_availability_check-resolved :
    (chosen : Incident → Bool) (now : ℕ) (message : String) (detach : Bool) (i : Incident)
    → has_availability_check (if chosen i then resolve_with now message detach i else i) ≡ true
    → has_availability_check i ≡ true
has_availability_check-resolved chosen now message detach i e = ground arith

resolve_where-IsSilent :
    (chosen : Incident → Bool) (now : ℕ) (message : String) (detach : Bool) (db : Store)
    → IsSilent db (resolve_where chosen (resolve_with now message detach) db)
unfolding resolve_where
resolve_where-IsSilent chosen now message detach db = record {
  checks_lem = refl;
  next_lem = refl;
  incidents_lem = λ h. record {
    formed =
        Effect-IsWellFormed {out = ([], resolve_where chosen (resolve_with now message detach) db)}
          (Effect.resolved chosen now message detach refl
            (record { rows_lem = refl; next_lem = refl }))
          h.formed;
    plain = omega (
      arith,
      h.plain,
      count-map_le has_availability_check
          (λ i. if chosen i then resolve_with now message detach i else i) db.incidents
          (has_availability_check-resolved chosen now message detach),
    );
  };
}

pub resolve_check_tls_silently-IsSilent :
    (now : ℕ) (target : MonitorTarget) (check : TargetCheck) (message : String) (db : Store)
    → IsSilent db (resolve_check_tls_silently now target check message db)
unfolding resolve_check_tls_silently
resolve_check_tls_silently-IsSilent now target check message db =
    resolve_where-IsSilent (check_of_target target.id check.id SourceKind.check_tls) now message
      false db

pub resolve_target_check_silently-IsSilent :
    (now : ℕ) (target : MonitorTarget) (check : TargetCheck) (message : String) (detach : Bool)
    (db : Store)
    → IsSilent db (resolve_target_check_silently now target check message detach db)
unfolding resolve_target_check_silently
resolve_target_check_silently-IsSilent now target check message detach db =
    resolve_where-IsSilent
      (λ i.
        check_of_target target.id check.id SourceKind.check i
        || check_of_target target.id check.id SourceKind.check_tls i)
      now message detach db

abbrev pub detached : ℕ → Incident → Incident
detached k i = if has_check k i then record i { check_id = none } else i

detached-in_slot :
    (k : ℕ) (s : Slot) (i : Incident)
    → in_slot s (detached k i) ≡ true
    → (in_slot s i ≡ true) ⊎ (has_availability_check i ≡ true)
detached-in_slot k (Slot.availability t) i e = ground arith
detached-in_slot k (Slot.check t c) i e = ground arith
detached-in_slot k (Slot.check_tls t c) i e = ground arith
detached-in_slot k (Slot.source t key) i e = ground arith

pub delete_check-IncidentsAreSound :
    (check : TargetCheck) (db : Store)
    → IncidentsAreSound db
    → IncidentsAreSound (delete_check check db)
unfolding delete_check
delete_check-IncidentsAreSound check db h = record {
  formed = record {
    keys = record {
      once = λ k. omega (arith, kept k, h.formed.keys.once k);
      below = λ k le. omega (arith, kept k, h.formed.keys.below k le);
    };
    one_open = λ s. omega (
      arith,
      count-map_or (in_slot s) (in_slot s) has_availability_check (detached check.id) db.incidents
          (detached-in_slot check.id s),
      h.formed.one_open s,
      h.plain,
    );
  };
  plain = omega (
    arith,
    count-map_le has_availability_check (detached check.id) db.incidents (λ i. ground arith),
    h.plain,
  );
}
  where
    kept :
        (k : ℕ)
        → count (has_key Incident.id k) (map (detached check.id) db.incidents)
          ≡ count (has_key Incident.id k) db.incidents
    kept k =
        count-map_eq (has_key Incident.id k) (detached check.id) db.incidents (λ i. ground arith)
