-- ===== src/Incidents/Slots.antt =====
-- A slot is what one open incident may be about: the availability of a target, an additional check or
-- its certificate, or an SNMP source.
use monitoring_maxval.Base.{ℕ, ◌≤◌, Bool, true, ◌≡◌, arith}
use monitoring_maxval.Base.Text.{String}
use monitoring_maxval.Base.Rows.{count, KeysAreUnique}
use monitoring_maxval.Model.{Store, Incident, SourceKind, is_active}
use monitoring_maxval.Incidents.Attempts.{Notified}
use monitoring_maxval.Incidents.Availability.{availability_of}
use monitoring_maxval.Incidents.Checks.{check_of_target}
use monitoring_maxval.Incidents.Sources.{source_of_target}

pub data Slot : Type 0 where
  availability : ℕ → Slot
  check : ℕ → ℕ → Slot
  check_tls : ℕ → ℕ → Slot
  source : ℕ → String → Slot

-- The open incidents of a slot.
abbrev pub in_slot : Slot → Incident → Bool
in_slot (Slot.availability t) = availability_of t
in_slot (Slot.check t c) = check_of_target t c SourceKind.check
in_slot (Slot.check_tls t c) = check_of_target t c SourceKind.check_tls
in_slot (Slot.source t key) = source_of_target t SourceKind.snmp key

-- The primary keys of the incidents are unique, and every slot has at most one open incident.
pub record IsWellFormed (db : Store) : Type 0 where
  pub keys : KeysAreUnique Incident.id db.next_incident db.incidents
  pub one_open : (s : Slot) → count (in_slot s) db.incidents ≤ 1

-- An incident is about what another is about, and is open only if that one is.
pub record IsAbout (i j : Incident) : Type 0 where
  pub key : i.id ≡ j.id
  pub target : i.target_id ≡ j.target_id
  pub check : i.check_id ≡ j.check_id
  pub kind : i.source_kind ≡ j.source_kind
  pub source : i.source_key ≡ j.source_key
  pub active : is_active i.status ≡ true → is_active j.status ≡ true

-- A change of an incident that does not change what it is about, and does not open it again.
abbrev pub StaysPut : (Incident → Notified) → Type 0
StaysPut act = (i : Incident) → IsAbout (act i).1 i

pub in_slot_of_IsAbout :
    (s : Slot) (i j : Incident) → IsAbout i j → in_slot s i ≡ true → in_slot s j ≡ true
in_slot_of_IsAbout (Slot.availability t) i j a h = ground (arith, a)
in_slot_of_IsAbout (Slot.check t c) i j a h = ground (arith, a)
in_slot_of_IsAbout (Slot.check_tls t c) i j a h = ground (arith, a)
in_slot_of_IsAbout (Slot.source t key) i j a h = ground (arith, a)
