-- ===== src/Incidents/Free.antt =====
-- A new incident stands in no slot but the one that was found free.
use monitoring_maxval.Base.{ℕ, true, none, ◌≡◌, subst, subst₂, arith}
use monitoring_maxval.Base.Text.{String, eq_iff}
use monitoring_maxval.Base.Rows.{count, newest, newest-none}
use monitoring_maxval.Model.{Store, CheckResult, TargetCheckResult, Incident, SourceKind, Severity}
use monitoring_maxval.Incidents.Availability.{availability_of, availability_row}
use monitoring_maxval.Incidents.Checks.{check_of_target, check_row}
use monitoring_maxval.Incidents.Sources.{source_of_target, source_row}
use monitoring_maxval.Incidents.Tls.{tls_row}
use monitoring_maxval.Incidents.Slots.{Slot, in_slot}

module _ (db : Store) (t : ℕ) where
  pub availability_free :
      (result : CheckResult)
      → newest Incident.id (availability_of t) db.incidents ≡ none
      → (s : Slot) → in_slot s (availability_row db t result) ≡ true
      → count (in_slot s) db.incidents ≡ 0
  availability_free result free (Slot.availability t') h =
      let e : t ≡ t' = ground arith in
      subst (λ k. count (availability_of k) db.incidents ≡ 0) e (newest-none Incident.id _ _ free)
  availability_free result free (Slot.check t' c) h = ground arith
  availability_free result free (Slot.check_tls t' c) h = ground arith
  availability_free result free (Slot.source t' key) h = ground arith

  pub check_free :
      (c : ℕ) (result : TargetCheckResult) (message : String)
      → newest Incident.id (check_of_target t c SourceKind.check) db.incidents ≡ none
      → (s : Slot) → in_slot s (check_row db t c result message) ≡ true
      → count (in_slot s) db.incidents ≡ 0
  check_free c result message free (Slot.check t' c') h =
      let e : t ≡ t' = ground arith in
      let e' : c ≡ c' = ground arith in
      subst₂ (λ j k. count (check_of_target j k SourceKind.check) db.incidents ≡ 0) e e'
        (newest-none Incident.id _ _ free)
  check_free c result message free (Slot.availability t') h = ground arith
  check_free c result message free (Slot.check_tls t' c') h = ground arith
  check_free c result message free (Slot.source t' key) h = ground arith

  pub tls_free :
      (c : ℕ) (severity : Severity) (message : String) (at : ℕ)
      → newest Incident.id (check_of_target t c SourceKind.check_tls) db.incidents ≡ none
      → (s : Slot) → in_slot s (tls_row db t c severity message at) ≡ true
      → count (in_slot s) db.incidents ≡ 0
  tls_free c severity message at free (Slot.check_tls t' c') h =
      let e : t ≡ t' = ground arith in
      let e' : c ≡ c' = ground arith in
      subst₂ (λ j k. count (check_of_target j k SourceKind.check_tls) db.incidents ≡ 0) e e'
        (newest-none Incident.id _ _ free)
  tls_free c severity message at free (Slot.availability t') h = ground arith
  tls_free c severity message at free (Slot.check t' c') h = ground arith
  tls_free c severity message at free (Slot.source t' key) h = ground arith

  pub source_free :
      (key : String) (severity : Severity) (message : String) (at : ℕ)
      → newest Incident.id (source_of_target t SourceKind.snmp key) db.incidents ≡ none
      → (s : Slot) → in_slot s (source_row db t SourceKind.snmp key severity message at) ≡ true
      → count (in_slot s) db.incidents ≡ 0
  source_free key severity message at free (Slot.source t' key') h =
      let e : t ≡ t' = ground arith in
      let e' : key ≡ key' = ground (arith, eq_iff key key') in
      subst₂ (λ j k. count (source_of_target j SourceKind.snmp k) db.incidents ≡ 0) e e'
        (newest-none Incident.id _ _ free)
  source_free key severity message at free (Slot.availability t') h = ground arith
  source_free key severity message at free (Slot.check t' c') h = ground arith
  source_free key severity message at free (Slot.check_tls t' c') h = ground arith
