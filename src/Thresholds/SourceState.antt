-- ===== src/Thresholds/SourceState.antt =====
-- `set_source_state` on the open incidents of one SNMP source: how many there are, and at which severity.
use monitoring_maxval.Base.{
  ℕ, Bool, true, false, ◌||◌, ==-refl, not, Option, none, some, List, if◌then◌else◌, is_some, bit,
  ◌&&◌, [], ◌∷◌, ◌≡◌, refl, arith, ◌∙◌, Bool-cases, inl, inr, ◌&&◌, ◌+◌, ◌∷◌,
}
use monitoring_maxval.Base.Text.{eq_iff, String}
use monitoring_maxval.Base.Rows.{
  count, newest, newest-none, newest-In, count-insert, count-update, count-pos,
}
use monitoring_maxval.Model.{Store, MonitorTarget, SourceKind, Severity, Incident}
use monitoring_maxval.Incidents.Attempts.{Notified, opening_notification, recovery_notification}
use monitoring_maxval.Incidents.Steps.{add_incident, change_incident}
use monitoring_maxval.Incidents.Slots.{Slot, in_slot, IsWellFormed}
use monitoring_maxval.Incidents.Sources.{
  set_source_state, source_step, worsen, source_row, closed_source, silent,
}

module _ (now : ℕ) (target : MonitorTarget) (key message : String) (at : ℕ) (notify : Bool)
    (db : Store) (h : IsWellFormed db) where
  abbrev here : Incident → Bool
  here = in_slot (Slot.source target.id key)

  opening_here : (i : Incident) → here (opening_notification now db target i).1 ≡ here i
  unfolding opening_notification
  opening_here i =
      elim (Bool-cases
        (target.notifications_suppressed || is_some i.open_notification_attempted_at)) [
          | inl q ↦ rw (q, opening_notification) refl
          | inr q ↦ rw (q, opening_notification) refl
        ]

  recovery_here : (i : Incident) → here (recovery_notification now db target i).1 ≡ here i
  unfolding recovery_notification
  recovery_here i =
      elim (Bool-cases (
        target.notifications_suppressed
        || not (is_some i.open_notification_attempted_at)
        || is_some i.recovery_notification_attempted_at)) [
          | inl q ↦ rw (q, recovery_notification) refl
          | inr q ↦ rw (q, recovery_notification) refl
        ]

  abbrev row : Severity → Incident
  row severity = source_row db target.id SourceKind.snmp key severity message at

  abbrev open_act : Incident → Notified
  open_act i = if notify then opening_notification now db target i else (none, i)

  abbrev close_act : Incident → Notified
  close_act i =
      if notify
      then recovery_notification now db target (closed_source at message i)
      else silent (closed_source at message) i

  row_here : (severity : Severity) → here (row severity) ≡ true
  row_here severity = rw (==-refl target.id) ((eq_iff key key).1 refl)

  opened_here : (severity : Severity) → here (open_act (row severity)).1 ≡ true
  opened_here severity = elim (Bool-cases notify) [
    | inl q ↦ rw q (opening_here (row severity) ∙ row_here severity)
    | inr q ↦ rw q (row_here severity)
  ]

  closed_not_here : (i : Incident) → here (closed_source at message i) ≡ false
  closed_not_here i = ground arith

  closed_here : (i : Incident) → here (close_act i).1 ≡ false
  closed_here i = elim (Bool-cases notify) [
    | inl q ↦ rw q (recovery_here (closed_source at message i) ∙ closed_not_here i)
    | inr q ↦ rw q (closed_not_here i)
  ]

  worsened_here :
      (severity : Severity) (i : Incident)
      → here (worsen db target severity message at notify i).1 ≡ here i
  unfolding worsen
  worsened_here severity i = ground arith

  -- The open incidents of the source after a step.
  source_step-count :
      (found : Option Incident) (severity : Option Severity)
      → newest Incident.id here db.incidents ≡ found
      → count here
          (source_step now target SourceKind.snmp key message at notify found severity
            db).1.incidents
        ≡ bit (is_some severity)
  unfolding source_step add_incident change_incident
  source_step-count none none e = newest-none Incident.id here db.incidents e
  source_step-count none (some severity) e = ground (
    arith,
    count-insert here (open_act (row severity)).1 db.incidents,
    newest-none Incident.id here db.incidents e,
    opened_here severity,
  )
  source_step-count (some i) none e =
      let (stands, is_here) = newest-In Incident.id here db.incidents {a = i} e in
      ground (
        arith,
        is_here,
        closed_here i,
        count-update Incident.id here i (λ j. (close_act j).1) db.incidents stands
            (h.keys.once i.id),
        h.one_open (Slot.source target.id key),
      )
  source_step-count (some i) (some severity) e =
      let (stands, is_here) = newest-In Incident.id here db.incidents {a = i} e in
      ground (
        arith,
        is_here,
        worsened_here severity i,
        count-update Incident.id here i (λ j. (worsen db target severity message at notify j).1)
            db.incidents stands (h.keys.once i.id),
        count-pos here i db.incidents stands is_here,
        h.one_open (Slot.source target.id key),
      )

  -- After `set_source_state` an SNMP source has one open incident if a severity is given, else none.
  pub set_source_state-count :
      (severity : Option Severity)
      → count here
          (set_source_state now target SourceKind.snmp key severity message at notify
            db).1.incidents
        ≡ bit (is_some severity)
  unfolding set_source_state
  set_source_state-count severity =
      source_step-count (newest Incident.id here db.incidents) severity refl

abbrev pub same_severity : Severity → Severity → Bool
same_severity Severity.warning Severity.warning = true
same_severity Severity.critical Severity.critical = true
same_severity _ _ = false

-- The incidents of a source that are open at a severity.
abbrev pub has_severity : Severity → Incident → Bool
has_severity s i = elim (i.severity) [ none ↦ false | some t ↦ same_severity t s ]

same_severity_refl : (s : Severity) → same_severity s s ≡ true
same_severity_refl Severity.warning = refl
same_severity_refl Severity.critical = refl

count_split :
    (p q : Incident → Bool) (is : List Incident)
    → count (λ i. p i && q i) is + count (λ i. p i && not (q i)) is ≡ count p is
unfolding count
count_split p q [] = refl
count_split p q (i ∷ is) = ground (arith, count_split p q is)

module _ (now : ℕ) (target : MonitorTarget) (key message : String) (at : ℕ) (notify : Bool)
    (db : Store) (h : IsWellFormed db) (severity : Severity) where
  abbrev of_source : Incident → Bool
  of_source = in_slot (Slot.source target.id key)

  abbrev at_severity : Incident → Bool
  at_severity i = of_source i && has_severity severity i

  abbrev opened : Incident → Notified
  opened i = if notify then opening_notification now db target i else (none, i)

  opening_severity :
      (i : Incident)
      → has_severity severity (opening_notification now db target i).1 ≡ has_severity severity i
  unfolding opening_notification
  opening_severity i =
      elim (Bool-cases
        (target.notifications_suppressed || is_some i.open_notification_attempted_at)) [
          | inl q ↦ rw (q, opening_notification) refl
          | inr q ↦ rw (q, opening_notification) refl
        ]

  opened_severity :
      (i : Incident) → has_severity severity i ≡ true → has_severity severity (opened i).1 ≡ true
  opened_severity i e = elim (Bool-cases notify) [
    | inl q ↦ rw q (opening_severity i ∙ e)
    | inr q ↦ rw q e
  ]

  worsened_severity :
      (i : Incident)
      → has_severity severity (worsen db target severity message at notify i).1 ≡ true
  unfolding worsen
  worsened_severity i = ground (arith, same_severity_refl severity)

  abbrev new_row : Incident
  new_row = source_row db target.id SourceKind.snmp key severity message at

  source_step-at_severity :
      (found : Option Incident)
      → newest Incident.id of_source db.incidents ≡ found
      → count at_severity
          (source_step now target SourceKind.snmp key message at notify found
            (some severity)
            db).1.incidents
        ≡ 1
  unfolding source_step add_incident change_incident
  source_step-at_severity none e = ground (
    arith,
    count-insert at_severity (opened new_row).1 db.incidents,
    count_split of_source (has_severity severity) db.incidents,
    newest-none Incident.id of_source db.incidents e,
    opened_here now target key message at notify db h severity,
    opened_severity new_row (same_severity_refl severity),
  )
  source_step-at_severity (some i) e =
      let (stands, is_here) = newest-In Incident.id of_source db.incidents {a = i} e in
      ground (
        arith,
        is_here,
        worsened_here now target key message at notify db h severity i,
        worsened_severity i,
        count-update Incident.id at_severity i
            (λ j. (worsen db target severity message at notify j).1) db.incidents stands
            (h.keys.once i.id),
        count_split of_source (has_severity severity) db.incidents,
        count-pos at_severity i db.incidents stands,
        count-pos (λ j. of_source j && not (has_severity severity j)) i db.incidents stands,
        h.one_open (Slot.source target.id key),
      )

  pub set_source_state-at_severity :
      count at_severity
        (set_source_state now target SourceKind.snmp key
          (some severity)
          message
          at
          notify
          db).1.incidents
      ≡ 1
  unfolding set_source_state
  set_source_state-at_severity =
      source_step-at_severity (newest Incident.id of_source db.incidents) refl
