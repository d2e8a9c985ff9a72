-- ===== src/Incidents/Effect.antt =====
-- What every method of `IncidentService` does to the incidents: nothing, one new incident, one changed
-- incident, or some resolved in silence.
use monitoring_maxval.Base.{
  ℕ, ◌+◌, Bool, true, none, List, [], map, ◌≡◌, refl, if◌then◌else◌, arith, Option,
}
use monitoring_maxval.Base.Text.{String}
use monitoring_maxval.Base.Rows.{count, insert, update, In}
use monitoring_maxval.Model.{Store, MonitorTarget, Incident, SourceKind, Severity}
use monitoring_maxval.Incidents.Notices.{source_opening_notification, check_tls_notification}
use monitoring_maxval.Incidents.Attempts.{Notified}
use monitoring_maxval.Incidents.Steps.{Outcome, to_events, fail_again, resolve}
use monitoring_maxval.Incidents.Checks.{resolve_with}
use monitoring_maxval.Incidents.Sources.{worsen}
use monitoring_maxval.Incidents.Tls.{worsen_tls}
use monitoring_maxval.Incidents.Slots.{Slot, in_slot}
use monitoring_maxval.Incidents.Accounts.{IsSound, IsPlain}

-- The incidents of the outcome, and the key of the next one.
pub record Leaves (rows : List Incident) (next : ℕ) (out : Outcome) : Type 0 where
  pub rows_lem : out.1.incidents ≡ rows
  pub next_lem : out.1.next_incident ≡ next

pub data Effect (db : Store) (out : Outcome) : Type 0 where
  unchanged : out.0 ≡ [] → Leaves db.incidents db.next_incident out → Effect db out
  added :
      (act : Incident → Notified) (row : Incident)
      → row.id ≡ db.next_incident
      → (row.open_notification_attempted_at ≡ none)
        × (row.recovery_notification_attempted_at ≡ none)
      → ((s : Slot) → in_slot s row ≡ true → count (in_slot s) db.incidents ≡ 0)
      → IsSound act row
      → out.0 ≡ to_events (act row).0
      → Leaves (insert (act row).1 db.incidents) (db.next_incident + 1) out
      → Effect db out
  changed :
      (act : Incident → Notified) (row : Incident)
      → In row db.incidents
      → IsSound act row
      → out.0 ≡ to_events (act row).0
      → Leaves (update Incident.id row.id (λ i. (act i).1) db.incidents) db.next_incident out
      → Effect db out
  resolved :
      (chosen : Incident → Bool) (now : ℕ) (message : String) (detach : Bool)
      → out.0 ≡ []
      → Leaves
          (map (λ i. if chosen i then resolve_with now message detach i else i) db.incidents)
          db.next_incident
          out
      → Effect db out

pub fail_again-IsPlain : (at : ℕ) (message : Option String) → IsPlain (fail_again at message)
fail_again-IsPlain at message = record {
  about = λ i. ground arith;
  recovery = λ i. refl;
  opening = λ i. refl;
}

pub resolve-IsPlain :
    (at : ℕ) (message : Incident → Option String)
    → IsPlain (λ i. record (resolve at i) { last_message = message i })
resolve-IsPlain at message = record {
  about = λ i. ground arith;
  recovery = λ i. refl;
  opening = λ i. refl;
}

pub id-IsPlain : IsPlain (λ i. i)
id-IsPlain = record { about = λ i. ground arith; recovery = λ i. refl; opening = λ i. refl }

module _ (db : Store) (target : MonitorTarget) where
  pub worsen-IsSound :
      (severity : Severity) (message : String) (at : ℕ) (notify : Bool) (i : Incident)
      → i.source_kind ≡ SourceKind.snmp
      → IsSound (worsen db target severity message at notify) i
  unfolding worsen source_opening_notification
  worsen-IsSound severity message at notify i k = record {
    stays = λ i. ground arith;
    accounts = record {
      recovery = λ j. ground arith;
      opening = λ j e. ground arith;
      announced = λ e. ground arith;
    };
  }

  pub worsen_tls-IsSound :
      (severity : Severity) (message : String) (at : ℕ) (i : Incident)
      → i.source_kind ≡ SourceKind.check_tls
      → IsSound (worsen_tls db target severity message at) i
  unfolding worsen_tls check_tls_notification
  worsen_tls-IsSound severity message at i k = record {
    stays = λ i. ground arith;
    accounts = record {
      recovery = λ j. ground arith;
      opening = λ j e. ground arith;
      announced = λ e. ground arith;
    };
  }
