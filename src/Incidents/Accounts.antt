-- ===== src/Incidents/Accounts.antt =====
-- The notifications that a change of an incident sends, against the marks of attempts that it sets.
use monitoring_maxval.Base.{
  ℕ, ◌+◌, Bool, true, ◌&&◌, not, none, List, [], ◌∷◌, ◌≡◌, arith, bit, is_some, ◌==◌, false,
}
use monitoring_maxval.Model.{Store, MonitorTarget, Incident, SourceKind}
use monitoring_maxval.Incidents.Notices.{IncidentNotification, EventKind}
use monitoring_maxval.Incidents.Attempts.{
  Notified, opening_notification, recovery_notification, opening_notice, recovery_notice,
}
use monitoring_maxval.Incidents.Steps.{to_events}
use monitoring_maxval.Incidents.Slots.{StaysPut, IsAbout}

abbrev pub is_recovery : EventKind → Bool
is_recovery EventKind.recovered = true
is_recovery EventKind.opened = false

-- The recovery notifications of an incident among those sent.
abbrev pub recoveries : ℕ → List IncidentNotification → ℕ
recoveries j [] = 0
recoveries j (e ∷ events) = bit ((e.incident_id == j) && is_recovery e.kind) + recoveries j events

-- The opening notifications, escalations among them.
abbrev pub openings : ℕ → List IncidentNotification → ℕ
openings j [] = 0
openings j (e ∷ events) = bit ((e.incident_id == j) && not (is_recovery e.kind)) + openings j events

-- The incident is this one, and the attempt of a recovery notification is remembered.
abbrev pub has_recovery : ℕ → Incident → Bool
has_recovery j i = (i.id == j) && is_some i.recovery_notification_attempted_at

abbrev pub has_opening : ℕ → Incident → Bool
has_opening j i = (i.id == j) && is_some i.open_notification_attempted_at

-- A recovery was attempted, and no opening before it.
abbrev pub is_unannounced : Incident → Bool
is_unannounced i =
    is_some i.recovery_notification_attempted_at && not (is_some i.open_notification_attempted_at)

-- The incidents of availability and of additional checks never escalate.
abbrev pub is_plain : SourceKind → Bool
is_plain SourceKind.availability = true
is_plain SourceKind.check = true
is_plain _ = false

abbrev pub can_escalate : ℕ → Incident → Bool
can_escalate j i = (i.id == j) && not (is_plain i.source_kind)

-- A change of an incident sends a recovery notification exactly if it sets that mark, never without
-- an opening before, and it sends an opening notification of an incident that does not escalate
-- exactly if it sets that mark.
pub record Accounts (act : Incident → Notified) (i : Incident) : Type 0 where
  pub recovery :
      (j : ℕ)
      → recoveries j (to_events (act i).0) + bit (has_recovery j i) ≡ bit (has_recovery j (act i).1)
  pub opening :
      (j : ℕ)
      → can_escalate j i ≡ false
      → openings j (to_events (act i).0) + bit (has_opening j i) ≡ bit (has_opening j (act i).1)
  pub announced : is_unannounced (act i).1 ≡ true → is_unannounced i ≡ true

-- What holds of the change that the service makes to an incident.
pub record IsSound (act : Incident → Notified) (row : Incident) : Type 0 where
  pub stays : StaysPut act
  pub accounts : Accounts act row

-- A change of the other columns.
pub record IsPlain (f : Incident → Incident) : Type 0 where
  pub about : (i : Incident) → IsAbout (f i) i
  pub recovery :
      (i : Incident)
      → (f i).recovery_notification_attempted_at ≡ i.recovery_notification_attempted_at
  pub opening :
      (i : Incident) → (f i).open_notification_attempted_at ≡ i.open_notification_attempted_at

module _ (now : ℕ) (db : Store) (target : MonitorTarget) where
  opening_notice-counts :
      (j : ℕ) (i : Incident) (k : SourceKind)
      → (recoveries j (opening_notice db target i k ∷ []) ≡ 0)
        × (openings j (opening_notice db target i k ∷ []) ≡ bit (i.id == j))
  unfolding opening_notice
  opening_notice-counts j i SourceKind.availability = ground arith
  opening_notice-counts j i SourceKind.check = ground arith
  opening_notice-counts j i SourceKind.check_tls = ground arith
  opening_notice-counts j i SourceKind.snmp = ground arith

  recovery_notice-counts :
      (j : ℕ) (i : Incident) (k : SourceKind)
      → (openings j (recovery_notice db target i k ∷ []) ≡ 0)
        × (recoveries j (recovery_notice db target i k ∷ []) ≡ bit (i.id == j))
  unfolding recovery_notice
  recovery_notice-counts j i SourceKind.availability = ground arith
  recovery_notice-counts j i SourceKind.check = ground arith
  recovery_notice-counts j i SourceKind.check_tls = ground arith
  recovery_notice-counts j i SourceKind.snmp = ground arith

  module _ (f : Incident → Incident) (plain : IsPlain f) where
    pub opening-IsSound : (i : Incident) → IsSound (λ i. opening_notification now db target (f i)) i
    unfolding opening_notification
    opening-IsSound i = record {
      stays = λ i. ground (arith, plain.about i);
      accounts = record {
        recovery = λ j. ground (
          arith,
          plain.about i,
          plain.recovery i,
          opening_notice-counts j (f i) ((f i).source_kind),
        );
        opening = λ j e. ground (
          arith,
          plain.about i,
          plain.opening i,
          opening_notice-counts j (f i) ((f i).source_kind),
        );
        announced = λ e. ground (arith, plain.recovery i, plain.opening i);
      };
    }

    pub recovery-IsSound :
        (i : Incident) → IsSound (λ i. recovery_notification now db target (f i)) i
    unfolding recovery_notification
    recovery-IsSound i = record {
      stays = λ i. ground (arith, plain.about i);
      accounts = record {
        recovery = λ j. ground (
          arith,
          plain.about i,
          plain.recovery i,
          recovery_notice-counts j (f i) ((f i).source_kind),
        );
        opening = λ j e. ground (
          arith,
          plain.about i,
          plain.opening i,
          recovery_notice-counts j (f i) ((f i).source_kind),
        );
        announced = λ e. ground (arith, plain.recovery i, plain.opening i);
      };
    }

    pub silent-IsSound : (i : Incident) → IsSound (λ i. (none, f i)) i
    silent-IsSound i = record {
      stays = λ i. ground (arith, plain.about i);
      accounts = record {
        recovery = λ j. ground (arith, plain.about i, plain.recovery i);
        opening = λ j e. ground (arith, plain.about i, plain.opening i);
        announced = λ e. ground (arith, plain.recovery i, plain.opening i);
      };
    }
