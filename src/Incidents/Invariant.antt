-- ===== src/Incidents/Invariant.antt =====
-- What each method keeps: unique keys, one open incident for each slot, and the account of the
-- notifications against the marks.
use monitoring_maxval.Base.{ℕ, ◌+◌, ◌≤◌, Bool, true, List, ◌≡◌, sym, ◌∙◌, ap, if◌then◌else◌, arith}
use monitoring_maxval.Base.Text.{String}
use monitoring_maxval.Base.Rows.{
  count, count-map_eq, count-map_le, count-insert, count-update, count-update_le, count-update_eq,
  count-pos, insert, KeysAreUnique, has_key, insert-KeysAreUnique, update-KeysAreUnique,
}
use monitoring_maxval.Model.{Store, Incident}
use monitoring_maxval.Incidents.Steps.{Outcome}
use monitoring_maxval.Incidents.Checks.{resolve_with}
use monitoring_maxval.Incidents.Slots.{Slot, in_slot, IsWellFormed, in_slot_of_IsAbout}
use monitoring_maxval.Incidents.Accounts.{
  recoveries, openings, has_recovery, has_opening, is_unannounced, can_escalate,
}
use monitoring_maxval.Incidents.Effect.{Effect, Leaves}

-- `map` and `resolve_with` keep the keys, and move no incident into a slot.
resolved_in_slot :
    (chosen : Incident → Bool) (now : ℕ) (message : String) (detach : Bool) (s : Slot)
    (i : Incident)
    → in_slot s (if chosen i then resolve_with now message detach i else i) ≡ true
    → in_slot s i ≡ true
resolved_in_slot chosen now message detach (Slot.availability t) i e = ground arith
resolved_in_slot chosen now message detach (Slot.check t c) i e = ground arith
resolved_in_slot chosen now message detach (Slot.check_tls t c) i e = ground arith
resolved_in_slot chosen now message detach (Slot.source t key) i e = ground arith

Leaves-IsWellFormed :
    {out : Outcome} {rows : List Incident} {next : ℕ}
    → Leaves rows next out
    → KeysAreUnique Incident.id next rows
    → ((s : Slot) → count (in_slot s) rows ≤ 1)
    → IsWellFormed out.1
Leaves-IsWellFormed l k o = record {
  keys = rw (l.rows_lem, l.next_lem) k;
  one_open = λ s. rw l.rows_lem (o s);
}

module _ {db : Store} {out : Outcome} where
  pub Effect-IsWellFormed : Effect db out → IsWellFormed db → IsWellFormed out.1
  Effect-IsWellFormed (Effect.unchanged e l) h = Leaves-IsWellFormed l h.keys h.one_open
  Effect-IsWellFormed (Effect.added act row e marks free sound ev l) h =
      Leaves-IsWellFormed l
        (insert-KeysAreUnique Incident.id db.next_incident (act row).1 db.incidents
          ((sound.stays row).key ∙ e) h.keys)
        (λ s. ground (
          arith,
          count-insert (in_slot s) (act row).1 db.incidents,
          in_slot_of_IsAbout s (act row).1 row (sound.stays row),
          free s,
          h.one_open s,
        ))
  Effect-IsWellFormed (Effect.changed act row stands sound ev l) h =
      Leaves-IsWellFormed l
        (update-KeysAreUnique Incident.id db.next_incident row.id (λ i. (act i).1) db.incidents
          (λ i. (sound.stays i).key) h.keys)
        (λ s. omega (
          arith,
          count-update_le Incident.id (in_slot s) row.id (λ i. (act i).1) db.incidents
              (λ i. in_slot_of_IsAbout s (act i).1 i (sound.stays i)),
          h.one_open s,
        ))
  Effect-IsWellFormed (Effect.resolved chosen now message detach e l) h =
      Leaves-IsWellFormed l
        (record {
          once = λ k. omega (
            arith,
            count-map_eq (has_key Incident.id k)
                (λ i. if chosen i then resolve_with now message detach i else i) db.incidents
                (λ i. ground arith),
            h.keys.once k,
          );
          below = λ k le. omega (
            arith,
            count-map_eq (has_key Incident.id k)
                (λ i. if chosen i then resolve_with now message detach i else i) db.incidents
                (λ i. ground arith),
            h.keys.below k le,
          );
        })
        (λ s. omega (
          arith,
          count-map_le (in_slot s) (λ i. if chosen i then resolve_with now message detach i else i)
              db.incidents (resolved_in_slot chosen now message detach s),
          h.one_open s,
        ))

  -- Recovery notifications sent are marks set.
  pub Effect-recoveries :
      (j : ℕ)
      → Effect db out
      → IsWellFormed db
      → recoveries j out.0 + count (has_recovery j) db.incidents
        ≡ count (has_recovery j) out.1.incidents
  Effect-recoveries j (Effect.unchanged e l) h = rw (e, l.rows_lem) (omega arith)
  Effect-recoveries j (Effect.added act row e marks free sound ev l) h =
      rw (ev, l.rows_lem)
        (ground (
          arith,
          count-insert (has_recovery j) (act row).1 db.incidents,
          sound.accounts.recovery j,
          marks,
        ))
  Effect-recoveries j (Effect.changed act row stands sound ev l) h =
      rw (ev, l.rows_lem)
        (omega (
          arith,
          count-update Incident.id (has_recovery j) row (λ i. (act i).1) db.incidents stands
              (h.keys.once row.id),
          sound.accounts.recovery j,
        ))
  Effect-recoveries j (Effect.resolved chosen now message detach e l) h =
      rw (e, l.rows_lem)
        (omega (
          arith,
          count-map_eq (has_recovery j)
              (λ i. if chosen i then resolve_with now message detach i else i) db.incidents
              (λ i. ground arith),
        ))

  -- No recovery is marked without an opening.
  pub Effect-announced :
      Effect db out
      → IsWellFormed db
      → count is_unannounced db.incidents ≡ 0
      → count is_unannounced out.1.incidents ≡ 0
  Effect-announced (Effect.unchanged e l) h z = rw l.rows_lem z
  Effect-announced (Effect.added act row e marks free sound ev l) h z = rw l.rows_lem (
      ground (
        arith,
        count-insert is_unannounced (act row).1 db.incidents,
        sound.accounts.announced,
        marks,
      ))
  Effect-announced (Effect.changed act row stands sound ev l) h z = rw l.rows_lem (
      ground (
        arith,
        count-update Incident.id is_unannounced row (λ i. (act i).1) db.incidents stands
            (h.keys.once row.id),
        sound.accounts.announced,
      ))
  Effect-announced (Effect.resolved chosen now message detach e l) h z = rw l.rows_lem (
      omega (
        arith,
        count-map_eq is_unannounced (λ i. if chosen i then resolve_with now message detach i else i)
            db.incidents (λ i. ground arith),
      ))

  -- An incident stays of its kind.
  pub Effect-can_escalate :
      (j : ℕ)
      → Effect db out
      → count (can_escalate j) db.incidents ≤ count (can_escalate j) out.1.incidents
  Effect-can_escalate j (Effect.unchanged e l) = rw l.rows_lem (omega arith)
  Effect-can_escalate j (Effect.added act row e marks free sound ev l) =
      rw l.rows_lem (omega (arith, count-insert (can_escalate j) (act row).1 db.incidents))
  Effect-can_escalate j (Effect.changed act row stands sound ev l) = rw l.rows_lem (
      omega (
        arith,
        count-update_eq Incident.id (can_escalate j) row.id (λ i. (act i).1) db.incidents
            (λ i. ground (arith, sound.stays i)),
      ))
  Effect-can_escalate j (Effect.resolved chosen now message detach e l) = rw l.rows_lem (
      omega (
        arith,
        count-map_eq (can_escalate j)
            (λ i. if chosen i then resolve_with now message detach i else i) db.incidents
            (λ i. ground arith),
      ))

  -- Opening notifications of an incident that does not escalate are marks set.
  pub Effect-openings :
      (j : ℕ)
      → Effect db out
      → IsWellFormed db
      → count (can_escalate j) out.1.incidents ≡ 0
      → openings j out.0 + count (has_opening j) db.incidents
        ≡ count (has_opening j) out.1.incidents
  Effect-openings j (Effect.unchanged e l) h z = rw (e, l.rows_lem) (omega arith)
  Effect-openings j (Effect.added act row e marks free sound ev l) h z =
      let z' : count (can_escalate j) (insert (act row).1 db.incidents) ≡ 0 =
        ap (count (can_escalate j)) (sym l.rows_lem) ∙ z in
      rw (ev, l.rows_lem)
        (ground (
          arith,
          count-insert (has_opening j) (act row).1 db.incidents,
          count-insert (can_escalate j) (act row).1 db.incidents,
          sound.accounts.opening j,
          sound.stays row,
          marks,
        ))
  Effect-openings j (Effect.changed act row stands sound ev l) h z =
      let none_escalate : count (can_escalate j) db.incidents ≡ 0 =
        omega (arith, Effect-can_escalate j (Effect.changed act row stands sound ev l)) in
      rw (ev, l.rows_lem)
        (ground (
          arith,
          count-update Incident.id (has_opening j) row (λ i. (act i).1) db.incidents stands
              (h.keys.once row.id),
          sound.accounts.opening j,
          count-pos (can_escalate j) row db.incidents stands,
        ))
  Effect-openings j (Effect.resolved chosen now message detach e l) h z =
      rw (e, l.rows_lem)
        (omega (
          arith,
          count-map_eq (has_opening j)
              (λ i. if chosen i then resolve_with now message detach i else i) db.incidents
              (λ i. ground arith),
        ))
