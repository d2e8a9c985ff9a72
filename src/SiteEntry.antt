-- ===== src/SiteEntry.antt =====
-- The entry target of a site (src/monitoring/services/site_entry.py): while it is down, the other
-- targets of the site are not polled.
pub mod Unique
pub mod Blocking
use monitoring_maxval.Base.{
  ℕ, Bool, true, false, ◌&&◌, ◌||◌, not, Option, none, some, List, [], ◌∷◌, map, keep,
  if◌then◌else◌, ◌==◌, ltb, is_some,
}
use monitoring_maxval.Base.Text.{String}
use monitoring_maxval.Base.Result.{Result, ok, err}
use monitoring_maxval.Base.Rows.{find, first, update}
use monitoring_maxval.Base.Sort.{sort}
use monitoring_maxval.Model.{
  Store, MonitorTarget, TargetKind, Site, CheckResult, CheckStatus, is_down,
}
use monitoring_maxval.Schedules.{ZoneInfo, schedule_timezone, schedule_is_working}
use monitoring_maxval.Monitoring.Saving.{schedule_of}
use monitoring_maxval.Incidents.Steps.{later_result}

-- `entry_status`: the status of the latest result, if there is one, or `off_hours`.
pub data EntryStatus : Type 0 where
  latest : Option CheckStatus → EntryStatus
  off_hours : EntryStatus

pub record SiteEntryGate : Type 0 where
  pub site_id : ℕ
  pub entry_target_id : ℕ
  pub entry_target_name : String
  pub entry_enabled : Bool
  pub entry_status : EntryStatus

abbrev pub is_down_status : EntryStatus → Bool
is_down_status (latest (some s)) = is_down s
is_down_status _ = false

-- `SiteEntryGate.blocked`
unfoldable pub blocked : SiteEntryGate → Bool
blocked gate = gate.entry_enabled && is_down_status gate.entry_status

abbrev pub head? : {A : Type 0} → List A → Option A
head? [] = none
head? (a ∷ _) = some a

-- The status of the first result of the target by time and key, the latest first.
unfoldable pub latest_status : ℕ → Store → Option CheckStatus
latest_status target_id db =
    elim (head? (sort later_result (keep (λ r. CheckResult.target_id r == target_id) db.results))) [
      | none ↦ none
      | some r ↦ some (r.status)
    ]

module _ (zone_info : ZoneInfo) (now : ℕ) (db : Store) where
  unfoldable pub entry_status_of : Site → MonitorTarget → EntryStatus
  entry_status_of site entry =
      if schedule_is_working zone_info (schedule_of db site) now (schedule_timezone db.settings)
      then latest (latest_status entry.id db)
      else off_hours

  unfoldable pub gate_of : Site → MonitorTarget → SiteEntryGate
  unfolding entry_status_of
  gate_of site entry = record {
    site_id = entry.site_id;
    entry_target_id = entry.id;
    entry_target_name = entry.name;
    entry_enabled = entry.enabled;
    entry_status = entry_status_of site entry;
  }

  -- The gates of the rows, by the inner join with the site.
  unfoldable pub gates_of : List MonitorTarget → List SiteEntryGate
  gates_of [] = []
  gates_of (entry ∷ entries) =
      let rest = gates_of entries in
      elim (find Site.id entry.site_id db.sites) [
        | none ↦ rest
        | some site ↦ gate_of site entry ∷ rest
      ]

  -- `result.setdefault`: the first gate of every site stays.
  unfoldable pub first_of_sites : List ℕ → List SiteEntryGate → List SiteEntryGate
  first_of_sites seen [] = []
  first_of_sites seen (g ∷ gates) =
      let without = first_of_sites seen gates in
      let with = first_of_sites (g.site_id ∷ seen) gates in
      if is_some (first (λ s. s == g.site_id) seen) then without else g ∷ with

  -- `site_ids` is none for all sites.
  unfoldable pub load_site_entry_gates : Option (List ℕ) → List SiteEntryGate
  unfolding gates_of first_of_sites gate_of
  load_site_entry_gates site_ids = first_of_sites [] (
      gates_of (
        sort
          (λ a b.
            ltb (MonitorTarget.site_id a) (MonitorTarget.site_id b)
            || ((MonitorTarget.site_id a == MonitorTarget.site_id b)
                && ltb (MonitorTarget.id a) (MonitorTarget.id b)))
          (keep
            (λ t. t.is_site_entry && elim site_ids [
              | none ↦ true
              | some ids ↦ is_some (first (λ i. i == MonitorTarget.site_id t) ids)
            ])
            db.targets)))

  unfoldable pub blocked_site_ids : Option (List ℕ) → List ℕ
  unfolding load_site_entry_gates
  blocked_site_ids site_ids =
      map SiteEntryGate.site_id (keep blocked (load_site_entry_gates site_ids))

  unfoldable pub blocking_gate_for_target : MonitorTarget → Option SiteEntryGate
  unfolding load_site_entry_gates
  blocking_gate_for_target target =
      if target.is_site_entry
      then none
      else elim (first (λ g. SiteEntryGate.site_id g == target.site_id)
          (load_site_entry_gates (some (target.site_id ∷ [])))) [
            | none ↦ none
            | some gate ↦ if blocked gate then some gate else none
          ]

-- `ENTRY_TARGET_KINDS`
abbrev pub is_entry_kind : TargetKind → Bool
is_entry_kind TargetKind.network = true
is_entry_kind TargetKind.server = true
is_entry_kind _ = false

pub data EntryError : Type 0 where
  not_an_entry_kind : EntryError

abbrev pub is_entry_of : ℕ → MonitorTarget → Bool
is_entry_of site_id t = (t.site_id == site_id) && t.is_site_entry

abbrev pub set_entry : Bool → MonitorTarget → MonitorTarget
set_entry b t = record t { is_site_entry = b }

abbrev pub with_targets : List MonitorTarget → Store → Store
with_targets targets db = record db { targets = targets }

abbrev pub is_other_entry : MonitorTarget → MonitorTarget → Bool
is_other_entry target t = is_entry_of target.site_id t && not (t.id == target.id)

-- The other entry of the site that has the lowest key.
unfoldable pub previous_entry : MonitorTarget → Store → Option MonitorTarget
previous_entry target db = head? (
    sort (λ a b. ltb (MonitorTarget.id a) (MonitorTarget.id b))
      (keep (is_other_entry target) db.targets))

abbrev pub without_previous : Option MonitorTarget → List MonitorTarget → List MonitorTarget
without_previous none targets = targets
without_previous (some previous) targets =
    update MonitorTarget.id previous.id (set_entry false) targets

abbrev pub previous_id : Option MonitorTarget → Option ℕ
previous_id none = none
previous_id (some previous) = some (previous.id)

-- The key of the entry that was replaced, and the database.
unfoldable pub set_site_entry : MonitorTarget → Bool → Store → Result EntryError (Option ℕ × Store)
unfolding previous_entry
set_site_entry target enabled db =
    if not enabled
    then ok (none, with_targets (update MonitorTarget.id target.id (set_entry false) db.targets) db)
    else if not (is_entry_kind target.kind)
    then err EntryError.not_an_entry_kind
    else let previous = previous_entry target db in
      ok (
        previous_id previous,
        with_targets
            (update MonitorTarget.id target.id (set_entry true)
              (without_previous previous db.targets))
            db,
      )

-- Whether the flag was dropped, and the target.
unfoldable pub normalize_site_entry_for_kind : MonitorTarget → Bool × MonitorTarget
normalize_site_entry_for_kind target =
    if target.is_site_entry && not (is_entry_kind target.kind)
    then (true, set_entry false target)
    else (false, target)
