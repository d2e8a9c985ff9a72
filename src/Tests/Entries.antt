-- ===== src/Tests/Entries.antt =====
-- A site with an entry that is down, and another target that becomes the entry.
use monitoring_maxval.Base.Text.{py_int_codes}
use monitoring_maxval.Base.Sort.{sort, place}
use monitoring_maxval.Base.{
  ℕ, ◌≤◌, true, false, none, some, [], ◌∷◌, ◌≡◌, refl, arith, inl, inr, Option,
}
use monitoring_maxval.Base.Result.{ok}
use monitoring_maxval.Base.Rows.{count, first, find, update}
use monitoring_maxval.Model.{Store, MonitorTarget, TargetKind, Site, CheckStatus}
use monitoring_maxval.Schedules.{
  ZoneInfo, schedule_is_working, works_at, works_today, day_start, parse_clock, day_end,
}
use monitoring_maxval.SiteEntry.{
  SiteEntryGate, latest, is_entry_of, set_site_entry, blocking_gate_for_target, set_entry,
  with_targets, blocked, latest_status,
}
use monitoring_maxval.SiteEntry.Unique.{EntriesAreUnique, set_site_entry-EntriesAreUnique}
use monitoring_maxval.SiteEntry.Blocking.{IsDownEntry, blocking_gate_for_target-IsDownEntry}
use monitoring_maxval.Tests.Sample.{sample, router, result}

abbrev server : MonitorTarget
server = record router { id = 4; name = "server"; kind = TargetKind.server; is_site_entry = false }

-- The router, which is the entry, was DOWN at noon on a Monday.
abbrev noon : ℕ
noon = 43200000000

abbrev office : Store
office = record sample {
  targets = router ∷ server ∷ [];
  results = result noon CheckStatus.down ∷ [];
}

abbrev utc : ZoneInfo
utc zone = none

abbrev gate : SiteEntryGate
gate = record {
  site_id = 1;
  entry_target_id = 3;
  entry_target_name = "router";
  entry_enabled = true;
  entry_status = latest (some CheckStatus.down);
}

server_is_blocked : blocking_gate_for_target utc noon office server ≡ some gate
unfolding blocking_gate_for_target first sort place find blocked schedule_is_working works_at
    works_today day_start parse_clock py_int_codes day_end latest_status
server_is_blocked = refl

blocking_gate_example :
    (server.is_site_entry ≡ false)
    × (entry : MonitorTarget) × (site : Site) × IsDownEntry utc noon office server entry site
blocking_gate_example =
    blocking_gate_for_target-IsDownEntry utc noon office server {gate = gate} server_is_blocked

office-EntriesAreUnique : EntriesAreUnique office.targets
unfolding count
office-EntriesAreUnique = record { keys = λ k. ground arith; one_entry = λ s. ground arith }

abbrev replaced : Option ℕ × Store
replaced = (some 3, with_targets (set_entry false router ∷ set_entry true server ∷ []) office)

server_replaces : set_site_entry server true office ≡ ok replaced
unfolding set_site_entry sort update place
server_replaces = refl

set_site_entry-EntriesAreUnique_example :
    EntriesAreUnique replaced.1.targets × (1 ≤ count (is_entry_of 1) replaced.1.targets)
set_site_entry-EntriesAreUnique_example =
    set_site_entry-EntriesAreUnique server true office {out = replaced} office-EntriesAreUnique
      (inr (inl refl)) server_replaces
