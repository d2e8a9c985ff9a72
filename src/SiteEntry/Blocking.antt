-- ===== src/SiteEntry/Blocking.antt =====
-- When a target is held back: the entry of its site is enabled, its latest result is DOWN, and the site
-- is at work.
use monitoring_maxval.Base.{
  ℕ, true, false, Option, none, some, List, [], ◌∷◌, if◌then◌else◌, ◌==◌, ◌≡◌, refl, arith, ap, ◌∙◌,
  inl, inr, Bool-cases, Option-cases, ==→eq, is_some,
}
use monitoring_maxval.Base.Rows.{find, first, first-In, In}
use monitoring_maxval.Base.Sort.{In-keep, In-sort}
use monitoring_maxval.Model.{Store, MonitorTarget, Site, CheckStatus}
use monitoring_maxval.Schedules.{ZoneInfo, schedule_timezone, schedule_is_working}
use monitoring_maxval.Monitoring.Saving.{schedule_of}
use monitoring_maxval.SiteEntry.{
  SiteEntryGate, EntryStatus, is_down_status, blocked, latest_status, entry_status_of, gate_of,
  gates_of, first_of_sites, load_site_entry_gates, blocking_gate_for_target,
}

module _ (zone_info : ZoneInfo) (now : ℕ) (db : Store) where
  -- Where a gate comes from.
  pub record ComesFrom (gate : SiteEntryGate) : Type 0 where
    pub entry : MonitorTarget
    pub site : Site
    pub stands : In entry db.targets
    pub is_entry : entry.is_site_entry ≡ true
    pub found : find Site.id entry.site_id db.sites ≡ some site
    pub gate_lem : gate_of zone_info now db site entry ≡ gate

  gates_of-In :
      (entries : List MonitorTarget) (gate : SiteEntryGate)
      → In gate (gates_of zone_info now db entries)
      → (entry : MonitorTarget) × (site : Site) × In entry entries
        × (find Site.id entry.site_id db.sites ≡ some site)
        × (gate_of zone_info now db site entry ≡ gate)
  unfolding gates_of
  gates_of-In [] gate i = absurd i
  gates_of-In (e ∷ es) gate i = elim (Option-cases (find Site.id e.site_id db.sites)) [
    | inl q ↦
        let (entry, site, stands, found, same) = gates_of-In es gate (rw (q, gates_of) at i) in
        (entry, site, inr stands, found, same)
    | inr (s, q) ↦ elim (rw (q, gates_of) at i) [
      | inl same ↦ (e, s, inl refl, q, same)
      | inr j ↦
          let (entry, site, stands, found, same) = gates_of-In es gate j in
          (entry, site, inr stands, found, same)
    ]
  ]

  first_of_sites-In :
      (seen : List ℕ) (gates : List SiteEntryGate) (gate : SiteEntryGate)
      → In gate (first_of_sites zone_info now db seen gates)
      → In gate gates
  unfolding first_of_sites
  first_of_sites-In seen [] gate i = i
  first_of_sites-In seen (g ∷ gates) gate i =
      elim (Bool-cases (is_some (first (λ s. s == g.site_id) seen))) [
        | inl q ↦ inr (first_of_sites-In seen gates gate (rw q at i))
        | inr q ↦ elim (rw q at i) [
          | inl e ↦ inl e
          | inr j ↦ inr (first_of_sites-In (g.site_id ∷ seen) gates gate j)
        ]
      ]

  load_site_entry_gates-ComesFrom :
      (site_ids : Option (List ℕ)) (gate : SiteEntryGate)
      → In gate (load_site_entry_gates zone_info now db site_ids)
      → ComesFrom gate
  unfolding load_site_entry_gates
  load_site_entry_gates-ComesFrom site_ids gate i =
      let (entry, site, stands, found, same) = gates_of-In _ gate (first_of_sites-In [] _ gate i) in
      let (here, chosen) = In-keep _ db.targets (In-sort _ entry _ stands) in
      record {
        entry = entry;
        site = site;
        stands = here;
        is_entry = ground (arith, chosen);
        found = found;
        gate_lem = same;
      }

  -- An enabled entry of the site whose latest result is DOWN, in the working hours of the site.
  pub record IsDownEntry (target : MonitorTarget) (entry : MonitorTarget) (site : Site)
      : Type 0 where
    pub stands : In entry db.targets
    pub is_entry : entry.is_site_entry ≡ true
    pub same_site : entry.site_id ≡ target.site_id
    pub enabled : entry.enabled ≡ true
    pub found : find Site.id entry.site_id db.sites ≡ some site
    pub working :
        schedule_is_working zone_info (schedule_of db site) now (schedule_timezone db.settings)
        ≡ true
    pub down : latest_status entry.id db ≡ some CheckStatus.down

  is_down_entry :
      (site : Site) (entry : MonitorTarget)
      → is_down_status (entry_status_of zone_info now db site entry) ≡ true
      → (schedule_is_working zone_info (schedule_of db site) now (schedule_timezone db.settings)
          ≡ true)
        × (latest_status entry.id db ≡ some CheckStatus.down)
  unfolding entry_status_of
  is_down_entry site entry h =
      elim (Bool-cases
        (schedule_is_working zone_info (schedule_of db site) now (schedule_timezone db.settings))) [
          | inl q ↦ (q, down_lem (latest_status entry.id db) (rw q at h))
          | inr q ↦ absurd {0} (let h' = rw q at h in cc)
        ]
    where
      down_lem :
          (s : Option CheckStatus)
          → is_down_status (EntryStatus.latest s) ≡ true
          → s ≡ some CheckStatus.down
      down_lem none h = cc
      down_lem (some CheckStatus.down) h = refl
      down_lem (some CheckStatus.up) h = cc
      down_lem (some CheckStatus.unknown) h = cc

  down_entry :
      (target : MonitorTarget) (g : SiteEntryGate) (from : ComesFrom g)
      → (g.site_id == target.site_id) ≡ true
      → blocked g ≡ true
      → IsDownEntry target from.entry from.site
  unfolding blocked gate_of
  down_entry target g from here b =
      let down = is_down_entry from.site from.entry (
        ap (λ x. is_down_status (SiteEntryGate.entry_status x)) from.gate_lem
        ∙ ground (arith, b)) in
      record {
        stands = from.stands;
        is_entry = from.is_entry;
        same_site = ap SiteEntryGate.site_id from.gate_lem ∙ ==→eq g.site_id target.site_id here;
        enabled = ap SiteEntryGate.entry_enabled from.gate_lem ∙ ground (arith, b);
        found = from.found;
        working = down.0;
        down = down.1;
      }

  -- A target is only held back by an enabled entry of its own site whose latest result is DOWN while
  -- the site is at work, and it is no entry itself.
  pub blocking_gate_for_target-IsDownEntry :
      (target : MonitorTarget) {gate : SiteEntryGate}
      → blocking_gate_for_target zone_info now db target ≡ some gate
      → (target.is_site_entry ≡ false)
        × (entry : MonitorTarget) × (site : Site) × IsDownEntry target entry site
  unfolding blocking_gate_for_target blocked gate_of
  blocking_gate_for_target-IsDownEntry target {gate} e = elim (Bool-cases (target.is_site_entry)) [
    | inl q ↦ absurd {0} (let e' = rw q at e in cc)
    | inr q ↦
        let (entry, site, down) =
          blocking
            (first (λ g. SiteEntryGate.site_id g == target.site_id)
              (load_site_entry_gates zone_info now db (some (target.site_id ∷ []))))
            refl (rw q at e) in
        (q, entry, site, down)
  ]
    where
      blocking :
          (found : Option SiteEntryGate)
          → first
              (λ g. SiteEntryGate.site_id g == target.site_id)
              (load_site_entry_gates zone_info now db (some (target.site_id ∷ [])))
            ≡ found
          → elim found [ none ↦ none | some g ↦ if blocked g then some g else none ] ≡ some gate
          → (entry : MonitorTarget) × (site : Site) × IsDownEntry target entry site
      blocking none f e = cc
      blocking (some g) f e = elim (Bool-cases (blocked g)) [
        | inr b ↦ absurd {0} (let e' = rw b at e in cc)
        | inl b ↦
            let (stands, here) =
              first-In (λ g. SiteEntryGate.site_id g == target.site_id)
                (load_site_entry_gates zone_info now db (some (target.site_id ∷ []))) {a = g} f in
            let from = load_site_entry_gates-ComesFrom (some (target.site_id ∷ [])) g stands in
            (from.entry, from.site, down_entry target g from here b)
      ]
