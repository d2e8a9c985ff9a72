-- ===== src/DisplayOrder/Targets.antt =====
-- `move_target`, `move_site` and `move_metric` on the order in which the rows are shown.
use monitoring_maxval.Base.{ℕ, Bool, true, false, not, List, ◌≡◌, refl, sym, ap, ◌∙◌, map}
use monitoring_maxval.Base.Text.{String}
use monitoring_maxval.Base.Result.{ok, ok_injective}
use monitoring_maxval.Model.{Store, MonitorTarget, Site}
use monitoring_maxval.Thresholds.Tables.{SnmpStore, SnmpMetric}
use monitoring_maxval.DisplayOrder.{
  target_columns, site_columns, metric_columns, in_favorites, in_metrics_of, group_of, move_row,
  move, move_target, move_site, move_metric,
}
use monitoring_maxval.DisplayOrder.Sorted.{AreDistinct}
use monitoring_maxval.DisplayOrder.Numbered.{AreColumns}
use monitoring_maxval.DisplayOrder.Moves.{moved, move_row-shown}
use monitoring_maxval.DisplayOrder.Undo.{move_row-move_row}

-- The form field for a direction.
abbrev pub direction : Bool → String
direction true = "up"
direction false = "down"

-- The keys of one group of targets as the page lists them.
abbrev pub shown_targets : Bool → Store → List ℕ
shown_targets favorite db =
    map MonitorTarget.id (group_of target_columns (in_favorites favorite) db.targets)

abbrev pub shown_sites : Store → List ℕ
shown_sites db = map Site.id (group_of site_columns (λ s. true) db.sites)

abbrev pub shown_metrics : ℕ → SnmpStore → List ℕ
shown_metrics target_id db =
    map SnmpMetric.id (group_of metric_columns (in_metrics_of target_id) db.metrics)

target-AreColumns : (favorite : Bool) → AreColumns target_columns (in_favorites favorite)
target-AreColumns favorite = record {
  key_stays = λ n a. refl;
  order_written = λ n a. refl;
  group_stays = λ n a. refl;
}

site-AreColumns : AreColumns site_columns (λ s. true)
site-AreColumns = record {
  key_stays = λ n a. refl;
  order_written = λ n a. refl;
  group_stays = λ n a. refl;
}

metric-AreColumns : (target_id : ℕ) → AreColumns metric_columns (in_metrics_of target_id)
metric-AreColumns target_id = record {
  key_stays = λ n a. refl;
  order_written = λ n a. refl;
  group_stays = λ n a. refl;
}

-- What `move_target` returns, for the two known directions.
abbrev moved_target : MonitorTarget → Bool → Store → Bool × Store
moved_target target is_up db =
    let (b, targets) =
      move_row target_columns (in_favorites target.favorite) is_up target.id db.targets in
    (b, record db { targets = targets })

move_target-ok :
    (target : MonitorTarget) (is_up : Bool) (db : Store)
    → move_target target (direction is_up) db ≡ ok (moved_target target is_up db)
unfolding move_target move
move_target-ok target true db = refl
move_target-ok target false db = refl

-- In a table whose keys differ, `move_target` up or down returns, and the group of the target is shown
-- in the order in which the target has changed places with the one before or after it, or as it was
-- where there is none.
pub move_target-shown :
    (target : MonitorTarget) (is_up : Bool) (db : Store)
    → AreDistinct target_columns db.targets
    → (b : Bool) × (after : Store) × (move_target target (direction is_up) db ≡ ok (b, after))
      × (shown_targets target.favorite after
          ≡ moved is_up target.id (shown_targets target.favorite db))
move_target-shown target is_up db d =
    let (b, after) = moved_target target is_up db in
    (
      b,
      after,
      move_target-ok target is_up db,
      move_row-shown target_columns (in_favorites target.favorite)
          (target-AreColumns target.favorite) is_up target.id db.targets d,
    )

-- In a table whose keys differ, a move of a target that is done is undone by the move in the other
-- direction: it returns, and the group is shown in its former order.
pub move_target-move_target :
    (target : MonitorTarget) (is_up : Bool) (db : Store) {after : Store}
    → AreDistinct target_columns db.targets
    → move_target target (direction is_up) db ≡ ok (true, after)
    → (b : Bool) × (back : Store) × (move_target target (direction (not is_up)) after
        ≡ ok (b, back))
      × (shown_targets target.favorite back ≡ shown_targets target.favorite db)
move_target-move_target target is_up db {after} d e =
    let f = ok_injective (sym (move_target-ok target is_up db) ∙ e) in
    let (b, back) = moved_target target (not is_up) after in
    (
      b,
      back,
      move_target-ok target (not is_up) after,
      ap (λ r. shown_targets target.favorite (moved_target target (not is_up) (r.1)).1) (sym f)
          ∙ move_row-move_row target_columns (in_favorites target.favorite)
              (target-AreColumns target.favorite) is_up target.id db.targets d (ap (λ r. r.0) f),
    )

-- In a table whose keys differ, `move_site` up or down returns, and the sites are shown in the order in
-- which the site has changed places with the one before or after it, or as they were.
move_site-shown :
    (site : Site) (is_up : Bool) (db : Store)
    → AreDistinct site_columns db.sites
    → (b : Bool) × (after : Store) × (move_site site (direction is_up) db ≡ ok (b, after))
      × (shown_sites after ≡ moved is_up site.id (shown_sites db))
unfolding move_site move
move_site-shown site true db d =
    let (b, sites) = move_row site_columns (λ s. true) true site.id db.sites in
    (
      b,
      record db { sites = sites },
      refl,
      move_row-shown site_columns (λ s. true) site-AreColumns true site.id db.sites d,
    )
move_site-shown site false db d =
    let (b, sites) = move_row site_columns (λ s. true) false site.id db.sites in
    (
      b,
      record db { sites = sites },
      refl,
      move_row-shown site_columns (λ s. true) site-AreColumns false site.id db.sites d,
    )

-- In a table whose keys differ, `move_metric` up or down returns, and the metrics of the target are
-- shown in the order in which the metric has changed places with the one before or after it, or as
-- they were.
move_metric-shown :
    (metric : SnmpMetric) (is_up : Bool) (db : SnmpStore)
    → AreDistinct metric_columns db.metrics
    → (b : Bool) × (after : SnmpStore) × (move_metric metric (direction is_up) db ≡ ok (b, after))
      × (shown_metrics metric.target_id after
          ≡ moved is_up metric.id (shown_metrics metric.target_id db))
unfolding move_metric move
move_metric-shown metric true db d =
    let in_group = in_metrics_of metric.target_id in
    let (b, metrics) = move_row metric_columns in_group true metric.id db.metrics in
    (
      b,
      record db { metrics = metrics },
      refl,
      move_row-shown metric_columns in_group (metric-AreColumns metric.target_id) true metric.id
          db.metrics d,
    )
move_metric-shown metric false db d =
    let in_group = in_metrics_of metric.target_id in
    let (b, metrics) = move_row metric_columns in_group false metric.id db.metrics in
    (
      b,
      record db { metrics = metrics },
      refl,
      move_row-shown metric_columns in_group (metric-AreColumns metric.target_id) false metric.id
          db.metrics d,
    )
