-- ===== src/DisplayOrder.antt =====
-- The order in which targets, sites and SNMP metrics are shown (src/monitoring/services/target_order.py,
-- site_order.py and snmp_order.py). The three functions have one body, on three tables.
pub mod Sorted
pub mod Swap
pub mod Numbered
pub mod Renumbered
pub mod Shown
pub mod Moves
pub mod Undo
pub mod Targets
use monitoring_maxval.Base.{
  ℕ, zero, suc, ◌+◌, max, Bool, true, false, ◌&&◌, ◌||◌, not, Option, none, some, List, [], ◌∷◌,
  keep, get_elem?, if◌then◌else◌, ◌==◌, ltb,
}
use monitoring_maxval.Base.Text.{String, str_eq}
use monitoring_maxval.Base.Result.{Result, ok, err}
use monitoring_maxval.Base.Rows.{update}
use monitoring_maxval.Base.Sort.{sort}
use monitoring_maxval.Model.{Store, MonitorTarget, Site}
use monitoring_maxval.Thresholds.Tables.{SnmpStore, SnmpMetric}

-- The columns `id` and `display_order` of a table.
pub record Columns (A : Type 0) : Type 0 where
  pub key : A → ℕ
  pub order : A → ℕ
  pub set_order : ℕ → A → A

pub data DirectionError : Type 0 where
  unknown_direction : DirectionError

-- `max(display_order) or 0`, over the rows of a group.
unfoldable pub max_order : {A : Type 0} → (A → ℕ) → List A → ℕ
max_order order [] = 0
max_order order (x ∷ xs) = max (order x) (max_order order xs)

-- The position of the neighbour, where it is not negative.
abbrev pub neighbour_position : Bool → ℕ → Option ℕ
neighbour_position true zero = none
neighbour_position true (suc i) = some i
neighbour_position false i = some (suc i)

module _ {A : Type 0} (columns : Columns A) where
  -- `ORDER BY display_order, id`
  abbrev pub is_before : A → A → Bool
  is_before a b =
      ltb (columns.order a) (columns.order b)
      || ((columns.order a == columns.order b) && ltb (columns.key a) (columns.key b))

  -- `for index, item in enumerate(group, start=1): item.display_order = index`
  unfoldable pub renumber : ℕ → List A → List A → List A
  renumber index [] table = table
  renumber index (item ∷ group) table =
      renumber (suc index) group
        (update columns.key (columns.key item) (columns.set_order index) table)

  -- The position of the first row with the key.
  unfoldable pub position_of : ℕ → List A → Option ℕ
  position_of k [] = none
  position_of k (item ∷ group) =
      if columns.key item == k
      then some 0
      else elim (position_of k group) [ none ↦ none | some i ↦ some (suc i) ]

  -- Both rows have the numbers of their positions in the group, from 1 on.
  abbrev pub exchange : ℕ → ℕ → ℕ → ℕ → List A → List A
  exchange k position neighbour neighbour_at table =
      update columns.key neighbour (columns.set_order (suc position))
        (update columns.key k (columns.set_order (suc neighbour_at)) table)

  abbrev pub exchange_with : ℕ → ℕ → ℕ → Option A → List A → Bool × List A
  exchange_with k position neighbour_at none table = (false, table)
  exchange_with k position neighbour_at (some neighbour) table =
      (true, exchange k position (columns.key neighbour) neighbour_at table)

  abbrev pub move_from : Bool → ℕ → ℕ → List A → List A → Bool × List A
  move_from is_up k position group table = elim (neighbour_position is_up position) [
    | none ↦ (false, table)
    | some i ↦ exchange_with k position i (get_elem? group i) table
  ]

  abbrev pub move_at : Bool → ℕ → Option ℕ → List A → List A → Bool × List A
  move_at is_up k none group table = (false, table)
  move_at is_up k (some position) group table = move_from is_up k position group table

  -- The rows of the group in their order.
  abbrev pub group_of : (A → Bool) → List A → List A
  group_of in_group table = sort is_before (keep in_group table)

  -- Whether the row with the key was moved, and the table.
  unfoldable pub move_row : (A → Bool) → Bool → ℕ → List A → Bool × List A
  move_row in_group is_up k table =
      let group = group_of in_group table in
      move_at is_up k (position_of k group) group (renumber 1 group table)

  unfoldable pub move : (A → Bool) → String → ℕ → List A → Result DirectionError (Bool × List A)
  unfolding move_row
  move in_group direction k table =
      if str_eq direction "up"
      then ok (move_row in_group true k table)
      else if str_eq direction "down"
      then ok (move_row in_group false k table)
      else err DirectionError.unknown_direction

abbrev pub target_columns : Columns MonitorTarget
target_columns = record {
  key = MonitorTarget.id;
  order = MonitorTarget.display_order;
  set_order = λ n t. record t { display_order = n };
}

abbrev pub site_columns : Columns Site
site_columns = record {
  key = Site.id;
  order = Site.display_order;
  set_order = λ n s. record s { display_order = n };
}

abbrev pub metric_columns : Columns SnmpMetric
metric_columns = record {
  key = SnmpMetric.id;
  order = SnmpMetric.display_order;
  set_order = λ n m. record m { display_order = n };
}

abbrev same : Bool → Bool → Bool
same true b = b
same false b = not b

-- `MonitorTarget.favorite.is_(favorite)`
abbrev pub in_favorites : Bool → MonitorTarget → Bool
in_favorites favorite t = same favorite t.favorite

unfoldable pub next_display_order : Bool → Store → ℕ
unfolding max_order
next_display_order favorite db =
    max_order MonitorTarget.display_order (keep (in_favorites favorite) db.targets) + 1

-- The session does not write the flag out before the query, which reads the table as it was.
unfoldable pub move_to_group_end : MonitorTarget → Bool → Store → Store
unfolding next_display_order
move_to_group_end target favorite db =
    let next = next_display_order favorite db in
    record db {
      targets =
          update MonitorTarget.id target.id
            (λ t. record t { favorite = favorite; display_order = next }) db.targets;
    }

abbrev pub moved_targets :
    Store → Result DirectionError (Bool × List MonitorTarget) → Result DirectionError (Bool × Store)
moved_targets db (err e) = err e
moved_targets db (ok (moved, targets)) = ok (moved, record db { targets = targets })

unfoldable pub move_target : MonitorTarget → String → Store → Result DirectionError (Bool × Store)
unfolding move
move_target target direction db =
    moved_targets db
      (move target_columns (in_favorites target.favorite) direction target.id db.targets)

unfoldable pub next_site_display_order : Store → ℕ
unfolding max_order
next_site_display_order db = max_order Site.display_order db.sites + 1

abbrev pub moved_sites :
    Store → Result DirectionError (Bool × List Site) → Result DirectionError (Bool × Store)
moved_sites db (err e) = err e
moved_sites db (ok (moved, sites)) = ok (moved, record db { sites = sites })

unfoldable pub move_site : Site → String → Store → Result DirectionError (Bool × Store)
unfolding move
move_site site direction db =
    moved_sites db (move site_columns (λ s. true) direction site.id db.sites)

abbrev pub moved_metrics :
    SnmpStore
    → Result DirectionError (Bool × List SnmpMetric)
    → Result DirectionError (Bool × SnmpStore)
moved_metrics db (err e) = err e
moved_metrics db (ok (moved, metrics)) = ok (moved, record db { metrics = metrics })

abbrev pub in_metrics_of : ℕ → SnmpMetric → Bool
in_metrics_of target_id m = m.target_id == target_id

unfoldable pub move_metric :
    SnmpMetric → String → SnmpStore → Result DirectionError (Bool × SnmpStore)
unfolding move
move_metric metric direction db =
    moved_metrics db
      (move metric_columns (in_metrics_of metric.target_id) direction metric.id db.metrics)
