-- ===== src/Tests/Order.antt =====
-- Three targets, two of them with the same number, of which the last moves up.
use monitoring_maxval.Base.{Bool, true, false, [], ◌∷◌, ◌≡◌, refl, arith}
use monitoring_maxval.Base.Sort.{sort, place}
use monitoring_maxval.Base.Result.{ok}
use monitoring_maxval.Base.Rows.{update}
use monitoring_maxval.Model.{Store, MonitorTarget}
use monitoring_maxval.DisplayOrder.{
  target_columns, next_display_order, max_order, move_target, move, move_row, position_of, renumber,
}
use monitoring_maxval.DisplayOrder.Sorted.{AreDistinct}
use monitoring_maxval.DisplayOrder.Moves.{moved}
use monitoring_maxval.DisplayOrder.Targets.{
  shown_targets, move_target-shown, move_target-move_target,
}
use monitoring_maxval.Tests.Sample.{sample, router}

abbrev printer : MonitorTarget
printer = record router { id = 8; name = "printer"; display_order = 1 }

abbrev camera : MonitorTarget
camera = record router { id = 5; name = "camera"; display_order = 7 }

abbrev room : Store
room = record sample { targets = camera ∷ printer ∷ router ∷ [] }

abbrev rearranged : Store
rearranged = record sample {
  targets =
      record camera { display_order = 2 }
      ∷ record printer { display_order = 3 }
      ∷ record router { display_order = 1 }
      ∷ [];
}

room_is_shown : shown_targets false room ≡ 3 ∷ 8 ∷ 5 ∷ []
unfolding sort place
room_is_shown = refl

camera_moves_up : move_target camera "up" room ≡ ok (true, rearranged)
unfolding move_target move move_row sort place position_of renumber update
camera_moves_up = refl

router_stays_first :
    move_target (record router { display_order = 1 }) "up" rearranged ≡ ok (false, rearranged)
unfolding move_target move move_row sort place position_of renumber update
router_stays_first = refl

next_is_eight : next_display_order false room ≡ 8
unfolding next_display_order max_order
next_is_eight = refl

room-AreDistinct : AreDistinct target_columns room.targets
room-AreDistinct = ground arith

move_target-shown_example :
    (b : Bool) × (after : Store) × (move_target camera "up" room ≡ ok (b, after))
    × (shown_targets false after ≡ moved true 5 (shown_targets false room))
move_target-shown_example = move_target-shown camera true room room-AreDistinct

move_target-move_target_example :
    (b : Bool) × (back : Store) × (move_target camera "down" rearranged ≡ ok (b, back))
    × (shown_targets false back ≡ shown_targets false room)
move_target-move_target_example =
    move_target-move_target camera true room {after = rearranged} room-AreDistinct camera_moves_up
