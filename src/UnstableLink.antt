-- ===== src/UnstableLink.antt =====
-- The marker of an unstable link (src/monitoring/services/unstable_link.py): a DOWN that did not
-- become an incident leaves it pending, and the UP after it sets it for an hour.
use monitoring_maxval.Base.{ℕ, ◌+◌, ◌*◌, Bool, true, none, some, ltb, if◌then◌else◌, false}
use monitoring_maxval.Model.{UnstableLink}

abbrev pub minute_us : ℕ
minute_us = 60000000

abbrev pub unstable_link_ttl_minutes : ℕ
unstable_link_ttl_minutes = 60

unfoldable pub reset_unstable_link : UnstableLink → UnstableLink
reset_unstable_link source = record source { pending_down = false; until = none }

unfoldable pub record_unconfirmed_down : UnstableLink → UnstableLink
record_unconfirmed_down source = record source { pending_down = true }

unfoldable pub record_confirmed_down : UnstableLink → UnstableLink
unfolding reset_unstable_link
record_confirmed_down source = reset_unstable_link source

unfoldable pub record_recovered_up : ℕ → Bool → UnstableLink → UnstableLink
record_recovered_up observed_at recovery_from_confirmed_incident source =
    if recovery_from_confirmed_incident
    then record source { pending_down = false }
    else if source.pending_down
    then record source {
      until = some (observed_at + unstable_link_ttl_minutes * minute_us);
      pending_down = false;
    }
    else source

unfoldable pub unstable_link_active : ℕ → UnstableLink → Bool
unstable_link_active now source = elim (source.until) [ none ↦ false | some until ↦ ltb now until ]
