-- ===== src/TargetChecks/Refusals.antt =====
-- The answers of the handlers that refuse a request.
use monitoring_maxval.Base.{false, ◌≡◌}
use monitoring_maxval.Base.Result.{Result}
use monitoring_maxval.Model.{Store}
use monitoring_maxval.TargetChecks.Handlers.{Response}
use monitoring_maxval.TargetChecks.Answers.{is_done}

-- An answer other than `done` comes with the database as it was.
abbrev IsRefusal : Store → Response × Store → Type 0
IsRefusal db o = is_done o.0 ≡ false → o.1 ≡ db
