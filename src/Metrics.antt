-- ===== src/Metrics.antt =====
-- internal/metrics/metrics.go: three Prometheus counters with labels. A counter is kept as the list
-- of the label values with which it was incremented, newest first.
use yc_sheduler.Prelude.{String, List, [], ◌∷◌, Option, none, some}

pub record Metrics : Type 0 where
  pub operations_total : List (String × String × String)
  pub validator_corrections_total : List (String × String)
  pub scheduler_skips_total : List (String × String × String)

pub new : Metrics
new = record { operations_total = []; validator_corrections_total = []; scheduler_skips_total = [] }

unfoldable pub inc_operation : Metrics → String → String → String → Metrics
inc_operation m resource_type action status = record m {
  operations_total = (resource_type, action, status) ∷ m.operations_total;
}

unfoldable pub inc_validator_correction : Metrics → String → String → Metrics
inc_validator_correction m resource_type action = record m {
  validator_corrections_total = (resource_type, action) ∷ m.validator_corrections_total;
}

unfoldable pub inc_scheduler_skip : Metrics → String → String → String → Metrics
inc_scheduler_skip m resource_type action reason = record m {
  scheduler_skips_total = (resource_type, action, reason) ∷ m.scheduler_skips_total;
}

-- `if m != nil { … }`
abbrev pub if_recorded : Option Metrics → (Metrics → Metrics) → Option Metrics
if_recorded none f = none
if_recorded (some m) f = some (f m)
