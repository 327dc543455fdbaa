-- ===== src/Tests/Cycles.antt =====
-- The limits of a cycle late in the week, with the budget nearly used up.
use swe_squad.Prelude.{◌≡◌, refl, false, Option, some, List, [], ◌∷◌}
use swe_squad.Throttle.{
  whole, high, sev_rank, ThrottleConfig, ThrottleContext, ThrottleResult, evaluate_time,
  evaluate_capacity, evaluate_demand, CycleConfig, resolve,
}
use swe_squad.Throttle.Limits.{IsWithin, resolve-IsWithin}
use swe_squad.Throttle.Severity.{emergency_critical}

abbrev config : ThrottleConfig
config = record {
  backlog_surge_threshold = 200;
  critical_surge_threshold = 20;
  time_bands =
      record {
        name = "night";
        start_hour = 22;
        end_hour = 6;
        multiplier = whole 2;
        timezone = "UTC";
      }
      ∷ [];
  capacity_warning_pct = record { num = 8; den = 10 };
  capacity_warning_days_remaining = whole 2;
  capacity_warning_multiplier = record { num = 1; den = 2 };
  capacity_critical_pct = record { num = 95; den = 100 };
  capacity_critical_multiplier = record { num = 1; den = 10 };
  backlog_surge_multiplier = record { num = 3; den = 2 };
  critical_surge_multiplier = whole 2;
}

abbrev late_week : ThrottleContext
late_week = record {
  local_hour = λ tz. 23;
  api_usage_pct = record { num = 97; den = 100 };
  api_days_to_reset = whole 1;
  backlog_size = 250;
  backlog_critical = 3;
  is_pre_release = false;
}

abbrev base : CycleConfig
base = record {
  max_new_tickets_per_cycle = 20;
  max_investigations_per_cycle = 5;
  max_developments_per_cycle = 2;
  max_open_investigating = 3;
  severity_filter = high;
}

abbrev adapters : List (ThrottleContext → Option ThrottleResult)
adapters =
    (λ x. some (evaluate_time config x))
    ∷ (λ x. some (evaluate_capacity config x))
    ∷ (λ x. some (evaluate_demand config x))
    ∷ []

resolve-IsWithin_example :
    let r = resolve base adapters late_week in
    IsWithin base.max_new_tickets_per_cycle r.max_new_tickets_per_cycle
    × IsWithin base.max_investigations_per_cycle r.max_investigations_per_cycle
    × IsWithin base.max_developments_per_cycle r.max_developments_per_cycle
    × IsWithin base.max_open_investigating r.max_open_investigating
resolve-IsWithin_example = resolve-IsWithin base adapters late_week

emergency_critical_example : sev_rank (resolve base adapters late_week).severity_filter ≡ 3
emergency_critical_example = emergency_critical base config late_week refl
