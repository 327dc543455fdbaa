-- ===== src/Throttle.antt =====
-- src/swe_team/throttle.py: the limits of a cycle. Floats are exact fractions that are not
-- negative, as in Rules. The hour in a time zone is a parameter, and an adapter that raises gives
-- `none`. The texts of the reasons are reduced to their kinds.
pub mod Limits
pub mod Severity
use swe_squad.Prelude.{
  ℕ, ◌+◌, ◌*◌, ◌/◌, max, String, Bool, true, false, ◌&&◌, ◌||◌, Option, none, some, List, [], ◌∷◌,
  map, ltb, leb, ◌==◌, if◌then◌else◌,
}
use swe_squad.Rules.{Multiplier as Fraction}

abbrev pub whole : ℕ → Fraction
whole n = record { num = n; den = 1 }

abbrev pub frac_ltb : Fraction → Fraction → Bool
frac_ltb a b = ltb (a.num * b.den) (b.num * a.den)

abbrev pub frac_leb : Fraction → Fraction → Bool
frac_leb a b = leb (a.num * b.den) (b.num * a.den)

-- `severity_filter` and `severity_override`: the keys of `_SEV_RANK`, or another text.
pub data SeverityFilter : Type 0 where
  low medium high critical : SeverityFilter
  other : String → SeverityFilter

-- `_SEV_RANK.get(severity, 0)`
abbrev pub sev_rank : SeverityFilter → ℕ
sev_rank low = 0
sev_rank medium = 1
sev_rank high = 2
sev_rank critical = 3
sev_rank (other s) = 0

pub record TimeBand : Type 0 where
  pub name : String
  pub start_hour : ℕ
  pub end_hour : ℕ
  pub multiplier : Fraction
  pub timezone : String

pub record ThrottleConfig : Type 0 where
  pub backlog_surge_threshold : ℕ
  pub critical_surge_threshold : ℕ
  pub time_bands : List TimeBand
  pub capacity_warning_pct : Fraction
  pub capacity_warning_days_remaining : Fraction
  pub capacity_warning_multiplier : Fraction
  pub capacity_critical_pct : Fraction
  pub capacity_critical_multiplier : Fraction
  pub backlog_surge_multiplier : Fraction
  pub critical_surge_multiplier : Fraction

-- `local_hour` is the hour of `now_utc` in each zone.
pub record ThrottleContext : Type 0 where
  pub local_hour : String → ℕ
  pub api_usage_pct : Fraction
  pub api_days_to_reset : Fraction
  pub backlog_size : ℕ
  pub backlog_critical : ℕ
  pub is_pre_release : Bool

pub data Reason : Type 0 where
  no_windows no_active_window capacity_critical capacity_warning capacity_ok : Reason
  critical_mass surge normal_demand error_fallback : Reason
  in_band : String → Reason

pub record ThrottleResult : Type 0 where
  pub multiplier : Fraction
  pub severity_override : Option SeverityFilter
  pub reason : Reason

abbrev pub plain_result : Fraction → Reason → ThrottleResult
plain_result m r = record { multiplier = m; severity_override = none; reason = r }

unfoldable pub hour_in_window : (hour start end : ℕ) → Bool
hour_in_window hour start end =
    if (start == 0) && (end == 24)
    then true
    else if leb start end
    then leb start hour && ltb hour end
    else leb start hour || ltb hour end

abbrev pub in_force : ThrottleContext → TimeBand → Bool
in_force c b = hour_in_window (c.local_hour b.timezone) b.start_hour b.end_hour

-- The loop over the bands.
unfoldable pub first_band : ThrottleContext → List TimeBand → ThrottleResult
first_band c [] = plain_result (whole 1) no_active_window
first_band c (b ∷ bs) =
    let rest = first_band c bs in
    if in_force c b then plain_result b.multiplier (in_band b.name) else rest

unfoldable pub evaluate_bands : ThrottleContext → List TimeBand → ThrottleResult
evaluate_bands c [] = plain_result (whole 1) no_windows
evaluate_bands c (b ∷ bs) = first_band c (b ∷ bs)

-- `TimeBasedAdapter.evaluate`
unfoldable pub evaluate_time : ThrottleConfig → ThrottleContext → ThrottleResult
evaluate_time config c = evaluate_bands c config.time_bands

-- `CapacityAdapter.evaluate`
unfoldable pub evaluate_capacity : ThrottleConfig → ThrottleContext → ThrottleResult
evaluate_capacity config c =
    if frac_leb config.capacity_critical_pct c.api_usage_pct
    then record {
      multiplier = config.capacity_critical_multiplier;
      severity_override = some critical;
      reason = capacity_critical;
    }
    else if frac_leb config.capacity_warning_pct c.api_usage_pct
        && frac_leb config.capacity_warning_days_remaining c.api_days_to_reset
    then record {
      multiplier = config.capacity_warning_multiplier;
      severity_override = some critical;
      reason = capacity_warning;
    }
    else plain_result (whole 1) capacity_ok

-- `DemandAdapter.evaluate`
unfoldable pub evaluate_demand : ThrottleConfig → ThrottleContext → ThrottleResult
evaluate_demand config c =
    if leb config.backlog_surge_threshold c.backlog_size
      && leb config.critical_surge_threshold c.backlog_critical
    then plain_result config.critical_surge_multiplier critical_mass
    else if leb config.backlog_surge_threshold c.backlog_size || c.is_pre_release
    then plain_result config.backlog_surge_multiplier surge
    else plain_result (whole 1) normal_demand

-- What `resolve` reads of the static configuration.
pub record CycleConfig : Type 0 where
  pub max_new_tickets_per_cycle : ℕ
  pub max_investigations_per_cycle : ℕ
  pub max_developments_per_cycle : ℕ
  pub max_open_investigating : ℕ
  pub severity_filter : SeverityFilter

pub record ResolvedCycleConfig : Type 0 where
  pub max_new_tickets_per_cycle : ℕ
  pub max_investigations_per_cycle : ℕ
  pub max_developments_per_cycle : ℕ
  pub max_open_investigating : ℕ
  pub severity_filter : SeverityFilter
  pub effective_multiplier : Fraction
  pub reasons : List Reason

abbrev pub or_fallback : Option ThrottleResult → ThrottleResult
or_fallback none = plain_result (whole 1) error_fallback
or_fallback (some r) = r

-- The first loop of `resolve`.
unfoldable pub run_adapters :
    ThrottleContext → List (ThrottleContext → Option ThrottleResult) → List ThrottleResult
run_adapters c adapters = map (λ a. or_fallback (a c)) adapters

-- `combined *= r.multiplier`, from 1.0 on.
unfoldable pub combine : Fraction → List ThrottleResult → Fraction
combine m [] = m
combine m (r ∷ rs) =
    combine (record { num = m.num * r.multiplier.num; den = m.den * r.multiplier.den }) rs

abbrev pub min_multiplier : Fraction
min_multiplier = record { num = 1; den = 10 }

abbrev pub max_multiplier : Fraction
max_multiplier = whole 4

-- `max(_MIN_MULTIPLIER, min(_MAX_MULTIPLIER, combined))`
unfoldable pub clamp : Fraction → Fraction
clamp m =
    let top = if frac_ltb m max_multiplier then m else max_multiplier in
    if frac_ltb min_multiplier top then top else min_multiplier

-- `max(1, int(n * combined))`
unfoldable pub scale : ℕ → Fraction → ℕ
scale n m = max 1 ((n * m.num) / m.den)

abbrev pub stricter : SeverityFilter → Option SeverityFilter → SeverityFilter
stricter s none = s
stricter s (some o) = if ltb (sev_rank s) (sev_rank o) then o else s

-- The loop over the overrides.
unfoldable pub override : SeverityFilter → List ThrottleResult → SeverityFilter
override s [] = s
override s (r ∷ rs) = override (stricter s r.severity_override) rs

-- `ThrottlePolicy.resolve`
unfoldable pub resolve :
    CycleConfig
    → List (ThrottleContext → Option ThrottleResult)
    → ThrottleContext
    → ResolvedCycleConfig
resolve base adapters c =
    let results = run_adapters c adapters in
    let combined = clamp (combine (whole 1) results) in
    record {
      max_new_tickets_per_cycle = scale base.max_new_tickets_per_cycle combined;
      max_investigations_per_cycle = scale base.max_investigations_per_cycle combined;
      max_developments_per_cycle = scale base.max_developments_per_cycle combined;
      max_open_investigating = scale base.max_open_investigating combined;
      severity_filter = override base.severity_filter results;
      effective_multiplier = combined;
      reasons = map (λ r. r.reason) results;
    }
