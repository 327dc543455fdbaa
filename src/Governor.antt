-- ===== src/Governor.antt =====
-- src/swe_team/providers/usage_governor/adaptive.py and schedule.py: how many agents may run, for
-- the tokens used. Rates and multipliers are exact fractions in place of floats; a percentage and
-- whatever else is rounded to two places is a number of hundredths. Priorities are texts by code
-- points. The clocks, the hourly usage and the multiplier of a detected bonus are arguments; the
-- texts of reasons and summaries are left out.
pub mod Alerts
pub mod Tiers
pub mod Launch
use swe_squad.Prelude.{
  sort_on, ℕ, zero, suc, ◌+◌, ◌-◌, ◌*◌, ◌/◌, max, String, Bool, true, false, ◌&&◌, ◌||◌, not,
  Option, none, some, List, [], ◌∷◌, ◌++◌, map, any, length, ltb, leb, ◌==◌, str_eq, seq_eq, codes,
  lower, if◌then◌else◌,
}
use Prim.Native.String.{◌++◌ as str_append}
use swe_squad.Rules.{
  Multiplier, GovernanceRule, Moment, engine, evaluate, RuleEngine, RuleResult, round,
}

-- The entry of an hour in `by_hour`.
pub record Hour : Type 0 where
  pub input_tokens : ℕ
  pub output_tokens : ℕ

-- What the token tracker gives: there is none, its call raises, or the hours with usage.
pub data Usage : Type 0 where
  untracked failing : Usage
  hourly : List Hour → Usage

pub record Tier : Type 0 where
  pub remaining_pct : Option ℕ
  pub max_agents : Option ℕ
  pub priority_floor : Option (List ℕ)
  pub allow_new_work : Option Bool

abbrev pub tier : ℕ → ℕ → String → Bool → Tier
tier pct agents floor new_work = record {
  remaining_pct = some pct;
  max_agents = some agents;
  priority_floor = some (codes floor);
  allow_new_work = some new_work;
}

abbrev pub default_tiers : List Tier
default_tiers =
    tier 70 5 "low" true
    ∷ tier 50 3 "medium" true
    ∷ tier 30 2 "high" true
    ∷ tier 10 1 "critical" false
    ∷ []

pub record UsageWindow : Type 0 where
  pub name : String
  pub concurrency_multiplier : Multiplier
  pub days : List String
  pub start_hour : ℕ
  pub end_hour : ℕ

unfoldable pub matches : UsageWindow → Moment → Bool
matches w now =
    if not (any (λ d. str_eq d now.day_name) w.days)
    then false
    else if leb w.start_hour w.end_hour
    then leb w.start_hour now.hour && ltb now.hour w.end_hour
    else leb w.start_hour now.hour || ltb now.hour w.end_hour

abbrev weekdays : List String
weekdays = "mon" ∷ "tue" ∷ "wed" ∷ "thu" ∷ "fri" ∷ []

abbrev usage_window : String → ℕ → ℕ → List String → ℕ → ℕ → UsageWindow
usage_window name num den days start end = record {
  name = name;
  concurrency_multiplier = record { num = num; den = den };
  days = days;
  start_hour = start;
  end_hour = end;
}

abbrev pub default_windows : List UsageWindow
default_windows =
    usage_window "weekday_peak" 3 5 weekdays 9 18
    ∷ usage_window "weekday_offpeak" 1 1 weekdays 18 9
    ∷ usage_window "weekend" 3 2 ("sat" ∷ "sun" ∷ []) 0 24
    ∷ []

-- The first window that matches, or `default`.
unfoldable pub first_match : List UsageWindow → Moment → UsageWindow
first_match [] now = usage_window "default" 1 1 [] 0 24
first_match (w ∷ ws) now = if matches w now then w else first_match ws now

-- `windows or self._default_windows()`
abbrev pub windows_or_default : List UsageWindow → List UsageWindow
windows_or_default [] = default_windows
windows_or_default (w ∷ ws) = w ∷ ws

unfoldable pub get_current_window : List UsageWindow → Moment → UsageWindow
get_current_window windows now = first_match (windows_or_default windows) now

-- `schedule` holds the windows of a scheduler, if there is one; `bonus` the multiplier of the
-- current bonus.
pub record Governor : Type 0 where
  pub quota_limit : ℕ
  pub max_agents : ℕ
  pub tiers : List Tier
  pub schedule : Option (List UsageWindow)
  pub bonus : Option Multiplier
  pub overrides : List GovernanceRule
  pub max_absolute : ℕ
  pub min_absolute : ℕ

-- `tiers if tiers else _DEFAULT_TIERS`
abbrev pub tiers_or_default : List Tier → List Tier
tiers_or_default [] = default_tiers
tiers_or_default (t ∷ ts) = t ∷ ts

-- A rule for now, whichever the time.
abbrev rule : String → Multiplier → ℕ → GovernanceRule
rule name multiplier precedence = record {
  name = name;
  multiplier = multiplier;
  precedence = precedence;
  active = true;
  source = "detected";
  schedule_days = none;
  schedule_start_hour = none;
  schedule_end_hour = none;
  schedule_timezone = none;
}

-- No rule for a multiplier of 1.
abbrev rule_unless_one : String → Multiplier → ℕ → List GovernanceRule
rule_unless_one name m precedence = if m.num == m.den then [] else rule name m precedence ∷ []

unfoldable pub schedule_rules : Option (List UsageWindow) → Moment → List GovernanceRule
schedule_rules none now = []
schedule_rules (some windows) now =
    let w = get_current_window windows now in
    rule_unless_one (str_append "schedule_" w.name) w.concurrency_multiplier 4

unfoldable pub bonus_rules : Option Multiplier → List GovernanceRule
bonus_rules none = []
bonus_rules (some m) = rule_unless_one "bonus" m 3

unfoldable pub get_dynamic_rules : Governor → Moment → List GovernanceRule
get_dynamic_rules g local_now = schedule_rules g.schedule local_now ++ bonus_rules g.bonus

abbrev tokens_of : Hour → ℕ
tokens_of h = h.input_tokens + h.output_tokens

abbrev pub sum : List ℕ → ℕ
sum [] = 0
sum (n ∷ ns) = n + sum ns

-- Tokens for a number of hours.
pub record Rate : Type 0 where
  pub tokens : ℕ
  pub hours : ℕ

unfoldable pub get_usage_data : Usage → ℕ × Rate
get_usage_data untracked = (0, record { tokens = 0; hours = 1 })
get_usage_data failing = (0, record { tokens = 0; hours = 1 })
get_usage_data (hourly []) = (0, record { tokens = 0; hours = 1 })
get_usage_data (hourly (h ∷ hs)) =
    let total = sum (map tokens_of (h ∷ hs)) in
    (total, record { tokens = total; hours = max (length (h ∷ hs)) 1 })

pub record QuotaStatus : Type 0 where
  pub total_tokens_used : ℕ
  pub quota_limit : ℕ
  pub remaining_pct : ℕ
  pub burn_rate_tokens_per_hour : ℕ
  pub estimated_hours_until_exhaustion : Option ℕ

unfoldable pub get_quota_status : ℕ → Usage → QuotaStatus
get_quota_status limit usage =
    let (total, rate) = get_usage_data usage in
    let remaining = limit - total in
    record {
      total_tokens_used = total;
      quota_limit = limit;
      remaining_pct = if ltb 0 limit then round (remaining * 10000) limit else 0;
      burn_rate_tokens_per_hour = round (rate.tokens * 100) rate.hours;
      estimated_hours_until_exhaustion =
          if ltb 0 rate.tokens
          then some (round (remaining * rate.hours * 100) rate.tokens)
          else none;
    }

-- `t.get("remaining_pct", 0)`
abbrev pub threshold : Tier → ℕ
threshold t = elim t.remaining_pct [ none ↦ 0 | some n ↦ n ]

abbrev pub sort_tiers : List Tier → List Tier
sort_tiers tiers = sort_on threshold tiers

-- The loop of `_get_tier`, with the percentage in hundredths.
unfoldable pub match_tier : ℕ → Tier → List Tier → Tier
match_tier pct matched [] = matched
match_tier pct matched (t ∷ ts) =
    match_tier pct (if leb (threshold t * 100) pct then t else matched) ts

unfoldable pub first_tier : List Tier → Tier
first_tier [] = tier 70 5 "low" true
first_tier (t ∷ ts) = t

unfoldable pub get_tier : List Tier → ℕ → Tier
get_tier tiers pct = let sorted = sort_tiers tiers in match_tier pct (first_tier sorted) sorted

pub record ConcurrencyDecision : Type 0 where
  pub max_parallel_agents : ℕ
  pub priority_floor : List ℕ
  pub allow_new_work : Bool
  pub applied_rules : List GovernanceRule

-- A tier's field, or the default.
abbrev pub or_else {ℓ} : {A : Type ℓ} → A → Option A → A
or_else a none = a
or_else a (some b) = b

unfoldable pub decide :
    (zones : String → Moment) (now local_now : Moment) → Governor → Usage → ConcurrencyDecision
decide zones now local_now g usage =
    let t =
      get_tier (tiers_or_default g.tiers) (get_quota_status g.quota_limit usage).remaining_pct in
    let static = (engine g.overrides g.max_absolute g.min_absolute).rules in
    let e = engine (static ++ get_dynamic_rules g local_now) g.max_absolute g.min_absolute in
    let result = evaluate zones now e (or_else g.max_agents t.max_agents) in
    record {
      max_parallel_agents = result.effective_agents;
      priority_floor = or_else (codes "low") t.priority_floor;
      allow_new_work = or_else true t.allow_new_work;
      applied_rules = result.applied_rules;
    }

unfoldable pub get_concurrency_decision :
    (zones : String → Moment) (now local_now : Moment) → Governor → Usage → ConcurrencyDecision
get_concurrency_decision zones now local_now g untracked = record {
  max_parallel_agents = 1;
  priority_floor = codes "critical";
  allow_new_work = false;
  applied_rules = [];
}
get_concurrency_decision zones now local_now g failing = decide zones now local_now g failing
get_concurrency_decision zones now local_now g (hourly hs) =
    decide zones now local_now g (hourly hs)

-- `_PRIORITY_RANK.get(name, 0)`
unfoldable pub rank : List ℕ → ℕ
rank name =
    if seq_eq name (codes "medium")
    then 1
    else if seq_eq name (codes "high")
    then 2
    else if seq_eq name (codes "critical")
    then 3
    else 0

unfoldable pub should_launch_new_agent :
    (zones : String → Moment) (now local_now : Moment)
    → Governor
    → Usage
    → (priority : List ℕ) → Bool
should_launch_new_agent zones now local_now g usage priority =
    let d = get_concurrency_decision zones now local_now g usage in
    if not d.allow_new_work
    then false
    else if ltb (rank (lower priority)) (rank (lower d.priority_floor))
    then false
    else true
