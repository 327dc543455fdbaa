-- ===== src/Rules.antt =====
-- src/swe_team/providers/usage_governor/rules.py: how rules scale the number of agents.
-- Multipliers are exact fractions with a positive denominator in place of floats. A moment is its
-- day and hour; what `zoneinfo` makes of it in another zone is a parameter. The audit text is
-- left out.
pub mod Window
pub mod Conflicts
use swe_squad.Prelude.{
  ℕ, ◌+◌, ◌*◌, ◌/◌, ◌%◌, min, max, String, Bool, true, false, ◌&&◌, ◌||◌, not, Option, none, some,
  List, [], ◌∷◌, ◌++◌, any, filter, ltb, leb, ◌==◌, str_eq, if◌then◌else◌,
}

pub record Multiplier : Type 0 where
  pub num : ℕ
  pub den : ℕ

pub record GovernanceRule : Type 0 where
  pub name : String
  pub multiplier : Multiplier
  pub precedence : ℕ
  pub active : Bool
  pub source : String
  pub schedule_days : Option (List String)
  pub schedule_start_hour : Option ℕ
  pub schedule_end_hour : Option ℕ
  pub schedule_timezone : Option String

-- The lower-case name of the day, and the hour.
pub record Moment : Type 0 where
  pub day_name : String
  pub hour : ℕ

-- `now.astimezone(tz)` if the rule names a zone.
abbrev pub local_time : (String → Moment) → Moment → Option String → Moment
local_time zones now none = now
local_time zones now (some tz) = if str_eq tz "" then now else zones tz

-- From the hours on in `matches_time`.
unfoldable pub in_window : Option ℕ → Option ℕ → ℕ → Bool
in_window none end hour = true
in_window (some start) none hour = true
in_window (some start) (some end) hour =
    if (start == 0) && (end == 24)
    then true
    else if leb start end
    then leb start hour && ltb hour end
    else leb start hour || ltb hour end

abbrev pub on_day : Option (List String) → String → Bool
on_day none day = true
on_day (some days) day = any (λ d. str_eq d day) days

abbrev pub has_days : Option (List String) → Bool
has_days none = false
has_days (some days) = true

unfoldable pub matches_time : (String → Moment) → Moment → GovernanceRule → Bool
matches_time zones now r =
    let t = local_time zones now r.schedule_timezone in
    if not r.active
    then false
    else if not (has_days r.schedule_days)
    then true
    else if not (on_day r.schedule_days t.day_name)
    then false
    else in_window r.schedule_start_hour r.schedule_end_hour t.hour

-- `sorted(rules, key=lambda r: r.precedence)`, which is stable.
unfoldable pub insert_rule : GovernanceRule → List GovernanceRule → List GovernanceRule
insert_rule r [] = r ∷ []
insert_rule r (s ∷ rs) =
    let rest = insert_rule r rs in if leb r.precedence s.precedence then r ∷ s ∷ rs else s ∷ rest

unfoldable pub sort_rules : List GovernanceRule → List GovernanceRule
sort_rules [] = []
sort_rules (r ∷ rs) = insert_rule r (sort_rules rs)

-- `sorted(by_precedence)`: each precedence once, in order.
unfoldable pub insert_key : ℕ → List ℕ → List ℕ
insert_key p [] = p ∷ []
insert_key p (q ∷ qs) =
    let rest = insert_key p qs in
    if p == q then q ∷ qs else if ltb p q then p ∷ q ∷ qs else q ∷ rest

unfoldable pub precedences : List GovernanceRule → List ℕ
precedences [] = []
precedences (r ∷ rs) = insert_key r.precedence (precedences rs)

abbrev pub is_boost : GovernanceRule → Bool
is_boost r = ltb r.multiplier.den r.multiplier.num

abbrev pub is_reduce : GovernanceRule → Bool
is_reduce r = ltb r.multiplier.num r.multiplier.den

abbrev pub is_less : GovernanceRule → GovernanceRule → Bool
is_less r s = ltb (r.multiplier.num * s.multiplier.den) (s.multiplier.num * r.multiplier.den)

unfoldable pub lower_of : GovernanceRule → GovernanceRule → GovernanceRule
lower_of r s = if is_less s r then s else r

-- `min(group, key=lambda r: r.multiplier)`: the first of the least.
unfoldable pub most_conservative : GovernanceRule → List GovernanceRule → GovernanceRule
most_conservative r [] = r
most_conservative r (s ∷ rs) = most_conservative (lower_of r s) rs

unfoldable pub resolve_group : List GovernanceRule → List GovernanceRule
resolve_group [] = []
resolve_group (r ∷ []) = r ∷ []
resolve_group (r ∷ s ∷ rs) =
    if any is_boost (r ∷ s ∷ rs) && any is_reduce (r ∷ s ∷ rs)
    then most_conservative r (s ∷ rs) ∷ []
    else r ∷ s ∷ rs

abbrev pub group_of : ℕ → List GovernanceRule → List GovernanceRule
group_of p rules = filter (λ r. r.precedence == p) rules

unfoldable pub resolve_groups : List ℕ → List GovernanceRule → List GovernanceRule
resolve_groups [] rules = []
resolve_groups (p ∷ ps) rules = resolve_group (group_of p rules) ++ resolve_groups ps rules

unfoldable pub resolve_conflicts : List GovernanceRule → List GovernanceRule
resolve_conflicts rules = sort_rules (resolve_groups (precedences rules) rules)

pub record RuleEngine : Type 0 where
  pub rules : List GovernanceRule
  pub max_absolute : ℕ
  pub min_absolute : ℕ

-- `RuleEngine(rules, hard_limits)`
unfoldable pub engine : List GovernanceRule → (max_absolute min_absolute : ℕ) → RuleEngine
engine rules max_absolute min_absolute = record {
  rules = sort_rules rules;
  max_absolute = max_absolute;
  min_absolute = min_absolute;
}

unfoldable pub get_active_rules : (String → Moment) → Moment → RuleEngine → List GovernanceRule
get_active_rules zones now e = filter (matches_time zones now) e.rules

unfoldable pub combine : List GovernanceRule → Multiplier
combine [] = record { num = 1; den = 1 }
combine (r ∷ rs) =
    let m = combine rs in record { num = r.multiplier.num * m.num; den = r.multiplier.den * m.den }

-- `round` of the fraction: to the nearest number, and half-way to the even one.
unfoldable pub round : ℕ → ℕ → ℕ
round num den =
    let q = num / den in
    let r = num % den in if ltb (2 * r) den then q else if ltb den (2 * r) then q + 1 else q + q % 2

pub record RuleResult : Type 0 where
  pub effective_agents : ℕ
  pub base_agents : ℕ
  pub combined_multiplier : Multiplier
  pub applied_rules : List GovernanceRule

abbrev pub clamp : RuleEngine → ℕ → ℕ
clamp e n = max e.min_absolute (min n e.max_absolute)

-- `evaluate` from `get_active_rules` on.
unfoldable pub apply_rules : RuleEngine → ℕ → List GovernanceRule → RuleResult
apply_rules e base_agents [] = record {
  effective_agents = clamp e base_agents;
  base_agents = base_agents;
  combined_multiplier = record { num = 1; den = 1 };
  applied_rules = [];
}
apply_rules e base_agents (r ∷ rs) =
    let resolved = resolve_conflicts (r ∷ rs) in
    let m = combine resolved in
    record {
      effective_agents = clamp e (round (base_agents * m.num) m.den);
      base_agents = base_agents;
      combined_multiplier = m;
      applied_rules = resolved;
    }

unfoldable pub evaluate : (String → Moment) → Moment → RuleEngine → ℕ → RuleResult
evaluate zones now e base_agents = apply_rules e base_agents (get_active_rules zones now e)
