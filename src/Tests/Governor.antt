-- ===== src/Tests/Governor.antt =====
-- A boost and a reduction at the same precedence, at nine on a Monday.
use swe_squad.Prelude.{◌≤◌, String, ◌≡◌, refl, inl, true, none, some, List, [], ◌∷◌, In, arith}
use swe_squad.Rules.{
  GovernanceRule, Moment, matches_time, insert_rule, sort_rules, insert_key, precedences, lower_of,
  most_conservative, resolve_group, resolve_groups, resolve_conflicts, engine, get_active_rules,
  apply_rules, evaluate, in_window,
}
use swe_squad.Rules.Conflicts.{applied, evaluate_applies}

abbrev monday_nine : Moment
monday_nine = record { day_name = "mon"; hour = 9 }

abbrev same_zone : String → Moment
same_zone tz = monday_nine

abbrev boost : GovernanceRule
boost = record {
  name = "boost";
  multiplier = record { num = 2; den = 1 };
  precedence = 2;
  active = true;
  source = "config";
  schedule_days = some ("mon" ∷ []);
  schedule_start_hour = some 9;
  schedule_end_hour = some 18;
  schedule_timezone = none;
}

abbrev brake : GovernanceRule
brake = record boost { name = "brake"; multiplier = record { num = 1; den = 2 } }

abbrev rules : List GovernanceRule
rules = boost ∷ brake ∷ []

brake_applied : In brake (applied same_zone monday_nine rules 10 1 4)
unfolding matches_time in_window insert_rule sort_rules insert_key precedences lower_of
    most_conservative resolve_group resolve_groups resolve_conflicts engine get_active_rules
    apply_rules evaluate
brake_applied = inl refl

evaluate_applies_example :
    ((r : GovernanceRule)
      → In r (applied same_zone monday_nine rules 10 1 4)
      → In r rules × (matches_time same_zone monday_nine r ≡ true))
    × (1 ≤ (evaluate same_zone monday_nine (engine rules 10 1) 4).effective_agents)
    × ((evaluate same_zone monday_nine (engine rules 10 1) 4).effective_agents ≤ 10)
evaluate_applies_example = evaluate_applies same_zone monday_nine rules 10 1 4 (omega arith)
