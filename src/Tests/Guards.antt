-- ===== src/Tests/Guards.antt =====
-- A team with a daily budget of one cent, and a governor with half of its quota left.
use swe_squad.Prelude.{
  ◌/◌, ℕ, String, ◌≡◌, ◌≢◌, refl, inl, ◌↔◌, true, false, none, some, [], ◌∷◌, codes, lookup, insert,
  contains, lower, is_prefix, arith,
}
use swe_squad.Rules.{Moment, round}
use swe_squad.Costs.{
  CostTracker, compute_cost, resolve_model_key, check_budget, get_budget_policy, is_over_budget,
  spend, status_of, used_at_least, set_budget_policy,
}
use swe_squad.Costs.Budget.{cost, IsOver, check_budget_iff}
use swe_squad.Governor.{
  Usage, untracked, hourly, tier, default_tiers, Governor, get_tier, get_quota_status,
  get_usage_data, ConcurrencyDecision, should_launch_new_agent, rank,
}
use swe_squad.Governor.Tiers.{IsMatched, get_tier-IsMatched}
use swe_squad.Governor.Launch.{reaches, least_rank, should_launch_new_agent_default}
use swe_squad.Governor.Alerts.{AlertSettings}
use swe_squad.Guardrails.{
  Coordinator, Overrides, absent, value, in_memory, budget_gate, set_cost_tracker, evaluate,
  override_budget, apply_team_budget_override, get_effective_overrides, findings, budget_gate_of,
  breaker_of, breaker_blocks, decide, Request,
}
use swe_squad.Guardrails.Gates.{IsDecided, blocks_at, set_gates, found, evaluate-IsDecided}
use swe_squad.Guardrails.Installed.{install, evaluate_ignores_request}
use swe_squad.Guardrails.Spending.{record_costs, budget_keeps_blocking}

abbrev thirty_days : ℕ → ℕ
thirty_days day = day / 30

-- 10,000 tokens written by a small model: 4 cents.
abbrev spent : CostTracker
spent = record {
  events =
      record {
        team_id = "alpha";
        model = codes "claude-haiku";
        input_tokens = 0;
        output_tokens = 10000;
        cost = 40000;
        operation = "develop";
        ticket_id = "t1";
        day = 7;
      }
      ∷ [];
  policies =
      (
        "alpha",
        record {
          daily_budget_cents = 4;
          monthly_budget_cents = 0;
          alert_threshold_percent = 80;
          hard_stop_enabled = true;
        },
      )
      ∷ [];
}

priced : compute_cost (codes "Claude-Haiku") 0 10000 ≡ 4000000
unfolding compute_cost resolve_model_key contains lower is_prefix
priced = refl

check_budget_iff_example :
    (is_over_budget (check_budget thirty_days 7 "alpha" spent).1 ≡ true)
    ↔ IsOver thirty_days 7 "alpha" spent
check_budget_iff_example = check_budget_iff thirty_days 7 "alpha" spent

abbrev monday_nine : Moment
monday_nine = record { day_name = "mon"; hour = 9 }

abbrev same_zone : String → Moment
same_zone tz = monday_nine

abbrev governor : Governor
governor = record {
  quota_limit = 1000;
  max_agents = 5;
  tiers = [];
  schedule = some [];
  bonus = none;
  overrides = [];
  max_absolute = 10;
  min_absolute = 1;
}

abbrev half_used : Usage
half_used = hourly (record { input_tokens = 300; output_tokens = 200 } ∷ [])

half_left : (get_quota_status 1000 half_used).remaining_pct ≡ 5000
unfolding get_quota_status get_usage_data round
half_left = refl

get_tier-IsMatched_example : IsMatched 6999 default_tiers (get_tier default_tiers 6999)
get_tier-IsMatched_example = get_tier-IsMatched default_tiers 6999 (tier 70 5 "low" true) (inl refl)

is_tracked : half_used ≢ untracked
is_tracked e = ground arith

should_launch_new_agent_default_example :
    should_launch_new_agent same_zone monday_nine monday_nine governor half_used (codes "Medium")
    ≡ reaches 1 (least_rank 5000)
unfolding get_quota_status round get_usage_data rank lower
should_launch_new_agent_default_example =
    should_launch_new_agent_default same_zone monday_nine monday_nine governor half_used
      (codes "Medium") refl is_tracked

abbrev settings : AlertSettings
settings = record {
  quota_limit = 1000;
  quota_warning_pct = 60;
  quota_critical_pct = 10;
  burn_rate_spike_multiplier = record { num = 2; den = 1 };
  alert_throttle_minutes = 60;
}

abbrev no_overrides : Overrides
no_overrides = record {
  budget_daily = absent;
  max_concurrent = absent;
  circuit_breaker_threshold = absent;
}

abbrev coordinator : Coordinator
coordinator = record {
  circuit_breaker = none;
  team_circuit_breakers = [];
  stability_gate = none;
  usage_governor = none;
  has_throttle = true;
  cost_tracker = some (in_memory spent);
  team_id = "alpha";
  team_overrides = ("alpha", record no_overrides { budget_daily = value 1 }) ∷ [];
  global_overrides = no_overrides;
}

abbrev request : Request
request = record {
  task_type = "develop";
  ticket_severity = "HIGH";
  current_agents = 0;
  for_team = none;
}

evaluate-IsDecided_example :
    let f = found thirty_days 7 100 request coordinator in
    IsDecided (blocks_at f) (set_gates f true) [] (evaluate thirty_days 7 100 request coordinator).1
evaluate-IsDecided_example = evaluate-IsDecided thirty_days 7 100 request coordinator

abbrev decision : ConcurrencyDecision
decision = record {
  max_parallel_agents = 1;
  priority_floor = codes "critical";
  allow_new_work = true;
  applied_rules = [];
}

abbrev with_gates : Coordinator
with_gates = install (some decision) true coordinator

evaluate_ignores_request_example :
    (evaluate thirty_days 8 100 request with_gates).1.allowed
    ≡ (evaluate thirty_days 8 100
        (record request { task_type = "deploy"; ticket_severity = "LOW"; current_agents = 50 })
        with_gates).1.allowed
evaluate_ignores_request_example =
    evaluate_ignores_request thirty_days 8 100 request (some decision) true coordinator "deploy"
      "LOW" 50

abbrev tracked : Coordinator
tracked = set_cost_tracker (in_memory spent) "alpha" coordinator

stopped : (evaluate thirty_days 7 100 request tracked).1.gate ≡ budget_gate
unfolding evaluate set_cost_tracker override_budget apply_team_budget_override
    get_effective_overrides findings budget_gate_of breaker_of breaker_blocks decide check_budget
    get_budget_policy set_budget_policy spend status_of used_at_least lookup insert
stopped = refl

budget_keeps_blocking_example :
    (evaluate thirty_days 7 200
      (record request { task_type = "triage"; ticket_severity = "CRITICAL"; current_agents = 1 })
      (record_costs 7
        (cost "beta" (codes "opus") 10 10 "triage" "t2" ∷ [])
        (evaluate thirty_days 7 100 request tracked).0)).1.allowed
    ≡ false
budget_keeps_blocking_example =
    budget_keeps_blocking thirty_days 7 100 200 request "triage" "CRITICAL" 1 "alpha" spent
      coordinator (cost "beta" (codes "opus") 10 10 "triage" "t2" ∷ []) stopped
