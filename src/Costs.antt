-- ===== src/Costs.antt =====
-- `InMemoryCostTracker` of src/swe_team/cost_tracker.py and `BudgetStatus` of
-- src/swe_team/providers/cost/base.py. A cost is an exact number of ten-thousandths of a cent, to
-- which the source rounds a float, and budgets are cents. A timestamp is its day, and the month of
-- a day is an argument. The reports by operation and by ticket only read.
pub mod Budget
use swe_squad.Prelude.{
  ℕ, zero, suc, ◌+◌, ◌*◌, Bool, true, false, ◌&&◌, ◌||◌, Option, none, some, List, [], ◌∷◌, ◌++◌,
  String, str_eq, Dict, lookup, insert, codes, lower, contains, leb, ltb, ◌==◌, if◌then◌else◌,
}
use swe_squad.Rules.{round}

-- The prices of input and output in cents for a million tokens.
pub record Rates : Type 0 where
  pub input : ℕ
  pub output : ℕ

abbrev rates : ℕ → ℕ → Rates
rates input output = record { input = input; output = output }

pub data ModelKey : Type 0 where
  opus sonnet haiku fallback : ModelKey

abbrev pub pricing : ModelKey → Rates
pricing opus = rates 1500 7500
pricing sonnet = rates 300 1500
pricing haiku = rates 80 400
pricing fallback = rates 300 1500

-- A model name is a text by code points.
unfoldable pub resolve_model_key : List ℕ → ModelKey
resolve_model_key model =
    let name = lower model in
    if contains (codes "opus") name
    then opus
    else if contains (codes "sonnet") name
    then sonnet
    else if contains (codes "haiku") name
    then haiku
    else fallback

-- Millionths of a cent.
unfoldable pub compute_cost : List ℕ → ℕ → ℕ → ℕ
compute_cost model input_tokens output_tokens =
    let r = pricing (resolve_model_key model) in input_tokens * r.input + output_tokens * r.output

pub record CostEvent : Type 0 where
  pub team_id : String
  pub model : List ℕ
  pub input_tokens : ℕ
  pub output_tokens : ℕ
  pub cost : ℕ
  pub operation : String
  pub ticket_id : String
  pub day : ℕ

pub record BudgetPolicy : Type 0 where
  pub daily_budget_cents : ℕ
  pub monthly_budget_cents : ℕ
  pub alert_threshold_percent : ℕ
  pub hard_stop_enabled : Bool

abbrev pub default_policy : BudgetPolicy
default_policy = record {
  daily_budget_cents = 5000;
  monthly_budget_cents = 100000;
  alert_threshold_percent = 80;
  hard_stop_enabled = true;
}

pub record CostTracker : Type 0 where
  pub events : List CostEvent
  pub policies : Dict BudgetPolicy

unfoldable pub set_budget_policy : String → BudgetPolicy → CostTracker → CostTracker
set_budget_policy team_id p c = record c { policies = insert team_id p c.policies }

abbrev pub policy_or : Option BudgetPolicy → BudgetPolicy
policy_or none = default_policy
policy_or (some p) = p

-- The policy, which is stored if it was not there.
unfoldable pub get_budget_policy : String → CostTracker → CostTracker × BudgetPolicy
get_budget_policy team_id c = elim (lookup team_id c.policies) [
  | none ↦ (record c { policies = insert team_id default_policy c.policies }, default_policy)
  | some p ↦ (c, p)
]

unfoldable pub record_cost :
    (today : ℕ) (team_id : String) (model : List ℕ) (input_tokens output_tokens : ℕ)
    (operation ticket_id : String)
    → CostTracker
    → CostTracker × ℕ
record_cost today team_id model input_tokens output_tokens operation ticket_id c =
    let cost = compute_cost model input_tokens output_tokens in
    (
      record c {
        events =
            c.events
            ++ record {
              team_id = team_id;
              model = model;
              input_tokens = input_tokens;
              output_tokens = output_tokens;
              cost = round cost 100;
              operation = operation;
              ticket_id = ticket_id;
              day = today;
            }
              ∷ [];
      },
      cost,
    )

-- The sum over the events of the team that are in the period.
unfoldable pub spend : String → (ℕ → Bool) → List CostEvent → ℕ
spend team_id in_period [] = 0
spend team_id in_period (e ∷ es) =
    (if str_eq e.team_id team_id && in_period e.day then e.cost else 0) + spend team_id in_period es

abbrev pub get_daily_spend : (today : ℕ) → String → CostTracker → ℕ
get_daily_spend today team_id c = spend team_id (λ d. d == today) c.events

abbrev pub get_monthly_spend : (month_of : ℕ → ℕ) (today : ℕ) → String → CostTracker → ℕ
get_monthly_spend month_of today team_id c =
    spend team_id (λ d. month_of d == month_of today) c.events

pub data Status : Type 0 where
  all_ok warning hard_stop : Status

pub record BudgetStatus : Type 0 where
  pub status : Status
  pub daily_spent : ℕ
  pub daily_limit : ℕ
  pub monthly_spent : ℕ
  pub monthly_limit : ℕ

abbrev pub is_hard_stop : Status → Bool
is_hard_stop hard_stop = true
is_hard_stop _ = false

abbrev pub is_over_budget : BudgetStatus → Bool
is_over_budget s = is_hard_stop s.status

-- `spent / budget * 100 >= pct`, with 0 for a budget of 0.
unfoldable pub used_at_least : (spent budget pct : ℕ) → Bool
used_at_least spent budget pct =
    if ltb 0 budget then leb (pct * (budget * 10000)) (spent * 100) else pct == 0

-- The larger of the two percentages is at least `pct`.
abbrev pub percent_at_least : BudgetPolicy → (daily monthly pct : ℕ) → Bool
percent_at_least p daily monthly pct =
    used_at_least daily p.daily_budget_cents pct || used_at_least monthly p.monthly_budget_cents pct

unfoldable pub status_of : BudgetPolicy → (daily monthly : ℕ) → Status
status_of p daily monthly =
    if p.hard_stop_enabled && percent_at_least p daily monthly 100
    then hard_stop
    else if percent_at_least p daily monthly p.alert_threshold_percent
    then warning
    else all_ok

unfoldable pub check_budget :
    (month_of : ℕ → ℕ) (today : ℕ) → String → CostTracker → CostTracker × BudgetStatus
check_budget month_of today team_id c =
    let (c', p) = get_budget_policy team_id c in
    let daily = get_daily_spend today team_id c' in
    let monthly = get_monthly_spend month_of today team_id c' in
    (
      c',
      record {
        status = status_of p daily monthly;
        daily_spent = daily;
        daily_limit = p.daily_budget_cents;
        monthly_spent = monthly;
        monthly_limit = p.monthly_budget_cents;
      },
    )
