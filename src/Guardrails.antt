-- ===== src/Guardrails.antt =====
-- `GuardrailsCoordinator` of src/swe_team/guardrails.py, on the circuit breaker and the cost
-- tracker of this library. The usage governor and the stability gate are what their calls give, as
-- any object may be set for them; the decision of a governor has the attributes of a
-- `ConcurrencyDecision`. The rates and budgets of the configuration are not negative, and a daily
-- budget is in cents, as `int(float(…) * 100)` makes it. Texts of reasons are constructors;
-- `health` only reads.
pub mod Gates
pub mod Installed
pub mod Spending
use swe_squad.Prelude.{
  ℕ, zero, suc, ◌+◌, ◌*◌, min, String, Bool, true, false, ◌&&◌, ◌||◌, not, Option, none, some, List,
  [], ◌∷◌, ◌++◌, Dict, lookup, insert, ltb, leb, ◌==◌, str_eq, if◌then◌else◌,
}
use swe_squad.Breaker.{CircuitBreaker, is_paused, over_threshold}
use swe_squad.Costs.{
  CostTracker, BudgetPolicy, get_budget_policy, set_budget_policy, check_budget, is_over_budget,
}
use swe_squad.Rules.{Multiplier}

-- A value of the configuration: no key, `None`, what is no number, or a number.
pub data Setting (A : Type 0) : Type 0 where
  absent null unreadable : Setting A
  value : A → Setting A

pub record Overrides : Type 0 where
  pub budget_daily : Setting ℕ
  pub max_concurrent : Setting ℕ
  pub circuit_breaker_threshold : Setting Multiplier

-- `allow_new_work` and `priority_floor`, which is a number or a text, and the number of agents
-- under its two names.
pub data Floor : Type 0 where
  number : ℕ → Floor
  text : List ℕ → Floor

pub record Decision : Type 0 where
  pub allow_new_work : Bool
  pub priority_floor : Floor
  pub max_agents : Option ℕ
  pub max_parallel_agents : Option ℕ

-- What the call of a gate gives: it raises, or it returns.
pub data Answer (A : Type 0) : Type 0 where
  raises : Answer A
  returns : A → Answer A

-- The verdict of a report: it equals the text "BLOCK", or not.
pub data Verdict : Type 0 where
  block_text other_verdict : Verdict

-- The tracker of this library, or one whose calls raise.
pub data CostProvider : Type 0 where
  in_memory : CostTracker → CostProvider
  failing : CostProvider

pub record Coordinator : Type 0 where
  pub circuit_breaker : Option CircuitBreaker
  pub team_circuit_breakers : Dict CircuitBreaker
  pub stability_gate : Option (Answer Verdict)
  pub usage_governor : Option (Answer Decision)
  pub has_throttle : Bool
  pub cost_tracker : Option CostProvider
  pub team_id : String
  pub team_overrides : Dict Overrides
  pub global_overrides : Overrides

-- `set_circuit_breaker`; the setters of the other gates set a field.
unfoldable pub set_circuit_breaker : CircuitBreaker → String → Coordinator → Coordinator
set_circuit_breaker cb team_id c =
    if str_eq team_id ""
    then record c { circuit_breaker = some cb }
    else record c { team_circuit_breakers = insert team_id cb c.team_circuit_breakers }

unfoldable pub set_cost_tracker : CostProvider → String → Coordinator → Coordinator
set_cost_tracker tracker team_id c = record c { cost_tracker = some tracker; team_id = team_id }

-- `team_cfg.get(key, self._global_overrides.get(key))`
abbrev pub setting_or : {A : Type 0} → Setting A → Setting A → Setting A
setting_or absent s = s
setting_or null s = null
setting_or unreadable s = unreadable
setting_or (value a) s = value a

unfoldable pub get_effective_overrides : String → Coordinator → Overrides
get_effective_overrides team c = elim (lookup team c.team_overrides) [
  | none ↦ c.global_overrides
  | some o ↦ record {
    budget_daily = setting_or o.budget_daily c.global_overrides.budget_daily;
    max_concurrent = setting_or o.max_concurrent c.global_overrides.max_concurrent;
    circuit_breaker_threshold =
        setting_or o.circuit_breaker_threshold c.global_overrides.circuit_breaker_threshold;
  }
]

-- `_safe_int` and `_safe_float`
abbrev pub safe : {A : Type 0} → Setting A → Option A
safe (value a) = some a
safe _ = none

-- The override as the policy of the team.
unfoldable pub override_budget : String → Setting ℕ → CostTracker → CostTracker
override_budget team absent t = t
override_budget team null t = t
override_budget team unreadable t = (get_budget_policy team t).0
override_budget team (value cents) t =
    let (t', p) = get_budget_policy team t in
    set_budget_policy team (record p { daily_budget_cents = cents }) t'

abbrev pub override_provider : String → Setting ℕ → Option CostProvider → Option CostProvider
override_provider team budget none = none
override_provider team budget (some failing) = some failing
override_provider team budget (some (in_memory t)) =
    some (in_memory (override_budget team budget t))

unfoldable pub apply_team_budget_override : String → Overrides → Coordinator → Coordinator
apply_team_budget_override team o c =
    if str_eq team ""
    then c
    else record c { cost_tracker = override_provider team o.budget_daily c.cost_tracker }

unfoldable pub get_max_agents : Decision → ℕ
get_max_agents d = elim d.max_agents [
  | some n ↦ n
  | none ↦ elim d.max_parallel_agents [ none ↦ 0 | some n ↦ n ]
]

pub data Gate : Type 0 where
  circuit_breaker_gate budget_gate usage_governor_gate stability_gate throttle all_clear : Gate

pub data Reason : Type 0 where
  paused threshold_exceeded over_budget no_new_work below_floor agents_full unstable passed : Reason

pub record GuardrailDecision : Type 0 where
  pub allowed : Bool
  pub reason : Reason
  pub gate : Gate
  pub evaluated_gates : List Gate

-- `team_id or self._team_id`
abbrev pub active_team : Option String → String → String
active_team none own = own
active_team (some t) own = if str_eq t "" then own else t

unfoldable pub breaker_of : String → Coordinator → Option CircuitBreaker
breaker_of team c =
    if str_eq team ""
    then c.circuit_breaker
    else elim (lookup team c.team_circuit_breakers) [ none ↦ c.circuit_breaker | some b ↦ some b ]

-- Why the circuit breaker blocks, if it does.
unfoldable pub breaker_blocks : ℕ → Setting Multiplier → CircuitBreaker → Option Reason
breaker_blocks now threshold b = if is_paused now b then some paused else elim (safe threshold) [
  | none ↦ none
  | some m ↦
      if over_threshold (record b { threshold_num = m.num; threshold_den = m.den })
      then some threshold_exceeded
      else none
]

-- `severity_priority.get(ticket_severity, 2)`
unfoldable pub severity_number : String → ℕ
severity_number s =
    if str_eq s "CRITICAL"
    then 0
    else if str_eq s "HIGH"
    then 1
    else if str_eq s "LOW"
    then 3
    else if str_eq s "INFO"
    then 4
    else 2

-- `sev_num > decision.priority_floor`, which raises for a text.
abbrev pub exceeds_floor : ℕ → Floor → Answer Bool
exceeds_floor n (number f) = returns (ltb f n)
exceeds_floor n (text s) = raises

abbrev pub limit_agents : ℕ → Option ℕ → ℕ
limit_agents n none = n
limit_agents n (some m) = min n m

-- From the test of the floor on.
abbrev floor_blocks : (below : Answer Bool) (current max_agents : ℕ) → Option Reason
floor_blocks raises current max_agents = none
floor_blocks (returns true) current max_agents = some below_floor
floor_blocks (returns false) current max_agents =
    if leb max_agents current then some agents_full else none

unfoldable pub governor_blocks :
    (severity : String) (current : ℕ) → Setting ℕ → Answer Decision → Option Reason
governor_blocks severity current max_concurrent raises = none
governor_blocks severity current max_concurrent (returns d) =
    if not d.allow_new_work
    then some no_new_work
    else floor_blocks (exceeds_floor (severity_number severity) d.priority_floor) current
        (limit_agents (get_max_agents d) (safe max_concurrent))

unfoldable pub stability_blocks : Answer Verdict → Option Reason
stability_blocks raises = none
stability_blocks (returns other_verdict) = none
stability_blocks (returns block_text) = some unstable

-- The gate of the budget, where there is a tracker and a team.
unfoldable pub budget_gate_of :
    (month_of : ℕ → ℕ) (today : ℕ) (team : String)
    → Option CostProvider
    → Option CostProvider × Option (Option Reason)
budget_gate_of month_of today team none = (none, none)
budget_gate_of month_of today team (some failing) =
    (some failing, if str_eq team "" then none else some none)
budget_gate_of month_of today team (some (in_memory t)) =
    let (t', status) = check_budget month_of today team t in
    if str_eq team ""
    then (some (in_memory t), none)
    else (some (in_memory t'), some (if is_over_budget status then some over_budget else none))

-- What a gate that is set finds.
abbrev pub gate_of : {A : Type 0} → (A → Option Reason) → Option A → Option (Option Reason)
gate_of find none = none
gate_of find (some a) = some (find a)

abbrev pub is_checked_task : String → Bool
is_checked_task task_type = str_eq task_type "deploy" || str_eq task_type "creative"

-- A gate that is not set is passed over; one that blocks ends the evaluation.
abbrev pub through :
    Gate → Option (Option Reason) → (List Gate → GuardrailDecision) → List Gate → GuardrailDecision
through g none next evaluated = next evaluated
through g (some none) next evaluated = next (evaluated ++ g ∷ [])
through g (some (some r)) next evaluated = record {
  allowed = false;
  reason = r;
  gate = g;
  evaluated_gates = evaluated ++ g ∷ [];
}

-- From the throttle on.
abbrev pub all_passed : Bool → List Gate → GuardrailDecision
all_passed has_throttle evaluated = record {
  allowed = true;
  reason = passed;
  gate = all_clear;
  evaluated_gates =
      (if has_throttle then evaluated ++ throttle ∷ [] else evaluated) ++ all_clear ∷ [];
}

abbrev pub blocks : Option (Option Reason) → Bool
blocks (some (some r)) = true
blocks _ = false

-- A task that asks to proceed.
pub record Request : Type 0 where
  pub task_type : String
  pub ticket_severity : String
  pub current_agents : ℕ
  pub for_team : Option String

-- What the four gates that can block find, and the tracker after the budget's.
pub record Findings : Type 0 where
  pub breaker : Option (Option Reason)
  pub budget : Option (Option Reason)
  pub governor : Option (Option Reason)
  pub stability : Option (Option Reason)
  pub tracker : Option CostProvider

unfoldable pub findings :
    (month_of : ℕ → ℕ) (today now : ℕ) → Request → Overrides → String → Coordinator → Findings
findings month_of today now q o team c =
    let (tracker, budget) = budget_gate_of month_of today team c.cost_tracker in
    record {
      breaker = gate_of (breaker_blocks now o.circuit_breaker_threshold) (breaker_of team c);
      budget = budget;
      governor =
          gate_of (governor_blocks q.ticket_severity q.current_agents o.max_concurrent)
            c.usage_governor;
      stability =
          if is_checked_task q.task_type then gate_of stability_blocks c.stability_gate else none;
      tracker = tracker;
    }

unfoldable pub decide : Findings → Bool → GuardrailDecision
decide f has_throttle =
    through circuit_breaker_gate f.breaker
      (through budget_gate f.budget (
        through usage_governor_gate f.governor
          (through stability_gate f.stability (all_passed has_throttle))))
      []

unfoldable pub evaluate :
    (month_of : ℕ → ℕ) (today now : ℕ) → Request → Coordinator → Coordinator × GuardrailDecision
evaluate month_of today now q c =
    let team = active_team q.for_team c.team_id in
    let o = get_effective_overrides team c in
    let c' = apply_team_budget_override team o c in
    let f = findings month_of today now q o team c' in
    (
      if blocks f.breaker then c' else record c' { cost_tracker = f.tracker },
      decide f c.has_throttle,
    )
