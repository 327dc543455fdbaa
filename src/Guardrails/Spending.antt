-- ===== src/Guardrails/Spending.antt =====
-- A team that the budget stops, over the rest of the day.
use swe_squad.Prelude.{
  ℕ, ◌≡◌, refl, sym, ap, ◌∙◌, inl, inr, String, Bool, true, false, Option, some, List, str_eq,
  lookup, lookup-insert_self, arith, Bool-cases, Option-cases,
}
use swe_squad.Costs.{
  CostTracker, BudgetPolicy, policy_or, spend, check_budget, is_over_budget, set_budget_policy,
  get_budget_policy,
}
use swe_squad.Costs.Budget.{
  Cost, record_all, record_all-policies, spend_grows, stays_over, get_budget_policy-fields,
}
use swe_squad.Guardrails.{
  Setting, absent, null, unreadable, value, Overrides, CostProvider, in_memory, Coordinator,
  Request, budget_gate, Findings, blocks, decide, findings, evaluate, override_budget,
  apply_team_budget_override, get_effective_overrides, budget_gate_of, active_team,
  set_cost_tracker,
}
use swe_squad.Guardrails.Gates.{found}
use swe_squad.Guardrails.Installed.{decide_allowed}

abbrev spend_provider : ℕ → List Cost → Option CostProvider → Option CostProvider
spend_provider today costs (some (in_memory t)) = some (in_memory (record_all today costs t))
spend_provider today costs p = p

-- Costs that the teams record on the tracker of the coordinator.
unfoldable pub record_costs : ℕ → List Cost → Coordinator → Coordinator
record_costs today costs c = record c { cost_tracker = spend_provider today costs c.cost_tracker }

-- The policy of a team with the override in force.
abbrev overridden : Setting ℕ → BudgetPolicy → BudgetPolicy
overridden absent p = p
overridden null p = p
overridden unreadable p = p
overridden (value cents) p = record p { daily_budget_cents = cents }

overridden_again :
    (s : Setting ℕ) (p : BudgetPolicy) → overridden s (overridden s p) ≡ overridden s p
overridden_again absent p = refl
overridden_again null p = refl
overridden_again unreadable p = refl
overridden_again (value cents) p = refl

get_budget_policy_keeps :
    (team : String) (t : CostTracker)
    → policy_or (lookup team (get_budget_policy team t).0.policies)
      ≡ policy_or (lookup team t.policies)
unfolding get_budget_policy
get_budget_policy_keeps team t = elim (Option-cases (lookup team t.policies)) [
  | inl e ↦ rw (e, get_budget_policy) (rw (lookup-insert_self team _ t.policies) refl)
  | inr (p, e) ↦ rw (e, get_budget_policy) (rw e refl)
]

override_budget_lem :
    (team : String) (s : Setting ℕ) (t : CostTracker)
    → ((override_budget team s t).events ≡ t.events)
      × (policy_or (lookup team (override_budget team s t).policies)
          ≡ overridden s (policy_or (lookup team t.policies)))
unfolding override_budget set_budget_policy
override_budget_lem team absent t = (refl, refl)
override_budget_lem team null t = (refl, refl)
override_budget_lem team unreadable t =
    ((get_budget_policy-fields team t).0, get_budget_policy_keeps team t)
override_budget_lem team (value cents) t =
    let (same, policy) = get_budget_policy-fields team t in
    (same, rw (lookup-insert_self team _ (get_budget_policy team t).0.policies) (rw policy refl))

check_budget_lem :
    (month_of : ℕ → ℕ) (today : ℕ) (team : String) (t : CostTracker)
    → let t' = (check_budget month_of today team t).0 in
      (t'.events ≡ t.events)
      × (policy_or (lookup team t'.policies) ≡ policy_or (lookup team t.policies))
unfolding check_budget
check_budget_lem month_of today team t =
    ((get_budget_policy-fields team t).0, get_budget_policy_keeps team t)

-- Overridden and checked, spent on, and overridden again.
still_over :
    (month_of : ℕ → ℕ) (today : ℕ) (team : String) (s : Setting ℕ) (costs : List Cost)
    (t : CostTracker)
    → let first = override_budget team s t in
      let checked = (check_budget month_of today team first).0 in
      is_over_budget (check_budget month_of today team first).1 ≡ true
      → is_over_budget
          (check_budget month_of today team
            (override_budget team s (record_all today costs checked))).1
        ≡ true
still_over month_of today team s costs t h =
    let first = override_budget team s t in
    let checked = (check_budget month_of today team first).0 in
    let spent = record_all today costs checked in
    let again = override_budget team s spent in
    let (first_events, first_policy) = override_budget_lem team s t in
    let (checked_events, checked_policy) = check_budget_lem month_of today team first in
    let (again_events, again_policy) = override_budget_lem team s spent in
    let policies = record_all-policies today costs checked in
    stays_over month_of today team first again
      (again_policy
        ∙ ap (λ d. overridden s (policy_or (lookup team d))) policies
        ∙ ap (overridden s) (checked_policy ∙ first_policy)
        ∙ overridden_again s (policy_or (lookup team t.policies))
        ∙ sym first_policy)
      (λ in_period.
        let grows = spend_grows today costs checked team in_period in
        let e = ap (spend team in_period) checked_events in
        let a = ap (spend team in_period) again_events in omega (arith, grows, e, a))
      h

budget_decides :
    (f : Findings) (has_throttle : Bool)
    → (decide f has_throttle).gate ≡ budget_gate
    → (blocks f.breaker ≡ false) × (blocks f.budget ≡ true)
unfolding decide
budget_decides f has_throttle h = ground arith

apply_named :
    (team own : String) (o : Overrides) (t : CostTracker) (c : Coordinator)
    → str_eq team "" ≡ false
    → apply_team_budget_override team o (set_cost_tracker (in_memory t) own c)
      ≡ set_cost_tracker (in_memory (override_budget team o.budget_daily t)) own c
unfolding apply_team_budget_override set_cost_tracker
apply_named team own o t c named = rw named refl

gate_named :
    (month_of : ℕ → ℕ) (today : ℕ) (team : String) (t : CostTracker)
    → str_eq team "" ≡ false
    → let g = budget_gate_of month_of today team (some (in_memory t)) in
      (g.0 ≡ some (in_memory (check_budget month_of today team t).0))
      × (blocks g.1 ≡ is_over_budget (check_budget month_of today team t).1)
unfolding budget_gate_of
gate_named month_of today team t named = rw named (refl, ground arith)

gate_unnamed :
    (month_of : ℕ → ℕ) (today : ℕ) (team : String) (t : CostTracker)
    → str_eq team "" ≡ true
    → blocks (budget_gate_of month_of today team (some (in_memory t))).1 ≡ false
unfolding budget_gate_of
gate_unnamed month_of today team t unnamed = rw unnamed refl

-- A coordinator with a tracker.
module _ (month_of : ℕ → ℕ) (today now : ℕ) (q : Request) (own : String) (c : Coordinator)
    (t : CostTracker) where
  abbrev tracked : Coordinator
  tracked = set_cost_tracker (in_memory t) own c

  abbrev team : String
  team = active_team q.for_team own

  abbrev overrides : Overrides
  overrides = get_effective_overrides team c

  abbrev first : CostTracker
  first = override_budget team overrides.budget_daily t

  budget_found :
      str_eq team "" ≡ false
      → blocks (found month_of today now q tracked).budget
        ≡ is_over_budget (check_budget month_of today team first).1
  unfolding findings set_cost_tracker get_effective_overrides
  budget_found named =
      ap (λ x. blocks (budget_gate_of month_of today team x.cost_tracker).1)
        (apply_named team own overrides t c named)
      ∙ (gate_named month_of today team first named).1

  tracker_found :
      str_eq team "" ≡ false
      → (found month_of today now q tracked).tracker
        ≡ some (in_memory (check_budget month_of today team first).0)
  unfolding findings set_cost_tracker get_effective_overrides
  tracker_found named =
      ap (λ x. (budget_gate_of month_of today team x.cost_tracker).0)
        (apply_named team own overrides t c named)
      ∙ (gate_named month_of today team first named).0

  blocked_named : blocks (found month_of today now q tracked).budget ≡ true → str_eq team "" ≡ false
  unfolding findings set_cost_tracker get_effective_overrides apply_team_budget_override
  blocked_named h = elim (Bool-cases (str_eq team "")) [
    | inl y ↦
        let no = gate_unnamed month_of today team t y in
        let same : apply_team_budget_override team overrides tracked ≡ tracked = rw y refl in
        let never = ap (λ x. blocks (budget_gate_of month_of today team x.cost_tracker).1) same in
        absurd (cc)
    | inr n ↦ n
  ]

  evaluate_state :
      str_eq team "" ≡ false
      → blocks (found month_of today now q tracked).breaker ≡ false
      → (evaluate month_of today now q tracked).0
        ≡ set_cost_tracker (in_memory (check_budget month_of today team first).0) own c
  unfolding evaluate set_cost_tracker get_effective_overrides
  evaluate_state named h =
      let put : Option CostProvider → Coordinator → Coordinator =
        λ p x. record x { cost_tracker = p } in
      let tracker = (found month_of today now q tracked).tracker in
      rw h (
        ap (put tracker) (apply_named team own overrides t c named)
        ∙ ap (λ p. put p (set_cost_tracker (in_memory first) own c)) (tracker_found named))

-- A team that the budget gate stops is not allowed anything for the rest of the day: whatever costs
-- are recorded meanwhile and whatever the team asks then, the answer is no.
pub budget_keeps_blocking :
    (month_of : ℕ → ℕ) (today now later : ℕ) (q : Request) (task severity : String) (agents : ℕ)
    (own : String) (t : CostTracker) (c : Coordinator) (costs : List Cost)
    → let c' = set_cost_tracker (in_memory t) own c in
      (evaluate month_of today now q c').1.gate ≡ budget_gate
      → let q' = record q {
        task_type = task;
        ticket_severity = severity;
        current_agents = agents;
      } in
        (evaluate month_of today later q'
          (record_costs today costs (evaluate month_of today now q c').0)).1.allowed
        ≡ false
unfolding evaluate set_cost_tracker get_effective_overrides record_costs
budget_keeps_blocking month_of today now later q task severity agents own t c costs h =
    let c' = set_cost_tracker (in_memory t) own c in
    let q' = record q { task_type = task; ticket_severity = severity; current_agents = agents } in
    let (calm, stops) = budget_decides (found month_of today now q c') c.has_throttle h in
    let named = blocked_named month_of today now q own c t stops in
    let over = sym (budget_found month_of today now q own c t named) ∙ stops in
    let name = team month_of today now q own c t in
    let setting = (overrides month_of today now q own c t).budget_daily in
    let still = still_over month_of today name setting costs t over in
    let spent =
      record_all today costs
        (check_budget month_of today name (override_budget name setting t)).0 in
    let again = budget_found month_of today later q' own c spent named ∙ still in
    let allowed : (evaluate month_of today later q'
          (set_cost_tracker (in_memory spent) own c)).1.allowed
        ≡ false =
      decide_allowed (found month_of today later q' (set_cost_tracker (in_memory spent) own c))
        c.has_throttle
      ∙ ground (arith, again) in
    let state = evaluate_state month_of today now q own c t named calm in
    ap (λ x. (evaluate month_of today later q' (record_costs today costs x)).1.allowed) state
    ∙ allowed
