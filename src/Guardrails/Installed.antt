-- ===== src/Guardrails/Installed.antt =====
-- The coordinator with the gates that the repository has: `AdaptiveUsageGovernor`, whose priority
-- floor is a text, and `RalphWiggumGate`, whose `evaluate` has a required argument, `tickets`,
-- that the coordinator's call does not give.
use swe_squad.Prelude.{
  ℕ, ◌≡◌, refl, sym, ◌∙◌, inl, inr, String, Bool, false, ◌||◌, not, Option, none, some, str_eq,
  if◌then◌else◌, arith, Bool-cases,
}
use swe_squad.Governor.{ConcurrencyDecision}
use swe_squad.Guardrails.{
  Overrides, active_team, is_checked_task, Answer, raises, returns, Decision, text, Verdict,
  Coordinator, Request, Setting, Findings, decide, blocks, evaluate, findings, governor_blocks,
  stability_blocks, gate_of, get_effective_overrides, apply_team_budget_override,
}
use swe_squad.Guardrails.Gates.{found}

-- A decision of the adaptive governor.
abbrev pub adaptive : ConcurrencyDecision → Answer Decision
adaptive d = returns record {
  allow_new_work = d.allow_new_work;
  priority_floor = text d.priority_floor;
  max_agents = none;
  max_parallel_agents = some d.max_parallel_agents;
}

-- The call without `tickets`.
abbrev pub ralph : Answer Verdict
ralph = raises

-- `set_usage_governor` and `set_stability_gate` with those gates, each of which may be left out.
unfoldable pub install : Option ConcurrencyDecision → (has_gate : Bool) → Coordinator → Coordinator
install governor has_gate c = record c {
  usage_governor = elim governor [ none ↦ none | some d ↦ some (adaptive d) ];
  stability_gate = if has_gate then some ralph else none;
}

pub decide_allowed :
    (f : Findings) (has_throttle : Bool)
    → (decide f has_throttle).allowed
      ≡ not (blocks f.breaker || (blocks f.budget || (blocks f.governor || blocks f.stability)))
unfolding decide
decide_allowed f has_throttle = ground arith

-- A new task is refused by the adaptive governor only for want of new work.
abbrev pub refuses : Option ConcurrencyDecision → Bool
refuses none = false
refuses (some d) = not d.allow_new_work

governor_installed :
    (severity : String) (current : ℕ) (max_concurrent : Setting ℕ)
    (governor : Option ConcurrencyDecision) (has_gate : Bool) (c : Coordinator)
    → blocks (
        gate_of
          (governor_blocks severity current max_concurrent)
          (install governor has_gate c).usage_governor)
      ≡ refuses governor
unfolding governor_blocks install
governor_installed severity current max_concurrent none has_gate c = refl
governor_installed severity current max_concurrent (some d) has_gate c = ground arith

stability_installed :
    (checked : Bool) (governor : Option ConcurrencyDecision) (has_gate : Bool) (c : Coordinator)
    → blocks (
        if checked
        then gate_of stability_blocks (install governor has_gate c).stability_gate
        else none)
      ≡ false
unfolding stability_blocks install
stability_installed checked governor has_gate c = ground arith

apply-gates :
    (team : String) (o : Overrides) (c : Coordinator)
    → let d = apply_team_budget_override team o c in
      (d.usage_governor ≡ c.usage_governor) × (d.stability_gate ≡ c.stability_gate)
unfolding apply_team_budget_override
apply-gates team o c = elim (Bool-cases (str_eq team "")) [
  | inl y ↦ rw y (refl, refl)
  | inr n ↦ rw n (refl, refl)
]

found_installed :
    (month_of : ℕ → ℕ) (today now : ℕ) (q : Request) (governor : Option ConcurrencyDecision)
    (has_gate : Bool) (c : Coordinator)
    → let f = found month_of today now q (install governor has_gate c) in
      (blocks f.governor ≡ refuses governor) × (blocks f.stability ≡ false)
unfolding findings
found_installed month_of today now q governor has_gate c =
    let d = install governor has_gate c in
    let team = active_team q.for_team d.team_id in
    let o = get_effective_overrides team d in
    let same = apply-gates team o d in
    rw (same.0, same.1)
      (
        governor_installed q.ticket_severity q.current_agents o.max_concurrent governor has_gate c,
        stability_installed (is_checked_task q.task_type) governor has_gate c,
      )

-- What is left of the gates.
evaluate_installed :
    (month_of : ℕ → ℕ) (today now : ℕ) (q : Request) (governor : Option ConcurrencyDecision)
    (has_gate : Bool) (c : Coordinator)
    → let f = found month_of today now q (install governor has_gate c) in
      (evaluate month_of today now q (install governor has_gate c)).1.allowed
      ≡ not (blocks f.breaker || (blocks f.budget || refuses governor))
unfolding evaluate
evaluate_installed month_of today now q governor has_gate c =
    let f = found month_of today now q (install governor has_gate c) in
    let gates = found_installed month_of today now q governor has_gate c in
    decide_allowed f (install governor has_gate c).has_throttle ∙ ground (arith, gates)

-- With the repository's own governor and stability gate a request's task, severity and number of
-- running agents never matter: whether it is allowed is the same for any others of its team.
pub evaluate_ignores_request :
    (month_of : ℕ → ℕ) (today now : ℕ) (q : Request) (governor : Option ConcurrencyDecision)
    (has_gate : Bool) (c : Coordinator) (task severity : String) (agents : ℕ)
    → let q' = record q { task_type = task; ticket_severity = severity; current_agents = agents } in
      (evaluate month_of today now q (install governor has_gate c)).1.allowed
      ≡ (evaluate month_of today now q' (install governor has_gate c)).1.allowed
unfolding findings
evaluate_ignores_request month_of today now q governor has_gate c task severity agents =
    let q' = record q { task_type = task; ticket_severity = severity; current_agents = agents } in
    evaluate_installed month_of today now q governor has_gate c
    ∙ sym (evaluate_installed month_of today now q' governor has_gate c)
