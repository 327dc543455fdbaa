-- ===== src/Guardrails/Gates.antt =====
-- The order of the gates, and what blocks.
use swe_squad.Prelude.{
  ℕ, ◌≡◌, refl, sym, ap, ◌∙◌, ◌↔◌, Bool, true, false, Option, none, some, List, [], ◌∷◌, ◌++◌,
  if◌then◌else◌, All, arith,
}
use mathlib.Core.List.{append_assoc}
use swe_squad.Guardrails.{
  Gate, circuit_breaker_gate, budget_gate, usage_governor_gate, stability_gate, throttle, all_clear,
  Reason, Findings, decide, through, all_passed, blocks, GuardrailDecision, Request, Coordinator,
  evaluate, findings, active_team, get_effective_overrides, apply_team_budget_override,
}

-- A gate that is set, by name.
abbrev if_set : {A : Type 0} → Gate → Option A → List Gate
if_set g none = []
if_set g (some a) = g ∷ []

-- The gates that are set, in the order of the evaluation.
abbrev pub set_gates : Findings → Bool → List Gate
set_gates f has_throttle =
    if_set circuit_breaker_gate f.breaker
    ++ (if_set budget_gate f.budget
        ++ (if_set usage_governor_gate f.governor
            ++ (if_set stability_gate f.stability
                ++ ((if has_throttle then throttle ∷ [] else []) ++ all_clear ∷ []))))

abbrev pub blocks_at : Findings → Gate → Bool
blocks_at f circuit_breaker_gate = blocks f.breaker
blocks_at f budget_gate = blocks f.budget
blocks_at f usage_governor_gate = blocks f.governor
blocks_at f stability_gate = blocks f.stability
blocks_at f throttle = false
blocks_at f all_clear = false

-- A decision after the gates `evaluated`, with those of `gates` ahead: the gate that decides comes
-- after gates that do not block, and it blocks, or it is the last one.
pub record IsDecided (block : Gate → Bool) (gates evaluated : List Gate) (d : GuardrailDecision)
    : Type 0 where
  pub before : List Gate
  pub after : List Gate
  pub in_order : gates ≡ before ++ d.gate ∷ after
  pub seen : d.evaluated_gates ≡ evaluated ++ (before ++ d.gate ∷ [])
  pub passes : All (λ g. block g ≡ false) before
  pub stops : (d.allowed ≡ false) ↔ (block d.gate ≡ true)
  pub clear : d.allowed ≡ true → (d.gate ≡ all_clear) × (after ≡ [])

through-IsDecided :
    (block : Gate → Bool) (g : Gate) (x : Option (Option Reason))
    (next : List Gate → GuardrailDecision) (rest evaluated : List Gate)
    → block g ≡ blocks x
    → ((e : List Gate) → IsDecided block rest e (next e))
    → IsDecided block (if_set g x ++ rest) evaluated (through g x next evaluated)
through-IsDecided block g none next rest evaluated same h = h evaluated
through-IsDecided block g (some none) next rest evaluated same h =
    let i = h (evaluated ++ g ∷ []) in
    record {
      before = g ∷ i.before;
      after = i.after;
      in_order = ap (λ l. g ∷ l) i.in_order;
      seen = i.seen ∙ append_assoc evaluated (g ∷ []) _;
      passes = (same, i.passes);
      stops = i.stops;
      clear = i.clear;
    }
through-IsDecided block g (some (some r)) next rest evaluated same h = record {
  before = [];
  after = rest;
  in_order = refl;
  seen = refl;
  passes = tt;
  stops = (λ e. same, λ e. refl);
  clear = λ e. ground (arith, e);
}

passed-IsDecided :
    (f : Findings) (has_throttle : Bool) (evaluated : List Gate)
    → IsDecided
        (blocks_at f)
        ((if has_throttle then throttle ∷ [] else []) ++ all_clear ∷ [])
        evaluated
        (all_passed has_throttle evaluated)
passed-IsDecided f true evaluated = record {
  before = throttle ∷ [];
  after = [];
  in_order = refl;
  seen = append_assoc evaluated (throttle ∷ []) (all_clear ∷ []);
  passes = (refl, tt);
  stops = (λ e. sym e, λ e. sym e);
  clear = λ e. (refl, refl);
}
passed-IsDecided f false evaluated = record {
  before = [];
  after = [];
  in_order = refl;
  seen = refl;
  passes = tt;
  stops = (λ e. sym e, λ e. sym e);
  clear = λ e. (refl, refl);
}

decide-IsDecided :
    (f : Findings) (has_throttle : Bool)
    → IsDecided (blocks_at f) (set_gates f has_throttle) [] (decide f has_throttle)
unfolding decide
decide-IsDecided f has_throttle =
    let block = blocks_at f in
    through-IsDecided block circuit_breaker_gate f.breaker _ _ [] refl (λ e.
      through-IsDecided block budget_gate f.budget _ _ e refl (λ e2.
        through-IsDecided block usage_governor_gate f.governor _ _ e2 refl (λ e3.
          through-IsDecided block stability_gate f.stability _ _ e3 refl
            (λ e4. passed-IsDecided f has_throttle e4))))

-- What the gates find for a request, with the daily budget of the configuration in force.
abbrev pub found : (month_of : ℕ → ℕ) (today now : ℕ) → Request → Coordinator → Findings
found month_of today now q c =
    let team = active_team q.for_team c.team_id in
    let o = get_effective_overrides team c in
    findings month_of today now q o team (apply_team_budget_override team o c)

-- Of the gates that are set, in the order circuit breaker, budget, usage governor, stability,
-- throttle and all-clear, the decision is that of the first that blocks: those before it were
-- evaluated and do not block, and none after it is evaluated. A request is allowed exactly if the
-- gate that decides does not block, and then it is the all-clear.
pub evaluate-IsDecided :
    (month_of : ℕ → ℕ) (today now : ℕ) (q : Request) (c : Coordinator)
    → let f = found month_of today now q c in
      IsDecided (blocks_at f) (set_gates f c.has_throttle) [] (evaluate month_of today now q c).1
unfolding evaluate
evaluate-IsDecided month_of today now q c =
    decide-IsDecided (found month_of today now q c) c.has_throttle
