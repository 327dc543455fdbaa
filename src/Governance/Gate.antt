-- ===== src/Governance/Gate.antt =====
-- The verdicts of the stability gate.
use swe_squad.Prelude.{
  ℕ, ◌*◌, ◌≤◌, ◌≡◌, Bool, true, false, not, ◌&&◌, ◌||◌, List, ◌∷◌, ltb, leb, arith, if◌then◌else◌,
}
use swe_squad.Ticket.{TicketSeverity, SweTicket}
use swe_squad.Governance.{
  pass, warn, GovernanceConfig, is_open, is_critical, is_high, count_open, evaluate, is_block,
  can_deploy,
}

-- More than the allowed open tickets, a red CI that must be green, or failures of at least a
-- tenth of the tests (or of any, if their number is not known).
abbrev pub is_unstable : GovernanceConfig → (crit hi : ℕ) → Bool → ℕ → ℕ → Bool
is_unstable c crit hi ci_green failing total =
    ltb c.max_open_critical crit
    || (ltb c.max_open_high hi
        || ((c.require_ci_green && not ci_green)
            || (ltb 0 failing && leb (10 * total) (100 * failing))))

-- An enabled gate blocks exactly an unstable state, and deployment is allowed exactly when the
-- gate does not block; a disabled gate lets all pass.
pub evaluate_lem :
    (c : GovernanceConfig) (ts : List SweTicket) (ci_green : Bool) (failing total : ℕ)
    → let r = evaluate c ts ci_green failing total in
      let unstable =
        c.enabled
        && is_unstable c
            (count_open ts is_critical)
            (count_open ts is_high)
            ci_green
            failing
            total in
      (is_block r.verdict ≡ unstable) × (can_deploy r ≡ not unstable)
unfolding evaluate can_deploy
evaluate_lem c ts ci_green failing total = ground arith

count_open-cons-le :
    (p : TicketSeverity → Bool) (t : SweTicket) (ts : List SweTicket)
    → count_open ts p ≤ count_open (t ∷ ts) p
unfolding count_open
count_open-cons-le p t ts = ground arith

-- One more ticket never opens a gate that blocks.
pub evaluate_cons_blocks :
    (c : GovernanceConfig) (t : SweTicket) (ts : List SweTicket) (ci_green : Bool)
    (failing total : ℕ)
    → is_block (evaluate c ts ci_green failing total).verdict ≡ true
    → is_block (evaluate c (t ∷ ts) ci_green failing total).verdict ≡ true
evaluate_cons_blocks c t ts ci_green failing total h = ground (
  arith,
  (evaluate_lem c ts ci_green failing total).0,
  (evaluate_lem c (t ∷ ts) ci_green failing total).0,
  count_open-cons-le is_critical t ts,
  count_open-cons-le is_high t ts,
)

-- An enabled gate gives a stable state a warning exactly from 5 percent of failing tests on, or if
-- any fails and their number is not known, and a pass below: `max_failing_tests` of the
-- configuration plays no part.
pub evaluate_stable :
    (c : GovernanceConfig) (ts : List SweTicket) (ci_green : Bool) (failing total : ℕ)
    → c.enabled ≡ true
    → is_unstable c (count_open ts is_critical) (count_open ts is_high) ci_green failing total
      ≡ false
    → (evaluate c ts ci_green failing total).verdict
      ≡ (if ltb 0 failing && leb (5 * total) (100 * failing) then warn else pass)
unfolding evaluate
evaluate_stable c ts ci_green failing total e s = ground arith

-- A ticket that is neither an open critical nor an open high one changes nothing of the report.
pub evaluate_irrelevant :
    (c : GovernanceConfig) (t : SweTicket) (ts : List SweTicket) (ci_green : Bool)
    (failing total : ℕ)
    → (is_open t.status && (is_critical t.severity || is_high t.severity)) ≡ false
    → evaluate c (t ∷ ts) ci_green failing total ≡ evaluate c ts ci_green failing total
unfolding evaluate
evaluate_irrelevant c t ts ci_green failing total h =
    rw (same is_critical (ground arith), same is_high (ground arith))
  where
    same :
        (p : TicketSeverity → Bool)
        → (p t.severity && is_open t.status) ≡ false
        → count_open (t ∷ ts) p ≡ count_open ts p
    same p n = unfold count_open in rw n
