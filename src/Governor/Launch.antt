-- ===== src/Governor/Launch.antt =====
-- Bounds of a decision, and which agents the default tiers let start.
use swe_squad.Prelude.{
  sort_on, insert_on, ℕ, ◌≤◌, ◌≡◌, refl, ◌≢◌, ◌⊎◌, inl, inr, String, Bool, true, false, not, Option,
  none, some, List, [], codes, lower, leb, ltb, if◌then◌else◌, arith, Bool-cases,
}
use swe_squad.Rules.{Moment, evaluate, engine}
use swe_squad.Rules.Window.{apply_bounds}
use swe_squad.Governor.{
  or_else, Tier, Usage, untracked, failing, hourly, Governor, tier, default_tiers, get_tier,
  match_tier, first_tier, get_quota_status, decide, get_concurrency_decision, rank,
  should_launch_new_agent,
}

decide_bounds :
    (zones : String → Moment) (now local_now : Moment) (g : Governor) (usage : Usage)
    → g.min_absolute ≤ g.max_absolute
    → let n = (decide zones now local_now g usage).max_parallel_agents in
      (g.min_absolute ≤ n) × (n ≤ g.max_absolute)
unfolding decide evaluate engine
decide_bounds zones now local_now g usage h = apply_bounds _ _ _ h

-- Whatever the tiers, the rules, the schedule and the bonus are, a decision for a tracked usage
-- keeps the number of agents within the hard limits, if they are in order; without a tracker it is
-- one agent, and no new work.
pub get_concurrency_decision_bounds :
    (zones : String → Moment) (now local_now : Moment) (g : Governor) (usage : Usage)
    → g.min_absolute ≤ g.max_absolute
    → let d = get_concurrency_decision zones now local_now g usage in
      ((usage ≡ untracked) × (d.max_parallel_agents ≡ 1) × (d.allow_new_work ≡ false))
      ⊎ ((g.min_absolute ≤ d.max_parallel_agents) × (d.max_parallel_agents ≤ g.max_absolute))
unfolding get_concurrency_decision
get_concurrency_decision_bounds zones now local_now g untracked h = inl (refl, refl, refl)
get_concurrency_decision_bounds zones now local_now g failing h =
    inr (decide_bounds zones now local_now g failing h)
get_concurrency_decision_bounds zones now local_now g (hourly hs) h =
    inr (decide_bounds zones now local_now g (hourly hs) h)

-- The least rank of a priority that may start with a share of the quota left.
abbrev pub least_rank : ℕ → Option ℕ
least_rank pct =
    if leb 7000 pct
    then some 0
    else if leb 5000 pct
    then some 1
    else if leb 3000 pct
    then some 2
    else none

abbrev pub reaches : ℕ → Option ℕ → Bool
reaches r none = false
reaches r (some least) = leb least r

get_tier_default :
    (pct : ℕ)
    → get_tier default_tiers pct ≡ (
        if leb 7000 pct
        then tier 70 5 "low" true
        else if leb 5000 pct
        then tier 50 3 "medium" true
        else if leb 3000 pct
        then tier 30 2 "high" true
        else tier 10 1 "critical" false)
unfolding get_tier sort_on insert_on match_tier first_tier
get_tier_default pct = ground arith

-- `should_launch_new_agent` for the rank of its priority, with a tier.
abbrev may_launch : ℕ → Tier → Bool
may_launch r t =
    if not (or_else true t.allow_new_work)
    then false
    else if ltb r (rank (lower (or_else (codes "low") t.priority_floor)))
    then false
    else true

default_launches :
    (pct r : ℕ) → may_launch r (get_tier default_tiers pct) ≡ reaches r (least_rank pct)
unfolding rank lower
default_launches pct r = rw (get_tier_default pct) (elim (Bool-cases (leb 7000 pct)) [
  | inl a ↦ rw a (ground arith)
  | inr a ↦ rw a (elim (Bool-cases (leb 5000 pct)) [
    | inl b ↦ rw b (ground arith)
    | inr b ↦
        rw b (elim (Bool-cases (leb 3000 pct)) [ inl c ↦ rw c (ground arith) | inr c ↦ rw c refl ])
  ])
])

-- With the default tiers and a tracked usage, an agent may start exactly if the quota left and the
-- rank of its priority allow it: from 70% each, from 50% one of medium priority or above, from 30%
-- one of high or critical, and below that none.
pub should_launch_new_agent_default :
    (zones : String → Moment) (now local_now : Moment) (g : Governor) (usage : Usage)
    (priority : List ℕ)
    → g.tiers ≡ []
    → usage ≢ untracked
    → should_launch_new_agent zones now local_now g usage priority
      ≡ reaches
          (rank (lower priority))
          (least_rank (get_quota_status g.quota_limit usage).remaining_pct)
unfolding should_launch_new_agent get_concurrency_decision decide
should_launch_new_agent_default zones now local_now g untracked priority h n = absurd (n refl)
should_launch_new_agent_default zones now local_now g failing priority h n = rw h (
    default_launches (get_quota_status g.quota_limit failing).remaining_pct (rank (lower priority)))
should_launch_new_agent_default zones now local_now g (hourly hs) priority h n = rw h (
    default_launches (get_quota_status g.quota_limit (hourly hs)).remaining_pct
      (rank (lower priority)))
