-- ===== src/Rules/Window.antt =====
-- Hours and limits of the rule engine.
use swe_squad.Prelude.{ℕ, ◌≤◌, ◌<◌, ◌≡◌, ◌≢◌, true, not, some, List, [], ◌∷◌, arith, String}
use swe_squad.Rules.{
  GovernanceRule, Moment, local_time, in_window, on_day, has_days, matches_time, RuleEngine,
  apply_rules,
}

-- Two rules that differ only in that the one's window starts where the other's ends split each
-- day that they name between them: of two such active rules exactly one matches at any hour.
pub windows_split :
    (zones : String → Moment) (now : Moment) (r : GovernanceRule) (start end : ℕ)
    → r.active ≡ true
    → has_days r.schedule_days ≡ true
    → on_day r.schedule_days (local_time zones now r.schedule_timezone).day_name ≡ true
    → (local_time zones now r.schedule_timezone).hour < 24
    → start ≢ end
    → matches_time zones now
        (record r { schedule_start_hour = some start; schedule_end_hour = some end })
      ≡ not (
          matches_time zones now
            (record r { schedule_start_hour = some end; schedule_end_hour = some start }))
unfolding matches_time in_window
windows_split zones now r start end a d o h n = ground arith

pub apply_bounds :
    (e : RuleEngine) (base : ℕ) (rules : List GovernanceRule)
    → e.min_absolute ≤ e.max_absolute
    → let n = (apply_rules e base rules).effective_agents in
      (e.min_absolute ≤ n) × (n ≤ e.max_absolute)
unfolding apply_rules
apply_bounds e base [] h = ground arith
apply_bounds e base (r ∷ rs) h = ground arith
