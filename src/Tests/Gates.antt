-- ===== src/Tests/Gates.antt =====
-- A ticket without a report, a gate with one failing test of three, and two deployments.
use swe_squad.Prelude.{
  ℕ, ◌≡◌, refl, true, false, not, ◌&&◌, none, List, [], ◌∷◌, lower, contains_any, contains,
  is_prefix,
}
use swe_squad.Ticket.{high, TicketStatus, opened, triaged, resolved, SweTicket, has_bypass}
use swe_squad.Ticket.Audit.{may_resolve}
use swe_squad.Governance.{
  GovernanceConfig, is_block, is_critical, is_high, count_open, evaluate, can_deploy,
  DeploymentRecord, in_progress,
}
use swe_squad.Governance.Gate.{is_unstable, evaluate_lem}

abbrev bare : SweTicket
bare = record {
  ticket_id = "T1";
  severity = high;
  status = triaged;
  updated_at = 0;
  blocked_by = [];
  investigation_report = none;
  resolution_note = [];
  attempts = [];
}

bare_blocked : may_resolve bare ≡ false
unfolding has_bypass contains_any contains lower is_prefix
bare_blocked = refl

abbrev steps : List (ℕ × TicketStatus)
steps = (1, resolved) ∷ (2, opened) ∷ (3, resolved) ∷ []

abbrev config : GovernanceConfig
config = record {
  max_open_critical = 0;
  max_open_high = 1;
  max_failing_tests = 0;
  require_ci_green = true;
  check_interval_hours = 6;
  enabled = true;
}

evaluate_example :
    let r = evaluate config (bare ∷ []) true 1 3 in
    let unstable =
      config.enabled
      && is_unstable config
          (count_open (bare ∷ []) is_critical)
          (count_open (bare ∷ []) is_high)
          true
          1
          3 in
    (is_block r.verdict ≡ unstable) × (can_deploy r ≡ not unstable)
evaluate_example = evaluate_lem config (bare ∷ []) true 1 3

abbrev first_deploy : DeploymentRecord
first_deploy = record {
  deployment_id = "d1";
  ticket_id = "T1";
  branch = "fix/T1";
  status = in_progress;
  started_at = 1;
  completed_at = none;
  rollback_reason = none;
  test_results = none;
}

abbrev second_deploy : DeploymentRecord
second_deploy = record first_deploy { deployment_id = "d2"; started_at = 2 }

abbrev deploys : List DeploymentRecord
deploys = first_deploy ∷ second_deploy ∷ []
