-- ===== src/Governance.antt =====
-- src/swe_team/ralph_wiggum.py (the stability gate) and `DeploymentGovernor` of
-- src/swe_team/governance.py, with `StabilityReport` of src/swe_team/models.py. Percentages are
-- compared as exact fractions in place of floats. The texts of `details` are kept as the list of
-- the reasons that they name.
pub mod Gate
pub mod Deployments
use swe_squad.Prelude.{
  ℕ, ◌+◌, ◌*◌, String, Bool, true, false, not, ◌&&◌, ◌||◌, Option, none, some, List, [], ◌∷◌, ◌++◌,
  count_if, ltb, leb, ◌==◌, str_eq, if◌then◌else◌,
}
use swe_squad.Ticket.{
  TicketSeverity, critical, high, TicketStatus, opened, triaged, investigating,
  investigation_complete, in_development, in_review, testing, deploying, monitoring, SweTicket,
}

pub data GovernanceVerdict : Type 0 where
  pass block warn : GovernanceVerdict

-- `GovernanceConfig` of src/swe_team/config.py.
pub record GovernanceConfig : Type 0 where
  pub max_open_critical : ℕ
  pub max_open_high : ℕ
  pub max_failing_tests : ℕ
  pub require_ci_green : Bool
  pub check_interval_hours : ℕ
  pub enabled : Bool

pub data CiStatus : Type 0 where
  unknown green red : CiStatus

pub data Reason : Type 0 where
  open_critical_over open_high_over ci_not_green tests_block tests_warn : Reason

pub data Details : Type 0 where
  gate_disabled : Details
  blocked : List Reason → Details
  warned : List Reason → Details
  all_passed : Details

pub record StabilityReport : Type 0 where
  pub verdict : GovernanceVerdict
  pub open_critical : ℕ
  pub open_high : ℕ
  pub failing_tests : ℕ
  pub ci_status : CiStatus
  pub details : Details

-- `_OPEN_STATUSES`
abbrev pub is_open : TicketStatus → Bool
is_open opened = true
is_open triaged = true
is_open investigating = true
is_open investigation_complete = true
is_open in_development = true
is_open in_review = true
is_open testing = true
is_open deploying = true
is_open monitoring = true
is_open _ = false

abbrev pub is_critical : TicketSeverity → Bool
is_critical critical = true
is_critical _ = false

abbrev pub is_high : TicketSeverity → Bool
is_high high = true
is_high _ = false

unfoldable pub count_open : List SweTicket → (TicketSeverity → Bool) → ℕ
count_open tickets is_severity = count_if (λ t. is_severity t.severity && is_open t.status) tickets

-- `getattr(config, …)` finds none of these in a `GovernanceConfig`, so the defaults hold.
abbrev pub hard_block_pct : ℕ
hard_block_pct = 10

abbrev pub warn_pct : ℕ
warn_pct = 5

-- `fail_pct >= pct`, where `fail_pct` is 100 if the number of tests is not known.
abbrev pub fails_at_least : (failing total pct : ℕ) → Bool
fails_at_least failing total pct =
    if total == 0 then leb pct 100 else leb (pct * total) (failing * 100)

abbrev pub reason_if : Bool → Reason → List Reason
reason_if true r = r ∷ []
reason_if false r = []

unfoldable pub block_reasons :
    GovernanceConfig → List SweTicket → (ci_green : Bool) → (failing total : ℕ) → List Reason
block_reasons c tickets ci_green failing total =
    reason_if (ltb c.max_open_critical (count_open tickets is_critical)) open_critical_over
    ++ (reason_if (ltb c.max_open_high (count_open tickets is_high)) open_high_over
        ++ (reason_if (c.require_ci_green && not ci_green) ci_not_green
            ++ reason_if (ltb 0 failing && fails_at_least failing total hard_block_pct)
                tests_block))

unfoldable pub warn_reasons : (failing total : ℕ) → List Reason
warn_reasons failing total =
    reason_if
      (ltb 0 failing
        && (not (fails_at_least failing total hard_block_pct)
            && fails_at_least failing total warn_pct))
      tests_warn

abbrev pub conclude : List Reason → List Reason → GovernanceVerdict × Details
conclude (r ∷ rs) ws = (block, blocked (r ∷ rs))
conclude [] (w ∷ ws) = (warn, warned (w ∷ ws))
conclude [] [] = (pass, all_passed)

unfoldable pub evaluate :
    GovernanceConfig → List SweTicket → (ci_green : Bool) → (failing total : ℕ) → StabilityReport
unfolding block_reasons warn_reasons
evaluate c tickets ci_green failing total =
    if not c.enabled
    then record {
      verdict = pass;
      open_critical = 0;
      open_high = 0;
      failing_tests = 0;
      ci_status = unknown;
      details = gate_disabled;
    }
    else (let (verdict, details) =
          conclude (block_reasons c tickets ci_green failing total) (warn_reasons failing total) in
        record {
          verdict = verdict;
          open_critical = count_open tickets is_critical;
          open_high = count_open tickets is_high;
          failing_tests = failing;
          ci_status = if ci_green then green else red;
          details = details;
        })

pub data DeploymentStatus : Type 0 where
  pending in_progress deployed rolled_back : DeploymentStatus

-- `deployment_id` and the clock are arguments; `test_results` is carried as text.
pub record DeploymentRecord : Type 0 where
  pub deployment_id : String
  pub ticket_id : String
  pub branch : String
  pub status : DeploymentStatus
  pub started_at : ℕ
  pub completed_at : Option ℕ
  pub rollback_reason : Option String
  pub test_results : Option String

abbrev pub is_block : GovernanceVerdict → Bool
is_block block = true
is_block _ = false

unfoldable pub can_deploy : StabilityReport → Bool
can_deploy s = not (is_block s.verdict)

unfoldable pub start_deployment :
    (id : String) (now : ℕ) (ticket_id branch : String)
    → List DeploymentRecord
    → DeploymentRecord × List DeploymentRecord
start_deployment id now ticket_id branch records =
    let rec : DeploymentRecord = record {
      deployment_id = id;
      ticket_id = ticket_id;
      branch = branch;
      status = in_progress;
      started_at = now;
      completed_at = none;
      rollback_reason = none;
      test_results = none;
    } in
    (rec, records ++ rec ∷ [])

-- `_find`: the first record with the id.
unfoldable pub find : String → List DeploymentRecord → Option DeploymentRecord
find id [] = none
find id (r ∷ rs) = if str_eq r.deployment_id id then some r else find id rs

-- A write through the record that `_find` returned.
unfoldable pub update_found :
    String → (DeploymentRecord → DeploymentRecord) → List DeploymentRecord → List DeploymentRecord
update_found id f [] = []
update_found id f (r ∷ rs) =
    if str_eq r.deployment_id id then f r ∷ rs else r ∷ update_found id f rs

abbrev pub mark_deployed : ℕ → Option String → DeploymentRecord → DeploymentRecord
mark_deployed now test_results r = record r {
  status = deployed;
  completed_at = some now;
  test_results = test_results;
}

abbrev pub mark_rolled_back : ℕ → String → DeploymentRecord → DeploymentRecord
mark_rolled_back now reason r = record r {
  status = rolled_back;
  completed_at = some now;
  rollback_reason = some reason;
}

unfoldable pub complete_deployment :
    (now : ℕ) (id : String) (test_results : Option String)
    → List DeploymentRecord
    → Option DeploymentRecord × List DeploymentRecord
complete_deployment now id test_results records = elim (find id records) [
  | none ↦ (none, records)
  | some r ↦ (
    some (mark_deployed now test_results r),
    update_found id (mark_deployed now test_results) records,
  )
]

unfoldable pub rollback :
    (now : ℕ) (id reason : String)
    → List DeploymentRecord
    → Option DeploymentRecord × List DeploymentRecord
rollback now id reason records = elim (find id records) [
  | none ↦ (none, records)
  | some r ↦
      (some (mark_rolled_back now reason r), update_found id (mark_rolled_back now reason) records)
]
