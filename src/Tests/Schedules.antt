-- ===== src/Tests/Schedules.antt =====
-- A cron expression for office hours, and a job that is due once a year.
use swe_squad.Prelude.{
  ℕ, ◌+◌, ◌*◌, ◌≡◌, ◌≤◌, ◌↔◌, refl, true, false, ◌&&◌, none, some, List, [], ◌∷◌, ◌++◌, arith, In,
  Option, codes, split_on, cut_at, strip, strip_left, words, is_prefix, contains, to_nat,
  to_nat_from, if◌then◌else◌, leb, ltb, ◌==◌, String,
}
use swe_squad.Cron.{
  ok, value_error, no_match, Moment, cron_matches, next_cron_match, parse_cron_field, parse_parts,
  parse_part, parse_bounds, range_by, translate_dow, test_field, match_fields, search,
}
use swe_squad.Cron.Digits.{show_nat}
use swe_squad.Cron.Fields.{every, every_nth, span, at, show_item, show_items}
use swe_squad.Cron.Matching.{
  Expression, show_field, show_expression, IsMoment, AllHaveSteps, cron_matches-show_expression,
}
use swe_squad.Cron.Search.{IsNext, next_cron_match-least}
use swe_squad.Scheduler.{
  ScheduleType, JobStatus, JobPriority, TimeWindow, is_peak, next_off_peak, ScheduledJob, get_job,
  Calendar, moment, an_hour, a_day, cron_instant,
}
use swe_squad.Scheduler.Window.{next_off_peak_lem}
use swe_squad.Scheduler.Store.{Change, view, apply_all, apply_all_to_table, apply_all_refines}
use swe_squad.Scheduler.Running.{
  Scheduler, RunRecord, Attempts, run_attempts, tick, is_running, start_run, finish_run, finished,
  run_record, attempts, waits_for_off_peak,
}
use swe_squad.Scheduler.History.{Line, entry, bad_json, prune}
use swe_squad.Scheduler.Attempts.{IsOutcome, run_attempts-IsOutcome}
use swe_squad.Scheduler.Dispatch.{IsReady, HasBudget, tick_lem}
use swe_squad.Scheduler.Hazards.{finish_run-overwrites, no_match_runs_again}

-- "*/30 9,13-17 * * 1-5"
abbrev office : Expression
office = record {
  minute = record { first = every_nth 30; others = [] };
  hour = record { first = at 9; others = span 13 17 ∷ [] };
  day = record { first = every; others = [] };
  month = record { first = every; others = [] };
  weekday = record { first = span 1 5; others = [] };
}

office_text : show_expression office ≡ codes "*/30 9,13-17 * * 1-5"
unfolding show_expression show_field show_items show_item show_nat
office_text = refl

abbrev wednesday : Moment
wednesday = record { minute = 30; hour = 14; day = 3; month = 6; weekday = 2 }

wednesday-IsMoment : IsMoment wednesday
wednesday-IsMoment = omega arith

office_steps : AllHaveSteps office
office_steps = omega arith

cron_matches-show_expression_example : cron_matches (show_expression office) wednesday ≡ ok true
cron_matches-show_expression_example =
    cron_matches-show_expression office wednesday office_steps wednesday-IsMoment

-- All days are the fifteenth of June.
abbrev june : Calendar
june d = (15, 6)

next_cron_match-least_example :
    (next_cron_match (codes "5 * * * *") (moment june) 300_000_000 ≡ ok 3_900_000_000) ↔ (
      (m : ℕ) × (3_900_000_000 ≡ m * 60_000_000)
      × IsNext (codes "5 * * * *") (moment june) 300_000_000 m)
next_cron_match-least_example =
    next_cron_match-least (codes "5 * * * *") (moment june) 300_000_000 3_900_000_000

-- Five past twelve is not after itself.
five_past : next_cron_match (codes "5 * * * *") (moment june) 300_000_000 ≡ ok 3_900_000_000
unfolding next_cron_match search cron_matches words strip strip_left match_fields test_field
    parse_cron_field parse_parts parse_part parse_bounds split_on cut_at is_prefix contains range_by
    translate_dow to_nat to_nat_from
five_past = refl

abbrev us_hours : TimeWindow
us_hours = record { peak_start_hour = 13; peak_end_hour = 19; peak_days = 0 ∷ 1 ∷ 2 ∷ 3 ∷ 4 ∷ [] }

-- Monday of ordinal 1, at 14:00.
abbrev monday_two : ℕ
monday_two = a_day + 14 * an_hour

next_off_peak_example :
    (r : ℕ) × (next_off_peak us_hours monday_two ≡ some r)
    × (monday_two ≤ r)
    × (is_peak us_hours r ≡ (is_peak us_hours monday_two && (leb 24 19 && (13 == 0))))
next_off_peak_example = next_off_peak_lem us_hours monday_two

abbrev report : ScheduledJob
report = record {
  job_id = "j1";
  name = "yearly report";
  description = "";
  schedule_type = ScheduleType.cron;
  cron_expression = "0 0 1 1 *";
  interval_minutes = 0;
  priority = JobPriority.normal;
  instructions = "";
  model = "sonnet";
  agent = "claude-code";
  github_issue = none;
  ticket_id = none;
  max_retries = 2;
  retry_backoff_seconds = 60;
  max_concurrent = 1;
  enabled = true;
  respect_peak_hours = true;
  status = JobStatus.pending;
  created_at = "";
  last_run = none;
  next_run = none;
  run_count = 0;
  last_error = none;
  metadata = "{}";
}

abbrev edits : List Change
edits =
    Change.store report
    ∷ Change.pause "j1"
    ∷ Change.resume "j1"
    ∷ Change.delete "j1"
    ∷ Change.cancel "j1"
    ∷ []

apply_all_refines_example :
    (view (apply_all edits []).0, (apply_all edits []).1) ≡ apply_all_to_table edits (view [])
apply_all_refines_example = apply_all_refines edits []

-- The first two calls raise.
abbrev flaky : ℕ → Option (List ℕ)
flaky n = if ltb n 2 then some (codes "boom") else none

flaky_waits : (run_attempts flaky report).waits ≡ 60 ∷ 120 ∷ []
unfolding run_attempts attempts
flaky_waits = refl

run_attempts-IsOutcome_example : IsOutcome flaky report (run_attempts flaky report)
run_attempts-IsOutcome_example = run_attempts-IsOutcome flaky report

tick_example :
    In report (tick us_hours (λ j. some (true, 5)) (λ j. []) (λ j. 0) (report ∷ []))
    ↔ (In report (report ∷ []) × IsReady us_hours (some (true, 5)) [] 0 report)
tick_example = tick_lem us_hours (λ j. some (true, 5)) (λ j. []) (λ j. 0) (report ∷ []) report

abbrev idle : Scheduler
idle = record { jobs = report ∷ []; running = []; history = [] }

abbrev good : Attempts
good = record { attempt = 0; success = true; last_error = none; waits = [] }

abbrev own : ScheduledJob
own = (start_run 0 report idle).1

finish_run-overwrites_example :
    let started = (start_run 0 report idle).0 in
    let meanwhile = record started {
      jobs = (apply_all (Change.delete "j1" ∷ []) started.jobs).0;
    } in
    let last = finish_run june 0 7 7 good own meanwhile in
    (get_job "j1" last.jobs ≡ some (finished june 7 good own))
    × (is_running "j1" last.running ≡ false)
    × (last.history ≡ [] ++ run_record 0 7 good own ∷ [])
finish_run-overwrites_example =
    finish_run-overwrites june 0 7 7 good report (Change.delete "j1" ∷ []) idle

never_matches : cron_instant june "0 0 1 1 *" 7 ≡ value_error no_match
unfolding cron_instant next_cron_match search cron_matches words strip strip_left match_fields
    test_field parse_cron_field parse_parts parse_part parse_bounds split_on cut_at is_prefix
    contains range_by translate_dow to_nat to_nat_from
never_matches = refl

off_peak : (is_peak us_hours 8 && waits_for_off_peak JobPriority.normal) ≡ false
unfolding is_peak
off_peak = refl

no_match_runs_again_example :
    let started = (start_run 0 report idle).0 in
    let meanwhile = record started {
      jobs = (apply_all (Change.delete "j1" ∷ []) started.jobs).0;
    } in
    let last = finish_run june 0 7 7 good own meanwhile in
    (stored : ScheduledJob) × (get_job "j1" last.jobs ≡ some stored)
    × (stored.status ≡ JobStatus.pending)
    × (stored.next_run ≡ none)
    × (In stored (tick us_hours (λ _. some (true, 3)) (λ _. last.running) (λ _. 8) last.jobs)
        ↔ HasBudget (some (true, 3)) JobPriority.normal)
no_match_runs_again_example =
    no_match_runs_again june 0 7 7 8 no_match good report (Change.delete "j1" ∷ []) idle us_hours
      (some (true, 3)) refl never_matches refl refl refl (omega arith) off_peak

abbrev run_of : String → RunRecord
run_of id = record {
  job_id = id;
  timestamp = 0;
  status = "success";
  duration = 0;
  error = none;
  attempt_count = 1;
}

abbrev history : List Line
history = entry (run_of "j1") ∷ bad_json ∷ entry (run_of "j2") ∷ entry (run_of "j1") ∷ []

-- The newer of the two runs of the job is kept, behind the rest of the file.
one_kept : prune "j1" 1 history ≡ some (bad_json ∷ entry (run_of "j2") ∷ entry (run_of "j1") ∷ [])
unfolding prune
one_kept = refl
