-- ===== src/Scheduler/Running.antt =====
-- JobScheduler of src/swe_team/scheduler.py: when a job runs, and one run of it with its retries.
use swe_squad.Prelude.{
  ℕ, zero, suc, ◌+◌, ◌-◌, ◌*◌, ◌^◌, min, Bool, true, false, ◌&&◌, ◌||◌, not, Option, none, some,
  List, [], ◌∷◌, ◌++◌, filter, any, take, ltb, leb, if◌then◌else◌, String, str_eq,
}
use swe_squad.Cron.{Result, ok, value_error}
use swe_squad.Scheduler.{
  ScheduleType, JobStatus, JobPriority, a_minute, TimeWindow, is_peak, Trouble, cron_error,
  attempt_error, ScheduledJob, Store, upsert, delete_job, same_status, Calendar, cron_instant,
}

pub data Reason : Type 0 where
  not_scheduled already_running not_due peak_hours no_budget low_quota ready : Reason

-- What a quota checker answers: whether there is budget, and what remains.
abbrev pub Quota : Type 0
Quota = Option (Bool × ℕ)

abbrev pub is_running : String → List String → Bool
is_running id ids = any (λ i. str_eq i id) ids

abbrev pub is_due : Option ℕ → ℕ → Bool
is_due none now = true
is_due (some t) now = not (ltb now t)

abbrev pub is_critical : JobPriority → Bool
is_critical JobPriority.critical = true
is_critical _ = false

abbrev pub is_low : JobPriority → Bool
is_low JobPriority.low = true
is_low _ = false

-- `job.priority in (NORMAL, LOW)`
abbrev pub waits_for_off_peak : JobPriority → Bool
waits_for_off_peak JobPriority.normal = true
waits_for_off_peak JobPriority.low = true
waits_for_off_peak _ = false

unfoldable pub check_quota : Quota → JobPriority → Bool × Reason
check_quota none priority = (true, ready)
check_quota (some (has_budget, remaining)) priority =
    if not has_budget
    then (false, no_budget)
    else if is_low priority && ltb remaining 10
    then (false, low_quota)
    else (true, ready)

unfoldable pub should_run : TimeWindow → Quota → List String → ℕ → ScheduledJob → Bool × Reason
should_run window quota running now job =
    if not job.enabled
      || not
          (same_status job.status JobStatus.scheduled || same_status job.status JobStatus.pending)
    then (false, not_scheduled)
    else if is_running job.job_id running
    then (false, already_running)
    else if not (is_due job.next_run now)
    then (false, not_due)
    else if (job.respect_peak_hours && not (is_critical job.priority))
        && (is_peak window now && waits_for_off_peak job.priority)
    then (false, peak_hours)
    else check_quota quota job.priority

-- The jobs that one tick hands to the pool; the clock, the quota and the running jobs are read for
-- each job.
unfoldable pub tick :
    TimeWindow
    → (ScheduledJob → Quota)
    → (ScheduledJob → List String)
    → (ScheduledJob → ℕ)
    → Store
    → List ScheduledJob
tick window quota running clock jobs =
    filter (λ j. (should_run window (quota j) (running j) (clock j) j).0) jobs

abbrev pub advance_cron : Result ℕ → ScheduledJob → ScheduledJob
advance_cron (ok t) job = record job { next_run = some t; status = JobStatus.scheduled }
advance_cron (value_error p) job = record job {
  status = JobStatus.pending;
  last_error = some (cron_error p);
}

unfoldable pub advance_by : ScheduleType → Calendar → ℕ → ScheduledJob → ScheduledJob
advance_by ScheduleType.once calendar now job = record job {
  status = JobStatus.completed;
  next_run = none;
}
advance_by ScheduleType.cron calendar now job =
    advance_cron (cron_instant calendar job.cron_expression now) job
advance_by ScheduleType.interval calendar now job = record job {
  next_run = some (now + job.interval_minutes * a_minute);
  status = JobStatus.scheduled;
}

unfoldable pub advance_schedule : Calendar → ℕ → ScheduledJob → ScheduledJob
unfolding advance_by
advance_schedule calendar now job = advance_by job.schedule_type calendar now job

pub record RunRecord : Type 0 where
  pub job_id : String
  pub timestamp : ℕ
  pub status : String
  pub duration : ℕ
  pub error : Option Trouble
  pub attempt_count : ℕ

-- A scheduler: its store, `_running_jobs` and the run history.
pub record Scheduler : Type 0 where
  pub jobs : Store
  pub running : List String
  pub history : List RunRecord

abbrev pub pop_running : String → List String → List String
pop_running id = filter (λ i. not (str_eq i id))

-- `_execute_job` as far as its first `upsert`: the scheduler, and the run's own job.
unfoldable pub start_run : ℕ → ScheduledJob → Scheduler → Scheduler × ScheduledJob
start_run now job s =
    let job' = record job { status = JobStatus.running; last_run = some now } in
    (
      record s {
        jobs = upsert job' s.jobs;
        running = if is_running job.job_id s.running then s.running else job.job_id ∷ s.running;
      },
      job',
    )

pub record Attempts : Type 0 where
  pub attempt : ℕ
  pub success : Bool
  pub last_error : Option Trouble
  pub waits : List ℕ

-- The waiting time after the failed attempt, if another follows.
abbrev pub backoff : ScheduledJob → ℕ → List ℕ
backoff job attempt =
    if leb attempt job.max_retries
    then min (job.retry_backoff_seconds * 2 ^ (attempt - 1)) 300 ∷ []
    else []

-- The `while` loop with `left` attempts to go; `executor k` is what the call after `k` failures
-- raises, if it raises.
unfoldable pub attempts : (ℕ → Option (List ℕ)) → ScheduledJob → (left : ℕ) → Attempts → Attempts
attempts executor job zero a = a
attempts executor job (suc left) a = elim (executor a.attempt) [
  | none ↦ record a { success = true }
  | some message ↦
      let attempt = a.attempt + 1 in
      attempts executor job left (record a {
        attempt = attempt;
        last_error = some (attempt_error attempt (take 200 message));
        waits = a.waits ++ backoff job attempt;
      })
]

unfoldable pub run_attempts : (ℕ → Option (List ℕ)) → ScheduledJob → Attempts
run_attempts executor job =
    attempts executor job (job.max_retries + 1)
      (record { attempt = 0; success = false; last_error = none; waits = [] })

-- `job.last_error` during the attempts.
abbrev pub error_after : Attempts → ScheduledJob → Option Trouble
error_after a job = elim a.last_error [ none ↦ job.last_error | some e ↦ some e ]

unfoldable pub finished : Calendar → ℕ → Attempts → ScheduledJob → ScheduledJob
finished calendar now a job =
    let counted = record job { run_count = job.run_count + 1 } in
    if a.success
    then advance_schedule calendar now (record counted { last_error = none })
    else record counted { last_error = error_after a job; status = JobStatus.failed }

unfoldable pub run_record : ℕ → ℕ → Attempts → ScheduledJob → RunRecord
run_record start end a job = record {
  job_id = job.job_id;
  timestamp = start;
  status = if a.success then "success" else "failed";
  duration = end - start;
  error = if a.success then none else a.last_error;
  attempt_count = a.attempt + (if a.success then 1 else 0);
}

-- The rest of `_execute_job`, on the run's own job.
unfoldable pub finish_run :
    Calendar → (start end now : ℕ) → Attempts → ScheduledJob → Scheduler → Scheduler
finish_run calendar start end now a job s = record s {
  jobs = upsert (finished calendar now a job) s.jobs;
  running = pop_running job.job_id s.running;
  history = s.history ++ run_record start end a job ∷ [];
}

-- `_execute_job` when nothing else changes the store meanwhile.
unfoldable pub execute_job :
    Calendar → (start end now : ℕ) → (ℕ → Option (List ℕ)) → ScheduledJob → Scheduler → Scheduler
execute_job calendar start end now executor job s =
    let (s', job') = start_run start job s in
    finish_run calendar start end now (run_attempts executor job') job' s'

-- `JobScheduler.delete_job`
unfoldable pub remove_job : String → Scheduler → Scheduler × Bool
remove_job id s =
    let (jobs', deleted) = delete_job id s.jobs in
    (record s { jobs = jobs'; running = pop_running id s.running }, deleted)
