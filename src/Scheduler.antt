-- ===== src/Scheduler.antt =====
-- The job scheduler of src/swe_team/scheduler.py: TimeWindow, ScheduledJob, JobStore and
-- JobScheduler. An instant is a number of microseconds from the start of the day of ordinal 0, in
-- UTC; the calendar (day of the month and month of an ordinal) belongs to `datetime` and is an
-- argument, and so are the clock, the executor and the quota checker. A store is the list of jobs of
-- its file, the metadata of a job its JSON text. Counts and hours are not negative.
-- A method is one step. `upsert` holds the store's lock; `delete_job`, and the pause, resumption and
-- cancellation of a job, load and store under separate locks, so their steps stand for calls that
-- no other call of the store overlaps.
pub mod Window
pub mod Store
pub mod Running
pub mod History
pub mod Attempts
pub mod Dispatch
pub mod Hazards
use swe_squad.Prelude.{
  ℕ, zero, suc, ◌+◌, ◌-◌, ◌*◌, ◌/◌, ◌%◌, ◌^◌, min, Bool, true, false, ◌&&◌, ◌||◌, not, Option, none,
  some, List, [], ◌∷◌, ◌++◌, filter, any, length, ltb, leb, ◌==◌, if◌then◌else◌, String, str_eq,
  codes,
}
pub use swe_squad.Cron.{a_minute}
use swe_squad.Cron.{Result, ok, value_error, Problem, Moment, next_cron_match, member}

pub data ScheduleType : Type 0 where
  cron once interval : ScheduleType

pub data JobStatus : Type 0 where
  pending scheduled running completed failed paused cancelled : JobStatus

pub data JobPriority : Type 0 where
  critical high normal low : JobPriority

abbrev pub an_hour : ℕ
an_hour = 3600000000

abbrev pub a_day : ℕ
a_day = 86400000000

abbrev pub weekday : ℕ → ℕ
weekday t = (t / a_day + 6) % 7

abbrev pub hour_of : ℕ → ℕ
hour_of t = t % a_day / an_hour

pub record TimeWindow : Type 0 where
  pub peak_start_hour : ℕ
  pub peak_end_hour : ℕ
  pub peak_days : List ℕ

unfoldable pub is_peak : TimeWindow → ℕ → Bool
is_peak w t =
    if not (member (weekday t) w.peak_days)
    then false
    else leb w.peak_start_hour (hour_of t) && ltb (hour_of t) w.peak_end_hour

-- The `while` loop that skips the days that are no peak days, in at most `fuel` rounds.
unfoldable pub skip_days : ℕ → List ℕ → ℕ → Option ℕ
skip_days zero days t = none
skip_days (suc fuel) days t =
    let rest = skip_days fuel days (t + a_day) in if member (weekday t) days then some t else rest

abbrev pub first_candidate : TimeWindow → ℕ → ℕ
first_candidate w t =
    if leb 24 w.peak_end_hour
    then t / a_day * a_day + a_day
    else t / a_day * a_day + w.peak_end_hour * an_hour

unfoldable pub next_off_peak : TimeWindow → ℕ → Option ℕ
next_off_peak w t =
    if not (is_peak w t)
    then some t
    else let candidate = first_candidate w t in
      skip_days 7 w.peak_days (if leb candidate t then candidate + a_day else candidate)

-- What `last_error` says.
pub data Trouble : Type 0 where
  cron_error : Problem → Trouble
  attempt_error : ℕ → List ℕ → Trouble

pub record ScheduledJob : Type 0 where
  pub job_id : String
  pub name : String
  pub description : String
  pub schedule_type : ScheduleType
  pub cron_expression : String
  pub interval_minutes : ℕ
  pub priority : JobPriority
  pub instructions : String
  pub model : String
  pub agent : String
  pub github_issue : Option ℕ
  pub ticket_id : Option String
  pub max_retries : ℕ
  pub retry_backoff_seconds : ℕ
  pub max_concurrent : ℕ
  pub enabled : Bool
  pub respect_peak_hours : Bool
  pub status : JobStatus
  pub created_at : String
  pub last_run : Option ℕ
  pub next_run : Option ℕ
  pub run_count : ℕ
  pub last_error : Option Trouble
  pub metadata : String

abbrev pub Store : Type 0
Store = List ScheduledJob

-- The `for … else` loop of `upsert`.
unfoldable pub upsert : ScheduledJob → Store → Store
upsert job [] = job ∷ []
upsert job (j ∷ jobs) =
    let rest = upsert job jobs in if str_eq j.job_id job.job_id then job ∷ jobs else j ∷ rest

unfoldable pub delete_job : String → Store → Store × Bool
delete_job id jobs =
    let filtered = filter (λ j. not (str_eq j.job_id id)) jobs in
    if length filtered == length jobs then (jobs, false) else (filtered, true)

unfoldable pub get_job : String → Store → Option ScheduledJob
get_job id [] = none
get_job id (j ∷ jobs) = let rest = get_job id jobs in if str_eq j.job_id id then some j else rest

abbrev pub same_status : JobStatus → JobStatus → Bool
same_status JobStatus.pending JobStatus.pending = true
same_status JobStatus.scheduled JobStatus.scheduled = true
same_status JobStatus.running JobStatus.running = true
same_status JobStatus.completed JobStatus.completed = true
same_status JobStatus.failed JobStatus.failed = true
same_status JobStatus.paused JobStatus.paused = true
same_status JobStatus.cancelled JobStatus.cancelled = true
same_status _ _ = false

unfoldable pub list_jobs : Option JobStatus → Store → List ScheduledJob
list_jobs none jobs = jobs
list_jobs (some s) jobs = filter (λ j. same_status j.status s) jobs

-- What `pause_job`, `resume_job` and `cancel_job` share: a change of the job that is found.
abbrev pub change :
    (ScheduledJob → Option ScheduledJob) → Option ScheduledJob → Store → Store × Option ScheduledJob
change f none jobs = (jobs, none)
change f (some j) jobs = elim (f j) [ none ↦ (jobs, none) | some k ↦ (upsert k jobs, some k) ]

unfoldable pub pause_job : String → Store → Store × Option ScheduledJob
pause_job id jobs =
    change (λ j. some (record j { status = JobStatus.paused })) (get_job id jobs) jobs

unfoldable pub cancel_job : String → Store → Store × Option ScheduledJob
cancel_job id jobs =
    change (λ j. some (record j { status = JobStatus.cancelled })) (get_job id jobs) jobs

unfoldable pub resume_job : String → Store → Store × Option ScheduledJob
resume_job id jobs =
    change
      (λ j.
        if same_status j.status JobStatus.paused
        then some (record j { status = JobStatus.scheduled })
        else none)
      (get_job id jobs) jobs

-- What `datetime` says of a minute counted from ordinal 0.
abbrev pub Calendar : Type 0
Calendar = ℕ → ℕ × ℕ

abbrev pub moment : Calendar → ℕ → Moment
moment calendar m = record {
  minute = m % 60;
  hour = m / 60 % 24;
  day = (calendar (m / 1440)).0;
  month = (calendar (m / 1440)).1;
  weekday = (m / 1440 + 6) % 7;
}

-- `next_cron_match(expression, after)`
unfoldable pub cron_instant : Calendar → String → ℕ → Result ℕ
cron_instant calendar expression after = next_cron_match (codes expression) (moment calendar) after

abbrev pub is_empty : String → Bool
is_empty String.[] = true
is_empty (String.◌∷◌ c s) = false

abbrev pub keep : ScheduledJob → Store → Store × ScheduledJob
keep job jobs = (upsert job jobs, job)

-- `none` is the `ValueError` that is raised before anything is stored.
abbrev pub add_cron : Result ℕ → ScheduledJob → Store → Store × ScheduledJob
add_cron (ok t) job jobs =
    keep (record job { next_run = some t; status = JobStatus.scheduled }) jobs
add_cron (value_error p) job jobs =
    keep (record job { status = JobStatus.pending; last_error = some (cron_error p) }) jobs

unfoldable pub add_by :
    ScheduleType → Calendar → ℕ → ScheduledJob → Store → Option (Store × ScheduledJob)
add_by ScheduleType.cron calendar now job jobs =
    if is_empty job.cron_expression
    then none
    else some (add_cron (cron_instant calendar job.cron_expression now) job jobs)
add_by ScheduleType.interval calendar now job jobs =
    if job.interval_minutes == 0
    then none
    else some (
        keep
          (record job {
            next_run = some (now + job.interval_minutes * a_minute);
            status = JobStatus.scheduled;
          })
          jobs)
add_by ScheduleType.once calendar now job jobs =
    some (keep (record job { status = JobStatus.scheduled }) jobs)

unfoldable pub add_job : Calendar → ℕ → ScheduledJob → Store → Option (Store × ScheduledJob)
unfolding add_by
add_job calendar now job jobs = add_by job.schedule_type calendar now job jobs
