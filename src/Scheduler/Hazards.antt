-- ===== src/Scheduler/Hazards.antt =====
-- What the end of a run does to the store, and cron jobs that are due at no minute of the next two
-- days.
use swe_squad.Prelude.{
  ℕ, ◌+◌, ◌≤◌, ◌≡◌, ◌↔◌, refl, sym, ap, ◌∙◌, true, false, ◌&&◌, inl, inr, Option, none, some, List,
  [], ◌∷◌, ◌++◌, String, str_eq, eq_iff, arith, Bool-cases, In,
}
use swe_squad.Cron.{Result, ok, value_error, Problem}
use swe_squad.Scheduler.{
  ScheduleType, JobStatus, TimeWindow, is_peak, cron_error, ScheduledJob, Store, upsert, get_job,
  Calendar, cron_instant, is_empty, add_by, add_job, keep,
}
use swe_squad.Scheduler.Running.{
  Quota, Scheduler, Attempts, is_running, is_due, waits_for_off_peak, check_quota, should_run,
  advance_schedule, advance_by, advance_cron, start_run, finished, run_record, pop_running,
  finish_run, tick,
}
use swe_squad.Scheduler.Dispatch.{HasBudget, budget_iff, should_run_iff, tick_lem}
use swe_squad.Scheduler.Store.{Change, apply_all, view-upsert}

advance_cron-id : (r : Result ℕ) (job : ScheduledJob) → (advance_cron r job).job_id ≡ job.job_id
advance_cron-id (ok t) job = refl
advance_cron-id (value_error p) job = refl

advance_by-id :
    (t : ScheduleType) (calendar : Calendar) (now : ℕ) (job : ScheduledJob)
    → (advance_by t calendar now job).job_id ≡ job.job_id
unfolding advance_by
advance_by-id ScheduleType.once calendar now job = refl
advance_by-id ScheduleType.interval calendar now job = refl
advance_by-id ScheduleType.cron calendar now job =
    advance_cron-id (cron_instant calendar job.cron_expression now) job

advance_schedule-id :
    (calendar : Calendar) (now : ℕ) (job : ScheduledJob)
    → (advance_schedule calendar now job).job_id ≡ job.job_id
unfolding advance_schedule
advance_schedule-id calendar now job = advance_by-id job.schedule_type calendar now job

finished-id :
    (calendar : Calendar) (now : ℕ) (a : Attempts) (job : ScheduledJob)
    → (finished calendar now a job).job_id ≡ job.job_id
unfolding finished
finished-id calendar now a job = elim (Bool-cases a.success) [
  | inl good ↦ rw good (advance_schedule-id calendar now _)
  | inr bad ↦ rw bad refl
]

pop_running-idle : (id : String) (ids : List String) → is_running id (pop_running id ids) ≡ false
pop_running-idle id [] = refl
pop_running-idle id (i ∷ ids) = ground (arith, pop_running-idle id ids)

-- Whatever stores, deletions, pauses, resumptions and cancellations other calls make while a job
-- runs, at the end of the run the store holds under the job's id the run's own copy of the job, as
-- it was when the run started but for the run's own changes: a job deleted meanwhile is back, and a
-- change of it is undone. The job is no longer marked as running, and its run is the last of the
-- history.
pub finish_run-overwrites :
    (calendar : Calendar) (start end now : ℕ) (a : Attempts) (job : ScheduledJob) (cs : List Change)
    (s : Scheduler)
    → let (started, own) = start_run start job s in
      let meanwhile = record started { jobs = (apply_all cs started.jobs).0 } in
      let last = finish_run calendar start end now a own meanwhile in
      (get_job job.job_id last.jobs ≡ some (finished calendar now a own))
      × (is_running job.job_id last.running ≡ false)
      × (last.history ≡ s.history ++ run_record start end a own ∷ [])
unfolding start_run finish_run
finish_run-overwrites calendar start end now a job cs s =
    let own = (start_run start job s).1 in
    let id : (finished calendar now a own).job_id ≡ job.job_id = finished-id calendar now a own in
    let found =
      view-upsert (finished calendar now a own) (apply_all cs (upsert own s.jobs)).0 job.job_id in
    let same : str_eq (finished calendar now a own).job_id job.job_id ≡ true = (eq_iff _ _).1 id in
    (found ∙ rw same refl, pop_running-idle job.job_id _, refl)

-- A cron job of which no run is due in the next two days is kept with no change of its time.
advance_no_match :
    (calendar : Calendar) (now : ℕ) (p : Problem) (job : ScheduledJob)
    → job.schedule_type ≡ ScheduleType.cron
    → cron_instant calendar job.cron_expression now ≡ value_error p
    → advance_schedule calendar now job
      ≡ record job { status = JobStatus.pending; last_error = some (cron_error p) }
unfolding advance_schedule advance_by
advance_no_match calendar now p job c e = rw (c, e) refl

pending_runs :
    (w : TimeWindow) (quota : Quota) (running : List String) (t : ℕ) (job : ScheduledJob)
    → job.enabled ≡ true
    → job.status ≡ JobStatus.pending
    → is_running job.job_id running ≡ false
    → is_due job.next_run t ≡ true
    → (is_peak w t && waits_for_off_peak job.priority) ≡ false
    → should_run w quota running t job ≡ check_quota quota job.priority
unfolding should_run
pending_runs w quota running t job on st idle due off = rw (on, st, idle, due, off) (ground arith)

due_later : (o : Option ℕ) (a b : ℕ) → a ≤ b → is_due o a ≡ true → is_due o b ≡ true
due_later none a b h d = refl
due_later (some t) a b h d = ground arith

get_job-In : (id : String) (jobs : Store) (j : ScheduledJob) → get_job id jobs ≡ some j → In j jobs
unfolding get_job
get_job-In id [] j e = absurd (cc)
get_job-In id (k ∷ jobs) j e = elim (Bool-cases (str_eq k.job_id id)) [
  | inl y ↦ let e' : some k ≡ some j = rw y at e in inl (cc)
  | inr n ↦ inr (get_job-In id jobs j (rw n at e))
]

-- The job after a good run with no next minute.
abbrev unmatched : Problem → ScheduledJob → ScheduledJob
unmatched p job = record job {
  run_count = job.run_count + 1;
  last_error = some (cron_error p);
  status = JobStatus.pending;
}

finished-unmatched :
    (calendar : Calendar) (now : ℕ) (p : Problem) (a : Attempts) (job : ScheduledJob)
    → job.schedule_type ≡ ScheduleType.cron
    → cron_instant calendar job.cron_expression now ≡ value_error p
    → a.success ≡ true
    → finished calendar now a job ≡ unmatched p job
unfolding finished
finished-unmatched calendar now p a job c e good = rw good (
    advance_no_match calendar now p
      (record job { run_count = job.run_count + 1; last_error = none }) c e)

-- The next tick over a store that holds the job: only the quota stands in its way.
tick_again :
    (w : TimeWindow) (quota : Quota) (running : List String) (t : ℕ) (job : ScheduledJob)
    (jobs : Store)
    → get_job job.job_id jobs ≡ some job
    → should_run w quota running t job ≡ check_quota quota job.priority
    → In job (tick w (λ _. quota) (λ _. running) (λ _. t) jobs) ↔ HasBudget quota job.priority
tick_again w quota running t job jobs at e =
    let dispatched = tick_lem w (λ _. quota) (λ _. running) (λ _. t) jobs job in
    let ready = should_run_iff w quota running t job in
    let budget = budget_iff quota job.priority in
    (
      λ m. budget.0 (ap (λ x. x.0) (sym e) ∙ ready.1 (dispatched.0 m).1),
      λ b. dispatched.1 (get_job-In job.job_id jobs job at, ready.0 (ap (λ x. x.0) e ∙ budget.1 b)),
    )

-- A cron job for which no minute of the 48 hours after a successful run matches (or whose
-- expression is wrong), and which was due when it ran, is stored as pending with its old time,
-- whatever stores, deletions and status changes other calls make during the run. The store left by
-- the run is then such that a tick at any later moment hands the job to the pool again exactly if
-- the quota allows it, a job of priority normal or low provided that there is no peak.
pub no_match_runs_again :
    (calendar : Calendar) (start end now t : ℕ) (p : Problem) (a : Attempts) (job : ScheduledJob)
    (cs : List Change) (s : Scheduler) (w : TimeWindow) (quota : Quota)
    → job.schedule_type ≡ ScheduleType.cron
    → cron_instant calendar job.cron_expression now ≡ value_error p
    → a.success ≡ true
    → job.enabled ≡ true
    → is_due job.next_run now ≡ true
    → now ≤ t
    → (is_peak w t && waits_for_off_peak job.priority) ≡ false
    → let (started, own) = start_run start job s in
      let meanwhile = record started { jobs = (apply_all cs started.jobs).0 } in
      let last = finish_run calendar start end now a own meanwhile in
      (stored : ScheduledJob) × (get_job job.job_id last.jobs ≡ some stored)
      × (stored.status ≡ JobStatus.pending)
      × (stored.next_run ≡ job.next_run)
      × (In stored (tick w (λ _. quota) (λ _. last.running) (λ _. t) last.jobs)
          ↔ HasBudget quota job.priority)
unfolding start_run
no_match_runs_again calendar start end now t p a job cs s w quota c e good on due le off =
    let (started, own) = start_run start job s in
    let meanwhile = record started { jobs = (apply_all cs started.jobs).0 } in
    let last = finish_run calendar start end now a own meanwhile in
    let (found, idle, logged) = finish_run-overwrites calendar start end now a job cs s in
    let at = found ∙ ap some (finished-unmatched calendar now p a own c e good) in
    (
      unmatched p own,
      at,
      refl,
      refl,
      tick_again w quota last.running t (unmatched p own) last.jobs at (
          pending_runs w quota last.running t (unmatched p own) on refl idle
            (due_later job.next_run now t le due) off),
    )

-- A new cron job without a time of its own for which no minute of the next 48 hours matches is
-- added as pending and without a time, and is ready at once and at every moment until it runs: no
-- peak hours and no run of it in progress provided, only the quota keeps the next tick from running
-- it.
pub no_match_runs_at_once :
    (calendar : Calendar) (now t : ℕ) (p : Problem) (job : ScheduledJob) (jobs : Store)
    (w : TimeWindow) (quota : Quota) (running : List String)
    → job.schedule_type ≡ ScheduleType.cron
    → is_empty job.cron_expression ≡ false
    → cron_instant calendar job.cron_expression now ≡ value_error p
    → job.enabled ≡ true
    → job.next_run ≡ none
    → is_running job.job_id running ≡ false
    → (is_peak w t && waits_for_off_peak job.priority) ≡ false
    → (added : Store × ScheduledJob) × (add_job calendar now job jobs ≡ some added)
      × (get_job job.job_id added.0 ≡ some added.1)
      × (should_run w quota running t added.1 ≡ check_quota quota job.priority)
unfolding add_job add_by
no_match_runs_at_once calendar now t p job jobs w quota running c full e on fresh idle off =
    let kept = record job { status = JobStatus.pending; last_error = some (cron_error p) } in
    let same : str_eq job.job_id job.job_id ≡ true = (eq_iff job.job_id job.job_id).1 refl in
    let due : is_due job.next_run t ≡ true = rw fresh refl in
    (
      keep kept jobs,
      rw (c, full, e) refl,
      view-upsert kept jobs job.job_id ∙ rw same refl,
      pending_runs w quota running t kept on refl idle due off,
    )
