-- ===== src/Scheduler/Store.antt =====
-- JobStore as a table of jobs by their id: upsert, delete_job and the status changes of JobScheduler.
use swe_squad.Prelude.{
  ◌≤◌, ◌≡◌, refl, ap, ◌∙◌, Bool, true, false, not, inl, inr, Option, none, some, List, [], ◌∷◌,
  filter, length, is_some, ◌==◌, if◌then◌else◌, String, str_eq, eq_iff, arith, Bool-cases,
  Option-cases,
}
use mathlib.Core.Path.{subst, fun_ext}
use swe_squad.Scheduler.{
  JobStatus, ScheduledJob, Store, upsert, delete_job, get_job, change, same_status, pause_job,
  cancel_job, resume_job,
}

abbrev pub Table : Type 0
Table = String → Option ScheduledJob

abbrev pub view : Store → Table
view jobs = λ id. get_job id jobs

abbrev pub put : ScheduledJob → Table → Table
put job table = λ id. if str_eq job.job_id id then some job else table id

abbrev pub erase : String → Table → Table
erase gone table = λ id. if str_eq gone id then none else table id

pub view-upsert :
    (job : ScheduledJob) (jobs : Store) (id : String)
    → get_job id (upsert job jobs) ≡ put job (view jobs) id
unfolding get_job upsert
view-upsert job [] id = ground arith
view-upsert job (j ∷ jobs) id = ground (
  arith,
  eq_iff job.job_id id,
  eq_iff j.job_id job.job_id,
  eq_iff j.job_id id,
  view-upsert job jobs id,
)

view-filter :
    (gone : String) (jobs : Store) (id : String)
    → get_job id (filter (λ j. not (str_eq j.job_id gone)) jobs) ≡ erase gone (view jobs) id
unfolding get_job
view-filter gone [] id = ground arith
view-filter gone (j ∷ jobs) id =
    ground
      (arith, eq_iff gone id, eq_iff j.job_id gone, eq_iff j.job_id id, view-filter gone jobs id)

length-filter_le : (p : ScheduledJob → Bool) (jobs : Store) → length (filter p jobs) ≤ length jobs
length-filter_le p [] = omega arith
length-filter_le p (j ∷ jobs) = ground (arith, length-filter_le p jobs)

filter_finds :
    (gone : String) (jobs : Store)
    → (length (filter (λ j. not (str_eq j.job_id gone)) jobs) == length jobs)
      ≡ not (is_some (get_job gone jobs))
unfolding get_job
filter_finds gone [] = refl
filter_finds gone (j ∷ jobs) =
    ground (arith, filter_finds gone jobs, length-filter_le (λ x. not (str_eq x.job_id gone)) jobs)

-- What is not there is erased already.
erase_absent :
    (gone : String) (jobs : Store) (id : String)
    → get_job gone jobs ≡ none
    → get_job id jobs ≡ erase gone (view jobs) id
erase_absent gone jobs id h = elim (Bool-cases (str_eq gone id)) [
  | inl same ↦ rw same (subst (λ x. get_job x jobs ≡ none) ((eq_iff gone id).0 same) h)
  | inr other ↦ rw other refl
]

-- An operation on the store.
pub data Change : Type 0 where
  store : ScheduledJob → Change
  delete : String → Change
  pause : String → Change
  resume : String → Change
  cancel : String → Change

-- The store after an operation, and whether the operation found its job.
unfoldable pub apply : Change → Store → Store × Bool
apply (Change.store j) jobs = (upsert j jobs, true)
apply (Change.delete id) jobs = delete_job id jobs
apply (Change.pause id) jobs = ((pause_job id jobs).0, is_some (pause_job id jobs).1)
apply (Change.resume id) jobs = ((resume_job id jobs).0, is_some (resume_job id jobs).1)
apply (Change.cancel id) jobs = ((cancel_job id jobs).0, is_some (cancel_job id jobs).1)

abbrev pub put_if : Option ScheduledJob → Table → Table × Bool
put_if none table = (table, false)
put_if (some j) table = (put j table, true)

abbrev pub bind_job :
    (ScheduledJob → Option ScheduledJob) → Option ScheduledJob → Option ScheduledJob
bind_job f none = none
bind_job f (some j) = f j

-- The job as `status`, if it is there and may change.
abbrev pub with_status :
    JobStatus → (ScheduledJob → Bool) → Option ScheduledJob → Option ScheduledJob
with_status status may o =
    bind_job (λ j. if may j then some (record j { status = status }) else none) o

-- The operation on the table.
abbrev pub apply_to_table : Change → Table → Table × Bool
apply_to_table (Change.store j) table = (put j table, true)
apply_to_table (Change.delete id) table = (erase id table, is_some (table id))
apply_to_table (Change.pause id) table =
    put_if (with_status JobStatus.paused (λ j. true) (table id)) table
apply_to_table (Change.resume id) table =
    put_if (with_status JobStatus.scheduled (λ j. same_status j.status JobStatus.paused) (table id))
      table
apply_to_table (Change.cancel id) table =
    put_if (with_status JobStatus.cancelled (λ j. true) (table id)) table

upsert-view : (job : ScheduledJob) (jobs : Store) → view (upsert job jobs) ≡ put job (view jobs)
upsert-view job jobs = fun_ext (λ id. view-upsert job jobs id)

-- A store with an answer against a table with one.
abbrev seen : Store × Bool → Table × Bool
seen (jobs, b) = (view jobs, b)

delete_refines :
    (id : String) (jobs : Store)
    → seen (delete_job id jobs) ≡ (erase id (view jobs), is_some (get_job id jobs))
unfolding delete_job
delete_refines id jobs = elim (Option-cases (get_job id jobs)) [
  | inl gone ↦
      let same : (length (filter (λ j. not (str_eq j.job_id id)) jobs) == length jobs) ≡ true =
        filter_finds id jobs ∙ ap (λ o. not (is_some o)) gone in
      let kept : view jobs ≡ erase id (view jobs) = fun_ext (λ k. erase_absent id jobs k gone) in
      rw (same, gone) (ap (λ t. (t, false)) kept)
  | inr (j, there) ↦
      let fewer : (length (filter (λ j. not (str_eq j.job_id id)) jobs) == length jobs) ≡ false =
        filter_finds id jobs ∙ ap (λ o. not (is_some o)) there in
      let rest : view (filter (λ j. not (str_eq j.job_id id)) jobs) ≡ erase id (view jobs) =
        fun_ext (λ k. view-filter id jobs k) in
      rw (fewer, there) (ap (λ t. (t, true)) rest)
]

change_found :
    (k : Option ScheduledJob) (jobs : Store)
    → seen (elim k [ none ↦ (jobs, false) | some k ↦ (upsert k jobs, true) ]) ≡ put_if k (view jobs)
change_found none jobs = refl
change_found (some k) jobs = rw (upsert-view k jobs) refl

change_refines :
    (f : ScheduledJob → Option ScheduledJob) (o : Option ScheduledJob) (jobs : Store)
    → seen ((change f o jobs).0, is_some (change f o jobs).1) ≡ put_if (bind_job f o) (view jobs)
change_refines f none jobs = refl
change_refines f (some j) jobs = elim (Option-cases (f j)) [
  | inl e ↦ rw (e, change) refl
  | inr (k, e) ↦ rw (e, change) (rw (upsert-view k jobs) refl)
]

apply_refines : (c : Change) (jobs : Store) → seen (apply c jobs) ≡ apply_to_table c (view jobs)
unfolding apply pause_job resume_job cancel_job
apply_refines (Change.store j) jobs = rw (upsert-view j jobs) refl
apply_refines (Change.delete id) jobs = delete_refines id jobs
apply_refines (Change.pause id) jobs = change_refines _ (get_job id jobs) jobs
apply_refines (Change.resume id) jobs = change_refines _ (get_job id jobs) jobs
apply_refines (Change.cancel id) jobs = change_refines _ (get_job id jobs) jobs

-- A sequence of operations, with their answers in order.
unfoldable pub apply_all : List Change → Store → Store × List Bool
apply_all [] jobs = (jobs, [])
apply_all (c ∷ cs) jobs =
    let (jobs', b) = apply c jobs in let (last, bs) = apply_all cs jobs' in (last, b ∷ bs)

unfoldable pub apply_all_to_table : List Change → Table → Table × List Bool
apply_all_to_table [] table = (table, [])
apply_all_to_table (c ∷ cs) table =
    let (table', b) = apply_to_table c table in
    let (last, bs) = apply_all_to_table cs table' in (last, b ∷ bs)

-- After every sequence of stores, deletions, pauses, resumptions and cancellations, from every job
-- file (also one with an id twice), `get_job` finds under each id what a table of jobs by id holds
-- after the same operations, and each operation answered that it found its job exactly when the
-- table held one that it applies to (a resumption applies only to a paused job).
pub apply_all_refines :
    (cs : List Change) (jobs : Store)
    → (view (apply_all cs jobs).0, (apply_all cs jobs).1) ≡ apply_all_to_table cs (view jobs)
unfolding apply_all apply_all_to_table
apply_all_refines [] jobs = refl
apply_all_refines (c ∷ cs) jobs =
    rw (← apply_refines c jobs, ← apply_all_refines cs (apply c jobs).0) refl
