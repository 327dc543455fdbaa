-- ===== src/Scheduler/Dispatch.antt =====
-- Which jobs a tick hands to the pool.
use swe_squad.Prelude.{
  ℕ, ◌≤◌, ◌≡◌, refl, sym, ◌∙◌, Bool, true, false, ◌&&◌, ◌||◌, not, ◌⊎◌, ◌↔◌, inl, inr, Option, none,
  some, List, [], ◌∷◌, filter, String, arith, Bool-cases, In,
}
use mathlib.Core.Path.{subst}
use swe_squad.Scheduler.{
  JobStatus, JobPriority, TimeWindow, is_peak, ScheduledJob, Store, same_status,
}
use swe_squad.Scheduler.Running.{
  Quota, is_running, is_due, is_critical, is_low, waits_for_off_peak, check_quota, should_run, tick,
}

abbrev pub IsOpen : JobStatus → Type 0
IsOpen s = (s ≡ JobStatus.scheduled) ⊎ (s ≡ JobStatus.pending)

abbrev pub IsDue : Option ℕ → ℕ → Type 0
IsDue none now = 0 ≤ 0
IsDue (some t) now = t ≤ now

-- Neither a peak hour that the job keeps away from nor a job that keeps away from them.
abbrev pub MayRunAt : TimeWindow → ScheduledJob → ℕ → Type 0
MayRunAt w j now =
    (j.respect_peak_hours ≡ false)
    ⊎ ((waits_for_off_peak j.priority ≡ false) ⊎ (is_peak w now ≡ false))

abbrev pub HasBudget : Quota → JobPriority → Type 0
HasBudget none p = 0 ≤ 0
HasBudget (some (has_budget, remaining)) p =
    (has_budget ≡ true) × ((is_low p ≡ false) ⊎ (10 ≤ remaining))

pub record IsReady (w : TimeWindow) (quota : Quota) (running : List String) (now : ℕ)
    (j : ScheduledJob) : Type 0 where
  pub enabled : j.enabled ≡ true
  pub open_status : IsOpen j.status
  pub idle : is_running j.job_id running ≡ false
  pub due : IsDue j.next_run now
  pub in_hours : MayRunAt w j now
  pub budget : HasBudget quota j.priority

IsOpen-iff :
    (s : JobStatus)
    → ((same_status s JobStatus.scheduled || same_status s JobStatus.pending) ≡ true) ↔ IsOpen s
IsOpen-iff JobStatus.pending = (λ h. inr refl, λ h. refl)
IsOpen-iff JobStatus.scheduled = (λ h. inl refl, λ h. refl)
IsOpen-iff s = (λ h. cc, λ h. elim h [ inl e ↦ cc | inr e ↦ cc ])

IsDue-iff : (o : Option ℕ) (now : ℕ) → (is_due o now ≡ true) ↔ IsDue o now
IsDue-iff none now = (λ h. omega arith, λ h. refl)
IsDue-iff (some t) now = ground arith

hours_of :
    (r : Bool) (p : JobPriority) (k : Bool)
    → (((r && not (is_critical p)) && (k && waits_for_off_peak p)) ≡ false)
      ↔ ((r ≡ false) ⊎ ((waits_for_off_peak p ≡ false) ⊎ (k ≡ false)))
hours_of r JobPriority.critical k = ground arith
hours_of r JobPriority.high k = ground arith
hours_of r JobPriority.normal k = ground arith
hours_of r JobPriority.low k = ground arith

pub budget_iff : (q : Quota) (p : JobPriority) → ((check_quota q p).0 ≡ true) ↔ HasBudget q p
unfolding check_quota
budget_iff none p = (λ h. omega arith, λ h. refl)
budget_iff (some (b, r)) p = ground arith

pub should_run_iff :
    (w : TimeWindow) (quota : Quota) (running : List String) (now : ℕ) (j : ScheduledJob)
    → ((should_run w quota running now j).0 ≡ true) ↔ IsReady w quota running now j
unfolding should_run
should_run_iff w quota running now j = (
  λ h. record {
    enabled = ground arith;
    open_status = (IsOpen-iff j.status).0 (ground arith);
    idle = ground arith;
    due = (IsDue-iff j.next_run now).0 (ground arith);
    in_hours = (hours_of j.respect_peak_hours j.priority (is_peak w now)).0 (ground arith);
    budget = (budget_iff quota j.priority).0 (ground arith);
  },
  λ r.
      rw
        (
          r.enabled,
          (IsOpen-iff j.status).1 r.open_status,
          r.idle,
          (IsDue-iff j.next_run now).1 r.due,
          (hours_of j.respect_peak_hours j.priority (is_peak w now)).1 r.in_hours,
        )
        ((budget_iff quota j.priority).1 r.budget),
)

In-filter :
    (p : ScheduledJob → Bool) (j : ScheduledJob) (jobs : Store)
    → In j (filter p jobs) ↔ (In j jobs × (p j ≡ true))
In-filter p j [] = (λ h. elim h [ ], λ h. elim (h.0) [ ])
In-filter p j (k ∷ jobs) =
    let ih = In-filter p j jobs in
    elim (Bool-cases (p k)) [
      | inl keep ↦ rw keep (
        λ h. elim h [ inl e ↦ (inl e, rw e keep) | inr m ↦ (inr (ih.0 m).0, (ih.0 m).1) ],
        λ h. elim (h.0) [ inl e ↦ inl e | inr m ↦ inr (ih.1 (m, h.1)) ],
      )
      | inr skip ↦ rw skip (
        λ m. (inr (ih.0 m).0, (ih.0 m).1),
        λ h. elim (h.0) [
          | inl e ↦ absurd (
              let x : p k ≡ true = subst (λ y. p y ≡ true) e (h.1) in
              let bad : true ≡ false = sym x ∙ skip in cc)
          | inr m ↦ ih.1 (m, h.1)
        ],
      )
    ]

-- A tick hands a job to the pool exactly when the job is in the store, enabled and scheduled or
-- pending, not running, due by the clock read for it, keeps clear of peak hours where it has to
-- (priority normal or low and `respect_peak_hours`), and has budget where there is a quota checker
-- (for priority low at least 10 remaining).
pub tick_lem :
    (w : TimeWindow) (quota : ScheduledJob → Quota) (running : ScheduledJob → List String)
    (clock : ScheduledJob → ℕ) (jobs : Store) (j : ScheduledJob)
    → In j (tick w quota running clock jobs)
      ↔ (In j jobs × IsReady w (quota j) (running j) (clock j) j)
unfolding tick
tick_lem w quota running clock jobs j =
    let kept = In-filter (λ k. (should_run w (quota k) (running k) (clock k) k).0) j jobs in
    let ready = should_run_iff w (quota j) (running j) (clock j) j in
    (λ h. ((kept.0 h).0, ready.0 (kept.0 h).1), λ h. kept.1 (h.0, ready.1 h.1))
