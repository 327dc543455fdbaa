-- ===== src/Scheduler/Attempts.antt =====
-- The retries of `_execute_job`.
use swe_squad.Prelude.{
  ℕ, zero, suc, ◌+◌, ◌≤◌, ◌<◌, min, ◌≡◌, refl, sym, ◌∙◌, true, false, ◌&&◌, Option, some, List, [],
  ◌∷◌, ◌++◌, length, length-append, take, is_some, ltb, leb, ◌==◌, ==_iff, arith, inl, inr,
  Bool-cases, Option-cases, All, lt→ltb,
}
use swe_squad.Scheduler.{ScheduledJob, attempt_error}
use swe_squad.Scheduler.Running.{Attempts, attempts, run_attempts, backoff}

-- What holds before each call of the executor, and at the end.
pub record IsSoFar (executor : ℕ → Option (List ℕ)) (job : ScheduledJob) (a : Attempts)
    : Type 0 where
  pub failed : (j : ℕ) → j < a.attempt → is_some (executor j) ≡ true
  pub waited : length a.waits ≡ min a.attempt job.max_retries
  pub short : All (λ w. w ≤ 300) a.waits

All-append :
    (v w : List ℕ) → All (λ x. x ≤ 300) v → All (λ x. x ≤ 300) w → All (λ x. x ≤ 300) (v ++ w)
All-append [] w h k = k
All-append (x ∷ v) w h k = (h.0, All-append v w h.1 k)

backoff_short : (job : ScheduledJob) (n : ℕ) → All (λ x. x ≤ 300) (backoff job n)
backoff_short job n = elim (Bool-cases (leb n job.max_retries)) [
  | inl more ↦ rw more (omega arith, tt)
  | inr last ↦ rw last tt
]

length-backoff :
    (job : ScheduledJob) (n : ℕ)
    → min n job.max_retries + length (backoff job (n + 1)) ≡ min (n + 1) job.max_retries
length-backoff job n = ground arith

failed_more :
    (executor : ℕ → Option (List ℕ)) (n : ℕ)
    → is_some (executor n) ≡ true
    → ((j : ℕ) → j < n → is_some (executor j) ≡ true)
    → (j : ℕ) → j < n + 1
    → is_some (executor j) ≡ true
failed_more executor n now before j h = elim (Bool-cases (j == n)) [
  | inl same ↦ let e : j ≡ n = (==_iff j n).0 same in rw e now
  | inr other ↦ before j (ground arith)
]

-- The state after a failure.
abbrev after_failure : ScheduledJob → Attempts → List ℕ → Attempts
after_failure job a message = record a {
  attempt = a.attempt + 1;
  last_error = some (attempt_error (a.attempt + 1) (take 200 message));
  waits = a.waits ++ backoff job (a.attempt + 1);
}

after_failure-IsSoFar :
    (executor : ℕ → Option (List ℕ)) (job : ScheduledJob) (a : Attempts) (message : List ℕ)
    → executor a.attempt ≡ some message
    → IsSoFar executor job a
    → IsSoFar executor job (after_failure job a message)
after_failure-IsSoFar executor job a message e v = record {
  failed = failed_more executor a.attempt (rw e refl) v.failed;
  waited =
      length-append a.waits (backoff job (a.attempt + 1))
      ∙ (rw (v.waited) (length-backoff job a.attempt));
  short = All-append a.waits _ v.short (backoff_short job (a.attempt + 1));
}

-- How the attempts end, with at most `limit` of them.
pub record IsOutcome (executor : ℕ → Option (List ℕ)) (job : ScheduledJob) (a : Attempts)
    : Type 0 where
  pub so_far : IsSoFar executor job a
  pub within : a.attempt ≤ job.max_retries + 1
  pub succeeded : a.success ≡ ltb a.attempt (job.max_retries + 1)
  pub last_good : (a.success && is_some (executor a.attempt)) ≡ false

attempts-IsOutcome :
    (executor : ℕ → Option (List ℕ)) (job : ScheduledJob) (left : ℕ) (a : Attempts)
    → a.success ≡ false
    → a.attempt + left ≡ job.max_retries + 1
    → IsSoFar executor job a
    → IsOutcome executor job (attempts executor job left a)
unfolding attempts
attempts-IsOutcome executor job zero a s e v = record {
  so_far = v;
  within = omega arith;
  succeeded = ground arith;
  last_good = rw s refl;
}
attempts-IsOutcome executor job (suc left) a s e v = elim (Option-cases (executor a.attempt)) [
  | inl good ↦
      rw (good, attempts)
        (record {
          so_far = record { failed = v.failed; waited = v.waited; short = v.short };
          within = omega arith;
          succeeded = sym (lt→ltb a.attempt (job.max_retries + 1) (omega arith));
          last_good = rw good refl;
        })
  | inr (message, bad) ↦
      rw (bad, attempts)
        (attempts-IsOutcome executor job left (after_failure job a message) s (omega arith)
          (after_failure-IsSoFar executor job a message bad v))
]

-- A run calls the executor until a call returns, at most one time more often than the retries that
-- the job allows: all the calls before the last raise; the run succeeds exactly if fewer calls
-- raise than the job allows, and then the next call returned. It waits after each call that raises
-- and that another follows, never longer than 300 seconds.
pub run_attempts-IsOutcome :
    (executor : ℕ → Option (List ℕ)) (job : ScheduledJob)
    → IsOutcome executor job (run_attempts executor job)
unfolding run_attempts
run_attempts-IsOutcome executor job =
    attempts-IsOutcome executor job (job.max_retries + 1) _ refl (omega arith)
      (record { failed = λ j h. absurd (omega arith); waited = omega arith; short = tt })
