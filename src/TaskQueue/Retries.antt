-- ===== src/TaskQueue/Retries.antt =====
-- What a worker may rely on after a failure with retries left: `fail` and the claims behind it.
use mathlib.Core.Path.{subst}
use text.Mathlib.TextPositions.{eq_refl}
use swe_squad.Prelude.{
  ℕ, ◌+◌, ◌-◌, ◌*◌, ◌^◌, ◌≤◌, ◌<◌, String, ◌≡◌, ◌≢◌, ◌↔◌, refl, sym, ap, ◌∙◌, inl, inr, true, false,
  none, some, arith, Bool-cases, Option-cases, lookup, lookup-insert_self, lookup-insert_ne, leb,
  str_eq, eq_iff,
}
use swe_squad.Heapq.{entry_leb}
use swe_squad.TaskQueue.{
  queued, QueuedTask, Queue, is_claimed, entry_of, retry_backoff, fail, claim,
}
use swe_squad.TaskQueue.Valid.{IsValid, after, fail-IsValid}
use swe_squad.TaskQueue.Claim.{eligible}
use swe_squad.TaskQueue.Outcomes.{require_claimed-some}
use swe_squad.TaskQueue.Service.{claim_finds, claim_effect, claim_least}

-- The task as `fail` puts it back.
abbrev retried : ℕ → String → QueuedTask → QueuedTask
retried now error t = record t {
  error = some error;
  next_retry_at = some (now + retry_backoff t);
  status = queued;
  claimed_at = none;
  claimed_by = none;
}

module _ (now : ℕ) (k error : String) (q : Queue) (t : QueuedTask) (at : lookup k q.tasks ≡ some t)
    (live : is_claimed t.status ≡ true) (more : t.attempts < t.max_retries) where
  abbrev failed_queue : Queue
  failed_queue = after q (fail now k error q)

  abbrev back_off : ℕ
  back_off = t.retry_delay * 2 ^ (t.attempts - 1)

  few : leb t.max_retries t.attempts ≡ false
  few = ground arith

  lookup-failed : lookup k failed_queue.tasks ≡ some (retried now error t)
  unfolding fail
  lookup-failed = rw (require_claimed-some k q t at live, few) (lookup-insert_self k _ q.tasks)

  lookup-failed_other :
      (j : String) → str_eq k j ≡ false → lookup j failed_queue.tasks ≡ lookup j q.tasks
  unfolding fail
  lookup-failed_other j n =
      rw (require_claimed-some k q t at live, few) (lookup-insert_ne k j _ q.tasks n)

  retried_due :
      (later : ℕ) → eligible later t.task_type (retried now error t) ≡ leb (now + back_off) later
  retried_due later = rw (eq_refl t.task_type) (ground arith)

  module _ (v : IsValid q) (later : ℕ) (worker : String) (c : QueuedTask)
      (handed : (claim later t.task_type worker failed_queue).0 ≡ some c) where
    v' : IsValid failed_queue
    v' = fail-IsValid now k error q v

    -- A claim of the failed task comes when it is due, and counts one attempt more.
    claimed_when_due : c.task_id ≡ k → (now + back_off ≤ later) × (c.attempts ≡ t.attempts + 1)
    claimed_when_due same =
        let ((s, at_s, el, m), stored) =
          claim_effect later t.task_type worker failed_queue v' c k handed in
        let at_k : lookup k failed_queue.tasks ≡ some s =
          subst (λ x. lookup x failed_queue.tasks ≡ some s) same at_s in
        let e : some (retried now error t) ≡ some s = sym lookup-failed ∙ at_k in
        let e' : retried now error t ≡ s = cc in
        let due : eligible later t.task_type (retried now error t) ≡ true =
          subst (λ x. eligible later t.task_type x ≡ true) (sym e') el in
        let soon : leb (now + back_off) later ≡ true = sym (retried_due later) ∙ due in
        (ground arith, ap (λ x. x.attempts) m ∙ ap (λ x. x.attempts + 1) (sym e'))

    -- A claim while the failed task is due and first of the eligible ones is a claim of it.
    claims_first :
        now + back_off ≤ later
        → ((j : String) (s : QueuedTask)
            → lookup j q.tasks ≡ some s
            → eligible later t.task_type s ≡ true
            → j ≢ k
            → entry_leb (entry_of s) (entry_of t) ≡ false)
        → c.task_id ≡ k
    claims_first due first = elim (Bool-cases (str_eq k c.task_id)) [
      | inl y ↦ sym ((eq_iff k c.task_id).0 y)
      | inr n ↦
          let ((s, at_s, el, m), stored) =
            claim_effect later t.task_type worker failed_queue v' c k handed in
          let soon : leb (now + back_off) later ≡ true = ground arith in
          let before =
            claim_least later t.task_type worker failed_queue v' c handed k (retried now error t)
              lookup-failed (retried_due later ∙ soon) in
          let behind =
            first c.task_id s (sym (lookup-failed_other c.task_id n) ∙ at_s) el
              (λ e. absurd (ground (arith, eq_iff k c.task_id))) in
          let before' : entry_leb (entry_of s) (entry_of t) ≡ true =
            subst (λ x. entry_leb (entry_of x) (entry_of t) ≡ true) m before in
          absurd (cc)
    ]

-- In a valid queue, a claimed task that fails with retries left is queued again, unclaimed and with
-- its attempts kept. While it stands before every other task of its type that is eligible, a worker
-- of that type is handed it, with one attempt more, exactly from `retry_delay * 2 ^ (attempts - 1)`
-- after the failure on.
pub fail_retries :
    (now later : ℕ) (k error worker : String) (q : Queue) (t : QueuedTask)
    → IsValid q
    → lookup k q.tasks ≡ some t
    → is_claimed t.status ≡ true
    → t.attempts < t.max_retries
    → ((j : String) (s : QueuedTask)
        → lookup j q.tasks ≡ some s
        → eligible later t.task_type s ≡ true
        → j ≢ k
        → entry_leb (entry_of s) (entry_of t) ≡ false)
    → let failed = after q (fail now k error q) in
      ((u : QueuedTask) × (lookup k failed.tasks ≡ some u)
        × (u.status ≡ queued)
        × (u.claimed_by ≡ none)
        × (u.attempts ≡ t.attempts))
      × (((c : QueuedTask) × ((claim later t.task_type worker failed).0 ≡ some c)
            × (c.task_id ≡ k)
            × (c.attempts ≡ t.attempts + 1))
          ↔ (now + t.retry_delay * 2 ^ (t.attempts - 1) ≤ later))
fail_retries now later k error worker q t v at live more first = (
  (retried now error t, lookup-failed now k error q t at live more, refl, refl, refl),
  (
    λ h.
        let (c, p, same, tries) = h in
        (claimed_when_due now k error q t at live more v later worker c p same).0,
    λ due.
        let failed = after q (fail now k error q) in
        let soon : leb (now + t.retry_delay * 2 ^ (t.attempts - 1)) later ≡ true = ground arith in
        let found =
          claim_finds later t.task_type worker failed (fail-IsValid now k error q v) k
            (retried now error t) (lookup-failed now k error q t at live more)
            (retried_due now k error q t at live more later ∙ soon) in
        elim (Option-cases (claim later t.task_type worker failed).0) [
          | inl p ↦ let none_found = rw p at found in absurd (cc)
          | inr (c, p) ↦
              let same = claims_first now k error q t at live more v later worker c p due first in
              (
                c,
                p,
                same,
                (claimed_when_due now k error q t at live more v later worker c p same).1,
              )
        ],
  ),
)
