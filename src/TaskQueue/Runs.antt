-- ===== src/TaskQueue/Runs.antt =====
-- Any interleaving of calls, as a sequence of steps: validity of every reachable queue, leases
-- that exclude other workers, and dead letters that stay as they are.
use mathlib.Core.Path.{subst}
use text.Mathlib.TextPositions.{eq_refl}
use swe_squad.Prelude.{
  ℕ, ◌+◌, ◌≤◌, String, ◌≡◌, ◌≢◌, sym, ap, ◌∙◌, inl, inr, Bool, true, false, ◌&&◌, none, some,
  Bool-cases, arith, lookup, str_eq, eq_iff,
}
use swe_squad.TaskQueue.{
  QueuedTask, Queue, is_claimed, lease_timeout, empty, enqueue, is_stale, claim, complete, fail,
  heartbeat,
}
use swe_squad.TaskQueue.Valid.{
  IsValid, is_dead, after, empty-IsValid, enqueue-IsValid, complete-IsValid, heartbeat-IsValid,
  fail-IsValid,
}
use swe_squad.TaskQueue.Claim.{eligible}
use swe_squad.TaskQueue.ClaimValid.{claim-IsValid}
use swe_squad.TaskQueue.Service.{claim_effect}
use swe_squad.TaskQueue.Keeps.{
  complete_keeps, heartbeat_keeps, fail_keeps, enqueue_keeps, claim_keeps,
}

-- A call, with the clock and the fresh id that it reads.
pub data Call : Type 0 where
  enqueue_call : (now : ℕ) (task_id task_type ticket_id payload : String) (priority : ℕ) → Call
  claim_call : (now : ℕ) (task_type worker_id : String) → Call
  complete_call : (task_id result : String) → Call
  fail_call : (now : ℕ) (task_id error : String) → Call
  heartbeat_call : (now : ℕ) (task_id : String) → Call

unfoldable pub perform : Call → Queue → Queue
perform (enqueue_call now k ty ticket payload p) q = (enqueue now k ty ticket payload p q).1
perform (claim_call now ty w) q = (claim now ty w q).1
perform (complete_call k r) q = after q (complete k r q)
perform (fail_call now k e) q = after q (fail now k e q)
perform (heartbeat_call now k) q = after q (heartbeat now k q)

-- `uuid4()` gives an id that the queue does not hold.
abbrev pub IsFresh : Call → Queue → Type 0
IsFresh (enqueue_call now k ty ticket payload p) q = lookup k q.tasks ≡ none
IsFresh _ q = Unit

-- Sequences of calls, each allowed by `P`.
pub data Steps (P : Call → Type 0) (q : Queue) : Queue → Type 0 where
  here : Steps P q q
  next :
      {r s : Queue} → Steps P q r → (c : Call) → P c → IsFresh c r → s ≡ perform c r → Steps P q s

perform-IsValid : (c : Call) (q : Queue) → IsFresh c q → IsValid q → IsValid (perform c q)
unfolding perform
perform-IsValid (enqueue_call now k ty ticket payload p) q f v =
    enqueue-IsValid now k ty ticket payload p q v f
perform-IsValid (claim_call now ty w) q f v = claim-IsValid now ty q v w
perform-IsValid (complete_call k r) q f v = complete-IsValid k r q v
perform-IsValid (fail_call now k e) q f v = fail-IsValid now k e q v
perform-IsValid (heartbeat_call now k) q f v = heartbeat-IsValid now k q v

pub Steps-IsValid : {P : Call → Type 0} {q r : Queue} → IsValid q → Steps P q r → IsValid r
Steps-IsValid v here = v
Steps-IsValid v (next {r} st c p f e) =
    subst IsValid (sym e) (perform-IsValid c r f (Steps-IsValid v st))

-- A queue that any calls, with fresh ids for new tasks, have made from the empty one satisfies the
-- invariant: its heap is sorted and each entry that of a stored task, each queued task has its
-- entry there, each claimed one has an attempt and a lease, and the dead letters are the tasks of
-- that status.
pub reachable-IsValid : {q : Queue} → Steps (λ _. Unit) empty q → IsValid q
reachable-IsValid st = Steps-IsValid empty-IsValid st

-- Calls that may be made while a lease on `k` runs up to `until`: claims by anyone up to that
-- time, and calls about other tasks.
abbrev pub LeavesAlone : String → ℕ → Call → Type 0
LeavesAlone k until (enqueue_call now j ty ticket payload p) = Unit
LeavesAlone k until (claim_call now ty w) = now ≤ until
LeavesAlone k until (complete_call j r) = j ≢ k
LeavesAlone k until (fail_call now j e) = j ≢ k
LeavesAlone k until (heartbeat_call now j) = j ≢ k

apart_false : (j k : String) (b : Bool) → j ≢ k → (str_eq j k && b) ≡ false
apart_false j k b n = elim (Bool-cases (str_eq j k)) [
  | inl y ↦ absurd (n ((eq_iff j k).0 y))
  | inr f ↦ rw f
]

-- A task held since `at` is neither stale nor eligible up to the end of its lease.
held_not_stale :
    (now at : ℕ) (ty : String) (t : QueuedTask)
    → is_claimed t.status ≡ true
    → t.claimed_at ≡ some at
    → now ≤ at + lease_timeout
    → (is_stale now ty t ≡ false) × (eligible now ty t ≡ false)
unfolding is_stale
held_not_stale now at ty t live since h = (ground arith, ground arith)

step_leaves :
    (c : Call) (q : Queue) (k : String) (t : QueuedTask) (at : ℕ)
    → IsValid q
    → IsFresh c q
    → LeavesAlone k (at + lease_timeout) c
    → is_claimed t.status ≡ true
    → t.claimed_at ≡ some at
    → lookup k q.tasks ≡ some t
    → lookup k (perform c q).tasks ≡ some t
unfolding perform
step_leaves (enqueue_call now j ty ticket payload p) q k t at v f a live since l =
    enqueue_keeps k t q l now j ty ticket payload p f
step_leaves (claim_call now ty w) q k t at v f a live since l =
    let (ns, ne) = held_not_stale now at ty t live since a in claim_keeps k t q l now ty w v ns ne
step_leaves (complete_call j r) q k t at v f a live since l =
    complete_keeps k t q l j r (apart_false j k _ a)
step_leaves (fail_call now j e) q k t at v f a live since l =
    fail_keeps k t q l now j e (apart_false j k _ a)
step_leaves (heartbeat_call now j) q k t at v f a live since l =
    heartbeat_keeps k t q l now j (apart_false j k _ a)

Steps-leave :
    (k : String) (t : QueuedTask) (at : ℕ) {q r : Queue}
    → IsValid q
    → is_claimed t.status ≡ true
    → t.claimed_at ≡ some at
    → lookup k q.tasks ≡ some t
    → Steps (LeavesAlone k (at + lease_timeout)) q r
    → lookup k r.tasks ≡ some t
Steps-leave k t at v live since l here = l
Steps-leave k t at v live since l (next {r} st c p f e) =
    subst (λ x. lookup k x.tasks ≡ some t) (sym e)
      (step_leaves c r k t at (Steps-IsValid v st) f p live since
        (Steps-leave k t at v live since l st))

-- In a valid queue the worker that claimed a task holds it for the whole lease, whatever other
-- calls are made up to `now + lease_timeout`, but for those that complete, fail or renew that very
-- task: the stored task is still the one that was handed out.
pub lease_excludes :
    (now : ℕ) (ty w : String) (q : Queue) (c : QueuedTask) {r : Queue}
    → IsValid q
    → (claim now ty w q).0 ≡ some c
    → Steps (LeavesAlone c.task_id (now + lease_timeout)) (claim now ty w q).1 r
    → lookup c.task_id r.tasks ≡ some c
lease_excludes now ty w q c v h st =
    let ((t, at, el, m), stored) = claim_effect now ty w q v c c.task_id h in
    Steps-leave c.task_id c now (claim-IsValid now ty q v w)
      (ap (λ (x : QueuedTask). is_claimed x.status) m) (ap (λ (x : QueuedTask). x.claimed_at) m)
      (stored ∙ rw (eq_refl c.task_id)) st

dead_not_claimed :
    (t : QueuedTask) (b : Bool) → is_dead t.status ≡ true → (b && is_claimed t.status) ≡ false
dead_not_claimed t b h = ground arith

dead_not_stale :
    (now : ℕ) (ty : String) (t : QueuedTask)
    → is_dead t.status ≡ true
    → (is_stale now ty t ≡ false) × (eligible now ty t ≡ false)
unfolding is_stale
dead_not_stale now ty t h = (ground arith, ground arith)

step_dead :
    (c : Call) (q : Queue) (k : String) (t : QueuedTask)
    → IsValid q
    → IsFresh c q
    → is_dead t.status ≡ true
    → lookup k q.tasks ≡ some t
    → lookup k (perform c q).tasks ≡ some t
unfolding perform
step_dead (enqueue_call now j ty ticket payload p) q k t v f d l =
    enqueue_keeps k t q l now j ty ticket payload p f
step_dead (claim_call now ty w) q k t v f d l =
    let (ns, ne) = dead_not_stale now ty t d in claim_keeps k t q l now ty w v ns ne
step_dead (complete_call j r) q k t v f d l = complete_keeps k t q l j r (dead_not_claimed t _ d)
step_dead (fail_call now j e) q k t v f d l = fail_keeps k t q l now j e (dead_not_claimed t _ d)
step_dead (heartbeat_call now j) q k t v f d l =
    heartbeat_keeps k t q l now j (dead_not_claimed t _ d)

-- In a valid queue a task in the dead letters stays exactly as it is under any further calls.
pub dead_letter_final :
    (k : String) (t : QueuedTask) {P : Call → Type 0} {q r : Queue}
    → IsValid q
    → is_dead t.status ≡ true
    → lookup k q.tasks ≡ some t
    → Steps P q r
    → lookup k r.tasks ≡ some t
dead_letter_final k t v d l here = l
dead_letter_final k t v d l (next {r} st c p f e) =
    subst (λ x. lookup k x.tasks ≡ some t) (sym e)
      (step_dead c r k t (Steps-IsValid v st) f d (dead_letter_final k t v d l st))
