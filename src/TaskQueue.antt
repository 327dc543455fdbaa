-- ===== src/TaskQueue.antt =====
-- src/swe_team/providers/task_queue/{base,memory}.py: the in-memory task queue. Each method holds
-- the queue's lock for its whole body, so it is one function of the state. `time.time()` and
-- `uuid4()` are arguments; times and delays count microseconds. The JSON of `payload` and
-- `result` is carried as text.
pub mod Reclaim
pub mod Select
pub mod Keeps
pub mod Outcomes
pub mod Retries
pub mod Runs
pub mod Service
pub mod ClaimValid
pub mod Claim
pub mod Valid
use swe_squad.Prelude.{
  ℕ, zero, suc, ◌+◌, ◌-◌, ◌*◌, ◌^◌, String, Bool, true, false, ◌&&◌, not, Option, none, some, List,
  [], ◌∷◌, ◌++◌, ltb, leb, str_eq, if◌then◌else◌, Dict, lookup, insert, values, take, count_if,
}
use swe_squad.Heapq.{Entry, heappush, push_all}

pub data Status : Type 0 where
  queued claimed completed failed dead_letter : Status

pub record QueuedTask : Type 0 where
  pub task_id : String
  pub ticket_id : String
  pub task_type : String
  pub priority : ℕ
  pub payload : String
  pub status : Status
  pub created_at : ℕ
  pub claimed_at : Option ℕ
  pub claimed_by : Option String
  pub attempts : ℕ
  pub max_retries : ℕ
  pub retry_delay : ℕ
  pub next_retry_at : Option ℕ
  pub result : Option String
  pub error : Option String

pub data Error : Type 0 where
  key_error value_error : Error

pub data Result {ℓ} (A : Type ℓ) : Type ℓ where
  ok : A → Result A
  raise : Error → Result A

-- `dead` holds references to tasks, by key: `_dead_letter` shares its tasks with `_tasks`.
pub record Queue : Type 0 where
  pub heap : List Entry
  pub tasks : Dict QueuedTask
  pub dead : List String

abbrev pub lease_timeout : ℕ
lease_timeout = 90_000_000

abbrev pub default_retry_delay : ℕ
default_retry_delay = 30_000_000

abbrev pub default_max_retries : ℕ
default_max_retries = 3

unfoldable pub empty : Queue
empty = record { heap = []; tasks = []; dead = [] }

abbrev pub is_queued : Status → Bool
is_queued queued = true
is_queued _ = false

abbrev pub is_claimed : Status → Bool
is_claimed claimed = true
is_claimed _ = false

-- The heap entry that stands for a task.
abbrev pub entry_of : QueuedTask → Entry
entry_of t = record { priority = t.priority; created_at = t.created_at; task_id = t.task_id }

unfoldable pub enqueue :
    (now : ℕ) (task_id task_type ticket_id payload : String) (priority : ℕ)
    → Queue
    → QueuedTask × Queue
enqueue now task_id task_type ticket_id payload priority q =
    let task : QueuedTask = record {
      task_id = task_id;
      ticket_id = ticket_id;
      task_type = task_type;
      priority = priority;
      payload = payload;
      status = queued;
      created_at = now;
      claimed_at = none;
      claimed_by = none;
      attempts = 0;
      max_retries = default_max_retries;
      retry_delay = default_retry_delay;
      next_retry_at = none;
      result = none;
      error = none;
    } in
    (task, record q { heap = heappush (entry_of task) q.heap; tasks = insert task_id task q.tasks })

-- `claimed_at is not None and now - claimed_at > _LEASE_TIMEOUT_SECONDS`
abbrev pub lease_over : ℕ → Option ℕ → Bool
lease_over now none = false
lease_over now (some at) = ltb lease_timeout (now - at)

unfoldable pub is_stale : ℕ → String → QueuedTask → Bool
is_stale now task_type t =
    is_claimed t.status && (str_eq t.task_type task_type && lease_over now t.claimed_at)

-- Back to the queue, as a lease runs out.
abbrev pub requeue : QueuedTask → QueuedTask
requeue t = record t { status = queued; claimed_at = none; claimed_by = none }

unfoldable pub reclaim_one : ℕ → String → QueuedTask → QueuedTask
reclaim_one now task_type t = if is_stale now task_type t then requeue t else t

-- The first loop of `claim`.
unfoldable pub reclaim : ℕ → String → Dict QueuedTask → List Entry → Dict QueuedTask × List Entry
reclaim now task_type [] heap = ([], heap)
reclaim now task_type ((k, t) ∷ d) heap =
    let (d', heap') =
      reclaim now task_type d
        (if is_stale now task_type t then heappush (entry_of t) heap else heap) in
    ((k, reclaim_one now task_type t) ∷ d', heap')

-- `next_retry_at is None or next_retry_at <= now`
abbrev pub retry_due : ℕ → Option ℕ → Bool
retry_due now none = true
retry_due now (some at) = leb at now

-- What the second loop of `claim` does with the task of a popped entry.
pub data Verdict : Type 0 where
  discard : Verdict
  skip : Verdict
  choose : QueuedTask → Verdict

unfoldable pub judge : ℕ → String → Option QueuedTask → Verdict
judge now task_type none = discard
judge now task_type (some t) =
    if is_queued t.status
    then (if str_eq t.task_type task_type
        then (if retry_due now t.next_retry_at then choose t else skip)
        else skip)
    else discard

-- The second loop: it pops until a task is chosen. The result is the chosen entry and task, the
-- rest of the heap, and the entries skipped.
pub record Selection : Type 0 where
  pub chosen : Option (Entry × QueuedTask)
  pub rest : List Entry
  pub skipped : List Entry

unfoldable pub select : ℕ → String → Dict QueuedTask → List Entry → List Entry → Selection
select now task_type tasks [] skipped = record { chosen = none; rest = []; skipped = skipped }
select now task_type tasks (e ∷ heap) skipped =
    elim (judge now task_type (lookup e.task_id tasks)) [
      | discard ↦ select now task_type tasks heap skipped
      | skip ↦ select now task_type tasks heap (skipped ++ e ∷ [])
      | choose t ↦ record { chosen = some (e, t); rest = heap; skipped = skipped }
    ]

abbrev pub mark_claimed : ℕ → String → QueuedTask → QueuedTask
mark_claimed now worker_id t = record t {
  status = claimed;
  claimed_at = some now;
  claimed_by = some worker_id;
  attempts = t.attempts + 1;
}

unfoldable pub finish_claim :
    ℕ → String → Option (Entry × QueuedTask) → Queue → Option QueuedTask × Queue
finish_claim now worker_id none q = (none, q)
finish_claim now worker_id (some (e, t)) q =
    let task = mark_claimed now worker_id t in
    (some task, record q { tasks = insert e.task_id task q.tasks })

unfoldable pub claim : ℕ → String → String → Queue → Option QueuedTask × Queue
claim now task_type worker_id q =
    let (tasks, heap) = reclaim now task_type q.tasks q.heap in
    let s = select now task_type tasks heap [] in
    finish_claim now worker_id s.chosen
      (record q { tasks = tasks; heap = push_all s.skipped s.rest })

-- The guard that `complete`, `fail` and `heartbeat` share.
unfoldable pub require_claimed : String → Queue → Result QueuedTask
require_claimed task_id q = elim (lookup task_id q.tasks) [
  | none ↦ raise key_error
  | some t ↦ if is_claimed t.status then ok t else raise value_error
]

abbrev pub and_then {ℓ κ} : {A : Type ℓ} {B : Type κ} → Result A → (A → Result B) → Result B
and_then (ok a) f = f a
and_then (raise e) f = raise e

unfoldable pub complete : String → String → Queue → Result Queue
complete task_id result q = and_then (require_claimed task_id q) λ t. ok (record q {
  tasks = insert task_id (record t { status = completed; result = some result }) q.tasks;
})

-- `retry_delay_seconds * 2 ** (attempts - 1)`
abbrev pub retry_backoff : QueuedTask → ℕ
retry_backoff t = t.retry_delay * 2 ^ (t.attempts - 1)

unfoldable pub fail : ℕ → String → String → Queue → Result Queue
fail now task_id error q = and_then (require_claimed task_id q) λ t.
    if leb t.max_retries t.attempts
    then ok (record q {
      tasks = insert task_id (record t { error = some error; status = dead_letter }) q.tasks;
      dead = q.dead ++ task_id ∷ [];
    })
    else ok (record q {
      tasks =
          insert task_id
            (record t {
              error = some error;
              next_retry_at = some (now + retry_backoff t);
              status = queued;
              claimed_at = none;
              claimed_by = none;
            })
            q.tasks;
      heap = heappush (entry_of t) q.heap;
    })

unfoldable pub heartbeat : ℕ → String → Queue → Result Queue
heartbeat now task_id q =
    and_then (require_claimed task_id q)
      λ t. ok (record q { tasks = insert task_id (record t { claimed_at = some now }) q.tasks })

-- The tasks that `dead` refers to.
unfoldable pub deref : Dict QueuedTask → List String → List QueuedTask
deref tasks [] = []
deref tasks (k ∷ ks) = elim (lookup k tasks) [ none ↦ deref tasks ks | some t ↦ t ∷ deref tasks ks ]

unfoldable pub get_dead_letter : ℕ → Queue → List QueuedTask
get_dead_letter limit q = take limit (deref q.tasks q.dead)

abbrev pub of_type : Option String → QueuedTask → Bool
of_type none t = true
of_type (some task_type) t = str_eq t.task_type task_type

unfoldable pub queue_depth : Option String → Queue → ℕ
queue_depth task_type q = count_if (λ t. is_queued t.status && of_type task_type t) (values q.tasks)
