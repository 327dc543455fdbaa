-- ===== src/Lib.antt =====
-- A model of the core of SWE-Squad, an autonomous team of software agents. Work flows through a
-- queue of tasks that workers claim under leases; a ticket is checked out by one run at a time;
-- every engine that the agents call sits behind a rate-limit life cycle and an exponential
-- back-off; a ticket is resolved only when its audit passes, and the stability gate decides
-- whether new work may be deployed. The parts meet in the types they share (`SweTicket` of
-- Ticket is what the gate of Governance counts) and in what they pass to each other (`Backoff`
-- asks a cooldown manager before each call).
--
-- TaskQueue is `InMemoryTaskQueue` (src/swe_team/providers/task_queue/memory.py): `Queue` is its
-- state, and each method is the function of the same name. Heapq is what it uses of Python's
-- `heapq`, with the heap as a sorted list: `heappush` inserts, and popping takes the head.
-- Checkout is `InMemoryCheckoutProvider` (src/swe_team/providers/checkout/memory.py). RateLimit
-- is `RateLimitLifecycle`, and Backoff is `ExponentialBackoff`, both of
-- src/swe_team/rate_limiter.py. Engine is `EngineCooldownManager` of the same file, over a store
-- that is a parameter; its law is that a written row is read back. Ticket is the resolution
-- audit of src/swe_team/models.py. Governance is the gate of src/swe_team/ralph_wiggum.py and
-- the deployment governor of src/swe_team/governance.py, and Complexity is
-- `check_fix_complexity` of the latter. Rules is the rule engine of
-- src/swe_team/providers/usage_governor/rules.py, and Throttle the policy of
-- src/swe_team/throttle.py that sets the limits of a cycle. Cron and Scheduler are
-- src/swe_team/scheduler.py: Cron its expressions, which Cron.Matching also prints, and
-- Scheduler `TimeWindow`, `JobStore`, `RunHistoryStore` and `JobScheduler`; one run of a job is
-- `start_run`, the attempts and `finish_run`, between which other calls may come. Workflow is
-- `PipelineExecutor` of src/swe_team/workflow/executor.py. Breaker is `CircuitBreaker` of
-- src/swe_team/circuit_breaker.py. Costs is `InMemoryCostTracker` of
-- src/swe_team/cost_tracker.py, Governor is `AdaptiveUsageGovernor` and its schedule, of
-- src/swe_team/providers/usage_governor/adaptive.py and schedule.py, on the engine of Rules, and
-- Guardrails is `GuardrailsCoordinator` of src/swe_team/guardrails.py, which asks the breaker,
-- the budget of Costs, the governor and the stability gate in turn; Guardrails.Installed sets
-- the governor and the gate that the repository has. Access is `RBACEngine` of
-- src/swe_team/agent_rbac.py. Dependencies is `DependencyGraph` of
-- src/swe_team/dependency_graph.py, and Distribution `WorkloadDistributor` of
-- src/swe_team/workload_distributor.py, which gives the tickets that a graph calls ready to the
-- teams of src/swe_team/team_registry.py. Checkout.Table and Scheduler.Store state what the
-- ticket locks and the job file promise as tables, and Checkout.Leases shows that the locks keep
-- it.
--
-- A method is a function of the state, and an interleaving of threads is a sequence of calls,
-- since the methods of a shared class hold its lock for their body. The exception is the job
-- store of the scheduler: `delete_job`, and the pause, resumption and cancellation of a job,
-- load and store under separate locks, and their functions stand for calls that no other call of
-- the store overlaps; a run of a job is modelled as its two ends, with other calls between.
-- Clocks, fresh ids, random jitter, the functions called back and the answers of remote stores
-- are arguments. A delay or a cooldown that is computed from a float raises `OverflowError`
-- where a power of two does not fit the float; beyond that, floats are exact. Times are
-- microseconds in ℕ, in place of floats of seconds and of datetimes; a difference stops at 0
-- where the source has a negative number that it only compares or clamps. Percentages are exact
-- fractions. Dictionaries are association lists in the order of insertion. A text whose
-- characters are looked at is the list of its code points, and its lower case is that of ASCII.
-- Payloads and results are carried as text. The loops of `ExponentialBackoff.execute` and
-- `_execute_job` run `max_retries + 1` rounds at most and that of a workflow `max_steps`, as the
-- source bounds them; `next_cron_match` tries the 2880 minutes of 48 hours, and the loop of
-- `next_off_peak` has fuel for a week, which is shown to be enough. The calendar is an argument.
-- Log lines are left out.
--
-- Not modelled: the agents that drive language models, git and processes, the remote stores, the
-- web interface and the notifiers, which are I/O; the threads and the pool of the scheduler; the
-- hooks of a workflow; the detector of bonus windows, which nothing calls; the search for cycles
-- of dependencies, which only logs; and the JSON of the records.
mod Prelude
pub mod Heapq
pub mod TaskQueue
pub mod Checkout
pub mod RateLimit
pub mod Backoff
pub mod Engine
pub mod Ticket
pub mod Governance
pub mod Governor
pub mod Guardrails
pub mod Access
pub mod Dependencies
pub mod Distribution
pub mod Complexity
pub mod Rules
pub mod Throttle
pub mod Cron
pub mod Scheduler
pub mod Workflow
pub mod Breaker
pub mod Costs
mod Tests
