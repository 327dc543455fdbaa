-- ===== src/Tests/Queue.antt =====
-- The task queue on two tasks, the second of them more urgent.
use swe_squad.Prelude.{
  ℕ, ◌+◌, ◌*◌, ◌^◌, ◌-◌, ◌≤◌, ◌<◌, ◌≡◌, ◌≢◌, ◌↔◌, refl, sym, inl, inr, String, true, false,
  Bool-cases, eq_iff, none, some, is_some, [], ◌∷◌, arith, lookup, insert, str_eq, if◌then◌else◌,
}
use mathlib.Core.Option
use mathlib.Core.Path.{subst}
use swe_squad.Heapq.{entry_leb, heappush, push_all}
use swe_squad.TaskQueue.{
  queued, dead_letter, QueuedTask, Queue, entry_of, empty, enqueue, is_stale, reclaim_one, reclaim,
  judge, select, finish_claim, mark_claimed, claim, require_claimed, fail, lease_timeout,
}
use swe_squad.TaskQueue.Valid.{IsValid, after}
use swe_squad.TaskQueue.Claim.{eligible}
use swe_squad.TaskQueue.Service.{claim_finds, claim_effect, claim_least}
use swe_squad.TaskQueue.Runs.{
  Call, enqueue_call, claim_call, fail_call, perform, Steps, here, next, LeavesAlone,
  reachable-IsValid, lease_excludes,
}
use swe_squad.TaskQueue.ClaimValid.{claim-IsValid}
use swe_squad.TaskQueue.Retries.{fail_retries}

abbrev call_a : Call
call_a = enqueue_call 1_000_000 "a" "develop" "T1" "{}" 50

abbrev call_b : Call
call_b = enqueue_call 2_000_000 "b" "develop" "T2" "{}" 10

abbrev two : Queue
two = perform call_b (perform call_a empty)

two_reached : Steps (λ _. Unit) empty two
unfolding perform enqueue empty lookup insert
two_reached = next (next here call_a tt refl refl) call_b tt refl refl

reachable-IsValid_example : IsValid two
reachable-IsValid_example = reachable-IsValid two_reached

two-IsValid : IsValid two
two-IsValid = reachable-IsValid two_reached

abbrev task_a : QueuedTask
task_a = (enqueue 1_000_000 "a" "develop" "T1" "{}" 50 empty).0

abbrev task_b : QueuedTask
task_b = (enqueue 2_000_000 "b" "develop" "T2" "{}" 10 empty).0

a_stored : lookup "a" two.tasks ≡ some task_a
unfolding perform enqueue empty lookup insert
a_stored = refl

a_eligible : eligible 5_000_000 "develop" task_a ≡ true
unfolding enqueue
a_eligible = refl

claim_finds_example : is_some (claim 5_000_000 "develop" "w" two).0 ≡ true
claim_finds_example =
    claim_finds 5_000_000 "develop" "w" two two-IsValid "a" task_a a_stored a_eligible

-- The claim takes the second task.
abbrev claimed_b : QueuedTask
claimed_b = mark_claimed 5_000_000 "w" task_b

b_claimed : (claim 5_000_000 "develop" "w" two).0 ≡ some claimed_b
unfolding perform enqueue empty lookup insert claim reclaim is_stale reclaim_one judge select
    finish_claim heappush push_all entry_leb
b_claimed = refl

claim_least_example : entry_leb (entry_of claimed_b) (entry_of task_a) ≡ true
claim_least_example =
    claim_least 5_000_000 "develop" "w" two two-IsValid claimed_b b_claimed "a" task_a a_stored
      a_eligible

claim_effect_example :
    ((t : QueuedTask) × (lookup claimed_b.task_id two.tasks ≡ some t)
      × (eligible 5_000_000 "develop" t ≡ true)
      × (claimed_b ≡ mark_claimed 5_000_000 "w" t))
    × (lookup "a" (claim 5_000_000 "develop" "w" two).1.tasks ≡ (
        if str_eq claimed_b.task_id "a"
        then some claimed_b
        else Option.map (reclaim_one 5_000_000 "develop") (lookup "a" two.tasks)))
claim_effect_example = claim_effect 5_000_000 "develop" "w" two two-IsValid claimed_b "a" b_claimed

-- The queue in which the second task is held.
abbrev held : Queue
held = (claim 5_000_000 "develop" "w" two).1

abbrev later_claim : Call
later_claim = claim_call 90_000_000 "develop" "v"

abbrev late : Queue
late = perform later_claim held

held-late : Steps (LeavesAlone claimed_b.task_id (5_000_000 + lease_timeout)) held late
held-late = next here later_claim (omega arith) tt refl

lease_excludes_example : lookup claimed_b.task_id late.tasks ≡ some claimed_b
lease_excludes_example =
    lease_excludes 5_000_000 "develop" "w" two claimed_b two-IsValid b_claimed held-late

held-IsValid : IsValid held
held-IsValid = claim-IsValid 5_000_000 "develop" two two-IsValid "w"

held_tasks : held.tasks ≡ ("a", task_a) ∷ ("b", claimed_b) ∷ []
unfolding perform enqueue empty lookup insert claim reclaim is_stale reclaim_one judge select
    finish_claim heappush push_all entry_leb
held_tasks = refl

b_held : lookup "b" held.tasks ≡ some claimed_b
unfolding lookup
b_held = rw held_tasks refl

-- The other task is less urgent.
a_behind : entry_leb (entry_of task_a) (entry_of claimed_b) ≡ false
unfolding enqueue entry_leb
a_behind = refl

b_first :
    (j : String) (s : QueuedTask)
    → lookup j held.tasks ≡ some s
    → eligible 40_000_000 claimed_b.task_type s ≡ true
    → j ≢ "b"
    → entry_leb (entry_of s) (entry_of claimed_b) ≡ false
unfolding lookup
b_first j s at el n =
    let at' : lookup j (("a", task_a) ∷ ("b", claimed_b) ∷ []) ≡ some s = rw held_tasks at at in
    elim (Bool-cases (str_eq "a" j)) [
      | inl y ↦
          let e : some task_a ≡ some s = rw y at at' in
          let e' : task_a ≡ s = cc in
          subst (λ x. entry_leb (entry_of x) (entry_of claimed_b) ≡ false) e' a_behind
      | inr f ↦ elim (Bool-cases (str_eq "b" j)) [
        | inl y ↦ absurd (n (sym ((eq_iff "b" j).0 y)))
        | inr g ↦ let never = rw (f, g) at at' in absurd (cc)
      ]
    ]

b_tries : claimed_b.attempts < claimed_b.max_retries
unfolding enqueue
b_tries = omega arith

-- 30 seconds after the failure at 10_000_000, at 40_000_000.
fail_retries_example :
    let failed = after held (fail 10_000_000 "b" "boom" held) in
    ((u : QueuedTask) × (lookup "b" failed.tasks ≡ some u)
      × (u.status ≡ queued)
      × (u.claimed_by ≡ none)
      × (u.attempts ≡ claimed_b.attempts))
    × (((c : QueuedTask) × ((claim 40_000_000 claimed_b.task_type "v" failed).0 ≡ some c)
          × (c.task_id ≡ "b")
          × (c.attempts ≡ claimed_b.attempts + 1))
        ↔ (10_000_000 + claimed_b.retry_delay * 2 ^ (claimed_b.attempts - 1) ≤ 40_000_000))
fail_retries_example =
    fail_retries 10_000_000 40_000_000 "b" "boom" "v" held claimed_b held-IsValid b_held refl
      b_tries b_first

-- The first task claimed and failed three times, and then another task.
abbrev claim_a : ℕ → Call
claim_a now = claim_call now "develop" "w"

abbrev fail_a : ℕ → Call
fail_a now = fail_call now "a" "boom"

abbrev failed_once : Queue
failed_once = perform (fail_a 200_000_001) (perform (claim_a 200_000_000) (perform call_a empty))

abbrev failed_twice : Queue
failed_twice = perform (fail_a 500_000_001) (perform (claim_a 500_000_000) failed_once)

abbrev buried : Queue
buried = perform (fail_a 900_000_001) (perform (claim_a 900_000_000) failed_twice)

buried_reached : Steps (λ _. Unit) empty buried
unfolding empty lookup
buried_reached =
    next
      (next
        (next
          (next
            (next (next (next here call_a tt refl refl) (claim_a 200_000_000) tt tt refl)
              (fail_a 200_000_001) tt tt refl)
            (claim_a 500_000_000) tt tt refl)
          (fail_a 500_000_001) tt tt refl)
        (claim_a 900_000_000) tt tt refl)
      (fail_a 900_000_001) tt tt refl

abbrev dead_a : QueuedTask
dead_a = record task_a {
  status = dead_letter;
  claimed_at = some 900_000_000;
  claimed_by = some "w";
  attempts = 3;
  next_retry_at = some 560_000_001;
  error = some "boom";
}

a_buried : lookup "a" buried.tasks ≡ some dead_a
unfolding perform enqueue empty lookup insert claim reclaim is_stale reclaim_one judge select
    finish_claim heappush push_all entry_leb fail require_claimed
a_buried = refl

abbrev resumed : Queue
resumed = perform (claim_a 990_000_000) buried

buried_resumed : Steps (λ _. Unit) buried resumed
buried_resumed = next here (claim_a 990_000_000) tt tt refl
