-- ===== src/TaskQueue/Claim.antt =====
-- What `claim` returns and leaves behind.
use mathlib.Core.Option
use mathlib.Core.Path.{subst}
use swe_squad.Prelude.{
  ℕ, String, ◌≡◌, sym, ap, ◌∙◌, inl, inr, Bool, true, false, ◌&&◌, ◌||◌, none, some, List, [], In,
  Bool-cases, arith, Dict, lookup, insert, str_eq,
}
use swe_squad.Heapq.{Entry, push_all}
use swe_squad.TaskQueue.{
  QueuedTask, Queue, is_queued, is_claimed, entry_of, lease_over, is_stale, requeue, reclaim_one,
  reclaim, retry_due, choose, judge, Selection, select, mark_claimed, finish_claim, claim,
}
use swe_squad.TaskQueue.Reclaim.{lookup-reclaim, In-reclaim, In-reclaim_stale, In-reclaim_cases}
use swe_squad.TaskQueue.Select.{select_chosen}
use swe_squad.TaskQueue.Valid.{IsValid, IsFiled, IsFiled-grow, IsMatched}

-- The rule of the docstring: a task of the type that waits and is due, or that a worker holds
-- under a lease that has run out. (`next_retry_at` is read in both cases.)
abbrev pub eligible : ℕ → String → QueuedTask → Bool
eligible now task_type t =
    str_eq t.task_type task_type
    && (retry_due now t.next_retry_at
        && (is_queued t.status || (is_claimed t.status && lease_over now t.claimed_at)))

pub judge-eligible :
    (now : ℕ) (task_type : String) (t : QueuedTask)
    → eligible now task_type t ≡ true
    → judge now task_type (some (reclaim_one now task_type t))
      ≡ choose (reclaim_one now task_type t)
unfolding judge reclaim_one is_stale
judge-eligible now task_type t h = ground arith

pub eligible-judge :
    (now : ℕ) (task_type : String) (t u : QueuedTask)
    → judge now task_type (some (reclaim_one now task_type t)) ≡ choose u
    → (eligible now task_type t ≡ true) × (u ≡ reclaim_one now task_type t)
unfolding judge reclaim_one is_stale
eligible-judge now task_type t u h = ground arith

waits :
    (now : ℕ) (task_type : String) (t : QueuedTask)
    → eligible now task_type t ≡ true
    → is_stale now task_type t ≡ false
    → is_queued t.status ≡ true
unfolding is_stale
waits now task_type t h n = ground arith

-- Before and after the first loop a task has one heap entry, and it is waiting for one if queued.
pub entry_of-reclaim_one :
    (now : ℕ) (task_type : String) (t : QueuedTask)
    → entry_of (reclaim_one now task_type t) ≡ entry_of t
unfolding reclaim_one
entry_of-reclaim_one now task_type t = ground arith

pub reclaim_one_stale :
    (now : ℕ) (task_type : String) (t : QueuedTask)
    → is_stale now task_type t ≡ true
    → reclaim_one now task_type t ≡ requeue t
unfolding reclaim_one
reclaim_one_stale now task_type t y = rw y

pub reclaim_one_fresh :
    (now : ℕ) (task_type : String) (t : QueuedTask)
    → is_stale now task_type t ≡ false
    → reclaim_one now task_type t ≡ t
unfolding reclaim_one
reclaim_one_fresh now task_type t n = rw n

pub mark_claimed-reclaim_one :
    (now now' : ℕ) (task_type worker_id : String) (t : QueuedTask)
    → mark_claimed now' worker_id (reclaim_one now task_type t) ≡ mark_claimed now' worker_id t
unfolding reclaim_one
mark_claimed-reclaim_one now now' task_type worker_id t = ground arith

module _ (now : ℕ) (task_type : String) (q : Queue) where
  -- The state after the first loop, and the result of the second.
  abbrev pub tasks₁ : Dict QueuedTask
  tasks₁ = (reclaim now task_type q.tasks q.heap).0

  abbrev pub heap₁ : List Entry
  heap₁ = (reclaim now task_type q.tasks q.heap).1

  abbrev pub picked : Selection
  picked = select now task_type tasks₁ heap₁ []

  pub lookup-tasks₁ :
      (k : String) → lookup k tasks₁ ≡ Option.map (reclaim_one now task_type) (lookup k q.tasks)
  lookup-tasks₁ k = lookup-reclaim now task_type k q.tasks q.heap

  pub lookup-tasks₁-some :
      (k : String) (t : QueuedTask)
      → lookup k q.tasks ≡ some t
      → lookup k tasks₁ ≡ some (reclaim_one now task_type t)
  lookup-tasks₁-some k t at = lookup-tasks₁ k ∙ ap (Option.map (reclaim_one now task_type)) at

  module _ (v : IsValid q) where
    -- An eligible task stands on the heap of the second loop, and is judged so.
    pub eligible_waits :
        (k : String) (t : QueuedTask)
        → lookup k q.tasks ≡ some t
        → eligible now task_type t ≡ true
        → In (entry_of t) heap₁
          × (judge now task_type (lookup (entry_of t).task_id tasks₁)
              ≡ choose (reclaim_one now task_type t))
    eligible_waits k t at h = (on_heap, judged)
      where
        judged :
            judge now task_type (lookup t.task_id tasks₁) ≡ choose (reclaim_one now task_type t)
        judged =
            ap (judge now task_type)
              (ap (λ x. lookup x tasks₁) (v.filed k t at).keyed ∙ lookup-tasks₁-some k t at)
            ∙ judge-eligible now task_type t h

        on_heap : In (entry_of t) heap₁
        on_heap = elim (Bool-cases (is_stale now task_type t)) [
          | inl y ↦ In-reclaim_stale now task_type k t q.tasks q.heap at y
          | inr n ↦
              In-reclaim now task_type (entry_of t) q.tasks q.heap
                ((v.filed k t at).waiting (waits now task_type t h n))
        ]

    pub heap₁-IsMatched : (a : Entry) → In a heap₁ → IsMatched q.tasks a
    heap₁-IsMatched a m = elim (In-reclaim_cases now task_type a q.tasks q.heap v.unique m) [
      | inl old ↦ v.matched a old
      | inr (k, t, at, e) ↦
          let key : k ≡ a.task_id = sym (v.filed k t at).keyed ∙ ap (λ x. x.task_id) e in
          (t, subst (λ x. lookup x q.tasks ≡ some t) key at, e)
    ]

    -- What the second loop picks is an eligible task, under its own entry.
    pub picked_task :
        (e : Entry) (u : QueuedTask)
        → picked.chosen ≡ some (e, u)
        → (t : QueuedTask) × (lookup e.task_id q.tasks ≡ some t)
          × (eligible now task_type t ≡ true)
          × (u ≡ reclaim_one now task_type t)
          × (entry_of t ≡ e)
    picked_task e u c =
        let (j, m) = select_chosen now task_type tasks₁ heap₁ [] e u c in
        let (t, at, same) = heap₁-IsMatched e m in
        let j' = rw (lookup-tasks₁ e.task_id, at) at j in
        let (h, r) = eligible-judge now task_type t u j' in (t, at, h, r, same)

    -- The first loop keeps every fact of the invariant but the dead letters'.
    pub filed₁ :
        (k : String) (t : QueuedTask)
        → lookup k q.tasks ≡ some t
        → IsFiled heap₁ q.dead k (reclaim_one now task_type t)
    filed₁ k t at = elim (Bool-cases (is_stale now task_type t)) [
      | inl y ↦ rw (reclaim_one_stale now task_type t y) (record {
        keyed = f.keyed;
        waiting = λ _. In-reclaim_stale now task_type k t q.tasks q.heap at y;
        tried = λ h. cc;
        leased = λ h. cc;
        buried = λ h. cc;
      })
      | inr n ↦ rw (reclaim_one_fresh now task_type t n) (
          IsFiled-grow heap₁ q.dead (λ a m. In-reclaim now task_type a q.tasks q.heap m) (λ j m. m)
            f)
    ]
      where
        f : IsFiled q.heap q.dead k t
        f = v.filed k t at

  -- `claim` by what the second loop picked.
  pub claim-none :
      (worker_id : String)
      → picked.chosen ≡ none
      → claim now task_type worker_id q
        ≡ (none, record q { heap = push_all picked.skipped picked.rest; tasks = tasks₁ })
  unfolding claim finish_claim
  claim-none worker_id p = rw p

  pub claim-some :
      (worker_id : String) (e : Entry) (t : QueuedTask)
      → picked.chosen ≡ some (e, t)
      → claim now task_type worker_id q ≡ (
        some (mark_claimed now worker_id t),
        record q {
          heap = push_all picked.skipped picked.rest;
          tasks = insert e.task_id (mark_claimed now worker_id t) tasks₁;
        },
      )
  unfolding claim finish_claim
  claim-some worker_id e t p = rw p
