-- ===== src/TaskQueue/ClaimValid.antt =====
-- `claim` keeps the invariant of the queue.
use mathlib.Core.Option
use mathlib.Core.Path.{subst}
use swe_squad.Prelude.{
  ℕ, String, ◌≡◌, ◌≢◌, refl, sym, ap, ◌∙◌, ◌⊎◌, inl, inr, true, false, Option, none, some, List, [],
  In, Bool-cases, Option-cases, arith, Dict, lookup, insert, lookup-insert_eq, lookup-insert_ne,
  insert-HasUniqueKeys, str_eq, eq_iff,
}
use swe_squad.Heapq.{Entry, push_all}
use swe_squad.Heapq.Order.{
  IsSorted, push_all-IsSorted, In-push_all_old, In-push_all_new, In-push_all_cases,
}
use swe_squad.TaskQueue.{
  QueuedTask, Queue, is_queued, entry_of, is_stale, reclaim_one, Selection, discard, judge,
  mark_claimed, claim,
}
use swe_squad.TaskQueue.Reclaim.{reclaim-IsSorted, reclaim-HasUniqueKeys}
use swe_squad.TaskQueue.Select.{select_keeps, select_only, select-IsSorted}
use swe_squad.TaskQueue.Valid.{IsValid, IsFiled, IsMatched, dead_at, is_dead, holds_dead}
use swe_squad.TaskQueue.Claim.{
  eligible, tasks₁, heap₁, picked, lookup-tasks₁, lookup-tasks₁-some, heap₁-IsMatched, picked_task,
  filed₁, entry_of-reclaim_one, claim-none, claim-some,
}

judge_queued :
    (now : ℕ) (task_type : String) (t : QueuedTask)
    → is_queued t.status ≡ true
    → judge now task_type (some t) ≢ discard
unfolding judge
judge_queued now task_type t h = ground arith

-- A task found after the first loop, as it was before.
module _ (now : ℕ) (task_type : String) (q : Queue) where
  before_reclaim :
      (k : String) (w : QueuedTask)
      → lookup k (tasks₁ now task_type q) ≡ some w
      → (t : QueuedTask) × (lookup k q.tasks ≡ some t) × (w ≡ reclaim_one now task_type t)
  before_reclaim k w at = elim (Option-cases (lookup k q.tasks)) [
    | inl n ↦
        let e = lookup-tasks₁ now task_type q k ∙ ap (Option.map (reclaim_one now task_type)) n in
        absurd (cc)
    | inr (t, p) ↦ let e = lookup-tasks₁-some now task_type q k t p in (t, p, cc)
  ]

  -- Dead letters are not touched by the first loop.
  dead_stays : (k : String) → dead_at q.tasks k ≡ true → dead_at (tasks₁ now task_type q) k ≡ true
  dead_stays k d = elim (Option-cases (lookup k q.tasks)) [
    | inl n ↦ let d' = rw n at d in cc
    | inr (t, p) ↦
        rw (lookup-tasks₁-some now task_type q k t p) (dead_not_stale t (ap holds_dead (sym p) ∙ d))
  ]
    where
      dead_not_stale :
          (t : QueuedTask)
          → is_dead t.status ≡ true
          → is_dead (reclaim_one now task_type t).status ≡ true
      dead_not_stale t e = unfold reclaim_one is_stale in ground arith

  abbrev heap₂ : List Entry
  heap₂ = let s = picked now task_type q in push_all s.skipped s.rest

  module _ (v : IsValid q) where
    heap₂-IsSorted : IsSorted heap₂
    heap₂-IsSorted = push_all-IsSorted _ _ (
        select-IsSorted now task_type (tasks₁ now task_type q) (heap₁ now task_type q) []
          (reclaim-IsSorted now task_type q.tasks q.heap v.sorted))

    IsFiled-after :
        (k : String) (w : QueuedTask)
        → lookup k (tasks₁ now task_type q) ≡ some w
        → IsFiled (heap₁ now task_type q) q.dead k w
    IsFiled-after k w at =
        let (t, p, e) = before_reclaim k w at in
        subst (IsFiled (heap₁ now task_type q) q.dead k) (sym e) (filed₁ now task_type q v k t p)

    -- An entry of a queued task stays on the heap, unless its task was picked.
    queued_stays :
        (k : String) (w : QueuedTask)
        → lookup k (tasks₁ now task_type q) ≡ some w
        → is_queued w.status ≡ true
        → In (entry_of w) heap₂
          ⊎ ((t : QueuedTask) × ((picked now task_type q).chosen ≡ some (entry_of w, t)))
    queued_stays k w at h =
        elim (select_keeps now task_type (tasks₁ now task_type q) (heap₁ now task_type q) []
          (entry_of w) (inl (f.waiting h)) kept) [
            | inl (inl m) ↦ inl (In-push_all_old (entry_of w) s.skipped s.rest m)
            | inl (inr m) ↦ inl (In-push_all_new (entry_of w) s.skipped s.rest m)
            | inr c ↦ inr c
          ]
      where
        s : Selection
        s = picked now task_type q

        f : IsFiled (heap₁ now task_type q) q.dead k w
        f = IsFiled-after k w at

        kept : judge now task_type (lookup w.task_id (tasks₁ now task_type q)) ≢ discard
        kept e = judge_queued now task_type w h (
            ap (judge now task_type)
              (sym (ap (λ x. lookup x (tasks₁ now task_type q)) f.keyed ∙ at))
            ∙ e)

    heap₂-IsMatched : (a : Entry) → In a heap₂ → IsMatched q.tasks a
    heap₂-IsMatched a m = heap₁-IsMatched now task_type q v a (
        from_heap₁ (
          select_only now task_type (tasks₁ now task_type q) (heap₁ now task_type q) [] a
            (swap (In-push_all_cases a s.skipped s.rest m))))
      where
        s : Selection
        s = picked now task_type q

        swap : In a s.skipped ⊎ In a s.rest → In a s.rest ⊎ In a s.skipped
        swap (inl x) = inr x
        swap (inr x) = inl x

        from_heap₁ : In a (heap₁ now task_type q) ⊎ In a [] → In a (heap₁ now task_type q)
        from_heap₁ (inl x) = x
        from_heap₁ (inr x) = elim x [ ]

    -- With nothing picked, every task is filed on the new heap.
    none-IsValid :
        (picked now task_type q).chosen ≡ none
        → IsValid (record q { heap = heap₂; tasks = tasks₁ now task_type q })
    none-IsValid p = record {
      unique = reclaim-HasUniqueKeys now task_type q.tasks q.heap v.unique;
      sorted = heap₂-IsSorted;
      matched = λ a m.
          let (t, at, e) = heap₂-IsMatched a m in
          (
            reclaim_one now task_type t,
            lookup-tasks₁-some now task_type q a.task_id t at,
            entry_of-reclaim_one now task_type t ∙ e,
          );
      filed = λ k w at.
          let f = IsFiled-after k w at in
          record {
            keyed = f.keyed;
            waiting = λ h. elim (queued_stays k w at h) [ inl m ↦ m | inr (t, c) ↦ absurd (cc) ];
            tried = f.tried;
            leased = f.leased;
            buried = f.buried;
          };
      dead_only = λ k m. dead_stays k (v.dead_only k m);
    }

    module _ (worker_id : String) (e : Entry) (u : QueuedTask) where
      abbrev claimed_task : QueuedTask
      claimed_task = mark_claimed now worker_id u

      abbrev tasks₂ : Dict QueuedTask
      tasks₂ = insert e.task_id claimed_task (tasks₁ now task_type q)

      module _ (p : (picked now task_type q).chosen ≡ some (e, u)) where
        entry_of_claimed : entry_of claimed_task ≡ e
        entry_of_claimed =
            let (t, at, h, r, same) = picked_task now task_type q v e u p in
            ap (λ x. entry_of x) r ∙ (entry_of-reclaim_one now task_type t ∙ same)

        -- An entry with the picked task's key is the picked one.
        entry_eq :
            (a : Entry) (t : QueuedTask)
            → e.task_id ≡ a.task_id
            → lookup a.task_id q.tasks ≡ some t
            → entry_of t ≡ a
            → e ≡ a
        entry_eq a t key at same =
            let (t', at', h, r, same') = picked_task now task_type q v e u p in
            let k : lookup e.task_id q.tasks ≡ some t = ap (λ x. lookup x q.tasks) key ∙ at in
            let o : some t' ≡ some t = cc in
            let o' : t' ≡ t = cc in sym same' ∙ (ap (λ x. entry_of x) o' ∙ same)

        matched₂ : (a : Entry) → In a heap₂ → IsMatched tasks₂ a
        matched₂ a m =
            let (t, at, same) = heap₂-IsMatched a m in
            elim (Bool-cases (str_eq e.task_id a.task_id)) [
              | inl y ↦ (
                claimed_task,
                lookup-insert_eq e.task_id a.task_id claimed_task _ y,
                entry_of_claimed ∙ entry_eq a t ((eq_iff e.task_id a.task_id).0 y) at same,
              )
              | inr n ↦ (
                reclaim_one now task_type t,
                lookup-insert_ne e.task_id a.task_id claimed_task _ n
                    ∙ lookup-tasks₁-some now task_type q a.task_id t at,
                entry_of-reclaim_one now task_type t ∙ same,
              )
            ]

        claimed-IsFiled : IsFiled heap₂ q.dead e.task_id claimed_task
        claimed-IsFiled = record {
          keyed = ap (λ x. x.task_id) entry_of_claimed;
          waiting = λ h. cc;
          tried = λ h. omega arith;
          leased = λ h. refl;
          buried = λ h. cc;
        }

        -- Another queued task has another entry than the picked one.
        other_waits :
            (k : String) (w : QueuedTask)
            → str_eq e.task_id k ≡ false
            → lookup k (tasks₁ now task_type q) ≡ some w
            → is_queued w.status ≡ true
            → In (entry_of w) heap₂
        other_waits k w n at h = elim (queued_stays k w at h) [
          | inl m ↦ m
          | inr (t, c) ↦
              let o : ◌≡◌ {A = Option (Entry × QueuedTask)} (some (e, u)) (some (entry_of w, t)) =
                sym p ∙ c in
              let o' : e ≡ entry_of w = cc in
              let key : e.task_id ≡ k = ap (λ x. x.task_id) o' ∙ (IsFiled-after k w at).keyed in
              absurd (ground (arith, eq_iff e.task_id k))
        ]

        filed₂ : (k : String) (w : QueuedTask) → lookup k tasks₂ ≡ some w → IsFiled heap₂ q.dead k w
        filed₂ k w at = elim (Bool-cases (str_eq e.task_id k)) [
          | inl y ↦
              let o : some claimed_task ≡ some w =
                sym (lookup-insert_eq e.task_id k claimed_task _ y) ∙ at in
              let o' : claimed_task ≡ w = cc in
              subst (λ x. IsFiled heap₂ q.dead x w) ((eq_iff e.task_id k).0 y)
                (subst (IsFiled heap₂ q.dead e.task_id) o' claimed-IsFiled)
          | inr n ↦
              let at' = sym (lookup-insert_ne e.task_id k claimed_task _ n) ∙ at in
              let f = IsFiled-after k w at' in
              record {
                keyed = f.keyed;
                waiting = other_waits k w n at';
                tried = f.tried;
                leased = f.leased;
                buried = f.buried;
              }
        ]

        dead_only₂ : (k : String) → In k q.dead → dead_at tasks₂ k ≡ true
        dead_only₂ k m = elim (Bool-cases (str_eq e.task_id k)) [
          | inl y ↦
              let (t, at, h, r, same) = picked_task now task_type q v e u p in
              let at' : lookup k q.tasks ≡ some t =
                ap (λ x. lookup x q.tasks) (sym ((eq_iff e.task_id k).0 y)) ∙ at in
              absurd (not_dead_eligible t h (ap holds_dead (sym at') ∙ v.dead_only k m))
          | inr n ↦
              ap holds_dead (lookup-insert_ne e.task_id k claimed_task _ n)
              ∙ dead_stays k (v.dead_only k m)
        ]
          where
            not_dead_eligible :
                (t : QueuedTask) → eligible now task_type t ≡ true → is_dead t.status ≡ true → ⊥
            not_dead_eligible t h d = ground arith

        some-IsValid : IsValid (record q { heap = heap₂; tasks = tasks₂ })
        some-IsValid = record {
          unique =
              insert-HasUniqueKeys e.task_id claimed_task (tasks₁ now task_type q)
                (reclaim-HasUniqueKeys now task_type q.tasks q.heap v.unique);
          sorted = heap₂-IsSorted;
          matched = matched₂;
          filed = filed₂;
          dead_only = dead_only₂;
        }

    pub claim-IsValid : (worker_id : String) → IsValid (claim now task_type worker_id q).1
    claim-IsValid worker_id = elim (Option-cases (picked now task_type q).chosen) [
      | inl p ↦ rw (claim-none now task_type q worker_id p) (none-IsValid p)
      | inr ((e, u), p) ↦
          rw (claim-some now task_type q worker_id e u p) (some-IsValid worker_id e u p)
    ]
