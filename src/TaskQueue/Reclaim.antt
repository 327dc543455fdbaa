-- ===== src/TaskQueue/Reclaim.antt =====
-- The first loop of `claim`: what it does to the tasks and to the heap.
use mathlib.Core.Option
use mathlib.Core.Path.{subst}
use text.Mathlib.TextPositions.{eq_refl}
use swe_squad.Prelude.{
  ℕ, String, ◌≡◌, refl, sym, ◌⊎◌, inl, inr, true, some, List, [], ◌∷◌, In, Bool-cases, Dict, lookup,
  HasUniqueKeys, ap, str_eq, eq_iff,
}
use swe_squad.Heapq.{Entry, heappush}
use swe_squad.Heapq.Order.{
  IsSorted, heappush-IsSorted, In-heappush, In-heappush_self, In-heappush_cases,
}
use swe_squad.TaskQueue.{QueuedTask, entry_of, is_stale, reclaim_one, reclaim}

module _ (now : ℕ) (task_type : String) where
  -- Every task is treated on its own.
  pub lookup-reclaim :
      (k : String) (d : Dict QueuedTask) (h : List Entry)
      → lookup k (reclaim now task_type d h).0 ≡ Option.map (reclaim_one now task_type) (lookup k d)
  unfolding lookup reclaim
  lookup-reclaim k [] h = refl
  lookup-reclaim k ((j, t) ∷ d) h = elim (Bool-cases (str_eq j k)) [
    | inl y ↦ rw y refl
    | inr n ↦ rw n (lookup-reclaim k d _)
  ]

  pub reclaim-IsSorted :
      (d : Dict QueuedTask) (h : List Entry) → IsSorted h → IsSorted (reclaim now task_type d h).1
  unfolding reclaim
  reclaim-IsSorted [] h s = s
  reclaim-IsSorted ((j, t) ∷ d) h s = elim (Bool-cases (is_stale now task_type t)) [
    | inl y ↦ rw y (reclaim-IsSorted d _ (heappush-IsSorted (entry_of t) h s))
    | inr n ↦ rw n (reclaim-IsSorted d h s)
  ]

  pub In-reclaim :
      (a : Entry) (d : Dict QueuedTask) (h : List Entry)
      → In a h
      → In a (reclaim now task_type d h).1
  unfolding reclaim
  In-reclaim a [] h m = m
  In-reclaim a ((j, t) ∷ d) h m = elim (Bool-cases (is_stale now task_type t)) [
    | inl y ↦ rw y (In-reclaim a d _ (In-heappush a (entry_of t) h m))
    | inr n ↦ rw n (In-reclaim a d h m)
  ]

  -- A stale task gets a heap entry.
  pub In-reclaim_stale :
      (k : String) (t : QueuedTask) (d : Dict QueuedTask) (h : List Entry)
      → lookup k d ≡ some t
      → is_stale now task_type t ≡ true
      → In (entry_of t) (reclaim now task_type d h).1
  unfolding lookup reclaim
  In-reclaim_stale k t [] h e s = cc
  In-reclaim_stale k t ((j, u) ∷ d) h e s = elim (Bool-cases (str_eq j k)) [
    | inl y ↦
        let p : u ≡ t = cc (rw y at e) in
        let stale = subst (λ x. is_stale now task_type x ≡ true) (sym p) s in
        rw stale (
          In-reclaim (entry_of t) d _ (
            subst (λ x. In (entry_of x) (heappush (entry_of u) h)) p
              (In-heappush_self (entry_of u) h)))
    | inr n ↦ In-reclaim_stale k t d _ (rw n at e) s
  ]

  -- The heap gains only entries of tasks.
  pub In-reclaim_cases :
      (a : Entry) (d : Dict QueuedTask) (h : List Entry)
      → HasUniqueKeys d
      → In a (reclaim now task_type d h).1
      → In a h ⊎ ((k : String) × (t : QueuedTask) × (lookup k d ≡ some t) × (entry_of t ≡ a))
  unfolding lookup reclaim
  In-reclaim_cases a [] h u m = inl m
  In-reclaim_cases a ((j, t) ∷ d) h u m = elim (In-reclaim_cases a d _ u.1 m) [
    | inr (k, w, at, e) ↦ inr (k, w, below_head k w at, e)
    | inl old ↦ elim (Bool-cases (is_stale now task_type t)) [
      | inl y ↦ elim (In-heappush_cases a (entry_of t) h (rw y at old)) [
        | inl new ↦ inr (j, t, rw (eq_refl j), sym new)
        | inr m' ↦ inl m'
      ]
      | inr n ↦ inl (rw n at old)
    ]
  ]
    where
      below_head :
          (k : String) (w : QueuedTask) → lookup k d ≡ some w → lookup k ((j, t) ∷ d) ≡ some w
      below_head k w at = elim (Bool-cases (str_eq j k)) [
        | inl y ↦ let same : j ≡ k = (eq_iff j k).0 y in cc (u.0, ap (λ x. lookup x d) same)
        | inr n ↦ rw n at
      ]

  pub reclaim-HasUniqueKeys :
      (d : Dict QueuedTask) (h : List Entry)
      → HasUniqueKeys d
      → HasUniqueKeys (reclaim now task_type d h).0
  unfolding reclaim
  reclaim-HasUniqueKeys [] h u = tt
  reclaim-HasUniqueKeys ((j, t) ∷ d) h u =
      (rw (lookup-reclaim j d _, u.0) refl, reclaim-HasUniqueKeys d _ u.1)
