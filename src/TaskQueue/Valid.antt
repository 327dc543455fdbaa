-- ===== src/TaskQueue/Valid.antt =====
-- The invariant of the task queue, and that each method but `claim` keeps it.
use mathlib.Core.Path.{subst}
use swe_squad.Prelude.{
  ℕ, ◌<◌, String, ◌≡◌, refl, sym, ◌⊎◌, inl, inr, Bool, true, false, Option, none, some, is_some,
  List, [], ◌∷◌, In, In-append_left, In-append_right, In-append_cases, Bool-cases, arith, Dict,
  lookup, insert, lookup-insert, lookup-insert_eq, lookup-insert_ne, insert-HasUniqueKeys,
  HasUniqueKeys, ap, ◌∙◌, str_eq, eq_iff, leb,
}
use swe_squad.Heapq.{Entry, heappush}
use swe_squad.Heapq.Order.{
  IsSorted, heappush-IsSorted, In-heappush, In-heappush_self, In-heappush_cases,
}
use swe_squad.TaskQueue.{
  Status, dead_letter, QueuedTask, Queue, Error, Result, ok, raise, is_queued, is_claimed, entry_of,
  empty, enqueue, require_claimed, complete, fail, heartbeat,
}

abbrev pub is_dead : Status → Bool
is_dead dead_letter = true
is_dead _ = false

-- What holds of the task `t` stored under `k`, beside the heap and the dead letters.
pub record IsFiled (heap : List Entry) (dead : List String) (k : String) (t : QueuedTask)
    : Type 0 where
  pub keyed : t.task_id ≡ k
  pub waiting : is_queued t.status ≡ true → In (entry_of t) heap
  pub tried : is_claimed t.status ≡ true → 0 < t.attempts
  pub leased : is_claimed t.status ≡ true → is_some t.claimed_at ≡ true
  pub buried : is_dead t.status ≡ true → In k dead

abbrev pub holds_dead : Option QueuedTask → Bool
holds_dead none = false
holds_dead (some t) = is_dead t.status

abbrev pub dead_at : Dict QueuedTask → String → Bool
dead_at tasks k = holds_dead (lookup k tasks)

-- The heap entry `a` is that of a stored task.
abbrev pub IsMatched : Dict QueuedTask → Entry → Type 0
IsMatched tasks a = (t : QueuedTask) × (lookup a.task_id tasks ≡ some t) × (entry_of t ≡ a)

pub record IsValid (q : Queue) : Type 0 where
  pub unique : HasUniqueKeys q.tasks
  pub sorted : IsSorted q.heap
  pub matched : (a : Entry) → In a q.heap → IsMatched q.tasks a
  pub filed : (k : String) (t : QueuedTask) → lookup k q.tasks ≡ some t → IsFiled q.heap q.dead k t
  pub dead_only : (k : String) → In k q.dead → dead_at q.tasks k ≡ true

pub empty-IsValid : IsValid empty
unfolding empty lookup
empty-IsValid = record {
  unique = tt;
  sorted = tt;
  matched = λ a m. elim m [ ];
  filed = λ k t h. cc;
  dead_only = λ k m. elim m [ ];
}

-- A larger heap and more dead letters keep a task filed.
pub IsFiled-grow :
    {heap : List Entry} {dead : List String} (heap' : List Entry) (dead' : List String) {k : String}
    {t : QueuedTask}
    → ((a : Entry) → In a heap → In a heap')
    → ((j : String) → In j dead → In j dead')
    → IsFiled heap dead k t
    → IsFiled heap' dead' k t
IsFiled-grow heap' dead' {k} {t} gh gd f = record {
  keyed = f.keyed;
  waiting = λ w. gh (entry_of t) (f.waiting w);
  tried = f.tried;
  leased = f.leased;
  buried = λ b. gd k (f.buried b);
}

module _ (q : Queue) (v : IsValid q) (k : String) (t : QueuedTask) where
  -- One task written under its key, with a larger heap and more dead letters.
  pub put-IsValid :
      (heap' : List Entry) (dead' : List String)
      → IsSorted heap'
      → ((a : Entry) → In a q.heap → In a heap')
      → ((j : String) → In j q.dead → In j dead')
      → ((j : String) → In j dead' → In j q.dead ⊎ (k ≡ j))
      → ((a : Entry) → In a heap' → In a q.heap ⊎ (a ≡ entry_of t))
      → ((u : QueuedTask) → lookup k q.tasks ≡ some u → entry_of u ≡ entry_of t)
      → IsFiled heap' dead' k t
      → (In k dead' → is_dead t.status ≡ true)
      → IsValid (record { heap = heap'; tasks = insert k t q.tasks; dead = dead' })
  put-IsValid heap' dead' s gh gd back hb same_entry f d = record {
    unique = insert-HasUniqueKeys k t q.tasks v.unique;
    sorted = s;
    matched = λ a m. entry_matched a (hb a m);
    filed = λ j u e. elim (Bool-cases (str_eq k j)) [
      | inl y ↦
          let e' : some t ≡ some u = cc (e, lookup-insert k j t q.tasks, y) in
          let same : t ≡ u = cc in
          let kj : k ≡ j = (eq_iff k j).0 y in
          subst (λ x. IsFiled heap' dead' x u) kj (subst (IsFiled heap' dead' k) same f)
      | inr n ↦
          let e' : lookup j q.tasks ≡ some u = cc (e, lookup-insert k j t q.tasks, n) in
          IsFiled-grow heap' dead' gh gd (v.filed j u e')
    ];
    dead_only = λ j m. elim (Bool-cases (str_eq k j)) [
      | inl y ↦
          let kj : k ≡ j = (eq_iff k j).0 y in
          rw (lookup-insert k j t q.tasks, y) (d (subst (λ x. In x dead') (sym kj) m))
      | inr n ↦ rw (lookup-insert k j t q.tasks, n) (v.dead_only j (old_dead j n (back j m)))
    ];
  }
    where
      old_dead : (j : String) → str_eq k j ≡ false → In j q.dead ⊎ (k ≡ j) → In j q.dead
      old_dead j n (inl m) = m
      old_dead j n (inr e) = ground (arith, eq_iff k j)

      entry_matched :
          (a : Entry) → In a q.heap ⊎ (a ≡ entry_of t) → IsMatched (insert k t q.tasks) a
      entry_matched a (inr e) =
          let key : k ≡ a.task_id = cc (f.keyed, ap (λ (x : Entry). x.task_id) e) in
          (t, lookup-insert_eq k a.task_id t q.tasks ((eq_iff k a.task_id).1 key), sym e)
      entry_matched a (inl m) = elim (Bool-cases (str_eq k a.task_id)) [
        | inl y ↦
            let (u, at, e) = v.matched a m in
            let key : k ≡ a.task_id = (eq_iff k a.task_id).0 y in
            let at' : lookup k q.tasks ≡ some u = cc (at, ap (λ x. lookup x q.tasks) key) in
            (t, lookup-insert_eq k a.task_id t q.tasks y, sym (same_entry u at') ∙ e)
        | inr n ↦
            let (u, at, e) = v.matched a m in (u, lookup-insert_ne k a.task_id t q.tasks n ∙ at, e)
      ]

  -- The same where the dead letters stay.
  pub insert-IsValid :
      (heap' : List Entry)
      → IsSorted heap'
      → ((a : Entry) → In a q.heap → In a heap')
      → ((a : Entry) → In a heap' → In a q.heap ⊎ (a ≡ entry_of t))
      → ((u : QueuedTask) → lookup k q.tasks ≡ some u → entry_of u ≡ entry_of t)
      → IsFiled heap' q.dead k t
      → (In k q.dead → is_dead t.status ≡ true)
      → IsValid (record q { heap = heap'; tasks = insert k t q.tasks })
  insert-IsValid heap' s gh hb same_entry f d =
      put-IsValid heap' q.dead s gh (λ j m. m) (λ j m. inl m) hb same_entry f d

-- A key with no task, or with one that is not dead, is not among the dead letters.
pub not_dead : (q : Queue) (k : String) → IsValid q → dead_at q.tasks k ≡ false → ¬ In k q.dead
not_dead q k v a m = cc (v.dead_only k m)

-- A push brings in one entry.
pushed_old : (h : List Entry) (e a : Entry) → In a (heappush e h) → In a h ⊎ (a ≡ e)
pushed_old h e a m = elim (In-heappush_cases a e h m) [ inl new ↦ inr new | inr old ↦ inl old ]

same_entry :
    (k : String) (q : Queue) (t u : QueuedTask)
    → lookup k q.tasks ≡ some t
    → lookup k q.tasks ≡ some u
    → entry_of u ≡ entry_of t
same_entry k q t u p p' =
    let e : some t ≡ some u = cc in let e' : t ≡ u = cc in ap (λ x. entry_of x) (sym e')

pub enqueue-IsValid :
    (now : ℕ) (task_id task_type ticket_id payload : String) (priority : ℕ) (q : Queue)
    → IsValid q
    → lookup task_id q.tasks ≡ none
    → IsValid (enqueue now task_id task_type ticket_id payload priority q).1
unfolding enqueue
enqueue-IsValid now task_id task_type ticket_id payload priority q v fresh =
    insert-IsValid q v task_id _ _ (heappush-IsSorted _ q.heap v.sorted)
      (λ a m. In-heappush a _ q.heap m) (pushed_old q.heap _) (λ u at. cc)
      (record {
        keyed = refl;
        waiting = λ _. In-heappush_self _ q.heap;
        tried = λ h. cc;
        leased = λ h. cc;
        buried = λ h. cc;
      })
      (λ m. absurd (not_dead q task_id v (ground arith) m))

-- What the guard of `complete`, `fail` and `heartbeat` lets through.
pub require_claimed-ok :
    (k : String) (q : Queue) (t : QueuedTask)
    → require_claimed k q ≡ ok t
    → (lookup k q.tasks ≡ some t) × (is_claimed t.status ≡ true) × (dead_at q.tasks k ≡ false)
unfolding require_claimed
require_claimed-ok k q t h = ground arith

-- A result of the shared guard, taken apart.
pub Result-cases {ℓ} :
    {A : Type ℓ} (r : Result A) → ((e : Error) × (r ≡ raise e)) ⊎ ((a : A) × (r ≡ ok a))
Result-cases (raise e) = inl (e, refl)
Result-cases (ok a) = inr (a, refl)

-- The state after a call: a method that raises leaves the queue as it was.
abbrev pub after : Queue → Result Queue → Queue
after q (ok q') = q'
after q (raise e) = q

pub complete-IsValid :
    (k result : String) (q : Queue) → IsValid q → IsValid (after q (complete k result q))
unfolding complete
complete-IsValid k result q v = elim (Result-cases (require_claimed k q)) [
  | inl (e, p) ↦ rw p v
  | inr (t, p) ↦
      let (at, live, alive) = require_claimed-ok k q t p in
      rw p (
        insert-IsValid q v k _ q.heap v.sorted (λ a m. m) (λ a m. inl m)
          (λ u at'. same_entry k q t u at at')
          (record {
            keyed = (v.filed k t at).keyed;
            waiting = λ h. cc;
            tried = λ h. cc;
            leased = λ h. cc;
            buried = λ h. cc;
          })
          (λ m. absurd (not_dead q k v alive m)))
]

pub heartbeat-IsValid :
    (now : ℕ) (k : String) (q : Queue) → IsValid q → IsValid (after q (heartbeat now k q))
unfolding heartbeat
heartbeat-IsValid now k q v = elim (Result-cases (require_claimed k q)) [
  | inl (e, p) ↦ rw p v
  | inr (t, p) ↦
      let (at, live, alive) = require_claimed-ok k q t p in
      let f = v.filed k t at in
      rw p (
        insert-IsValid q v k _ q.heap v.sorted (λ a m. m) (λ a m. inl m)
          (λ u at'. same_entry k q t u at at')
          (record {
            keyed = f.keyed;
            waiting = f.waiting;
            tried = f.tried;
            leased = λ h. refl;
            buried = f.buried;
          })
          (λ m. absurd (not_dead q k v alive m)))
]

pub fail-IsValid :
    (now : ℕ) (k error : String) (q : Queue) → IsValid q → IsValid (after q (fail now k error q))
unfolding fail
fail-IsValid now k error q v = elim (Result-cases (require_claimed k q)) [
  | inl (e, p) ↦ rw p v
  | inr (t, p) ↦
      let (at, live, alive) = require_claimed-ok k q t p in
      let f = v.filed k t at in
      elim (Bool-cases (leb t.max_retries t.attempts)) [
        | inl over ↦
            rw (p, over)
              (put-IsValid q v k _ q.heap _ v.sorted (λ a m. m)
                (λ j m. In-append_left j q.dead (k ∷ []) m)
                (λ j m. elim (In-append_cases j q.dead (k ∷ []) m) [
                  | inl old ↦ inl old
                  | inr (inl new) ↦ inr (sym new)
                  | inr (inr never) ↦ elim never [ ]
                ])
                (λ a m. inl m) (λ u at'. same_entry k q t u at at')
                (record {
                  keyed = f.keyed;
                  waiting = λ h. cc;
                  tried = λ h. cc;
                  leased = λ h. cc;
                  buried = λ h. In-append_right k q.dead (k ∷ []) (inl refl);
                })
                (λ m. refl))
        | inr more ↦
            rw (p, more)
              (insert-IsValid q v k _ _ (heappush-IsSorted _ q.heap v.sorted)
                (λ a m. In-heappush a _ q.heap m) (pushed_old q.heap (entry_of t))
                (λ u at'. same_entry k q t u at at')
                (record {
                  keyed = f.keyed;
                  waiting = λ h. In-heappush_self _ q.heap;
                  tried = λ h. cc;
                  leased = λ h. cc;
                  buried = λ h. cc;
                })
                (λ m. absurd (not_dead q k v alive m)))
      ]
]
