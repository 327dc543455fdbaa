-- ===== src/TaskQueue/Outcomes.antt =====
-- The branches of `fail`, the guard that the methods share, and the depth of the queue.
use swe_squad.Prelude.{
  ℕ, ◌+◌, ◌≤◌, String, ◌≡◌, refl, ap, inl, inr, Bool, true, false, Option, none, some, List, [],
  ◌∷◌, ◌++◌, In, In-append_right, Bool-cases, arith, Dict, lookup, insert, values,
  lookup-insert_self, count_if, str_eq, le→leb, if◌then◌else◌,
}
use swe_squad.TaskQueue.{
  dead_letter, QueuedTask, Queue, Error, key_error, value_error, ok, raise, is_claimed, enqueue,
  require_claimed, complete, fail, heartbeat, of_type, queue_depth,
}
use swe_squad.TaskQueue.Valid.{after}

pub require_claimed-some :
    (k : String) (q : Queue) (t : QueuedTask)
    → lookup k q.tasks ≡ some t
    → is_claimed t.status ≡ true
    → require_claimed k q ≡ ok t
unfolding require_claimed
require_claimed-some k q t at live = ground arith

abbrev pub holds_claimed : Option QueuedTask → Bool
holds_claimed none = false
holds_claimed (some t) = is_claimed t.status

-- `KeyError` for an unknown task, `ValueError` for one in another status.
abbrev pub expected_error : Option QueuedTask → Error
expected_error none = key_error
expected_error (some t) = value_error

require_claimed_refuses :
    (k : String) (q : Queue)
    → holds_claimed (lookup k q.tasks) ≡ false
    → require_claimed k q ≡ raise (expected_error (lookup k q.tasks))
unfolding require_claimed
require_claimed_refuses k q h = ground arith

-- `complete`, `fail` and `heartbeat` of a task that is not claimed raise `KeyError` if it is
-- unknown and `ValueError` if it is in another status.
pub guards_raise :
    (now : ℕ) (k text : String) (q : Queue)
    → holds_claimed (lookup k q.tasks) ≡ false
    → let e = expected_error (lookup k q.tasks) in
      (complete k text q ≡ raise e) × (fail now k text q ≡ raise e) × (heartbeat now k q ≡ raise e)
unfolding complete fail heartbeat
guards_raise now k text q h = let g = require_claimed_refuses k q h in (rw g, rw g, rw g)

module _ (now : ℕ) (k error : String) (q : Queue) (t : QueuedTask) where
  -- A claimed task that fails with no retries left becomes a dead letter with the error.
  pub fail_buries :
      lookup k q.tasks ≡ some t
      → is_claimed t.status ≡ true
      → t.max_retries ≤ t.attempts
      → (lookup k (after q (fail now k error q)).tasks
          ≡ some (record t { error = some error; status = dead_letter }))
        × In k (after q (fail now k error q)).dead
  unfolding fail
  fail_buries at live over =
      rw (require_claimed-some k q t at live, le→leb t.max_retries t.attempts over)
        (lookup-insert_self k _ q.tasks, In-append_right k q.dead (k ∷ []) (inl refl))

values-insert_fresh {ℓ} :
    {V : Type ℓ} (k : String) (v : V) (d : Dict V)
    → lookup k d ≡ none
    → values (insert k v d) ≡ values d ++ v ∷ []
unfolding lookup insert values
values-insert_fresh k v [] n = refl
values-insert_fresh k v ((j, w) ∷ d) n = elim (Bool-cases (str_eq j k)) [
  | inl y ↦ let n' = rw y at n in absurd (cc)
  | inr f ↦ rw f (ap (λ l. w ∷ l) (values-insert_fresh k v d (rw f at n)))
]

count_if-append {ℓ} :
    {A : Type ℓ} (p : A → Bool) (xs ys : List A)
    → count_if p (xs ++ ys) ≡ count_if p xs + count_if p ys
count_if-append p [] ys = omega arith
count_if-append p (x ∷ xs) ys = ground (arith, count_if-append p xs ys)

-- A new task adds one to the depth of the whole queue and of its own type, and nothing to the
-- depth of another type.
pub queue_depth-enqueue :
    (now : ℕ) (k ty ticket payload : String) (p : ℕ) (q : Queue) (of : Option String)
    → lookup k q.tasks ≡ none
    → queue_depth of (enqueue now k ty ticket payload p q).1
      ≡ queue_depth of q + (if of_type of (enqueue now k ty ticket payload p q).0 then 1 else 0)
unfolding queue_depth enqueue
queue_depth-enqueue now k ty ticket payload p q none n =
    rw (values-insert_fresh k _ q.tasks n) (count_if-append _ (values q.tasks) _)
queue_depth-enqueue now k ty ticket payload p q (some ty') n =
    rw (values-insert_fresh k _ q.tasks n) (count_if-append _ (values q.tasks) _)
