-- ===== src/Heapq.antt =====
-- `heapq` over the entries `(priority, created_at, task_id)` of
-- src/swe_team/providers/task_queue/memory.py. The heap is kept as the list of its entries in
-- ascending order, so that `heappop` takes the head; tuples compare from the left.
pub mod Order
use swe_squad.Prelude.{
  ℕ, String, Bool, true, false, List, [], ◌∷◌, ltb, ◌==◌, str_leb, if◌then◌else◌,
}

pub record Entry : Type 0 where
  pub priority : ℕ
  pub created_at : ℕ
  pub task_id : String

unfoldable pub entry_leb : Entry → Entry → Bool
entry_leb a b =
    if ltb a.priority b.priority
    then true
    else if a.priority == b.priority
    then (if ltb a.created_at b.created_at
        then true
        else if a.created_at == b.created_at
        then str_leb a.task_id b.task_id
        else false)
    else false

unfoldable pub heappush : Entry → List Entry → List Entry
heappush e [] = e ∷ []
heappush e (x ∷ h) = if entry_leb e x then e ∷ x ∷ h else x ∷ heappush e h

-- `for e in es: heappush(h, e)`
unfoldable pub push_all : List Entry → List Entry → List Entry
push_all [] h = h
push_all (e ∷ es) h = push_all es (heappush e h)
