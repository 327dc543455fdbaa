-- ===== src/Workflow/Order.antt =====
-- `PipelineExecutor.topological_order`. The degrees are a function of the id, read only at nodes.
pub mod Counts
pub mod Drain
pub mod Sorted
use swe_squad.Prelude.{
  ℕ, zero, suc, ◌+◌, Bool, true, false, ◌&&◌, not, List, [], ◌∷◌, ◌++◌, map, filter, any, length,
  count_if, ltb, if◌then◌else◌, String, str_eq,
}
use swe_squad.Workflow.{ℤ, pos, negsuc, WorkflowConnection, WorkflowDefinition, keys, sorted}

abbrev pub member : String → List String → Bool
member id ids = any (λ j. str_eq j id) ids

abbrev pub count : String → List String → ℕ
count id ids = count_if (λ j. str_eq j id) ids

abbrev pub less_one : ℤ → ℤ
less_one (pos zero) = negsuc 0
less_one (pos (suc n)) = pos n
less_one (negsuc n) = negsuc (suc n)

abbrev pub is_zero : ℤ → Bool
is_zero (pos zero) = true
is_zero _ = false

abbrev pub Degrees : Type 0
Degrees = String → ℤ

abbrev pub in_degree : List WorkflowConnection → Degrees
in_degree cs = λ id. pos (count_if (λ c. str_eq c.target_node_id id) cs)

-- The degrees after an edge to `id`.
abbrev pub lower_at : String → Degrees → Degrees
lower_at id deg = λ j. if str_eq id j then less_one (deg j) else deg j

-- The inner loop, over the edges of a node.
unfoldable pub relax :
    List String → List WorkflowConnection → Degrees → List String → Degrees × List String
relax nodes [] deg queue = (deg, queue)
relax nodes (e ∷ es) deg queue =
    let u = e.target_node_id in
    let deg' = if member u nodes then lower_at u deg else deg in
    relax nodes es deg'
      (if member u nodes && is_zero (lower_at u deg u) then queue ++ u ∷ [] else queue)

abbrev pub edges_of : List WorkflowConnection → String → List WorkflowConnection
edges_of cs id = filter (λ c. str_eq c.source_node_id id) cs

-- The outer loop, in at most `fuel` rounds: what is ordered, and the queue that is left.
unfoldable pub drain :
    List String
    → List WorkflowConnection
    → (fuel : ℕ) → Degrees
    → List String
    → List String
    → List String × List String
drain nodes cs zero deg queue ordered = (ordered, queue)
drain nodes cs (suc fuel) deg [] ordered = (ordered, [])
drain nodes cs (suc fuel) deg (v ∷ queue) ordered =
    let next = relax nodes (edges_of cs v) deg queue in
    drain nodes cs fuel (next.0) (next.1) (ordered ++ v ∷ [])

abbrev pub sources : List String → List WorkflowConnection → List String
sources nodes cs = sorted (filter (λ i. is_zero (in_degree cs i)) nodes)

unfoldable pub drained : List String → List WorkflowConnection → List String × List String
drained nodes cs = drain nodes cs (length nodes) (in_degree cs) (sources nodes cs) []

abbrev pub with_leftovers : List String → List String → List String
with_leftovers nodes ordered =
    if ltb (length ordered) (length nodes)
    then ordered ++ sorted (filter (λ i. not (member i ordered)) nodes)
    else ordered

unfoldable pub topological_order : {P W : Type 0} → WorkflowDefinition P W → List String
topological_order w =
    let nodes = keys (map (λ n. n.id) w.nodes) in
    with_leftovers nodes (drained nodes w.connections).0
