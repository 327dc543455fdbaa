-- ===== src/Tests/Pipelines.antt =====
-- A pipeline whose second node fails twice and then follows its error output.
use swe_squad.Prelude.{
  ℕ, ◌+◌, ◌≡◌, refl, true, Option, none, some, [], ◌∷◌, String, str_eq, str_leb, map, if◌then◌else◌,
}
use swe_squad.Workflow.{
  pos, WorkflowNode, WorkflowConnection, Answer, Env, execute, Nested, execute_nested, walk, step,
  visit, complete, retry, run_node, with_sub, interpret_result, find_node, entry_nodes, keys,
}
use swe_squad.Workflow.Order.{topological_order, drained, drain, relax}
use swe_squad.Workflow.Order.Sorted.{IsOrder, topological_order-IsOrder}
use swe_squad.Workflow.Results.{IsResult, execute-IsResult}

abbrev NoParams : Type 0
NoParams = Unit {0}

abbrev node : String → ℕ → WorkflowNode NoParams (Nested NoParams 0)
node id retries = record {
  id = id;
  node_type = id;
  parameters = tt;
  max_retries = retries;
  workflow = none;
}

abbrev edge : String → ℕ → String → WorkflowConnection
edge from output to = record {
  source_node_id = from;
  source_output = pos output;
  target_node_id = to;
}

abbrev pipeline : Nested NoParams 1
pipeline = record {
  nodes = node "triage" 0 ∷ node "develop" 1 ∷ node "notify" 0 ∷ [];
  connections = edge "triage" 0 "develop" ∷ edge "develop" 1 "notify" ∷ [];
}

-- The context counts the calls; development fails.
abbrev handlers : String → Option (NoParams → ℕ → Answer × ℕ)
handlers kind =
    some (λ p c. (if str_eq kind "develop" then Answer.raised "boom" else Answer.flag true, c + 1))

failing_visits :
    (execute_nested handlers 10 1 pipeline 0).visited_nodes ≡ "triage" ∷ "develop" ∷ "notify" ∷ []
unfolding execute_nested execute walk step visit complete retry run_node with_sub interpret_result
    find_node entry_nodes keys
failing_visits = refl

abbrev env : Env ℕ NoParams (Nested NoParams 0)
env = record { handlers = handlers; run_sub = λ sub c. true }

execute-IsResult_example : IsResult pipeline 10 (execute env pipeline 0 10)
execute-IsResult_example = execute-IsResult env pipeline 0 10

-- Two nodes on a cycle behind a node that is in order.
abbrev cyclic : Nested NoParams 1
cyclic = record {
  nodes = node "b" 0 ∷ node "a" 0 ∷ node "c" 0 ∷ [];
  connections = edge "a" 0 "b" ∷ edge "b" 0 "c" ∷ edge "c" 0 "b" ∷ [];
}

cyclic_order : topological_order cyclic ≡ "a" ∷ "b" ∷ "c" ∷ []
unfolding topological_order drained drain relax keys str_leb
cyclic_order = refl

topological_order-IsOrder_example :
    IsOrder (keys (map (λ n. n.id) cyclic.nodes)) cyclic.connections (topological_order cyclic)
topological_order-IsOrder_example = topological_order-IsOrder cyclic
