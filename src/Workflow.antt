-- ===== src/Workflow.antt =====
-- The workflow executor of src/swe_team/workflow/executor.py. A handler is a function of a node's
-- parameters and the context to its answer and the context that it leaves; hooks only watch and are
-- left out. A subworkflow gets a copy of the context, so only its success comes back.
pub mod Walks
pub mod Results
pub mod Order
use swe_squad.Prelude.{
  ℕ, zero, suc, ◌+◌, ◌≤◌, Bool, true, false, ◌&&◌, not, Option, none, some, List, [], ◌∷◌, ◌++◌,
  map, filter, any, leb, ltb, ◌==◌, if◌then◌else◌, String, str_eq, str_leb,
}

-- `negsuc n` is -(n + 1).
pub data ℤ : Type 0 where
  pos : ℕ → ℤ
  negsuc : ℕ → ℤ

abbrev pub int_eq : ℤ → ℤ → Bool
int_eq (pos a) (pos b) = a == b
int_eq (negsuc a) (negsuc b) = a == b
int_eq _ _ = false

-- `P` are the parameters that handlers see, `W` the workflows that nodes hold.
pub record WorkflowNode (P W : Type 0) : Type 0 where
  pub id : String
  pub node_type : String
  pub parameters : P
  pub max_retries : ℕ
  pub workflow : Option W

pub record WorkflowConnection : Type 0 where
  pub source_node_id : String
  pub source_output : ℤ
  pub target_node_id : String

pub record WorkflowDefinition (P W : Type 0) : Type 0 where
  pub nodes : List (WorkflowNode P W)
  pub connections : List WorkflowConnection

pub record NodeExecution : Type 0 where
  pub node_id : String
  pub node_type : String
  pub success : Bool
  pub output : ℤ
  pub attempts : ℕ
  pub error : Option String

pub record PipelineExecutionResult : Type 0 where
  pub success : Bool
  pub visited_nodes : List String
  pub node_results : List NodeExecution

-- What a handler returns or raises.
pub data Answer : Type 0 where
  raised : String → Answer
  flag : Bool → Answer
  code : ℤ → Answer
  table : Option ℤ → Option Bool → Answer
  other : Answer

pub record Env (Ctx P W : Type 0) : Type 0 where
  pub handlers : String → Option (P → Ctx → Answer × Ctx)
  pub run_sub : W → Ctx → Bool

abbrev pub by_flag : Bool → Bool × ℤ
by_flag b = (b, pos (if b then 0 else 1))

unfoldable pub interpret_result : Answer → Bool × ℤ
interpret_result (Answer.raised e) = (false, pos 1)
interpret_result (Answer.flag b) = by_flag b
interpret_result (Answer.code z) = (int_eq z (pos 0), z)
interpret_result (Answer.table (some z) s) = (int_eq z (pos 0), z)
interpret_result (Answer.table none (some b)) = by_flag b
interpret_result (Answer.table none none) = (true, pos 0)
interpret_result Answer.other = (true, pos 0)

abbrev pub error_of : Answer → Option String
error_of (Answer.raised e) = some e
error_of _ = none

-- The last node with the id, as in the dictionary.
unfoldable pub find_node :
    {P W : Type 0} → String → List (WorkflowNode P W) → Option (WorkflowNode P W)
find_node id [] = none
find_node id (n ∷ ns) =
    let rest = find_node id ns in
    elim rest [ some m ↦ some m | none ↦ if str_eq n.id id then some n else none ]

-- The keys of the dictionary, each once.
unfoldable pub keys : List String → List String
keys [] = []
keys (i ∷ is) = let rest = keys is in if any (λ j. str_eq j i) is then rest else i ∷ rest

abbrev pub insert : String → List String → List String
insert i [] = i ∷ []
insert i (j ∷ js) = let rest = insert i js in if str_leb i j then i ∷ j ∷ js else j ∷ rest

-- `sorted` of ids.
abbrev pub sorted : List String → List String
sorted [] = []
sorted (i ∷ is) = insert i (sorted is)

unfoldable pub entry_nodes : {P W : Type 0} → WorkflowDefinition P W → List String
entry_nodes w =
    filter (λ i. not (any (λ c. str_eq c.target_node_id i) w.connections))
      (keys (map (λ n. n.id) w.nodes))

-- The variables of `execute`.
pub record Execution (Ctx : Type 0) : Type 0 where
  pub ctx : Ctx
  pub queue : List (String × ℕ)
  pub steps : ℕ
  pub result : PipelineExecutionResult

unfoldable pub run_node : {Ctx P W : Type 0} → Env Ctx P W → WorkflowNode P W → Ctx → Answer × Ctx
run_node env n ctx = elim (env.handlers n.node_type) [
  | none ↦ (Answer.flag true, ctx)
  | some h ↦ h n.parameters ctx
]

-- A subworkflow that follows on success replaces the answer.
unfoldable pub with_sub :
    {Ctx P W : Type 0} → Env Ctx P W → WorkflowNode P W → Ctx → Bool × ℤ → Bool × ℤ
with_sub env n ctx (success, output) =
    if str_eq n.node_type "subworkflow" && success
    then elim n.workflow [ none ↦ (success, output) | some sub ↦ by_flag (env.run_sub sub ctx) ]
    else (success, output)

-- The edges of a node that an output follows.
abbrev pub followed : List WorkflowConnection → String → ℤ → List WorkflowConnection
followed cs id output = filter (λ c. str_eq c.source_node_id id && int_eq c.source_output output) cs

abbrev pub enqueue : List WorkflowConnection → List (String × ℕ)
enqueue = map (λ c. (c.target_node_id, 1))

unfoldable pub complete :
    {Ctx : Type 0} → List WorkflowConnection → NodeExecution → Execution Ctx → Execution Ctx
complete cs r x = record x {
  queue = x.queue ++ enqueue (followed cs r.node_id r.output);
  result = record {
    success = x.result.success && r.success;
    visited_nodes = x.result.visited_nodes ++ r.node_id ∷ [];
    node_results = x.result.node_results ++ r ∷ [];
  };
}

unfoldable pub retry : {Ctx : Type 0} → String → ℕ → Execution Ctx → Execution Ctx
retry id attempt x = record x { queue = (id, attempt + 1) ∷ x.queue }

abbrev pub execution_of : {P W : Type 0} → WorkflowNode P W → ℕ → Answer → Bool × ℤ → NodeExecution
execution_of n attempt answer (success, output) = record {
  node_id = n.id;
  node_type = n.node_type;
  success = success;
  output = output;
  attempts = attempt;
  error = error_of answer;
}

-- One visit of a node, with the queue behind it.
unfoldable pub visit :
    {Ctx P W : Type 0}
    → Env Ctx P W
    → List WorkflowConnection
    → WorkflowNode P W
    → ℕ
    → Execution Ctx
    → Execution Ctx
visit env cs n attempt x =
    let (answer, ctx) = run_node env n x.ctx in
    let outcome = with_sub env n ctx (interpret_result answer) in
    let y = record x { ctx = ctx } in
    if not outcome.0 && leb attempt n.max_retries
    then retry n.id attempt y
    else complete cs (execution_of n attempt answer outcome) y

abbrev pub visit_if :
    {Ctx P W : Type 0}
    → Env Ctx P W
    → List WorkflowConnection
    → Option (WorkflowNode P W)
    → ℕ
    → Execution Ctx
    → Execution Ctx
visit_if env cs none attempt x = x
visit_if env cs (some n) attempt x = visit env cs n attempt x

-- One round of the loop.
unfoldable pub step :
    {Ctx P W : Type 0}
    → Env Ctx P W
    → WorkflowDefinition P W
    → String
    → ℕ
    → List (String × ℕ)
    → Execution Ctx
    → Execution Ctx
step env w id attempt rest x =
    visit_if env w.connections (find_node id w.nodes) attempt
      (record x { queue = rest; steps = x.steps + 1 })

-- The loop, with `left` steps to go before `max_steps`.
unfoldable pub walk :
    {Ctx P W : Type 0}
    → Env Ctx P W
    → WorkflowDefinition P W
    → (left : ℕ) → Execution Ctx
    → Execution Ctx
walk env w zero x = x
walk env w (suc left) x = elim x.queue [
  | [] ↦ x
  | q ∷ rest ↦ walk env w left (step env w q.0 q.1 rest x)
]

abbrev pub first_result : PipelineExecutionResult
first_result = record { success = true; visited_nodes = []; node_results = [] }

abbrev pub finish : {Ctx : Type 0} → ℕ → Execution Ctx → PipelineExecutionResult
finish max_steps x = record (x.result) { success = x.result.success && not (leb max_steps x.steps) }

abbrev pub start : {Ctx : Type 0} → List String → Ctx → Execution Ctx
start entries ctx = record {
  ctx = ctx;
  queue = map (λ i. (i, 1)) (sorted entries);
  steps = 0;
  result = first_result;
}

unfoldable pub execute :
    {Ctx P W : Type 0}
    → Env Ctx P W
    → WorkflowDefinition P W
    → Ctx
    → (max_steps : ℕ) → PipelineExecutionResult
execute env w ctx max_steps = elim (entry_nodes w) [
  | [] ↦ first_result
  | i ∷ is ↦ finish max_steps (walk env w max_steps (start (i ∷ is) ctx))
]

-- Workflows that nest `depth` levels deep.
abbrev pub Nested : Type 0 → ℕ → Type 0
Nested P zero = ⊥
Nested P (suc depth) = WorkflowDefinition P (Nested P depth)

-- The executor of a nested workflow, which makes one for each subworkflow with the same handlers.
unfoldable pub execute_nested :
    {Ctx P : Type 0}
    → (String → Option (P → Ctx → Answer × Ctx))
    → (max_steps depth : ℕ) → Nested P depth
    → Ctx
    → PipelineExecutionResult
execute_nested handlers max_steps zero w ctx = absurd w
execute_nested handlers max_steps (suc depth) w ctx =
    execute
      (record {
        handlers = handlers;
        run_sub = λ sub c. (execute_nested handlers max_steps depth sub c).success;
      })
      w ctx max_steps
