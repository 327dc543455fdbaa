-- ===== src/Workflow/Results.antt =====
-- Whole executions of a workflow.
use swe_squad.Prelude.{
  ℕ, zero, suc, ◌+◌, ◌≤◌, ◌<◌, ◌≡◌, refl, sym, ◌⊎◌, inl, inr, false, ◌&&◌, not, List, [], ◌∷◌, map,
  length, length-append, In, All, leb, ◌==◌, String, str_leb, arith, Bool-cases, Option-cases,
}
use mathlib.Core.Path.{subst}
use swe_squad.Workflow.{
  WorkflowNode, WorkflowConnection, WorkflowDefinition, PipelineExecutionResult, Env, Execution,
  interpret_result, find_node, entry_nodes, sorted, insert, run_node, with_sub, complete, retry,
  execution_of, visit, step, walk, finish, start, execute,
}
use swe_squad.Workflow.Walks.{
  Walk, IsQueued, IsSound, first-IsQueued, walk-IsSound, all_succeeded, List-cases,
}

-- The counter of the loop.
record IsCounted {Ctx : Type 0} (x : Execution Ctx) (limit : ℕ) : Type 0 where
  results : length x.result.node_results ≤ x.steps
  steps : x.steps ≤ limit

visit_counts :
    {Ctx P W : Type 0} (env : Env Ctx P W) (cs : List WorkflowConnection) (n : WorkflowNode P W)
    (attempt : ℕ) (x : Execution Ctx)
    → ((visit env cs n attempt x).steps ≡ x.steps)
      × (length (visit env cs n attempt x).result.node_results ≤ length x.result.node_results + 1)
unfolding visit complete retry
visit_counts env cs n attempt x =
    let out = run_node env n x.ctx in
    let o = with_sub env n (out.1) (interpret_result (out.0)) in
    elim (Bool-cases (not o.0 && leb attempt n.max_retries)) [
      | inl again ↦ rw again (refl, omega arith)
      | inr over ↦ rw over (
        refl,
        omega (arith, length-append x.result.node_results (execution_of n attempt (out.0) o ∷ [])),
      )
    ]

step_counts :
    {Ctx P W : Type 0} (env : Env Ctx P W) (w : WorkflowDefinition P W) (id : String) (attempt : ℕ)
    (rest : List (String × ℕ)) (x : Execution Ctx) (limit : ℕ)
    → x.steps < limit
    → IsCounted x limit
    → IsCounted (step env w id attempt rest x) limit
      × ((step env w id attempt rest x).steps ≡ x.steps + 1)
unfolding step
step_counts env w id attempt rest x limit h v = elim (Option-cases (find_node id w.nodes)) [
  | inl absent ↦
      rw absent (record { results = omega (arith, v.results); steps = omega arith }, refl)
  | inr (n, found) ↦
      let y = record x { queue = rest; steps = x.steps + 1 } in
      let (same, more) = visit_counts env w.connections n attempt y in
      rw found (record { results = omega (arith, v.results); steps = omega arith }, same)
]

walk_counts :
    {Ctx P W : Type 0} (env : Env Ctx P W) (w : WorkflowDefinition P W) (left : ℕ)
    (x : Execution Ctx) (limit : ℕ)
    → x.steps + left ≤ limit
    → IsCounted x limit
    → IsCounted (walk env w left x) limit
unfolding walk
walk_counts env w zero x limit h v = v
walk_counts env w (suc left) x limit h v = elim (List-cases x.queue) [
  | inl e ↦ rw (e, walk) v
  | inr (q, rest, e) ↦
      let (u, k) = step_counts env w q.0 q.1 rest x limit (omega arith) v in
      rw (e, walk) (walk_counts env w left (step env w q.0 q.1 rest x) limit (omega arith) u)
]

In-insert : (a i : String) (is : List String) → In a (insert i is) → (a ≡ i) ⊎ In a is
In-insert a i [] (inl e) = inl e
In-insert a i [] (inr m) = elim m [ ]
In-insert a i (j ∷ js) m = elim (Bool-cases (str_leb i j)) [
  | inl first ↦ let k : In a (i ∷ j ∷ js) = (rw first at m) in k
  | inr behind ↦
      let k : In a (j ∷ insert i js) = (rw behind at m) in
      elim k [
        | inl e ↦ inr (inl e)
        | inr n ↦ elim (In-insert a i js n) [ inl e ↦ inl e | inr o ↦ inr (inr o) ]
      ]
]

In-sorted : (a : String) (is : List String) → In a (sorted is) → In a is
In-sorted a [] m = m
In-sorted a (i ∷ is) m = elim (In-insert a i (sorted is) m) [
  | inl e ↦ inl e
  | inr n ↦ inr (In-sorted a is n)
]

entries-IsQueued :
    {P W : Type 0} (w : WorkflowDefinition P W) (is : List String)
    → ((i : String) → In i is → In i (entry_nodes w))
    → All (IsQueued w []) (map (λ i. (i, 1)) is)
entries-IsQueued w [] h = tt
entries-IsQueued w (i ∷ is) h =
    (first-IsQueued w [] i (inl (h i (inl refl))), entries-IsQueued w is (λ j m. h j (inr m)))

start-IsSound :
    {Ctx P W : Type 0} (w : WorkflowDefinition P W) (entries : List String) (ctx : Ctx)
    → entry_nodes w ≡ entries
    → IsSound w (start entries ctx)
start-IsSound w entries ctx e = record {
  walked = Walk.nowhere;
  queued =
      entries-IsQueued w (sorted entries)
        (λ i m. subst (λ t. In i t) (sym e) (In-sorted i entries m));
  agrees = refl;
  listed = refl;
}

-- What a result of `execute` says.
pub record IsResult {P W : Type 0} (w : WorkflowDefinition P W) (max_steps : ℕ)
    (r : PipelineExecutionResult) : Type 0 where
  pub walked : Walk w r.node_results
  pub listed : r.visited_nodes ≡ map (λ e. e.node_id) r.node_results
  pub bounded : length r.node_results ≤ max_steps
  pub clean : (r.success && not (all_succeeded r.node_results)) ≡ false
  pub below_limit :
      (r.success && leb max_steps (length r.node_results)) ≡ (r.success && (max_steps == 0))

Ids-cases : (is : List String) → (is ≡ []) ⊎ ((i : String) × (rest : List String) × (is ≡ i ∷ rest))
Ids-cases [] = inl refl
Ids-cases (i ∷ rest) = inr (i, rest, refl)

finish-IsResult :
    {Ctx P W : Type 0} (w : WorkflowDefinition P W) (max_steps : ℕ) (x : Execution Ctx)
    → IsSound w x
    → IsCounted x max_steps
    → IsResult w max_steps (finish max_steps x)
finish-IsResult w max_steps x v c = record {
  walked = v.walked;
  listed = v.listed;
  bounded = omega (arith, c.results, c.steps);
  clean = rw v.agrees (ground arith);
  below_limit = (let le : length x.result.node_results ≤ x.steps = c.results in ground arith);
}

-- Every execution, whatever the handlers answer or raise and whatever the subworkflows do, walks
-- through the workflow: the node of each result is one of the workflow's, an entry node or the
-- target of an edge that an earlier result follows by its output; it was tried at least once and at
-- most one time more than its retries, and as often as that if it failed. The visited nodes are
-- those of the results in order, at most `max_steps`; and the result is a success only if no node
-- failed and, unless the limit is 0, fewer than `max_steps` nodes were visited.
pub execute-IsResult :
    {Ctx P W : Type 0} (env : Env Ctx P W) (w : WorkflowDefinition P W) (ctx : Ctx) (max_steps : ℕ)
    → IsResult w max_steps (execute env w ctx max_steps)
unfolding execute
execute-IsResult env w ctx max_steps = elim (Ids-cases (entry_nodes w)) [
  | inl none_there ↦
      rw (none_there, execute)
        (record {
          walked = Walk.nowhere;
          listed = refl;
          bounded = omega arith;
          clean = refl;
          below_limit = ground arith;
        })
  | inr (i, is, e) ↦
      rw (e, execute)
        (finish-IsResult w max_steps (walk env w max_steps (start (i ∷ is) ctx))
          (walk-IsSound env w max_steps _ (start-IsSound w (i ∷ is) ctx e))
          (walk_counts env w max_steps _ max_steps (omega arith)
            (record { results = omega arith; steps = omega arith })))
]
