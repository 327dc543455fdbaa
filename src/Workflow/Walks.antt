-- ===== src/Workflow/Walks.antt =====
-- The walks that the executor makes through a workflow.
use swe_squad.Prelude.{
  ℕ, zero, suc, ◌+◌, ◌≤◌, ◌≡◌, refl, sym, ap, ◌∙◌, ◌⊎◌, inl, inr, Bool, true, ◌&&◌, ◌||◌, not, some,
  List, [], ◌∷◌, ◌++◌, map, In, In-append_left, In-append_right, All, leb, ◌==◌, String, eq_iff,
  arith, Bool-cases, Option-cases,
}
use mathlib.Core.Path.{subst}
use swe_squad.Workflow.{
  WorkflowNode, WorkflowConnection, WorkflowDefinition, NodeExecution, Env, Execution,
  interpret_result, find_node, entry_nodes, run_node, with_sub, followed, enqueue, complete, retry,
  execution_of, visit, step, walk,
}

-- A result is that of a node of the workflow, after at most one try more than its retries, and after
-- all of them if it failed.
pub record IsExecution {P W : Type 0} (w : WorkflowDefinition P W) (r : NodeExecution)
    : Type 0 where
  pub node : WorkflowNode P W
  pub found : find_node r.node_id w.nodes ≡ some node
  pub typed : r.node_type ≡ node.node_type
  pub tried : 1 ≤ r.attempts
  pub within : r.attempts ≤ node.max_retries + 1
  pub exhausted : (r.success || (r.attempts == node.max_retries + 1)) ≡ true

-- An edge that one of the results follows leads to the node.
pub record Follows {P W : Type 0} (w : WorkflowDefinition P W) (rs : List NodeExecution)
    (id : String) : Type 0 where
  pub before : NodeExecution
  pub edge : WorkflowConnection
  pub done : In before rs
  pub taken : In edge (followed w.connections before.node_id before.output)
  pub leads : edge.target_node_id ≡ id

abbrev pub Reached : {P W : Type 0} → WorkflowDefinition P W → List NodeExecution → String → Type 0
Reached w rs id = In id (entry_nodes w) ⊎ Follows w rs id

-- The results of a walk: each is sound, and its node an entry or reached from a result before.
pub data Walk {P W : Type 0} (w : WorkflowDefinition P W) : List NodeExecution → Type 0 where
  nowhere : Walk w []
  further :
      {rs ts : List NodeExecution} {r : NodeExecution}
      → Walk w rs
      → Reached w rs r.node_id
      → IsExecution w r
      → ts ≡ rs ++ r ∷ []
      → Walk w ts

find_node-id :
    {P W : Type 0} (id : String) (ns : List (WorkflowNode P W)) (n : WorkflowNode P W)
    → find_node id ns ≡ some n
    → n.id ≡ id
unfolding find_node
find_node-id id [] n h = cc
find_node-id id (m ∷ ns) n h = ground (arith, eq_iff m.id id, find_node-id id ns n)

Reached-grows :
    {P W : Type 0} (w : WorkflowDefinition P W) (rs ts : List NodeExecution) (id : String)
    → Reached w rs id
    → Reached w (rs ++ ts) id
Reached-grows w rs ts id (inl e) = inl e
Reached-grows w rs ts id (inr f) = inr (record {
  before = f.before;
  edge = f.edge;
  done = In-append_left f.before rs ts f.done;
  taken = f.taken;
  leads = f.leads;
})

-- A place in the queue.
pub record IsQueued {P W : Type 0} (w : WorkflowDefinition P W) (rs : List NodeExecution)
    (q : String × ℕ) : Type 0 where
  pub reached : Reached w rs q.0
  pub tried : 1 ≤ q.1
  pub within : (n : WorkflowNode P W) → find_node q.0 w.nodes ≡ some n → q.1 ≤ n.max_retries + 1

IsQueued-grow :
    {P W : Type 0} (w : WorkflowDefinition P W) (rs ts : List NodeExecution)
    (qs : List (String × ℕ))
    → All (IsQueued w rs) qs
    → All (IsQueued w (rs ++ ts)) qs
IsQueued-grow w rs ts [] h = tt
IsQueued-grow w rs ts (q ∷ qs) h = (
  record {
    reached = Reached-grows w rs ts q.0 (h.0).reached;
    tried = (h.0).tried;
    within = (h.0).within;
  },
  IsQueued-grow w rs ts qs h.1,
)

All-append :
    {P W : Type 0} (w : WorkflowDefinition P W) (rs : List NodeExecution)
    (qs ps : List (String × ℕ))
    → All (IsQueued w rs) qs
    → All (IsQueued w rs) ps
    → All (IsQueued w rs) (qs ++ ps)
All-append w rs [] ps h k = k
All-append w rs (q ∷ qs) ps h k = (h.0, All-append w rs qs ps h.1 k)

pub first-IsQueued :
    {P W : Type 0} (w : WorkflowDefinition P W) (rs : List NodeExecution) (id : String)
    → Reached w rs id
    → IsQueued w rs (id, 1)
first-IsQueued w rs id h = record { reached = h; tried = omega arith; within = λ n e. omega arith }

-- The targets of the edges that a result follows.
enqueue-IsQueued :
    {P W : Type 0} (w : WorkflowDefinition P W) (rs : List NodeExecution) (r : NodeExecution)
    (cs : List WorkflowConnection)
    → In r rs
    → ((c : WorkflowConnection) → In c cs → In c (followed w.connections r.node_id r.output))
    → All (IsQueued w rs) (enqueue cs)
enqueue-IsQueued w rs r [] m h = tt
enqueue-IsQueued w rs r (c ∷ cs) m h = (
  first-IsQueued w rs c.target_node_id
      (inr (record { before = r; edge = c; done = m; taken = h c (inl refl); leads = refl })),
  enqueue-IsQueued w rs r cs m (λ d i. h d (inr i)),
)

abbrev pub all_succeeded : List NodeExecution → Bool
all_succeeded [] = true
all_succeeded (r ∷ rs) = r.success && all_succeeded rs

all_succeeded-snoc :
    (rs : List NodeExecution) (r : NodeExecution)
    → all_succeeded (rs ++ r ∷ []) ≡ (all_succeeded rs && r.success)
all_succeeded-snoc [] r = ground arith
all_succeeded-snoc (q ∷ rs) r = ground (arith, all_succeeded-snoc rs r)

map-snoc :
    (rs : List NodeExecution) (r : NodeExecution)
    → map (λ x. x.node_id) (rs ++ r ∷ []) ≡ map (λ x. x.node_id) rs ++ r.node_id ∷ []
map-snoc [] r = refl
map-snoc (q ∷ rs) r = ap (λ t. q.node_id ∷ t) (map-snoc rs r)

-- What holds whenever the loop tests its condition.
pub record IsSound {Ctx P W : Type 0} (w : WorkflowDefinition P W) (x : Execution Ctx)
    : Type 0 where
  pub walked : Walk w x.result.node_results
  pub queued : All (IsQueued w x.result.node_results) x.queue
  pub agrees : x.result.success ≡ all_succeeded x.result.node_results
  pub listed : x.result.visited_nodes ≡ map (λ r. r.node_id) x.result.node_results

complete-IsSound :
    {Ctx P W : Type 0} (w : WorkflowDefinition P W) (r : NodeExecution) (x : Execution Ctx)
    → IsSound w x
    → Reached w x.result.node_results r.node_id
    → IsExecution w r
    → IsSound w (complete w.connections r x)
unfolding complete
complete-IsSound w r x v reached sound =
    let rs = x.result.node_results in
    let last : In r (rs ++ r ∷ []) = In-append_right r rs (r ∷ []) (inl refl) in
    record {
      walked = Walk.further v.walked reached sound refl;
      queued =
          All-append w (rs ++ r ∷ []) x.queue _ (IsQueued-grow w rs (r ∷ []) x.queue v.queued) (
            enqueue-IsQueued w (rs ++ r ∷ []) r (followed w.connections r.node_id r.output) last
              (λ c i. i));
      agrees = rw v.agrees (sym (all_succeeded-snoc rs r));
      listed = rw v.listed (sym (map-snoc rs r));
    }

-- The context is not looked at.
with_ctx-IsSound :
    {Ctx P W : Type 0} (w : WorkflowDefinition P W) (x : Execution Ctx) (ctx : Ctx)
    → IsSound w x
    → IsSound w (record x { ctx = ctx })
with_ctx-IsSound w x ctx v = record {
  walked = v.walked;
  queued = v.queued;
  agrees = v.agrees;
  listed = v.listed;
}

pub List-cases :
    (qs : List (String × ℕ))
    → (qs ≡ []) ⊎ ((q : String × ℕ) × (rest : List (String × ℕ)) × (qs ≡ q ∷ rest))
List-cases [] = inl refl
List-cases (q ∷ rest) = inr (q, rest, refl)

visit-IsSound :
    {Ctx P W : Type 0} (env : Env Ctx P W) (w : WorkflowDefinition P W) (n : WorkflowNode P W)
    (attempt : ℕ) (x : Execution Ctx)
    → find_node n.id w.nodes ≡ some n
    → IsQueued w x.result.node_results (n.id, attempt)
    → IsSound w x
    → IsSound w (visit env w.connections n attempt x)
unfolding visit
visit-IsSound env w n attempt x e q v =
    let out = run_node env n x.ctx in
    let o = with_sub env n (out.1) (interpret_result (out.0)) in
    let u = with_ctx-IsSound w x (out.1) v in
    elim (Bool-cases (not o.0 && leb attempt n.max_retries)) [
      | inl again ↦ rw again (
          unfold retry in
          record {
            walked = u.walked;
            queued = (
              record {
                reached = q.reached;
                tried = omega arith;
                within = λ m h.
                    let same : n ≡ m = (let both : some n ≡ some m = sym e ∙ h in cc) in
                    subst (λ k. attempt + 1 ≤ k.max_retries + 1) same (ground arith);
              },
              u.queued,
            );
            agrees = u.agrees;
            listed = u.listed;
          })
      | inr over ↦ rw over (
          complete-IsSound w (execution_of n attempt (out.0) o) (record x { ctx = out.1 }) u
            q.reached
            (record {
              node = n;
              found = e;
              typed = refl;
              tried = q.tried;
              within = q.within n e;
              exhausted = (let le : attempt ≤ n.max_retries + 1 = q.within n e in ground arith);
            }))
    ]

step-IsSound :
    {Ctx P W : Type 0} (env : Env Ctx P W) (w : WorkflowDefinition P W) (id : String) (attempt : ℕ)
    (rest : List (String × ℕ)) (x : Execution Ctx)
    → x.queue ≡ (id, attempt) ∷ rest
    → IsSound w x
    → IsSound w (step env w id attempt rest x)
unfolding step
step-IsSound env w id attempt rest x e v =
    let both : All (IsQueued w x.result.node_results) ((id, attempt) ∷ rest) =
      subst (λ t. All (IsQueued w x.result.node_results) t) e v.queued in
    let u : IsSound w (record x { queue = rest; steps = x.steps + 1 }) = record {
      walked = v.walked;
      queued = both.1;
      agrees = v.agrees;
      listed = v.listed;
    } in
    elim (Option-cases (find_node id w.nodes)) [
      | inl absent ↦ rw absent u
      | inr (n, found) ↦
          let same : n.id ≡ id = find_node-id id w.nodes n found in
          rw found (
            visit-IsSound env w n attempt (record x { queue = rest; steps = x.steps + 1 })
              (subst (λ i. find_node i w.nodes ≡ some n) (sym same) found)
              (subst (λ i. IsQueued w x.result.node_results (i, attempt)) (sym same) both.0) u)
    ]

pub walk-IsSound :
    {Ctx P W : Type 0} (env : Env Ctx P W) (w : WorkflowDefinition P W) (left : ℕ)
    (x : Execution Ctx)
    → IsSound w x
    → IsSound w (walk env w left x)
unfolding walk
walk-IsSound env w zero x v = v
walk-IsSound env w (suc left) x v = elim (List-cases x.queue) [
  | inl e ↦ rw (e, walk) v
  | inr (q, rest, e) ↦
      rw (e, walk) (walk-IsSound env w left _ (step-IsSound env w q.0 q.1 rest x e v))
]
