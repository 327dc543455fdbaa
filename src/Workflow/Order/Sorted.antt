-- ===== src/Workflow/Order/Sorted.antt =====
-- The order that `topological_order` of src/swe_team/workflow/executor.py makes.
use swe_squad.Prelude.{
  ℕ, zero, suc, ◌+◌, ◌≤◌, ◌≡◌, refl, sym, ap, ◌∙◌, true, false, ◌&&◌, not, inl, inr, List, [], ◌∷◌,
  ◌++◌, map, filter, length, length-append, In, ltb, ◌==◌, if◌then◌else◌, String, str_eq, eq_iff,
  arith, Bool-cases,
}
use mathlib.Core.List.{append_assoc, append-nil}
use mathlib.Core.Path.{subst, fun_ext}
use swe_squad.Workflow.{pos, WorkflowConnection, WorkflowDefinition, keys, sorted}
use swe_squad.Workflow.Order.{
  member, count, is_zero, Degrees, in_degree, relax, edges_of, drain, sources, drained,
  with_leftovers, topological_order,
}
use swe_squad.Workflow.Order.Counts.{
  count-append, member-count, count-sorted, count-keys, count-filter, open_edges, edges_to,
  open_edges-split, open_edges-nil, missing, missing-split, missing-nil, missing_none,
}
use swe_squad.Workflow.Order.Drain.{IsRelaxed, relax-IsRelaxed, is_zero-pos}

-- Nodes in an order in which each comes once, after the sources of all edges into it.
pub data Topological (nodes : List String) (cs : List WorkflowConnection)
    : List String → Type 0 where
  nothing : Topological nodes cs []
  further :
      {vs ts : List String} {v : String}
      → Topological nodes cs vs
      → member v nodes ≡ true
      → member v vs ≡ false
      → ((c : WorkflowConnection)
          → In c cs
          → c.target_node_id ≡ v
          → member c.source_node_id vs ≡ true)
      → ts ≡ vs ++ v ∷ []
      → Topological nodes cs ts

no_open :
    (cs : List WorkflowConnection) (done : List String) (v : String)
    → open_edges cs done v ≡ 0
    → (c : WorkflowConnection) → In c cs
    → c.target_node_id ≡ v
    → member c.source_node_id done ≡ true
no_open [] done v h c m e = elim m [ ]
no_open (d ∷ cs) done v h c (inl same) e =
    let to_v : str_eq d.target_node_id v ≡ true =
      (eq_iff d.target_node_id v).1 (ap (λ x. x.target_node_id) (sym same) ∙ e) in
    let from_d : member d.source_node_id done ≡ true = ground arith in
    ap (λ x. member x.source_node_id done) same ∙ from_d
no_open (d ∷ cs) done v h c (inr m) e = no_open cs done v (ground arith) c m e

-- Each node stands once in the list.
abbrev pub IsUnique : List String → Type 0
IsUnique nodes = (t : String) → count t nodes ≡ (if member t nodes then 1 else 0)

-- What holds before each round.
record IsGoing (nodes : List String) (cs : List WorkflowConnection) (deg : Degrees)
    (ordered queue : List String) : Type 0 where
  relaxed : IsRelaxed nodes (open_edges cs ordered) deg ordered queue
  topological : Topological nodes cs ordered
  sized : length ordered + missing nodes ordered ≡ length nodes

module _ (nodes : List String) (cs : List WorkflowConnection) (unique : IsUnique nodes)
    (deg : Degrees) (v : String) (ordered queue : List String)
    (g : IsGoing nodes cs deg ordered (v ∷ queue)) where
  popped :
      (member v nodes ≡ true) × ((open_edges cs ordered v == 0) ≡ true) × (member v ordered ≡ false)
  popped =
      let self : str_eq v v ≡ true = (eq_iff v v).1 refl in
      let listed = g.relaxed.listed v in
      let split : count v (ordered ++ v ∷ queue) ≡ count v ordered + suc (count v queue) =
        count-append v ordered (v ∷ queue) ∙ (rw self refl) in
      (ground arith, ground arith, ground (arith, member-count v ordered))

  after_pop :
      IsRelaxed nodes
        (λ t. open_edges cs (ordered ++ v ∷ []) t + edges_to (edges_of cs v) t)
        deg
        (ordered ++ v ∷ [])
        queue
  after_pop =
      let fresh = popped.2 in
      let need : open_edges cs ordered
          ≡ (λ t. open_edges cs (ordered ++ v ∷ []) t + edges_to (edges_of cs v) t) =
        fun_ext (λ t. open_edges-split cs ordered v t fresh) in
      subst (λ f. IsRelaxed nodes f deg (ordered ++ v ∷ []) queue) need
        (record {
          degree = g.relaxed.degree;
          listed =
              λ t. ap (λ l. count t l) (append_assoc ordered (v ∷ []) queue) ∙ g.relaxed.listed t;
        })

  round-IsGoing :
      IsGoing nodes cs
        (relax nodes (edges_of cs v) deg queue).0
        (ordered ++ v ∷ [])
        (relax nodes (edges_of cs v) deg queue).1
  round-IsGoing =
      let (known, closed, fresh) = popped in
      record {
        relaxed =
            relax-IsRelaxed nodes (edges_of cs v) (open_edges cs (ordered ++ v ∷ [])) deg
              (ordered ++ v ∷ []) queue after_pop;
        topological =
            Topological.further g.topological known fresh (no_open cs ordered v (ground arith))
              refl;
        sized =
            let once : count v nodes ≡ 1 = unique v ∙ rw known refl in
            omega
              (arith, g.sized, length-append ordered (v ∷ []), missing-split nodes ordered v fresh);
      }

-- The end of the loop: nothing is queued, and a node is ordered exactly if it has no open edge.
record IsDrained (nodes : List String) (cs : List WorkflowConnection) (ordered queue : List String)
    : Type 0 where
  topological : Topological nodes cs ordered
  sized : length ordered + missing nodes ordered ≡ length nodes
  empty : queue ≡ []
  all_closed :
      (t : String)
      → count t ordered ≡ (if member t nodes && (open_edges cs ordered t == 0) then 1 else 0)

stop-IsDrained :
    (nodes : List String) (cs : List WorkflowConnection) (deg : Degrees) (ordered : List String)
    → IsGoing nodes cs deg ordered []
    → IsDrained nodes cs ordered []
stop-IsDrained nodes cs deg ordered g = record {
  topological = g.topological;
  sized = g.sized;
  empty = refl;
  all_closed = λ t. ap (λ l. count t l) (sym (append-nil ordered)) ∙ g.relaxed.listed t;
}

drain-IsDrained :
    (nodes : List String) (cs : List WorkflowConnection) (unique : IsUnique nodes) (fuel : ℕ)
    (deg : Degrees) (queue ordered : List String)
    → missing nodes ordered ≤ fuel
    → IsGoing nodes cs deg ordered queue
    → IsDrained nodes cs
        (drain nodes cs fuel deg queue ordered).0
        (drain nodes cs fuel deg queue ordered).1
unfolding drain
drain-IsDrained nodes cs unique zero deg [] ordered h g = stop-IsDrained nodes cs deg ordered g
drain-IsDrained nodes cs unique zero deg (v ∷ queue) ordered h g =
    let (known, closed, fresh) = popped nodes cs unique deg v ordered queue g in
    absurd
      (let there : member v ordered ≡ true = missing_none nodes ordered v (omega arith) known in cc)
drain-IsDrained nodes cs unique (suc fuel) deg [] ordered h g =
    stop-IsDrained nodes cs deg ordered g
drain-IsDrained nodes cs unique (suc fuel) deg (v ∷ queue) ordered h g =
    let (known, closed, fresh) = popped nodes cs unique deg v ordered queue g in
    let once : count v nodes ≡ 1 = unique v ∙ rw known refl in
    drain-IsDrained nodes cs unique fuel _ _ (ordered ++ v ∷ [])
      (omega (arith, missing-split nodes ordered v fresh))
      (round-IsGoing nodes cs unique deg v ordered queue g)

start-IsGoing :
    (nodes : List String) (cs : List WorkflowConnection) (unique : IsUnique nodes)
    → IsGoing nodes cs (in_degree cs) [] (sources nodes cs)
start-IsGoing nodes cs unique = record {
  relaxed = record {
    degree = λ t known. ap pos (sym (open_edges-nil cs t));
    listed = λ t.
        count-sorted t (filter (λ i. is_zero (in_degree cs i)) nodes)
        ∙ (count-filter (λ i. is_zero (in_degree cs i)) t nodes
            ∙ rw (is_zero-pos (edges_to cs t), open_edges-nil cs t, unique t) (ground arith));
  };
  topological = Topological.nothing;
  sized = omega (arith, missing-nil nodes);
}

drained-IsDrained :
    (nodes : List String) (cs : List WorkflowConnection) (unique : IsUnique nodes)
    → IsDrained nodes cs (drained nodes cs).0 (drained nodes cs).1
unfolding drained
drained-IsDrained nodes cs unique =
    drain-IsDrained nodes cs unique (length nodes) (in_degree cs) (sources nodes cs) []
      (omega (arith, missing-nil nodes)) (start-IsGoing nodes cs unique)

-- An order of the nodes: a topological part, and a rest of nodes that have an edge from outside it.
pub record IsOrder (nodes : List String) (cs : List WorkflowConnection) (order : List String)
    : Type 0 where
  pub ordered : List String
  pub rest : List String
  pub parts : order ≡ ordered ++ rest
  pub topological : Topological nodes cs ordered
  pub blocked : (t : String) → member t rest ≡ true → (open_edges cs ordered t == 0) ≡ false
  pub once : (t : String) → count t order ≡ (if member t nodes then 1 else 0)

with_leftovers-IsOrder :
    (nodes : List String) (cs : List WorkflowConnection) (ordered queue : List String)
    → IsUnique nodes
    → IsDrained nodes cs ordered queue
    → IsOrder nodes cs (with_leftovers nodes ordered)
with_leftovers-IsOrder nodes cs ordered queue unique d =
    let rest = sorted (filter (λ i. not (member i ordered)) nodes) in
    let counted = λ (t : String).
      count-sorted t (filter (λ i. not (member i ordered)) nodes)
      ∙ count-filter (λ i. not (member i ordered)) t nodes in
    elim (Bool-cases (ltb (length ordered) (length nodes))) [
      | inl fewer ↦ rw fewer (record {
        ordered = ordered;
        rest = rest;
        parts = refl;
        topological = d.topological;
        blocked = λ t m. ground (
          arith,
          counted t,
          member-count t rest,
          member-count t ordered,
          d.all_closed t,
          unique t,
        );
        once = λ t.
            count-append t ordered rest
            ∙ ground (arith, counted t, member-count t ordered, d.all_closed t, unique t);
      })
      | inr all_there ↦ rw all_there (record {
        ordered = ordered;
        rest = [];
        parts = sym (append-nil ordered);
        topological = d.topological;
        blocked = λ t m. absurd (cc);
        once = λ t.
            (let none_left : missing nodes ordered ≡ 0 = ground (arith, d.sized) in
              elim (Bool-cases (member t nodes)) [
                | inl known ↦
                    let there : member t ordered ≡ true =
                      missing_none nodes ordered t none_left known in
                    ground (arith, member-count t ordered, d.all_closed t)
                | inr unknown ↦ d.all_closed t ∙ rw unknown refl
              ]);
      })
    ]

-- `topological_order` lists each node id of the workflow exactly once. The list is a topological
-- part, in which every node stands after the sources of all edges into it, followed by a rest of
-- nodes into each of which an edge leads from outside the topological part.
pub topological_order-IsOrder :
    {P W : Type 0} (w : WorkflowDefinition P W)
    → IsOrder (keys (map (λ n. n.id) w.nodes)) w.connections (topological_order w)
unfolding topological_order
topological_order-IsOrder w =
    let ids = map (λ n. n.id) w.nodes in
    let unique = λ (t : String). count-keys t ids in
    with_leftovers-IsOrder (keys ids) w.connections (drained (keys ids) w.connections).0
      (drained (keys ids) w.connections).1 unique
      (drained-IsDrained (keys ids) w.connections unique)
