-- ===== src/Workflow/Order/Counts.antt =====
-- Counting ids and edges, for `topological_order` of src/swe_team/workflow/executor.py.
use swe_squad.Prelude.{
  ℕ, ◌+◌, ◌≡◌, refl, sym, ap, ◌∙◌, Bool, true, false, ◌&&◌, ◌||◌, not, inl, inr, List, [], ◌∷◌,
  ◌++◌, filter, length, count_if, ◌==◌, if◌then◌else◌, String, str_eq, eq_iff, arith, Bool-cases,
}
use swe_squad.Workflow.{WorkflowConnection, keys, insert, sorted}
use swe_squad.Workflow.Order.{member, count, edges_of}

pub count-append :
    (id : String) (xs ys : List String) → count id (xs ++ ys) ≡ count id xs + count id ys
count-append id [] ys = omega arith
count-append id (x ∷ xs) ys = ground (arith, count-append id xs ys)

pub member-append :
    (id : String) (xs ys : List String) → member id (xs ++ ys) ≡ (member id xs || member id ys)
member-append id [] ys = refl
member-append id (x ∷ xs) ys = ground (arith, member-append id xs ys)

pub member-count : (id : String) (xs : List String) → member id xs ≡ not (count id xs == 0)
member-count id [] = refl
member-count id (x ∷ xs) = ground (arith, member-count id xs)

count-insert : (id i : String) (xs : List String) → count id (insert i xs) ≡ count id (i ∷ xs)
count-insert id i [] = refl
count-insert id i (x ∷ xs) = ground (arith, count-insert id i xs)

pub count-sorted : (id : String) (xs : List String) → count id (sorted xs) ≡ count id xs
count-sorted id [] = refl
count-sorted id (x ∷ xs) = count-insert id x (sorted xs) ∙ ground (arith, count-sorted id xs)

pub member-keys : (id : String) (is : List String) → member id (keys is) ≡ member id is
unfolding keys
member-keys id [] = refl
member-keys id (i ∷ is) = ground (arith, eq_iff i id, member-keys i is, member-keys id is)

-- Each key stands once.
pub count-keys :
    (id : String) (is : List String) → count id (keys is) ≡ (if member id (keys is) then 1 else 0)
unfolding keys
count-keys id [] = refl
count-keys id (i ∷ is) = elim (Bool-cases (member i is)) [
  | inl again ↦ rw again (count-keys id is)
  | inr fresh ↦
      let absent : count i (keys is) ≡ 0 =
        ground (arith, member-keys i is, member-count i (keys is)) in
      rw fresh (elim (Bool-cases (str_eq i id)) [
        | inl same ↦
            let none_more : count id (keys is) ≡ 0 =
              ap (λ j. count j (keys is)) (sym ((eq_iff i id).0 same)) ∙ absent in
            rw (same, none_more) refl
        | inr other ↦ rw other (count-keys id is)
      ])
]

-- An id is kept by a filter on it, or not at all.
pub count-filter :
    (p : String → Bool) (id : String) (xs : List String)
    → count id (filter p xs) ≡ (if p id then count id xs else 0)
count-filter p id [] = ground arith
count-filter p id (x ∷ xs) = elim (Bool-cases (str_eq x id)) [
  | inl same ↦
      let e : p x ≡ p id = ap p ((eq_iff x id).0 same) in
      rw e (elim (Bool-cases (p id)) [
        | inl k ↦ rw (k, same) (ground (arith, count-filter p id xs))
        | inr k ↦ rw k (ground (arith, count-filter p id xs))
      ])
  | inr other ↦ elim (Bool-cases (p x)) [
    | inl k ↦ rw (k, other) (count-filter p id xs)
    | inr k ↦ rw (k, other) (count-filter p id xs)
  ]
]

-- The edges into `t` whose source is not among the ids.
abbrev pub open_edges : List WorkflowConnection → List String → String → ℕ
open_edges cs done t =
    count_if (λ c. str_eq c.target_node_id t && not (member c.source_node_id done)) cs

abbrev pub edges_to : List WorkflowConnection → String → ℕ
edges_to cs t = count_if (λ c. str_eq c.target_node_id t) cs

-- Ordering one more node closes its edges.
pub open_edges-split :
    (cs : List WorkflowConnection) (done : List String) (v t : String)
    → member v done ≡ false
    → open_edges cs done t ≡ open_edges cs (done ++ v ∷ []) t + edges_to (edges_of cs v) t
open_edges-split [] done v t h = omega arith
open_edges-split (c ∷ cs) done v t h = elim (Bool-cases (str_eq c.source_node_id v)) [
  | inl mine ↦
      let e : c.source_node_id ≡ v = (eq_iff c.source_node_id v).0 mine in
      let fresh : member c.source_node_id done ≡ false = ap (λ j. member j done) e ∙ h in
      let after : member c.source_node_id (done ++ v ∷ []) ≡ true =
        ground (arith, member-append c.source_node_id done (v ∷ []), eq_iff v c.source_node_id) in
      rw (mine, fresh, after) (ground (arith, open_edges-split cs done v t h))
  | inr other ↦
      let same : member c.source_node_id (done ++ v ∷ []) ≡ member c.source_node_id done = ground (
        arith,
        member-append c.source_node_id done (v ∷ []),
        eq_iff v c.source_node_id,
        eq_iff c.source_node_id v,
      ) in
      rw (other, same) (ground (arith, open_edges-split cs done v t h))
]

pub open_edges-nil :
    (cs : List WorkflowConnection) (t : String) → open_edges cs [] t ≡ edges_to cs t
open_edges-nil [] t = refl
open_edges-nil (c ∷ cs) t = ground (arith, open_edges-nil cs t)

-- How many nodes are not ordered.
abbrev pub missing : List String → List String → ℕ
missing nodes done = count_if (λ i. not (member i done)) nodes

pub missing-split :
    (nodes done : List String) (v : String)
    → member v done ≡ false
    → missing nodes done ≡ missing nodes (done ++ v ∷ []) + count v nodes
missing-split [] done v h = omega arith
missing-split (i ∷ nodes) done v h = elim (Bool-cases (str_eq i v)) [
  | inl mine ↦
      let e : i ≡ v = (eq_iff i v).0 mine in
      let fresh : member i done ≡ false = ap (λ j. member j done) e ∙ h in
      let after : member i (done ++ v ∷ []) ≡ true =
        ground (arith, member-append i done (v ∷ []), eq_iff v i) in
      rw (mine, fresh, after) (ground (arith, missing-split nodes done v h))
  | inr other ↦
      let same : member i (done ++ v ∷ []) ≡ member i done =
        ground (arith, member-append i done (v ∷ []), eq_iff v i, eq_iff i v) in
      rw (other, same) (ground (arith, missing-split nodes done v h))
]

pub missing-nil : (nodes : List String) → missing nodes [] ≡ length nodes
missing-nil [] = refl
missing-nil (i ∷ nodes) = ground (arith, missing-nil nodes)

-- With none missing every node is ordered.
pub missing_none :
    (nodes done : List String) (i : String)
    → missing nodes done ≡ 0
    → member i nodes ≡ true
    → member i done ≡ true
missing_none [] done i h m = cc
missing_none (j ∷ nodes) done i h m = elim (Bool-cases (str_eq j i)) [
  | inl same ↦
      let e : j ≡ i = (eq_iff j i).0 same in
      let there : member j done ≡ true = ground arith in ap (λ k. member k done) (sym e) ∙ there
  | inr other ↦ missing_none nodes done i (ground arith) (ground arith)
]
