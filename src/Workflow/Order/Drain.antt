-- ===== src/Workflow/Order/Drain.antt =====
-- The degrees and the queue in the loops of `topological_order` of
-- src/swe_team/workflow/executor.py.
use swe_squad.Prelude.{
  ℕ, zero, suc, ◌+◌, ◌≡◌, refl, ap, ◌∙◌, Bool, true, false, ◌&&◌, inl, inr, List, [], ◌∷◌, ◌++◌,
  ◌==◌, if◌then◌else◌, String, str_eq, eq_iff, arith, Bool-cases,
}
use mathlib.Core.Path.{subst, fun_ext}
use swe_squad.Workflow.{ℤ, pos, WorkflowConnection}
use swe_squad.Workflow.Order.{member, count, less_one, is_zero, Degrees, lower_at, relax}
use swe_squad.Workflow.Order.Counts.{count-append, edges_to}

pub record IsRelaxed (nodes : List String) (need : String → ℕ) (deg : Degrees)
    (ordered queue : List String) : Type 0 where
  pub degree : (t : String) → member t nodes ≡ true → deg t ≡ pos (need t)
  pub listed :
      (t : String) → count t (ordered ++ queue) ≡ (if member t nodes && (need t == 0) then 1 else 0)

less_one-suc : (z : ℤ) (n k : ℕ) → z ≡ pos (n + suc k) → less_one z ≡ pos (n + k)
less_one-suc z n k e = let s : n + suc k ≡ suc (n + k) = omega arith in rw e (rw s refl)

count_last :
    (t u : String) (xs ys : List String)
    → count t (xs ++ (ys ++ u ∷ [])) ≡ count t (xs ++ ys) + (if str_eq u t then 1 else 0)
count_last t u xs ys =
    ground
      (arith, count-append t xs (ys ++ u ∷ []), count-append t xs ys, count-append t ys (u ∷ []))

pub is_zero-pos : (n : ℕ) → is_zero (pos n) ≡ (n == 0)
is_zero-pos zero = refl
is_zero-pos (suc n) = ground arith

-- One edge, of which the degrees still count `rest` after it.
module _ (nodes : List String) (need : String → ℕ) (deg : Degrees) (ordered queue : List String)
    (u : String) (before : String → ℕ) (at_u : before u ≡ suc (need u))
    (elsewhere : (t : String) → str_eq u t ≡ false → before t ≡ need t)
    (v : IsRelaxed nodes before deg ordered queue) where
  before_at : (t : String) → str_eq u t ≡ true → before t ≡ suc (need t)
  before_at t same =
      let e : u ≡ t = (eq_iff u t).0 same in subst (λ j. before j ≡ suc (need j)) e at_u

  edge_degree :
      (t : String)
      → member t nodes ≡ true
      → (if member u nodes then lower_at u deg else deg) t ≡ pos (need t)
  edge_degree t known = elim (Bool-cases (str_eq u t)) [
    | inl same ↦
        let known_u : member u nodes ≡ true =
          ap (λ j. member j nodes) ((eq_iff u t).0 same) ∙ known in
        let d : deg t ≡ pos (suc (need t)) = v.degree t known ∙ ap pos (before_at t same) in
        rw (known_u, same, d) refl
    | inr other ↦
        let d : deg t ≡ pos (need t) = v.degree t known ∙ ap pos (elsewhere t other) in
        elim (Bool-cases (member u nodes)) [
          | inl k ↦ rw (k, other, d) refl
          | inr k ↦ rw (k, d) refl
        ]
  ]

  -- What is listed of `t` if `u` is queued exactly when it needs no more.
  listed_after :
      (t : String) (b : Bool)
      → b ≡ (member u nodes && (need u == 0))
      → count t (ordered ++ (if b then queue ++ u ∷ [] else queue))
        ≡ (if member t nodes && (need t == 0) then 1 else 0)
  listed_after t b h = elim (Bool-cases (str_eq u t)) [
    | inl same ↦
        let e : u ≡ t = (eq_iff u t).0 same in
        let now : b ≡ (member t nodes && (need t == 0)) =
          subst (λ j. b ≡ (member j nodes && (need j == 0))) e h in
        let past : count t (ordered ++ queue) ≡ 0 = ground (arith, v.listed t, before_at t same) in
        elim (Bool-cases b) [
          | inl yes_b ↦ rw yes_b (count_last t u ordered queue ∙ ground arith)
          | inr no_b ↦ rw no_b (past ∙ ground arith)
        ]
    | inr other ↦
        let past : count t (ordered ++ queue) ≡ (if member t nodes && (need t == 0) then 1 else 0) =
          v.listed t ∙ ap (λ n. if member t nodes && (n == 0) then 1 else 0) (elsewhere t other) in
        elim (Bool-cases b) [
          | inl yes_b ↦ rw yes_b (count_last t u ordered queue ∙ ground arith)
          | inr no_b ↦ rw no_b past
        ]
  ]

  queued_if : (member u nodes && is_zero (lower_at u deg u)) ≡ (member u nodes && (need u == 0))
  queued_if = elim (Bool-cases (member u nodes)) [
    | inl k ↦
        let z : lower_at u deg u ≡ pos (need u) = (rw k at (edge_degree u k)) in
        rw (k, z) (is_zero-pos (need u))
    | inr k ↦ rw k refl
  ]

  edge-IsRelaxed :
      IsRelaxed nodes need
        (if member u nodes then lower_at u deg else deg)
        ordered
        (if member u nodes && is_zero (lower_at u deg u) then queue ++ u ∷ [] else queue)
  edge-IsRelaxed = record { degree = edge_degree; listed = λ t. listed_after t _ queued_if }

pub relax-IsRelaxed :
    (nodes : List String) (es : List WorkflowConnection) (need : String → ℕ) (deg : Degrees)
    (ordered queue : List String)
    → IsRelaxed nodes (λ t. need t + edges_to es t) deg ordered queue
    → IsRelaxed nodes need (relax nodes es deg queue).0 ordered (relax nodes es deg queue).1
unfolding relax
relax-IsRelaxed nodes [] need deg ordered queue v =
    let e : (λ (t : String). need t + 0) ≡ need = fun_ext (λ t. omega arith) in
    subst (λ f. IsRelaxed nodes f deg ordered queue) e v
relax-IsRelaxed nodes (e ∷ es) need deg ordered queue v =
    let u = e.target_node_id in
    let self : str_eq u u ≡ true = (eq_iff u u).1 refl in
    relax-IsRelaxed nodes es need _ ordered _ (
      edge-IsRelaxed nodes (λ t. need t + edges_to es t) deg ordered queue u
        (λ t. need t + edges_to (e ∷ es) t) (rw self (omega arith)) (λ t other. rw other refl) v)
