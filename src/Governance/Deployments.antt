-- ===== src/Governance/Deployments.antt =====
-- What the deployment governor records.
use text.Mathlib.TextPositions.{eq_refl}
use swe_squad.Prelude.{
  ℕ, ◌≡◌, refl, ap, ◌∙◌, inl, inr, String, true, false, Option, none, some, List, [], ◌∷◌, ◌++◌,
  arith, Bool-cases, str_eq, eq_iff, if◌then◌else◌,
}
use swe_squad.Governance.{
  DeploymentRecord, start_deployment, find, update_found, mark_deployed, mark_rolled_back,
  complete_deployment, rollback,
}

find-append :
    (id : String) (rs : List DeploymentRecord) (r : DeploymentRecord)
    → find id rs ≡ none
    → find id (rs ++ r ∷ []) ≡ (if str_eq r.deployment_id id then some r else none)
unfolding find
find-append id [] r n = refl
find-append id (x ∷ rs) r n = elim (Bool-cases (str_eq x.deployment_id id)) [
  | inl y ↦ let n' = rw y at n in absurd (cc)
  | inr f ↦ rw f (find-append id rs r (rw f at n))
]

-- A write that keeps the id is seen under that id and under no other.
find-update_found :
    (id j : String) (f : DeploymentRecord → DeploymentRecord) (rs : List DeploymentRecord)
    (r : DeploymentRecord)
    → ((x : DeploymentRecord) → (f x).deployment_id ≡ x.deployment_id)
    → find id rs ≡ some r
    → find j (update_found id f rs) ≡ (if str_eq id j then some (f r) else find j rs)
unfolding find update_found
find-update_found id j f [] r k e = absurd (cc)
find-update_found id j f (x ∷ rs) r k e = elim (Bool-cases (str_eq x.deployment_id id)) [
  | inl y ↦
      let e' : some x ≡ some r = rw y at e in
      let same : x ≡ r = cc in
      let id' : x.deployment_id ≡ id = (eq_iff x.deployment_id id).0 y in
      rw y (elim (Bool-cases (str_eq id j)) [
        | inl z ↦
            let b : str_eq (f x).deployment_id j ≡ true = ap (λ u. str_eq u j) (k x ∙ id') ∙ z in
            rw (b, z) (ap (λ u. some (f u)) same)
        | inr z ↦
            let b : str_eq (f x).deployment_id j ≡ false = ap (λ u. str_eq u j) (k x ∙ id') ∙ z in
            let c : str_eq x.deployment_id j ≡ false = ap (λ u. str_eq u j) id' ∙ z in rw (b, z, c)
      ])
  | inr n ↦
      let rest = find-update_found id j f rs r k (rw n at e) in
      rw n (elim (Bool-cases (str_eq x.deployment_id j)) [
        | inr z ↦ rw z rest
        | inl z ↦
            rw z (ground (arith, eq_iff x.deployment_id j, eq_iff x.deployment_id id, eq_iff id j))
      ])
]

complete_known :
    (now : ℕ) (id : String) (results : Option String) (rs : List DeploymentRecord)
    (r : DeploymentRecord)
    → find id rs ≡ some r
    → complete_deployment now id results rs
      ≡ (some (mark_deployed now results r), update_found id (mark_deployed now results) rs)
unfolding complete_deployment
complete_known now id results rs r e = rw (e, complete_deployment)

rollback_known :
    (now : ℕ) (id reason : String) (rs : List DeploymentRecord) (r : DeploymentRecord)
    → find id rs ≡ some r
    → rollback now id reason rs
      ≡ (some (mark_rolled_back now reason r), update_found id (mark_rolled_back now reason) rs)
unfolding rollback
rollback_known now id reason rs r e = rw (e, rollback)

module _ (now : ℕ) (id j : String) (rs : List DeploymentRecord) (r : DeploymentRecord) where
  -- `complete_deployment` and `rollback` of a known deployment return its record, marked, store
  -- it under the id, and leave every other id as it was.
  pub outcome_known :
      (results : Option String) (reason : String)
      → find id rs ≡ some r
      → let (done, rs') = complete_deployment now id results rs in
        let (undone, rs'') = rollback now id reason rs in
        (done ≡ some (mark_deployed now results r))
        × (find j rs' ≡ (if str_eq id j then done else find j rs))
        × (undone ≡ some (mark_rolled_back now reason r))
        × (find j rs'' ≡ (if str_eq id j then undone else find j rs))
  outcome_known results reason e =
      rw (complete_known now id results rs r e, rollback_known now id reason rs r e)
        (
          refl,
          find-update_found id j (mark_deployed now results) rs r (λ x. refl) e,
          refl,
          find-update_found id j (mark_rolled_back now reason) rs r (λ x. refl) e,
        )

-- Of an unknown deployment they return `None` and change nothing.
pub outcome_unknown :
    (now : ℕ) (id reason : String) (results : Option String) (rs : List DeploymentRecord)
    → find id rs ≡ none
    → (complete_deployment now id results rs ≡ (none, rs))
      × (rollback now id reason rs ≡ (none, rs))
unfolding complete_deployment rollback
outcome_unknown now id reason results rs n = (rw (n, complete_deployment), rw (n, rollback))

-- A deployment started under a fresh id is found by it.
pub start_deployment_found :
    (now now' : ℕ) (id ticket branch : String) (results : Option String)
    (rs : List DeploymentRecord)
    → find id rs ≡ none
    → let (rec, rs') = start_deployment id now ticket branch rs in
      (find id rs' ≡ some rec)
      × ((complete_deployment now' id results rs').0 ≡ some (mark_deployed now' results rec))
unfolding start_deployment
start_deployment_found now now' id ticket branch results rs n =
    let found = find-append id rs _ n ∙ rw (eq_refl id) refl in
    (found, ap (λ x. x.0) (complete_known now' id results _ _ found))
