-- ===== src/Rules/Conflicts.antt =====
-- What the rule engine applies: matching rules of its list, without conflicts, within the limits.
use mathlib.Core.Path.{subst}
use swe_squad.Prelude.{
  ℕ, ◌≤◌, String, ◌≡◌, refl, sym, ap, ◌∙◌, ◌⊎◌, inl, inr, Bool, true, false, ◌&&◌, List, [], ◌∷◌,
  In, In-append_cases, any, filter, leb, ◌==◌, ==_iff, Bool-cases, arith,
}
use swe_squad.Rules.{
  GovernanceRule, Moment, matches_time, insert_rule, sort_rules, precedences, is_boost, is_reduce,
  lower_of, is_less, most_conservative, resolve_group, group_of, resolve_groups, resolve_conflicts,
  RuleEngine, engine, get_active_rules, apply_rules, evaluate,
}
use swe_squad.Rules.Window.{apply_bounds}

In-filter :
    (p : GovernanceRule → Bool) (r : GovernanceRule) (rs : List GovernanceRule)
    → In r (filter p rs)
    → In r rs × (p r ≡ true)
In-filter p r [] m = elim m [ ]
In-filter p r (s ∷ rs) m = elim (Bool-cases (p s)) [
  | inr n ↦ let (i, h) = In-filter p r rs (rw n at m) in (inr i, h)
  | inl y ↦
      let m' : (r ≡ s) ⊎ In r (filter p rs) = rw y at m in
      elim m' [
        | inl e ↦ (inl e, ap p e ∙ y)
        | inr i ↦ let (k, h) = In-filter p r rs i in (inr k, h)
      ]
]

In-insert_rule :
    (r s : GovernanceRule) (rs : List GovernanceRule) → In r (insert_rule s rs) → (r ≡ s) ⊎ In r rs
unfolding insert_rule
In-insert_rule r s [] m = m
In-insert_rule r s (t ∷ rs) m = elim (Bool-cases (leb s.precedence t.precedence)) [
  | inl y ↦ rw y at m
  | inr n ↦
      let m' : (r ≡ t) ⊎ In r (insert_rule s rs) = rw n at m in
      elim m' [
        | inl e ↦ inr (inl e)
        | inr i ↦ elim (In-insert_rule r s rs i) [ inl e ↦ inl e | inr k ↦ inr (inr k) ]
      ]
]

In-sort_rules : (r : GovernanceRule) (rs : List GovernanceRule) → In r (sort_rules rs) → In r rs
unfolding sort_rules
In-sort_rules r [] m = m
In-sort_rules r (s ∷ rs) m = elim (In-insert_rule r s (sort_rules rs) m) [
  | inl e ↦ inl e
  | inr i ↦ inr (In-sort_rules r rs i)
]

lower_of-cases : (r s : GovernanceRule) → (lower_of r s ≡ s) ⊎ (lower_of r s ≡ r)
unfolding lower_of
lower_of-cases r s = elim (Bool-cases (is_less s r)) [
  | inl y ↦ inl (rw y refl)
  | inr n ↦ inr (rw n refl)
]

In-most_conservative :
    (r : GovernanceRule) (rs : List GovernanceRule) → In (most_conservative r rs) (r ∷ rs)
unfolding most_conservative
In-most_conservative r [] = inl refl
In-most_conservative r (s ∷ rs) = elim (In-most_conservative (lower_of r s) rs) [
  | inr m ↦ inr (inr m)
  | inl e ↦ elim (lower_of-cases r s) [ inl l ↦ inr (inl (e ∙ l)) | inr l ↦ inl (e ∙ l) ]
]

abbrev conflicting : List GovernanceRule → Bool
conflicting g = any is_boost g && any is_reduce g

-- A group without a conflict is kept whole, and otherwise one of its rules is.
resolve_group-cases :
    (g : List GovernanceRule)
    → ((resolve_group g ≡ g) × (conflicting g ≡ false))
      ⊎ ((r : GovernanceRule) × (resolve_group g ≡ r ∷ []) × In r g)
unfolding resolve_group
resolve_group-cases [] = inl (refl, refl)
resolve_group-cases (r ∷ []) = inr (r, refl, inl refl)
resolve_group-cases (r ∷ s ∷ rs) = elim (Bool-cases (conflicting (r ∷ s ∷ rs))) [
  | inl y ↦ inr (most_conservative r (s ∷ rs), rw y refl, In-most_conservative r (s ∷ rs))
  | inr n ↦ inl (rw n refl, n)
]

any_In :
    (p : GovernanceRule → Bool) (r : GovernanceRule) (rs : List GovernanceRule)
    → In r rs
    → p r ≡ true
    → any p rs ≡ true
any_In p r [] m h = elim m [ ]
any_In p r (s ∷ rs) (inl e) h = rw (sym (ap p e) ∙ h) refl
any_In p r (s ∷ rs) (inr m) h = rw (any_In p r rs m h) (ground arith)

-- The rules of a resolved group belong to it, and do not pull both ways.
In-resolve_group : (r : GovernanceRule) (g : List GovernanceRule) → In r (resolve_group g) → In r g
In-resolve_group r g m = elim (resolve_group-cases g) [
  | inl (e, c) ↦ subst (In r) e m
  | inr (s, e, i) ↦ elim (subst (In r) e m) [
    | inl q ↦ subst (λ x. In x g) (sym q) i
    | inr n ↦ elim n [ ]
  ]
]

In-resolve_groups :
    (r : GovernanceRule) (ps : List ℕ) (rules : List GovernanceRule)
    → In r (resolve_groups ps rules)
    → In r rules × In r (resolve_group (group_of r.precedence rules))
unfolding resolve_groups
In-resolve_groups r [] rules m = elim m [ ]
In-resolve_groups r (p ∷ ps) rules m =
    elim (In-append_cases r (resolve_group (group_of p rules)) (resolve_groups ps rules) m) [
      | inr i ↦ In-resolve_groups r ps rules i
      | inl i ↦
          let (k, h) =
            In-filter (λ x. x.precedence == p) r rules (In-resolve_group r (group_of p rules) i) in
          (
            k,
            subst (λ x. In r (resolve_group (group_of x rules))) (sym ((==_iff r.precedence p).0 h))
                i,
          )
    ]

not_both : (r : GovernanceRule) → (is_boost r && is_reduce r) ≡ false
not_both r = ground arith

resolve_group_calm :
    (r s : GovernanceRule) (g : List GovernanceRule)
    → In r (resolve_group g)
    → In s (resolve_group g)
    → (is_boost r && is_reduce s) ≡ false
resolve_group_calm r s g m n = elim (resolve_group-cases g) [
  | inl (e, c) ↦ elim (Bool-cases (is_boost r)) [
    | inr f ↦ rw f
    | inl b ↦ elim (Bool-cases (is_reduce s)) [
      | inr f ↦ rw (b, f)
      | inl d ↦
          let i = any_In is_boost r g (subst (In r) e m) b in
          let j = any_In is_reduce s g (subst (In s) e n) d in
          let c' : (true && true) ≡ false = rw (i, j) at c in absurd (cc)
    ]
  ]
  | inr (x, e, i) ↦ elim (subst (In r) e m) [
    | inr k ↦ elim k [ ]
    | inl p ↦ elim (subst (In s) e n) [
      | inr k ↦ elim k [ ]
      | inl q ↦ rw (ap (λ z. is_boost z) p, ap (λ z. is_reduce z) q) (not_both x)
    ]
  ]
]

In-apply_rules :
    (e : RuleEngine) (base : ℕ) (rs : List GovernanceRule) (r : GovernanceRule)
    → In r (apply_rules e base rs).applied_rules
    → In r (resolve_groups (precedences rs) rs)
unfolding apply_rules resolve_conflicts
In-apply_rules e base [] r m = elim m [ ]
In-apply_rules e base (x ∷ xs) r m =
    In-sort_rules r (resolve_groups (precedences (x ∷ xs)) (x ∷ xs)) m

module _ (zones : String → Moment) (now : Moment) (rules : List GovernanceRule)
    (top bottom base : ℕ) where
  abbrev pub applied : List GovernanceRule
  applied = (evaluate zones now (engine rules top bottom) base).applied_rules

  abbrev active : List GovernanceRule
  active = get_active_rules zones now (engine rules top bottom)

  applied_resolved :
      (r : GovernanceRule) → In r applied → In r (resolve_groups (precedences active) active)
  unfolding evaluate
  applied_resolved r m = In-apply_rules (engine rules top bottom) base active r m

  applied_given :
      (r : GovernanceRule) → In r applied → In r rules × (matches_time zones now r ≡ true)
  unfolding engine get_active_rules
  applied_given r m =
      let (i, c) = In-resolve_groups r (precedences active) active (applied_resolved r m) in
      let (j, k) = In-filter (matches_time zones now) r (sort_rules rules) i in
      (In-sort_rules r rules j, k)

  -- With limits in order the number of agents is within them, whether rules apply or none does, and
  -- each rule that the engine applies is one that it was given and that matches the moment.
  pub evaluate_applies :
      bottom ≤ top
      → ((r : GovernanceRule) → In r applied → In r rules × (matches_time zones now r ≡ true))
        × (bottom ≤ (evaluate zones now (engine rules top bottom) base).effective_agents)
        × ((evaluate zones now (engine rules top bottom) base).effective_agents ≤ top)
  unfolding evaluate engine
  evaluate_applies h =
      let (lo, hi) = apply_bounds (engine rules top bottom) base active h in (applied_given, lo, hi)

  -- Of the rules that the engine applies, no two of the same precedence pull in opposite
  -- directions.
  pub evaluate_calm :
      (r s : GovernanceRule)
      → In r applied
      → In s applied
      → r.precedence ≡ s.precedence
      → (is_boost r && is_reduce s) ≡ false
  evaluate_calm r s m n e =
      let i = In-resolve_groups r (precedences active) active (applied_resolved r m) in
      let j = In-resolve_groups s (precedences active) active (applied_resolved s n) in
      resolve_group_calm r s (group_of r.precedence active) i.1
        (subst (λ p. In s (resolve_group (group_of p active))) (sym e) j.1)
