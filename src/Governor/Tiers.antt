-- ===== src/Governor/Tiers.antt =====
-- Which tier holds for the quota that is left.
use swe_squad.Prelude.{
  In-sort_on, IsBelow, IsAscending, sort_on-IsAscending, ℕ, ◌*◌, ◌≤◌, ◌<◌, ◌≡◌, refl, sym, ap, inl,
  inr, List, [], ◌∷◌, In, leb, arith, Bool-cases,
}
use mathlib.Core.Path.{subst}
use swe_squad.Governor.{Tier, threshold, sort_tiers, match_tier, first_tier, get_tier}

-- The tier that holds: of the tiers of the list whose threshold is reached, one with the greatest;
-- if none is reached, one of the list with the least.
pub record IsMatched (pct : ℕ) (tiers : List Tier) (t : Tier) : Type 0 where
  pub member : In t tiers
  pub reached :
      (u : Tier)
      → In u tiers
      → threshold u * 100 ≤ pct
      → (threshold t * 100 ≤ pct) × (threshold u ≤ threshold t)
  pub least : pct < threshold t * 100 → (u : Tier) → In u tiers → threshold t ≤ threshold u

-- The loop from a tier `m` that is not above those to come.
match_lem :
    (pct : ℕ) (m : Tier) (ts : List Tier)
    → IsBelow threshold m ts
    → IsAscending threshold ts
    → IsMatched pct (m ∷ ts) (match_tier pct m ts)
unfolding match_tier
match_lem pct m [] above asc = record {
  member = inl refl;
  reached = λ u k h. elim k [ inl e ↦ ground (arith, ap threshold e) | inr k' ↦ elim k' [ ] ];
  least = λ h u k. elim k [ inl e ↦ ground (arith, ap threshold e) | inr k' ↦ elim k' [ ] ];
}
match_lem pct m (t ∷ ts) above asc = elim (Bool-cases (leb (threshold t * 100) pct)) [
  | inl y ↦
      let i = match_lem pct t ts (asc.0) (asc.1) in
      let at_t = i.reached t (inl refl) (ground arith) in
      rw y record {
        member = inr i.member;
        reached = λ u k h. elim k [
          | inl e ↦ (at_t.0, ground (arith, above t (inl refl), ap threshold e))
          | inr l ↦ i.reached u l h
        ];
        least = λ h u k. ground arith;
      }
  | inr n ↦
      let i = match_lem pct m ts (λ u k. above u (inr k)) (asc.1) in
      rw n record {
        member = elim i.member [ inl e ↦ inl e | inr k ↦ inr (inr k) ];
        reached = λ u k h. elim k [
          | inl e ↦ i.reached u (inl e) h
          | inr l ↦ elim l [
            | inl e ↦ ground (arith, ap threshold e)
            | inr o ↦ i.reached u (inr o) h
          ]
        ];
        least = λ h u k. elim k [
          | inl e ↦ i.least h u (inl e)
          | inr l ↦ elim l [
            | inl e ↦ ground (arith, ap threshold e, i.least h m (inl refl), above t (inl refl))
            | inr o ↦ i.least h u (inr o)
          ]
        ];
      }
]

get_tier_lem :
    (tiers : List Tier) (pct : ℕ) (sorted : List Tier) (t : Tier)
    → sort_tiers tiers ≡ sorted
    → In t sorted
    → IsMatched pct tiers (match_tier pct (first_tier sorted) sorted)
unfolding first_tier
get_tier_lem tiers pct [] t same here = elim here [ ]
get_tier_lem tiers pct (s ∷ ss) t same here =
    let asc : IsAscending threshold (s ∷ ss) =
      subst (IsAscending threshold) same (sort_on-IsAscending threshold tiers) in
    let above : IsBelow threshold s (s ∷ ss) =
      λ u k. elim k [ inl e ↦ ground (arith, ap threshold e) | inr l ↦ asc.0 u l ] in
    let i = match_lem pct s (s ∷ ss) above asc in
    let back : (u : Tier) → In u (s ∷ s ∷ ss) → In u tiers = λ u k.
      (In-sort_on threshold u tiers).0
        (subst (λ l. In u l) (sym same) (elim k [ inl e ↦ inl e | inr l ↦ l ])) in
    let forth : (u : Tier) → In u tiers → In u (s ∷ s ∷ ss) =
      λ u k. inr (subst (λ l. In u l) same ((In-sort_on threshold u tiers).1 k)) in
    record {
      member = back _ i.member;
      reached = λ u k h. i.reached u (forth u k) h;
      least = λ h u k. i.least h u (forth u k);
    }

-- The tier found is a tier of the list. If the quota left reaches some threshold, it is one with
-- the greatest threshold that is reached, and else one with the least threshold of the list.
pub get_tier-IsMatched :
    (tiers : List Tier) (pct : ℕ) (t : Tier) → In t tiers → IsMatched pct tiers (get_tier tiers pct)
unfolding get_tier first_tier
get_tier-IsMatched tiers pct t here =
    get_tier_lem tiers pct (sort_tiers tiers) t refl ((In-sort_on threshold t tiers).1 here)
