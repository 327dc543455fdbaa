-- ===== src/Throttle/Severity.antt =====
-- The severity filter and the time band that a cycle gets.
use swe_squad.Prelude.{
  ℕ, ◌≤◌, max, ◌≡◌, refl, ap, ◌∙◌, true, false, Option, none, some, List, [], ◌∷◌, ◌++◌, All, ltb,
  arith, Bool-cases, inl, inr,
}
use swe_squad.Throttle.{
  frac_leb, SeverityFilter, sev_rank, TimeBand, ThrottleConfig, ThrottleContext, in_band,
  ThrottleResult, plain_result, in_force, first_band, evaluate_bands, evaluate_time,
  evaluate_capacity, evaluate_demand, CycleConfig, run_adapters, stricter, override, resolve,
}

abbrev pub override_rank : Option SeverityFilter → ℕ
override_rank none = 0
override_rank (some s) = sev_rank s

-- The highest rank that an adapter asks for.
abbrev pub highest_rank : List ThrottleResult → ℕ
highest_rank [] = 0
highest_rank (r ∷ rs) = max (override_rank r.severity_override) (highest_rank rs)

stricter_rank :
    (s : SeverityFilter) (o : Option SeverityFilter)
    → sev_rank (stricter s o) ≡ max (sev_rank s) (override_rank o)
stricter_rank s none = omega arith
stricter_rank s (some o) = elim (Bool-cases (ltb (sev_rank s) (sev_rank o))) [
  | inl y ↦ rw y (ground arith)
  | inr n ↦ rw n (ground arith)
]

override_rank_lem :
    (s : SeverityFilter) (rs : List ThrottleResult)
    → sev_rank (override s rs) ≡ max (sev_rank s) (highest_rank rs)
unfolding override
override_rank_lem s [] = omega arith
override_rank_lem s (r ∷ rs) = omega (
  arith,
  override_rank_lem (stricter s r.severity_override) rs,
  stricter_rank s r.severity_override,
)

-- The severity filter of a cycle has the higher of the rank that was configured and the ranks that
-- the adapters ask for; an adapter that fails asks for none.
pub resolve_severity :
    (base : CycleConfig) (adapters : List (ThrottleContext → Option ThrottleResult))
    (c : ThrottleContext)
    → sev_rank (resolve base adapters c).severity_filter
      ≡ max (sev_rank base.severity_filter) (highest_rank (run_adapters c adapters))
unfolding resolve
resolve_severity base adapters c = override_rank_lem base.severity_filter (run_adapters c adapters)

sev_rank-le : (s : SeverityFilter) → sev_rank s ≤ 3
sev_rank-le s = ground arith

override_rank-le : (o : Option SeverityFilter) → override_rank o ≤ 3
override_rank-le o = ground arith

capacity_rank :
    (config : ThrottleConfig) (c : ThrottleContext)
    → frac_leb config.capacity_critical_pct c.api_usage_pct ≡ true
    → override_rank (evaluate_capacity config c).severity_override ≡ 3
unfolding evaluate_capacity
capacity_rank config c h = rw h refl

-- With the three adapters of the module, a usage from the critical share on makes the filter
-- CRITICAL, whatever filter was configured and however the other two adapters decide.
pub emergency_critical :
    (base : CycleConfig) (config : ThrottleConfig) (c : ThrottleContext)
    → frac_leb config.capacity_critical_pct c.api_usage_pct ≡ true
    → sev_rank
        (resolve base
          ((λ x. some (evaluate_time config x))
            ∷ (λ x. some (evaluate_capacity config x))
            ∷ (λ x. some (evaluate_demand config x))
            ∷ [])
          c).severity_filter
      ≡ 3
unfolding run_adapters
emergency_critical base config c h =
    resolve_severity base
      ((λ x. some (evaluate_time config x))
        ∷ (λ x. some (evaluate_capacity config x))
        ∷ (λ x. some (evaluate_demand config x))
        ∷ [])
      c
    ∙ at_most_three (sev_rank-le base.severity_filter)
        (override_rank-le (evaluate_time config c).severity_override) (capacity_rank config c h)
        (override_rank-le (evaluate_demand config c).severity_override)
  where
    at_most_three :
        {a b m d : ℕ} → a ≤ 3 → b ≤ 3 → m ≡ 3 → d ≤ 3 → max a (max b (max m (max d 0))) ≡ 3
    at_most_three h k l o = omega arith

skips :
    (c : ThrottleContext) (before after : List TimeBand) (b : TimeBand)
    → All (λ x. in_force c x ≡ false) before
    → in_force c b ≡ true
    → first_band c (before ++ b ∷ after) ≡ plain_result b.multiplier (in_band b.name)
unfolding first_band
skips c [] after b n y = rw y refl
skips c (x ∷ before) after b n y = rw n.0 (skips c before after b n.1 y)

evaluate_bands_append :
    (c : ThrottleContext) (before after : List TimeBand) (b : TimeBand)
    → evaluate_bands c (before ++ b ∷ after) ≡ first_band c (before ++ b ∷ after)
unfolding evaluate_bands
evaluate_bands_append c [] after b = refl
evaluate_bands_append c (x ∷ before) after b = refl

module _ (config : ThrottleConfig) (c : ThrottleContext) (before after : List TimeBand)
    (b : TimeBand) where
  -- The first configured band in force decides, with its multiplier and without an override.
  pub first_band_decides :
      config.time_bands ≡ before ++ b ∷ after
      → All (λ x. in_force c x ≡ false) before
      → in_force c b ≡ true
      → evaluate_time config c ≡ plain_result b.multiplier (in_band b.name)
  unfolding evaluate_time
  first_band_decides e n y =
      ap (evaluate_bands c) e
      ∙ (evaluate_bands_append c before after b ∙ skips c before after b n y)
