-- ===== src/Throttle/Limits.antt =====
-- How far the limits of a cycle can move from the configured ones.
use native.Mathlib.Nat.{div-le_of_le-mul, le-div_iff_mul-le, mul-le-mul_left, mul-le-mul_right}
use swe_squad.Prelude.{ℕ, ◌*◌, ◌/◌, ◌≤◌, ◌<◌, max, Option, List, arith}
use swe_squad.Throttle.{
  Fraction, whole, ThrottleContext, ThrottleResult, clamp, combine, run_adapters, scale,
  CycleConfig, resolve,
}

-- The clamped multiplier has a denominator and lies between a tenth and four.
clamp_within :
    (m : Fraction)
    → (0 < (clamp m).den)
      × ((clamp m).den ≤ 10 * (clamp m).num)
      × ((clamp m).num ≤ 4 * (clamp m).den)
unfolding clamp
clamp_within m = ground arith

div_upper : (n a b : ℕ) → a ≤ 4 * b → (n * a) / b ≤ 4 * n
div_upper n a b h = div-le_of_le-mul b (omega (arith, mul-le-mul_left n h))

div_lower : (n a b : ℕ) → 0 < b → b ≤ 10 * a → n / 10 ≤ (n * a) / b
div_lower n a b z h =
    let tenth : n / 10 * 10 ≤ n = omega arith in
    (le-div_iff_mul-le z).1 (omega (arith, mul-le-mul_left (n / 10) h, mul-le-mul_right a tenth))

scale-IsWithin :
    (n : ℕ) (m : Fraction)
    → 0 < m.den
    → m.den ≤ 10 * m.num
    → m.num ≤ 4 * m.den
    → (1 ≤ scale n m) × (n / 10 ≤ scale n m) × (scale n m ≤ max 1 (4 * n))
unfolding scale
scale-IsWithin n m z lo hi =
    let u = div_upper n m.num m.den hi in
    let l = div_lower n m.num m.den z lo in (omega arith, omega arith, omega arith)

-- A limit `x` is near the configured limit `n`.
abbrev pub IsWithin : ℕ → ℕ → Type 0
IsWithin n x = (1 ≤ x) × (n / 10 ≤ x) × (x ≤ max 1 (4 * n))

-- Whatever the adapters give, each of the four limits of a cycle is at least 1 and at least a
-- tenth, rounded down, of the configured limit, and at most four times that limit, or 1 if the
-- configured limit is 0.
pub resolve-IsWithin :
    (base : CycleConfig) (adapters : List (ThrottleContext → Option ThrottleResult))
    (c : ThrottleContext)
    → let r = resolve base adapters c in
      IsWithin base.max_new_tickets_per_cycle r.max_new_tickets_per_cycle
      × IsWithin base.max_investigations_per_cycle r.max_investigations_per_cycle
      × IsWithin base.max_developments_per_cycle r.max_developments_per_cycle
      × IsWithin base.max_open_investigating r.max_open_investigating
unfolding resolve
resolve-IsWithin base adapters c =
    let m = clamp (combine (whole 1) (run_adapters c adapters)) in
    let (z, lo, hi) = clamp_within (combine (whole 1) (run_adapters c adapters)) in
    (
      scale-IsWithin base.max_new_tickets_per_cycle m z lo hi,
      scale-IsWithin base.max_investigations_per_cycle m z lo hi,
      scale-IsWithin base.max_developments_per_cycle m z lo hi,
      scale-IsWithin base.max_open_investigating m z lo hi,
    )
