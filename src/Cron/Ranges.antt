-- ===== src/Cron/Ranges.antt =====
-- What `range` and the sets built from it hold.
use swe_squad.Prelude.{
  ℕ, zero, suc, ◌+◌, ◌-◌, ◌%◌, ◌≤◌, ◌<◌, ◌≡◌, sym, true, ◌&&◌, inl, inr, ltb, leb, ◌==◌,
  if◌then◌else◌, arith, Bool-cases, ltb→lt,
}
use swe_squad.Cron.{range_by, range, member}
use native.Mathlib.Nat.{mod-eq_of_lt, mod-eq-sub-mod, mod-one}

pub mod_step : (a v s : ℕ) → a + s ≤ v → ((v - (a + s)) % s) ≡ ((v - a) % s)
mod_step a v s h =
    let e : v - (a + s) ≡ v - a - s = omega arith in
    rw e (sym (mod-eq-sub-mod {n = v - a} {m = s} (omega arith)))

pub hit_split :
    (start stop step v : ℕ)
    → 0 < step
    → start < stop
    → (if start == v
        then true
        else (leb (start + step) v && ltb v stop) && (((v - (start + step)) % step) == 0))
      ≡ ((leb start v && ltb v stop) && (((v - start) % step) == 0))
hit_split start stop step v p h =
    ground (arith, mod_step start v step, mod-eq_of_lt {n = v - start} {m = step})

-- What `range` holds.
pub member-range_by :
    (n start stop step v : ℕ)
    → 0 < step
    → stop ≤ start + n
    → member v (range_by n start stop step)
      ≡ ((leb start v && ltb v stop) && (((v - start) % step) == 0))
unfolding range_by
member-range_by zero start stop step v p h = ground arith
member-range_by (suc n) start stop step v p h = elim (Bool-cases (ltb start stop)) [
  | inl in_range ↦ rw in_range (
      rw (member-range_by n (start + step) stop step v p (omega arith))
        (hit_split start stop step v p (ltb→lt start stop in_range)))
  | inr out ↦ rw out (ground arith)
]

pub member-range : (low high v : ℕ) → member v (range low (high + 1)) ≡ (leb low v && leb v high)
member-range low high v =
    rw (member-range_by (high + 1 - low) low (high + 1) 1 v (omega arith) (omega arith))
      (ground (arith, mod-one (v - low)))
