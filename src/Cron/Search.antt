-- ===== src/Cron/Search.antt =====
-- The search for the next moment that matches.
use swe_squad.Prelude.{
  ℕ, zero, suc, ◌+◌, ◌*◌, ◌/◌, ◌≤◌, ◌<◌, ◌≡◌, refl, sym, ap, ◌∙◌, Bool, true, false, List, ◌↔◌, ◌⊎◌,
  inl, inr, ◌==◌, ==_iff, arith, Bool-cases,
}
use mathlib.Core.Path.{subst}
use swe_squad.Cron.{
  a_minute, instant, Result, ok, value_error, Moment, cron_matches, search, next_cron_match,
  Problem,
}

-- The first of the minutes from `i` to before `i + left` that matches, with none before that raises.
abbrev pub IsFirst : List ℕ → (ℕ → Moment) → ℕ → ℕ → ℕ → Type 0
IsFirst expression at i left k =
    (i ≤ k)
    × (k < i + left)
    × (cron_matches expression (at k) ≡ ok true)
    × ((j : ℕ) → i ≤ j → j < k → cron_matches expression (at j) ≡ ok false)

Result-cases :
    (r : Result Bool) → (r ≡ ok true) ⊎ ((r ≡ ok false) ⊎ ((p : Problem) × (r ≡ value_error p)))
Result-cases (ok true) = inl refl
Result-cases (ok false) = inr (inl refl)
Result-cases (value_error p) = inr (inr (p, refl))

search_sound :
    (e : List ℕ) (at : ℕ → Moment) (left i k : ℕ)
    → search e at left i ≡ ok k
    → IsFirst e at i left k
unfolding search
search_sound e at zero i k h = cc
search_sound e at (suc left) i k h = elim (Result-cases (cron_matches e (at i))) [
  | inl hit ↦
      let k_is : ok i ≡ ok k = (rw hit at h) in
      let same : i ≡ k = cc in
      subst (λ x. IsFirst e at i (suc left) x) same
        (omega arith, omega arith, hit, λ j a b. absurd (omega arith))
  | inr (inl miss) ↦
      let (a, b, c, f) = search_sound e at left (i + 1) k (rw miss at h) in
      (
        omega arith,
        omega arith,
        c,
        λ j p q. elim (Bool-cases (i == j)) [
          | inl here ↦ subst (λ x. cron_matches e (at x) ≡ ok false) ((==_iff i j).0 here) miss
          | inr there ↦ f j (ground arith) q
        ],
      )
  | inr (inr (p, bad)) ↦ let x : value_error p ≡ ok k = (rw bad at h) in cc
]

search_complete :
    (e : List ℕ) (at : ℕ → Moment) (left i k : ℕ)
    → IsFirst e at i left k
    → search e at left i ≡ ok k
unfolding search
search_complete e at zero i k h = absurd (omega arith)
search_complete e at (suc left) i k (a, b, c, f) = elim (Bool-cases (i == k)) [
  | inl here ↦
      let same : k ≡ i = sym ((==_iff i k).0 here) in
      rw same (
        rw
          (let hit : cron_matches e (at i) ≡ ok true =
              subst (λ x. cron_matches e (at x) ≡ ok true) same c in
            hit)
          refl)
  | inr there ↦
      let later : i < k = ground arith in
      rw (f i (omega arith) later) (
        search_complete e at left (i + 1) k
          (omega arith, omega arith, c, λ j p q. f j (omega arith) q))
]

-- A whole minute after `after`, by at most 48 hours, of which the expression matches the moment,
-- where it can be evaluated without error, and does not match, at each whole minute between.
abbrev pub IsNext : List ℕ → (ℕ → Moment) → (after m : ℕ) → Type 0
IsNext expression at after m =
    (after < m * a_minute)
    × (m * a_minute ≤ after + 2880 * a_minute)
    × (cron_matches expression (at m) ≡ ok true)
    × ((j : ℕ) → after < j * a_minute → j < m → cron_matches expression (at j) ≡ ok false)

search_iff :
    (expression : List ℕ) (at : ℕ → Moment) (after m : ℕ)
    → (search expression at 2880 (after / a_minute + 1) ≡ ok m) ↔ IsNext expression at after m
search_iff expression at after m = (
  λ h.
      let (a, b, c, f) = search_sound expression at 2880 (after / a_minute + 1) m h in
      (omega arith, omega arith, c, λ j p q. f j (omega arith) q),
  λ (a, b, c, f).
      search_complete expression at 2880 (after / a_minute + 1) m
        (omega arith, omega arith, c, λ j p q. f j (omega arith) q),
)

instant_iff :
    (r : Result ℕ) (t : ℕ) → (instant r ≡ ok t) ↔ ((m : ℕ) × (r ≡ ok m) × (t ≡ m * a_minute))
instant_iff (ok m) t = (
  λ h. let e : m * a_minute ≡ t = cc in (m, refl, sym e),
  λ (x, h, e). let same : m ≡ x = cc in ap ok (ap (λ y. y * a_minute) same ∙ sym e),
)
instant_iff (value_error p) t = (λ h. absurd (cc), λ (m, h, e). absurd (cc))

-- `next_cron_match` gives an instant exactly when it is the start of the first whole minute after
-- `after`, and by at most 48 hours, that matches the expression, and the expression can be evaluated
-- without error, and does not match, at each whole minute between; in every other case it raises.
pub next_cron_match-least :
    (expression : List ℕ) (at : ℕ → Moment) (after t : ℕ)
    → (next_cron_match expression at after ≡ ok t)
      ↔ ((m : ℕ) × (t ≡ m * a_minute) × IsNext expression at after m)
unfolding next_cron_match
next_cron_match-least expression at after t =
    let i = instant_iff (search expression at 2880 (after / a_minute + 1)) t in
    let s = search_iff expression at after in
    (
      λ h. let (m, found, e) = i.0 h in (m, e, (s m).0 found),
      λ (m, e, next). i.1 (m, (s m).1 next, e),
    )
