-- ===== src/Backoff/Loop.antt =====
-- What `execute` returns, and how often it calls and sleeps.
use mathlib.Core.Path.{subst}
use swe_squad.Prelude.{
  ℕ, zero, suc, ◌+◌, ◌≤◌, ◌<◌, ◌≡◌, refl, sym, ap, ◌∙◌, inl, inr, Bool, true, false, Option, none,
  some, [], ◌∷◌, length, arith, Bool-cases, if◌then◌else◌,
}
use swe_squad.Backoff.{
  Exn, Kind, monthly, fatal, classify, Backoff, Reply, return, throw, Outcome, returned, reraised,
  monthly_limit, exhausted, Run, overflows, delay, slept, loop, execute,
}

abbrev pub is_transient_kind : Kind → Bool
is_transient_kind monthly = false
is_transient_kind fatal = false
is_transient_kind _ = true

-- A reply after which the loop goes on.
abbrev pub is_transient : {A : Type 0} → Reply A → Bool
is_transient (return a) = false
is_transient (throw e) = is_transient_kind (classify e)

-- How the loop ends on a reply that is not transient.
abbrev final_kind : {A : Type 0} → Exn → Kind → Outcome A
final_kind e monthly = monthly_limit e
final_kind e _ = reraised e

abbrev pub final_outcome : {A : Type 0} → Reply A → Outcome A
final_outcome (return a) = returned a
final_outcome (throw e) = final_kind e (classify e)

module _ {A : Type 0} (b : Backoff) (gate : ℕ → Option ℕ) (func : ℕ → Reply A)
    (jitter : ℕ → ℕ) where
  abbrev run : ℕ → ℕ → Option Exn → Run A
  run = loop b gate func jitter

  no_overflow : (k : Kind) (i : ℕ) → i < 1020 → overflows k i ≡ false
  unfolding overflows
  no_overflow k i h = ground arith

  module _ (open_gate : (i : ℕ) → gate i ≡ none) where
    gate_passed : (i : ℕ) → (if b.has_manager then gate i else none) ≡ none
    gate_passed i = elim (Bool-cases b.has_manager) [ inl y ↦ rw y (open_gate i) | inr n ↦ rw n ]

    step_sleeps :
        (left i : ℕ) (last : Option Exn) (e : Exn)
        → func i ≡ throw e
        → is_transient_kind (classify e) ≡ true
        → i < b.max_retries
        → i < 1020
        → run (suc left) i last
          ≡ slept b i (delay b (classify e) i (jitter i)) (run left (i + 1) (some e))
    unfolding loop
    step_sleeps left i last e f t h small =
        rw (gate_passed i, loop) (rw f (ground (arith, no_overflow (classify e) i small)))

    step_ends :
        (left i : ℕ) (last : Option Exn)
        → is_transient (func i) ≡ false
        → let r = run (suc left) i last in
          (r.outcome ≡ final_outcome (func i)) × (r.calls ≡ 1) × (r.sleeps ≡ [])
    unfolding loop
    step_ends left i last t = rw (gate_passed i, loop) (ground arith)

    -- The first `n` replies from `i` on are transient.
    abbrev AllTransient : ℕ → ℕ → Type 0
    AllTransient i zero = Unit
    AllTransient i (suc n) = (is_transient (func i) ≡ true) × AllTransient (i + 1) n

    AllTransient-of :
        (i n : ℕ) → ((j : ℕ) → j < i + n → is_transient (func j) ≡ true) → AllTransient i n
    AllTransient-of i zero h = tt
    AllTransient-of i (suc n) h =
        (h i (omega arith), AllTransient-of (i + 1) n (λ j lt. h j (omega arith)))

    thrown :
        (r : Reply A)
        → is_transient r ≡ true
        → (e : Exn) × (r ≡ throw e) × (is_transient_kind (classify e) ≡ true)
    thrown (return a) t = absurd (cc)
    thrown (throw e) t = (e, refl, t)

    ends_at :
        (n left i : ℕ) (last : Option Exn)
        → AllTransient i n
        → n < left
        → i + n ≤ b.max_retries
        → b.max_retries ≤ 1020
        → is_transient (func (i + n)) ≡ false
        → let r = run left i last in
          (r.outcome ≡ final_outcome (func (i + n))) × (r.calls ≡ n + 1) × (length r.sleeps ≡ n)
    ends_at n zero i last t lt h b_le f = absurd (omega arith)
    ends_at zero (suc left) i last t lt h b_le f =
        let e : i + 0 ≡ i = omega arith in
        let (o, c, s) = step_ends left i last (subst (λ x. is_transient (func x) ≡ false) e f) in
        (o ∙ ap (λ x. final_outcome (func x)) (sym e), c ∙ omega arith, ap length s)
    ends_at (suc n) (suc left) i last t lt h b_le f =
        let (e, q, k) = thrown (func i) t.0 in
        let w : i + suc n ≡ (i + 1) + n = omega arith in
        let (o, c, s) =
          ends_at n left (i + 1) (some e) t.1 (omega arith) (omega arith) b_le
            (subst (λ x. is_transient (func x) ≡ false) w f) in
        rw (step_sleeps left i last e q k (omega arith) (omega arith))
          (o ∙ ap (λ x. final_outcome (func x)) (sym w), omega arith, omega arith)

    -- The run ends with this exception as the last of its retries.
    abbrev pub Exhausts : Exn → ℕ → Run A → Type 0
    Exhausts e n r =
        (r.outcome ≡ exhausted (some e))
        × (r.calls ≡ n + 1)
        × (length r.sleeps ≡ n)
        × (r.marked ≡ (if b.has_manager then e ∷ [] else []))

  -- With the engine available and `max_retries` at most 1020, `execute` stops at the first reply that is not transient, if it
  -- comes within `max_retries` retries: it returns the value, re-raises a fatal exception or
  -- reports an exhausted quota, after one call for each reply and one sleep for each transient one.
  pub execute_stops :
      (n : ℕ)
      → ((i : ℕ) → gate i ≡ none)
      → ((i : ℕ) → i < n → is_transient (func i) ≡ true)
      → is_transient (func n) ≡ false
      → n ≤ b.max_retries
      → b.max_retries ≤ 1020
      → let r = execute b gate func jitter in
        (r.outcome ≡ final_outcome (func n)) × (r.calls ≡ n + 1) × (length r.sleeps ≡ n)
  unfolding execute
  execute_stops n g t f h b_le =
      subst
        (λ x.
          let r = run (b.max_retries + 1) 0 none in
          (r.outcome ≡ final_outcome (func x)) × (r.calls ≡ n + 1) × (length r.sleeps ≡ n))
        (zero_add n)
        (ends_at g n (b.max_retries + 1) 0 none (AllTransient-of g 0 n (λ j lt. t j (omega arith)))
          (omega arith) (omega arith) b_le
          (subst (λ x. is_transient (func x) ≡ false) (sym (zero_add n)) f))
    where
      zero_add : (m : ℕ) → 0 + m ≡ m
      zero_add m = omega arith
