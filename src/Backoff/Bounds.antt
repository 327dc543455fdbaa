-- ===== src/Backoff/Bounds.antt =====
-- `execute` in general: whatever the engine, the manager and the jitter do, how often it calls
-- and how long it sleeps.
use swe_squad.Prelude.{
  ℕ, zero, suc, ◌+◌, ◌≤◌, max, ◌≡◌, refl, ◌⊎◌, inl, inr, Option, none, some, length, All, arith,
}
use swe_squad.Backoff.{
  Exn, Kind, classify, Backoff, Reply, return, throw, Run, delay, give_up, loop, execute,
}

abbrev pub longest : Backoff → ℕ
longest b = max b.max_delay 300_000_000

delay-le : (b : Backoff) (k : Kind) (i j : ℕ) → delay b k i j ≤ longest b
unfolding delay
delay-le b k i j = ground arith

Reply-cases : {A : Type 0} (r : Reply A) → ((a : A) × (r ≡ return a)) ⊎ ((e : Exn) × (r ≡ throw e))
Reply-cases (return a) = inl (a, refl)
Reply-cases (throw e) = inr (e, refl)

module _ {A : Type 0} (b : Backoff) (gate : ℕ → Option ℕ) (func : ℕ → Reply A)
    (jitter : ℕ → ℕ) where
  -- With `left` rounds to go: at most that many calls, fewer sleeps, none too long, and as many
  -- records as sleeps at most.
  record Within (left i : ℕ) (r : Run A) : Type 0 where
    calls : r.calls ≤ left
    sleeps : length r.sleeps + i ≤ max i b.max_retries
    short : All (λ d. d ≤ longest b) r.sleeps

  loop-Within :
      (left i : ℕ) (last : Option Exn) → Within left i (loop b gate func jitter left i last)
  unfolding loop give_up
  loop-Within zero i last = ground arith
  loop-Within (suc left) i last = elim (Reply-cases (func i)) [
    | inl (a, p) ↦ ground arith
    | inr (e, p) ↦
        ground (arith, loop-Within left (i + 1) (some e), delay-le b (classify e) i (jitter i))
  ]

  -- `execute` always ends: after at most `max_retries` retries, with at most that many sleeps,
  -- none of them longer than the larger of `max_delay` and 300 seconds.
  pub execute_bounds :
      let r = execute b gate func jitter in
      (r.calls ≤ b.max_retries + 1)
      × (length r.sleeps ≤ b.max_retries)
      × All (λ d. d ≤ longest b) r.sleeps
  unfolding execute
  execute_bounds =
      let w = loop-Within (b.max_retries + 1) 0 none in (w.calls, omega (arith, w), w.short)
