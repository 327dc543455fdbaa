-- ===== src/RateLimit/Cycle.antt =====
-- The state machine of the docstring: its edges, its invariant and recovery.
use swe_squad.Prelude.{
  ℕ, ◌+◌, ◌≤◌, ◌<◌, max, String, ◌≡◌, refl, ◌⊎◌, Bool, true, false, List, [], ◌∷◌, ◌∙◌, length,
  arith,
}
use swe_squad.RateLimit.{
  RateLimitState, normal, throttled, cooldown, recovering, Lifecycle, new, Call, success_call,
  perform, perform_all,
}

-- The transitions that the docstring of `RateLimitState` draws.
infix 40 ◌⟶◌
pub data ◌⟶◌ : RateLimitState → RateLimitState → Type 0 where
  warn : normal ⟶ throttled
  hit_normal : normal ⟶ cooldown
  hit_throttled : throttled ⟶ cooldown
  calm : throttled ⟶ normal
  expire : cooldown ⟶ recovering
  recover : recovering ⟶ normal
  hit_recovering : recovering ⟶ cooldown

ruleset edges = (warn, hit_normal, hit_throttled, calm, expire, recover, hit_recovering)

-- Every call leaves the state as it is or follows one edge of the diagram.
pub perform_edge :
    (c : Call) (l : Lifecycle) → ((perform c l).state ≡ l.state) ⊎ (l.state ⟶ (perform c l).state)
unfolding perform
perform_edge c l = grind (arith, edges)

abbrev is_backed_off : RateLimitState → Bool
is_backed_off cooldown = true
is_backed_off recovering = true
is_backed_off _ = false

-- The back-off level is positive exactly in COOLDOWN and RECOVERING, no more hits are in it than
-- were counted, and successes are counted below the target.
pub record Inv (l : Lifecycle) : Type 0 where
  pub level_zero : is_backed_off l.state ≡ false → l.backoff_level ≡ 0
  pub level_pos : is_backed_off l.state ≡ true → 1 ≤ l.backoff_level
  pub level_counted : l.backoff_level ≤ l.total_hits
  pub level_capped : l.backoff_level ≤ 1024
  pub below_target : l.consecutive_successes < max 1 l.recovery_successes

perform-Inv : (c : Call) (l : Lifecycle) → Inv l → Inv (perform c l)
unfolding perform
perform-Inv c l v = ground arith

Inv-from : (cs : List Call) (l : Lifecycle) → Inv l → Inv (perform_all cs l)
unfolding perform_all
Inv-from [] l v = v
Inv-from (c ∷ cs) l v = Inv-from cs (perform c l) (perform-Inv c l v)

-- A new life cycle satisfies the invariant after any calls: the back-off level is positive exactly
-- in COOLDOWN and RECOVERING, is at most the number of hits and at most 1024, and the successes
-- counted stay below the target.
pub perform_all-Inv :
    (cs : List Call) (provider : String) (initial top target tick : ℕ)
    → Inv (perform_all cs (new provider initial top target tick))
unfolding new
perform_all-Inv cs provider initial top target tick =
    Inv-from cs (new provider initial top target tick) (ground arith)

abbrev pub successes : List ℕ → List Call
successes [] = []
successes (tick ∷ ticks) = success_call tick ∷ successes ticks

abbrev pub counts_successes : RateLimitState → Bool
counts_successes throttled = true
counts_successes recovering = true
counts_successes _ = false

success_counts :
    (tick : ℕ) (l : Lifecycle)
    → counts_successes l.state ≡ true
    → l.consecutive_successes + 1 < l.recovery_successes
    → let l' = perform (success_call tick) l in
      (l'.state ≡ l.state)
      × (l'.consecutive_successes ≡ l.consecutive_successes + 1)
      × (l'.recovery_successes ≡ l.recovery_successes)
unfolding perform
success_counts tick l s h = ground arith

success_recovers :
    (tick : ℕ) (l : Lifecycle)
    → counts_successes l.state ≡ true
    → l.recovery_successes ≤ l.consecutive_successes + 1
    → let l' = perform (success_call tick) l in
      (l'.state ≡ normal) × (l'.backoff_level ≡ 0) × (l'.consecutive_successes ≡ 0)
unfolding perform
success_recovers tick l s h = ground arith

-- In THROTTLED and RECOVERING, successes in a row, as many as the target still wants, lead back
-- to NORMAL with the back-off level reset, and one fewer does not.
pub successes_recover :
    (ticks : List ℕ) (tick : ℕ) (l : Lifecycle)
    → counts_successes l.state ≡ true
    → l.consecutive_successes + length ticks + 1 ≡ l.recovery_successes
    → let before = perform_all (successes ticks) l in
      let after = perform (success_call tick) before in
      (before.state ≡ l.state) × (after.state ≡ normal) × (after.backoff_level ≡ 0)
unfolding perform_all
successes_recover [] tick l s h =
    let (n, z, c) = success_recovers tick l s (omega arith) in (refl, n, z)
successes_recover (t ∷ ticks) tick l s h =
    let (same, more, target) = success_counts t l s (omega arith) in
    let l' = perform (success_call t) l in
    let (b, n, z) = successes_recover ticks tick l' (rw same s) (omega arith) in (b ∙ same, n, z)
