-- ===== src/Tests/Limits.antt =====
-- A provider in cooldown, one in recovery, and an engine that answers at the third call.
use swe_squad.Prelude.{
  ℕ, suc, zero, ◌+◌, ◌^◌, ◌≤◌, ◌<◌, ◌≡◌, refl, true, false, none, some, List, [], ◌∷◌, All, length,
  arith, ltb, if◌then◌else◌, lower, contains_any, contains, is_prefix,
}
use swe_squad.RateLimit.{
  RateLimitState, normal, cooldown, recovering, Lifecycle, can_proceed, Call, read_call,
  warning_call, hit_call, success_call, perform, perform_all, on_rate_limit_hit, get_status,
  get_lifecycle,
}
use swe_squad.RateLimit as RateLimit
use swe_squad.RateLimit.Cycle.{Inv, perform_all-Inv}
use swe_squad.RateLimit.Cooldown.{hits, cooldown_holds, hits_overflow}
use swe_squad.Backoff.{
  Exn, classify, is_monthly_exhaustion, is_rate_limit_error, is_overloaded_error, is_down_error,
  is_server_error, Backoff, Reply, return, throw, execute,
}
use swe_squad.Backoff.Loop.{is_transient, is_transient_kind}
use swe_squad.Backoff.Bounds.{longest, execute_bounds}

abbrev cooling : Lifecycle
cooling = record {
  provider = "zai";
  initial_cooldown = 60_000_000;
  max_cooldown = 600_000_000;
  recovery_successes = 3;
  state = cooldown;
  backoff_level = 1;
  cooldown_until = 160_000_000;
  consecutive_successes = 0;
  last_transition = 100_000_000;
  total_hits = 1;
  total_warnings = 0;
}

abbrev healing : Lifecycle
healing = record cooling { state = recovering }

abbrev day : List Call
day = warning_call 5 ∷ hit_call 10 11 ∷ read_call 60_000_020 60_000_021 ∷ success_call 30 ∷ []

perform_all-Inv_example : Inv (perform_all day (RateLimit.new "zai" 60_000_000 600_000_000 3 0))
perform_all-Inv_example = perform_all-Inv day "zai" 60_000_000 600_000_000 3 0

abbrev meanwhile : List Call
meanwhile =
    warning_call 110_000_000 ∷ success_call 120_000_000 ∷ read_call 130_000_000 130_000_001 ∷ []

cooldown_holds_example :
    (can_proceed 159_000_000 159_000_001 (perform_all meanwhile cooling)).0 ≡ false
cooldown_holds_example =
    cooldown_holds meanwhile cooling 159_000_000 159_000_001 160_000_000 refl refl
      (tt, (tt, (omega arith, tt))) (omega arith)

abbrev twice : List (ℕ × ℕ) → List (ℕ × ℕ)
twice [] = []
twice (t ∷ ts) = t ∷ t ∷ twice ts

abbrev doubled : ℕ → List (ℕ × ℕ)
doubled zero = (0, 0) ∷ []
doubled (suc n) = twice (doubled n)

length-twice : (ts : List (ℕ × ℕ)) → length (twice ts) ≡ length ts + length ts
length-twice [] = refl
length-twice (t ∷ ts) = omega (arith, length-twice ts)

length-doubled : (n : ℕ) → length (doubled n) ≡ 2 ^ n
length-doubled zero = refl
length-doubled (suc n) = omega (arith, length-twice (doubled n), length-doubled n)

hits_overflow_example :
    let l' = perform_all (hits (doubled 10)) (RateLimit.new "zai" 60_000_000 600_000_000 3 0) in
    ((on_rate_limit_hit 9 10 l').0 ≡ none)
    × ((on_rate_limit_hit 9 10 l').1.cooldown_until ≡ l'.cooldown_until)
unfolding RateLimit.new
hits_overflow_example =
    hits_overflow (doubled 10) 9 10 (RateLimit.new "zai" 60_000_000 600_000_000 3 0) refl
      (length-doubled 10)

abbrev engine : Backoff
engine = record {
  max_retries = 2;
  initial_delay = 2_000_000;
  max_delay = 300_000_000;
  has_tracker = true;
  has_manager = false;
}

-- The text "429".
abbrev too_many : Exn
too_many = record { caught = true; message = 52 ∷ 50 ∷ 57 ∷ [] }

abbrev busy : ℕ → Reply ℕ
busy i = if ltb i 2 then throw too_many else return 7

abbrev always_busy : ℕ → Reply ℕ
always_busy i = throw too_many

too_many_transient : is_transient_kind (classify too_many) ≡ true
unfolding classify is_monthly_exhaustion is_rate_limit_error is_overloaded_error is_down_error
    is_server_error contains_any contains is_prefix lower
too_many_transient = refl

busy_transient : (i : ℕ) → i < 2 → is_transient (busy i) ≡ true
busy_transient i h = let lt : ltb i 2 ≡ true = ground arith in rw lt too_many_transient

execute_bounds_example :
    let r = execute engine (λ i. some 5) busy (λ i. i) in
    (r.calls ≤ engine.max_retries + 1)
    × (length r.sleeps ≤ engine.max_retries)
    × All (λ d. d ≤ longest engine) r.sleeps
execute_bounds_example = execute_bounds engine (λ i. some 5) busy (λ i. i)
