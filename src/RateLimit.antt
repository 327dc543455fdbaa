-- ===== src/RateLimit.antt =====
-- src/swe_team/rate_limiter.py: the life cycle of a rate-limited provider and the registry of
-- such cycles. Each method holds `_lock` for its body. Its readings of the clock are arguments:
-- `now` for the one that is compared or added to, `tick` for the one that `_transition` records.
-- Times count microseconds in place of floats of seconds.
pub mod Cycle
pub mod Cooldown
use swe_squad.Prelude.{
  ℕ, zero, suc, ◌+◌, ◌-◌, ◌*◌, ◌^◌, ◌≤◌, min, String, Bool, true, false, not, ◌&&◌, Option, none,
  some, List, [], ◌∷◌, ltb, leb, if◌then◌else◌, Dict, lookup, insert,
}

pub data RateLimitState : Type 0 where
  normal throttled cooldown recovering : RateLimitState

pub record Lifecycle : Type 0 where
  pub provider : String
  pub initial_cooldown : ℕ
  pub max_cooldown : ℕ
  pub recovery_successes : ℕ
  pub state : RateLimitState
  pub backoff_level : ℕ
  pub cooldown_until : ℕ
  pub consecutive_successes : ℕ
  pub last_transition : ℕ
  pub total_hits : ℕ
  pub total_warnings : ℕ

unfoldable pub new :
    (provider : String) (initial_cooldown max_cooldown recovery_successes tick : ℕ) → Lifecycle
new provider initial_cooldown max_cooldown recovery_successes tick = record {
  provider = provider;
  initial_cooldown = initial_cooldown;
  max_cooldown = max_cooldown;
  recovery_successes = recovery_successes;
  state = normal;
  backoff_level = 0;
  cooldown_until = 0;
  consecutive_successes = 0;
  last_transition = tick;
  total_hits = 0;
  total_warnings = 0;
}

unfoldable pub transition : ℕ → RateLimitState → Lifecycle → Lifecycle
transition tick new_state l = record l { state = new_state; last_transition = tick }

-- The expiry that `state` and `get_status` make on their way.
auto_expire : RateLimitState → (now tick : ℕ) → Lifecycle → Lifecycle
auto_expire cooldown now tick l =
    if leb l.cooldown_until now then transition tick recovering l else l
auto_expire _ now tick l = l

-- The property `state`.
unfoldable pub read_state : (now tick : ℕ) → Lifecycle → RateLimitState × Lifecycle
unfolding auto_expire transition
read_state now tick l = let l' = auto_expire l.state now tick l in (l'.state, l')

abbrev pub is_cooldown : RateLimitState → Bool
is_cooldown cooldown = true
is_cooldown _ = false

unfoldable pub can_proceed : (now tick : ℕ) → Lifecycle → Bool × Lifecycle
unfolding read_state
can_proceed now tick l =
    let (current, l') = read_state now tick l in (not (is_cooldown current), l')

pub record Snapshot : Type 0 where
  pub provider : String
  pub state : RateLimitState
  pub backoff_level : ℕ
  pub cooldown_remaining : ℕ
  pub cooldown_until : Option ℕ
  pub consecutive_successes : ℕ
  pub recovery_target : ℕ
  pub total_hits : ℕ
  pub total_warnings : ℕ
  pub last_transition : ℕ

-- `max(0.0, cooldown_until - now)` is the truncated difference.
unfoldable pub get_status : (now tick : ℕ) → Lifecycle → Snapshot × Lifecycle
unfolding auto_expire transition
get_status now tick l =
    let l' = auto_expire l.state now tick l in
    (
      record {
        provider = l'.provider;
        state = l'.state;
        backoff_level = l'.backoff_level;
        cooldown_remaining = if is_cooldown l'.state then l'.cooldown_until - now else 0;
        cooldown_until =
            if is_cooldown l'.state && ltb 0 l'.cooldown_until
            then some l'.cooldown_until
            else none;
        consecutive_successes = l'.consecutive_successes;
        recovery_target = l'.recovery_successes;
        total_hits = l'.total_hits;
        total_warnings = l'.total_warnings;
        last_transition = l'.last_transition;
      },
      l',
    )

after_warning : RateLimitState → ℕ → Lifecycle → Lifecycle
after_warning normal tick l = transition tick throttled l
after_warning _ tick l = l

unfoldable pub on_rate_limit_warning : (tick : ℕ) → Lifecycle → RateLimitState × Lifecycle
unfolding after_warning transition
on_rate_limit_warning tick l =
    let l' =
      after_warning l.state tick
        (record l { total_warnings = l.total_warnings + 1; consecutive_successes = 0 }) in
    (l'.state, l')

-- `initial_cooldown * 2 ** level` with a float on the left, as `initial_cooldown` is annotated and as
-- its default is: the power is converted to a float, which raises `OverflowError` from 2 ** 1024 on.
-- `none` is that exception. A caller that passes an int never gets it.
unfoldable pub calculate_cooldown : Lifecycle → Option ℕ
calculate_cooldown l =
    if leb 1024 l.backoff_level
    then none
    else some (min (l.initial_cooldown * 2 ^ l.backoff_level) l.max_cooldown)

-- `none` where the method raises; what it wrote before that stays written.
unfoldable pub on_rate_limit_hit : (now tick : ℕ) → Lifecycle → Option RateLimitState × Lifecycle
unfolding calculate_cooldown transition
on_rate_limit_hit now tick l =
    let l₁ = record l { total_hits = l.total_hits + 1; consecutive_successes = 0 } in
    elim (calculate_cooldown l₁) [
      | none ↦ (none, l₁)
      | some seconds ↦ (
        some cooldown,
        transition tick cooldown
            (record l₁ { cooldown_until = now + seconds; backoff_level = l₁.backoff_level + 1 }),
      )
    ]

count_success : ℕ → Lifecycle → Lifecycle
count_success tick l =
    let n = l.consecutive_successes + 1 in
    if leb l.recovery_successes n
    then transition tick normal (record l { backoff_level = 0; consecutive_successes = 0 })
    else record l { consecutive_successes = n }

after_success : RateLimitState → ℕ → Lifecycle → Lifecycle
after_success normal tick l = record l { backoff_level = 0 }
after_success throttled tick l = count_success tick l
after_success recovering tick l = count_success tick l
after_success cooldown tick l = l

unfoldable pub on_request_success : (tick : ℕ) → Lifecycle → RateLimitState × Lifecycle
unfolding after_success count_success transition
on_request_success tick l = let l' = after_success l.state tick l in (l'.state, l')

after_expiry : RateLimitState → ℕ → Lifecycle → Lifecycle
after_expiry cooldown tick l = transition tick recovering l
after_expiry _ tick l = l

unfoldable pub on_cooldown_expired : (tick : ℕ) → Lifecycle → RateLimitState × Lifecycle
unfolding after_expiry transition
on_cooldown_expired tick l = let l' = after_expiry l.state tick l in (l'.state, l')

-- `get_lifecycle`: the parameters count only for a provider not yet known.
unfoldable pub get_lifecycle :
    (provider : String) (initial_cooldown max_cooldown recovery_successes tick : ℕ)
    → Dict Lifecycle
    → Lifecycle × Dict Lifecycle
get_lifecycle provider initial_cooldown max_cooldown recovery_successes tick registry =
    elim (lookup provider registry) [
      | some l ↦ (l, registry)
      | none ↦
          let l = new provider initial_cooldown max_cooldown recovery_successes tick in
          (l, insert provider l registry)
    ]

-- A call, with the clock readings that it makes.
pub data Call : Type 0 where
  read_call : (now tick : ℕ) → Call
  warning_call : (tick : ℕ) → Call
  hit_call : (now tick : ℕ) → Call
  success_call : (tick : ℕ) → Call
  expired_call : (tick : ℕ) → Call

unfoldable pub perform : Call → Lifecycle → Lifecycle
unfolding read_state on_rate_limit_warning on_rate_limit_hit on_request_success on_cooldown_expired
perform (read_call now tick) l = (read_state now tick l).1
perform (warning_call tick) l = (on_rate_limit_warning tick l).1
perform (hit_call now tick) l = (on_rate_limit_hit now tick l).1
perform (success_call tick) l = (on_request_success tick l).1
perform (expired_call tick) l = (on_cooldown_expired tick l).1

unfoldable pub perform_all : List Call → Lifecycle → Lifecycle
perform_all [] l = l
perform_all (c ∷ cs) l = perform_all cs (perform c l)
