-- ===== src/Backoff.antt =====
-- `ExponentialBackoff` of src/swe_team/rate_limiter.py. The callable, the random jitter and the
-- answers of the cooldown manager are arguments, given for each attempt; what `execute` does to
-- the world (sleeps, records of the tracker, `mark_failure`) is collected beside its outcome.
-- Durations count microseconds. Texts are lists of code points.
pub mod Classify
pub mod Bounds
pub mod Loop
use swe_squad.Prelude.{
  ℕ, zero, suc, ◌+◌, ◌*◌, ◌^◌, min, max, String, Bool, true, false, ◌&&◌, ◌||◌, Option, none, some,
  List, [], ◌∷◌, leb, if◌then◌else◌, lower, contains_any,
}

-- An exception: whether it is a `RuntimeError` or an `OSError`, and its text.
pub record Exn : Type 0 where
  pub caught : Bool
  pub message : List ℕ

unfoldable pub is_monthly_exhaustion : Exn → Bool
is_monthly_exhaustion e =
    contains_any
      ("Monthly Limit Exhausted" ∷ "Weekly Limit Exhausted" ∷ "Weekly/Monthly Limit Exhausted"
        ∷ "quota exceeded" ∷ "billing" ∷ "\"code\":\"1310\"" ∷ [])
      e.message

unfoldable pub is_rate_limit_error : Exn → Bool
is_rate_limit_error e = contains_any ("rate limit" ∷ "429" ∷ []) (lower e.message)

unfoldable pub is_overloaded_error : Exn → Bool
is_overloaded_error e = contains_any ("overloaded" ∷ "529" ∷ []) (lower e.message)

unfoldable pub is_server_error : Exn → Bool
is_server_error e =
    contains_any ("500" ∷ "server error" ∷ "internal server error" ∷ []) (lower e.message)

unfoldable pub is_down_error : Exn → Bool
is_down_error e =
    contains_any
      ("connection refused" ∷ "timed out" ∷ "timeout" ∷ "temporary failure in name resolution"
        ∷ "network is unreachable" ∷ "connection reset" ∷ "max retries exceeded"
        ∷ "service unavailable" ∷ [])
      (lower e.message)

-- The branch of the `except` clause that an exception takes.
pub data Kind : Type 0 where
  monthly limited down server fatal : Kind

unfoldable pub classify : Exn → Kind
classify e =
    if e.caught
    then (if is_monthly_exhaustion e
        then monthly
        else if is_rate_limit_error e || is_overloaded_error e
        then limited
        else if is_down_error e
        then down
        else if is_server_error e
        then server
        else fatal)
    else fatal

pub record Backoff : Type 0 where
  pub max_retries : ℕ
  pub initial_delay : ℕ
  pub max_delay : ℕ
  pub has_tracker : Bool
  pub has_manager : Bool  -- both `cooldown_manager` and `engine_name` are set

-- What a call of the function gives.
pub data Reply (A : Type 0) : Type 0 where
  return : A → Reply A
  throw : Exn → Reply A

pub data Outcome (A : Type 0) : Type 0 where
  returned : A → Outcome A
  reraised : Exn → Outcome A
  in_cooldown : ℕ → Outcome A
  monthly_limit : Exn → Outcome A
  exhausted : Option Exn → Outcome A
  overflowed : Outcome A

-- The outcome of `execute`, with the calls made, the sleeps, the tracker's records of attempt and
-- delay, and the exceptions handed to `mark_failure`.
pub record Run (A : Type 0) : Type 0 where
  pub outcome : Outcome A
  pub calls : ℕ
  pub sleeps : List ℕ
  pub records : List (ℕ × ℕ)
  pub marked : List Exn

-- The first delay and the cap of a branch that sleeps.
abbrev pub base_delay : Backoff → Kind → ℕ
base_delay b down = 30_000_000
base_delay b server = 15_000_000
base_delay b _ = b.initial_delay

abbrev pub delay_cap : Backoff → Kind → ℕ
delay_cap b down = 300_000_000
delay_cap b server = 120_000_000
delay_cap b _ = b.max_delay

-- Whether the delay after this attempt raises `OverflowError`: `2 ** attempt` is converted to a float
-- where `initial_delay` is one, as annotated, and the products of 30 and 15 where they are
-- multiplied by 0.2.
unfoldable pub overflows : Kind → ℕ → Bool
overflows down attempt = leb 1020 attempt
overflows server attempt = leb 1021 attempt
overflows _ attempt = leb 1024 attempt

-- The delay where it does not overflow.
unfoldable pub delay : Backoff → Kind → ℕ → ℕ → ℕ
delay b k attempt jitter = min (base_delay b k * 2 ^ attempt + jitter) (delay_cap b k)

module _ {A : Type 0} where
  abbrev pub stop : ℕ → List Exn → Outcome A → Run A
  stop calls marked o = record {
    outcome = o;
    calls = calls;
    sleeps = [];
    records = [];
    marked = marked;
  }

  -- The lines behind the loop.
  unfoldable pub give_up : Backoff → Option Exn → Run A
  give_up b none = stop 0 [] (exhausted none)
  give_up b (some e) = stop 0 (if b.has_manager then e ∷ [] else []) (exhausted (some e))

  -- One call made, a record, a sleep, and then the rest.
  abbrev pub slept : Backoff → ℕ → ℕ → Run A → Run A
  slept b attempt d r = record r {
    calls = r.calls + 1;
    sleeps = d ∷ r.sleeps;
    records = if b.has_tracker then (attempt + 1, d) ∷ r.records else r.records;
  }

  abbrev pub one_call : Run A → Run A
  one_call r = record r { calls = r.calls + 1 }

  -- The `for` loop, with `left` rounds to go from `attempt` on; `last` is `last_exc`.
  unfoldable pub loop :
      Backoff
      → (gate : ℕ → Option ℕ) (func : ℕ → Reply A) (jitter : ℕ → ℕ)
      → (left attempt : ℕ) (last : Option Exn) → Run A
  loop b gate func jitter zero attempt last = give_up b last
  loop b gate func jitter (suc left) attempt last =
      elim (if b.has_manager then gate attempt else none) [
        | some remaining ↦ stop 0 [] (in_cooldown (max 1_000_000 remaining))
        | none ↦ elim (func attempt) [
          | return a ↦ stop 1 [] (returned a)
          | throw e ↦ elim (classify e) [
            | fatal ↦ stop 1 [] (reraised e)
            | monthly ↦ stop 1 (if b.has_manager then e ∷ [] else []) (monthly_limit e)
            | k ↦ elim (leb b.max_retries attempt) [
              | true ↦ one_call (give_up b (some e))
              | false ↦ elim (overflows k attempt) [
                | true ↦ stop 1 [] overflowed
                | false ↦
                    slept b attempt (delay b k attempt (jitter attempt))
                      (loop b gate func jitter left (attempt + 1) (some e))
              ]
            ]
          ]
        ]
      ]

  unfoldable pub execute :
      Backoff → (gate : ℕ → Option ℕ) (func : ℕ → Reply A) (jitter : ℕ → ℕ) → Run A
  unfolding loop
  execute b gate func jitter = loop b gate func jitter (b.max_retries + 1) 0 none
