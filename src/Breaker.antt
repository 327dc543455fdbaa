-- ===== src/Breaker.antt =====
-- The circuit breaker of src/swe_team/circuit_breaker.py. A breaker and the file that keeps its
-- results and its pause are one state; a restart reads the file. The failure threshold is a
-- fraction, and the clock is an argument.
pub mod Window
use swe_squad.Prelude.{
  ℕ, zero, suc, ◌+◌, ◌-◌, ◌*◌, Bool, true, false, ◌&&◌, not, Option, none, some, List, [], ◌∷◌,
  ◌++◌, length, count_if, drop, leb, ltb, ◌==◌, if◌then◌else◌,
}

pub record CircuitBreaker : Type 0 where
  pub window_size : ℕ
  pub threshold_num : ℕ
  pub threshold_den : ℕ
  pub pause_duration : ℕ
  pub results : List Bool
  pub paused_until : Option ℕ

-- `results[-window_size:]`, which is the whole list for 0.
abbrev pub latest : ℕ → List Bool → List Bool
latest n bs = if n == 0 then bs else drop (length bs - n) bs

-- A breaker that is made anew from the file.
unfoldable pub reload : CircuitBreaker → CircuitBreaker
reload c = record c { results = latest c.window_size c.results }

abbrev pub failures : List Bool → ℕ
failures = count_if not

-- `failure_rate >= threshold`, with a rate of 0 for no results.
unfoldable pub over_threshold : CircuitBreaker → Bool
over_threshold c =
    if length c.results == 0
    then c.threshold_num == 0
    else leb (c.threshold_num * length c.results) (failures c.results * c.threshold_den)

unfoldable pub is_paused : ℕ → CircuitBreaker → Bool
is_paused now c = elim c.paused_until [ none ↦ false | some t ↦ ltb now t ]

unfoldable pub push : Bool → CircuitBreaker → CircuitBreaker
push success c =
    let results = c.results ++ success ∷ [] in
    record c { results = if ltb c.window_size (length results) then drop 1 results else results }

unfoldable pub record_result : ℕ → Bool → CircuitBreaker → CircuitBreaker
record_result now success c =
    let d = push success c in
    if leb 5 (length d.results) && over_threshold d
    then record d { paused_until = some (now + d.pause_duration) }
    else d

unfoldable pub record_skip : CircuitBreaker → CircuitBreaker
record_skip c = c

unfoldable pub clear_pause : CircuitBreaker → CircuitBreaker
clear_pause c = record c { paused_until = none }

pub data Event : Type 0 where
  result : ℕ → Bool → Event
  skip clear restart : Event

unfoldable pub perform : Event → CircuitBreaker → CircuitBreaker
perform (Event.result now b) c = record_result now b c
perform Event.skip c = record_skip c
perform Event.clear c = clear_pause c
perform Event.restart c = reload c
