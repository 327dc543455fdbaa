-- ===== src/Tests/Breakers.antt =====
-- A breaker for the last five results, of which four fifths may not fail.
use swe_squad.Prelude.{◌≡◌, refl, true, false, none, some, List, [], ◌∷◌, arith}
use swe_squad.Breaker.{
  CircuitBreaker, latest, Event, perform, record_result, record_skip, clear_pause, reload, push,
  over_threshold,
}
use swe_squad.Breaker.Window.{recorded, perform_all, perform_all-results}

abbrev breaker : CircuitBreaker
breaker = record {
  window_size = 5;
  threshold_num = 4;
  threshold_den = 5;
  pause_duration = 30;
  results = [];
  paused_until = none;
}

abbrev failing : List Event
failing =
    Event.result 1 true
    ∷ Event.result 2 false
    ∷ Event.result 3 false
    ∷ Event.skip
    ∷ Event.result 4 false
    ∷ Event.restart
    ∷ Event.result 5 false
    ∷ []

trips_at_five : (perform_all failing breaker).paused_until ≡ some 35
unfolding perform_all perform record_result record_skip clear_pause reload push over_threshold
trips_at_five = refl

perform_all-results_example : (perform_all failing breaker).results ≡ latest 5 (recorded failing)
perform_all-results_example = perform_all-results failing breaker (omega arith) refl
