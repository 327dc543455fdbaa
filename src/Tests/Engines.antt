-- ===== src/Tests/Engines.antt =====
-- The cooldown of engines over a store that is a dictionary of rows.
use swe_squad.Prelude.{
  ℕ, ◌-◌, max, ◌≡◌, refl, true, false, Option, none, some, List, [], ◌∷◌, Dict, lookup, insert,
  lookup-insert_self, lower, contains_any, contains, is_prefix,
}
use swe_squad.Backoff.{
  Exn, is_monthly_exhaustion, is_down_error, Backoff, Reply, return, in_cooldown, execute,
}
use swe_squad.Engine.{
  rate_limited, EngineRow, CooldownStore, Attempt, answered, get_status, should_use_engine,
  failure_status,
}
use swe_squad.Engine.Refusal.{IsFaithful, failure_end, failed, gate_of, execute_pauses}
use swe_squad.Engine.Probing.{probe_recovers}

abbrev store : CooldownStore (Dict EngineRow)
store = record {
  available = true;
  get_engine_cooldown = lookup;
  upsert_engine_cooldown = λ row s. insert row.engine_name row s;
}

store-IsFaithful : IsFaithful store
store-IsFaithful row s = lookup-insert_self row.engine_name row s

abbrev never_reset : List ℕ → Option ℕ
never_reset message = none

-- The text "429".
abbrev error_429 : Exn
error_429 = record { caught = true; message = 52 ∷ 50 ∷ 57 ∷ [] }

abbrev unprobed_attempt : Attempt
unprobed_attempt = record { now = 0; updated = 0; probe = none }

abbrev failed_glm : Dict EngineRow
failed_glm = failed store "team" "glm" never_reset 1_000_000 1_000_001 error_429 "gpt" []

end_429 : failure_end never_reset 1_000_000 error_429 ≡ 601_000_000
unfolding failure_status is_monthly_exhaustion is_down_error contains_any contains is_prefix lower
end_429 = refl

abbrev eager : Backoff
eager = record {
  max_retries = 3;
  initial_delay = 2_000_000;
  max_delay = 300_000_000;
  has_tracker = false;
  has_manager = true;
}

abbrev ready : ℕ → Reply ℕ
ready i = return i

execute_pauses_example :
    let r =
      execute eager
        (λ i.
          gate_of store "team" "glm" never_reset 1_000_000 1_000_001 error_429 "gpt" [] 900_000_000
            unprobed_attempt unprobed_attempt)
        ready
        (λ i. 0) in
    (r.outcome
      ≡ in_cooldown (max 1_000_000 (failure_end never_reset 1_000_000 error_429 - 900_000_000)))
    × (r.calls ≡ 0)
    × (r.sleeps ≡ [])
execute_pauses_example =
    execute_pauses store "team" "glm" never_reset 1_000_000 1_000_001 error_429 "gpt" [] refl refl
      store-IsFaithful eager ready (λ i. 0) 900_000_000 unprobed_attempt unprobed_attempt refl refl
      refl

abbrev limited_row : EngineRow
limited_row = record {
  team_id = "team";
  engine_name = "glm";
  status = rate_limited;
  cooldown_until = some 600_000_000;
  reset_at = none;
  next_probe_at = some 120_000_000;
  last_error = [];
  fallback_engine = "gpt";
  updated_at = 0;
}

abbrev one_engine : Dict EngineRow
one_engine = ("glm", limited_row) ∷ []

one_stored : get_status store "team" "glm" one_engine ≡ some limited_row
unfolding get_status lookup
one_stored = refl

abbrev good_probe : Attempt
good_probe = record { now = 700_000_001; updated = 700_000_002; probe = some (answered true) }

abbrev bad_probe : Attempt
bad_probe = record { now = 700_000_001; updated = 700_000_002; probe = some (answered false) }

probe_recovers_example :
    let (answer, s') =
      should_use_engine store "team" 700_000_000 good_probe unprobed_attempt "glm" one_engine in
    (answer ≡ true)
    × (should_use_engine store "team" 800_000_000 bad_probe unprobed_attempt "glm" s' ≡ (true, s'))
probe_recovers_example =
    probe_recovers store "team" "glm" refl refl store-IsFaithful 700_000_000 good_probe
      unprobed_attempt (answered true) one_engine limited_row one_stored refl refl refl refl
      800_000_000 bad_probe unprobed_attempt refl
