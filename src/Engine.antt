-- ===== src/Engine.antt =====
-- `EngineCooldownManager` of src/swe_team/rate_limiter.py: the cooldown of an engine as a row of a
-- remote store. The store is a parameter, given by what the manager asks of it; a read that
-- raises or finds nothing gives `none`. Datetimes are microseconds, and the search for the text
-- "reset at …" in a message is the parameter `parse_reset`.
pub mod Refusal
pub mod Probing
use swe_squad.Prelude.{
  ℕ, ◌+◌, ◌-◌, ◌*◌, String, Bool, true, false, ◌&&◌, not, Option, none, some, List, [], ◌∷◌, take,
  leb, ltb, str_eq, codes, if◌then◌else◌,
}
use swe_squad.Backoff.{Exn, is_monthly_exhaustion, is_down_error}

-- The values of the column `status`: `absent` stands for a missing or empty one.
pub data EngineStatus : Type 0 where
  healthy rate_limited monthly_exhausted down recovering absent : EngineStatus
  other : String → EngineStatus

pub record EngineRow : Type 0 where
  pub team_id : String
  pub engine_name : String
  pub status : EngineStatus
  pub cooldown_until : Option ℕ
  pub reset_at : Option ℕ
  pub next_probe_at : Option ℕ
  pub last_error : List ℕ
  pub fallback_engine : String
  pub updated_at : ℕ

-- What the manager uses of its store: whether it has the methods, and the two methods. An upsert
-- that raises leaves the store as it is.
pub record CooldownStore (S : Type 0) : Type 0 where
  pub available : Bool
  pub get_engine_cooldown : String → S → Option EngineRow
  pub upsert_engine_cooldown : EngineRow → S → S

-- `_RATE_LIMIT_STATUSES`
abbrev pub is_limited : EngineStatus → Bool
is_limited rate_limited = true
is_limited monthly_exhausted = true
is_limited down = true
is_limited recovering = true
is_limited _ = false

-- `status in {"healthy", "recovering"}`
abbrev pub is_usable : EngineStatus → Bool
is_usable healthy = true
is_usable recovering = true
is_usable _ = false

abbrev pub seconds : ℕ → ℕ
seconds n = n * 1_000_000

-- The cooldown and the delay of the next probe.
abbrev pub status_defaults : EngineStatus → ℕ × ℕ
status_defaults monthly_exhausted = (seconds 3600, seconds 3600)
status_defaults down = (seconds 300, seconds 300)
status_defaults rate_limited = (seconds 600, seconds 120)
status_defaults recovering = (seconds 60, seconds 60)
status_defaults _ = (0, 0)

-- `a or b` on statuses.
abbrev pub status_or : EngineStatus → EngineStatus → EngineStatus
status_or absent s = s
status_or s _ = s

unfoldable pub failure_status : Exn → EngineStatus
failure_status e =
    if is_monthly_exhaustion e
    then monthly_exhausted
    else if is_down_error e
    then down
    else rate_limited

-- `reset_at`, if it lies ahead, in place of the default end of the cooldown.
abbrev pub reset_or : ℕ → Option ℕ → ℕ → ℕ
reset_or now none default_end = default_end
reset_or now (some reset) default_end = if ltb now reset then reset else default_end

-- What the call of `probe_fn` gives.
pub data Probe : Type 0 where
  answered : Bool → Probe
  raised : List ℕ → Probe

-- One call of `probe_if_due`: its two readings of the clock, and what `probe_fn` would give,
-- `none` where there is no such function.
pub record Attempt : Type 0 where
  pub now : ℕ
  pub updated : ℕ
  pub probe : Option Probe

abbrev pub error_or : List ℕ → List ℕ → List ℕ
error_or [] e = e
error_or (c ∷ cs) e = c ∷ cs

-- `row["last_error"]` after the probe.
abbrev pub probe_error : Probe → EngineRow → List ℕ
probe_error (answered b) row = row.last_error
probe_error (raised message) row = message

abbrev pub is_healthy_probe : Probe → Bool
is_healthy_probe (answered b) = b
is_healthy_probe (raised message) = false

abbrev pub is_before : ℕ → Option ℕ → Bool
is_before now none = false
is_before now (some t) = ltb now t

abbrev pub has_passed : ℕ → Option ℕ → Bool
has_passed now none = false
has_passed now (some t) = leb t now

-- `_upsert` writes all fields; the caller gives them in `row`, but for these three.
abbrev pub stamp : String → ℕ → EngineRow → EngineRow
stamp team_id updated row = record row {
  team_id = team_id;
  last_error = take 2000 row.last_error;
  updated_at = updated;
}

-- The rows that `mark_failure` and `probe_if_due` hand to `_upsert`.
abbrev pub failure_row : (List ℕ → Option ℕ) → ℕ → String → Exn → String → EngineRow
failure_row parse_reset now engine_name e fallback_engine =
    let status = failure_status e in
    let reset = if is_monthly_exhaustion e then parse_reset e.message else none in
    record {
      team_id = "";
      engine_name = engine_name;
      status = status;
      cooldown_until = some (reset_or now reset (now + (status_defaults status).0));
      reset_at = reset;
      next_probe_at = some (now + (status_defaults status).1);
      last_error = e.message;
      fallback_engine = fallback_engine;
      updated_at = now;
    }

abbrev pub probed_row : ℕ → Probe → String → EngineRow → EngineRow
probed_row now p engine_name row =
    if is_healthy_probe p
    then record row {
      engine_name = engine_name;
      status = recovering;
      cooldown_until = some (now + seconds 60);
      reset_at = none;
      next_probe_at = none;
      last_error = codes "probe_ok";
    }
    else record row {
      engine_name = engine_name;
      status = row.status;
      cooldown_until = some (now + (status_defaults row.status).1);
      reset_at = row.reset_at;
      next_probe_at = some (now + (status_defaults row.status).1);
      last_error = error_or (probe_error p row) (codes "probe_failed");
    }

module _ {S : Type 0} (store : CooldownStore S) (team_id : String) where
  unfoldable pub get_status : String → S → Option EngineRow
  get_status engine_name s =
      if str_eq engine_name ""
      then none
      else if store.available
      then store.get_engine_cooldown engine_name s
      else none

  unfoldable pub upsert : ℕ → EngineRow → S → EngineRow × S
  upsert updated row s =
      let row' = stamp team_id updated row in
      (row', if store.available then store.upsert_engine_cooldown row' s else s)

  unfoldable pub mark_healthy : ℕ → String → S → EngineRow × S
  mark_healthy updated engine_name s =
      upsert updated
        (record {
          team_id = "";
          engine_name = engine_name;
          status = healthy;
          cooldown_until = none;
          reset_at = none;
          next_probe_at = none;
          last_error = [];
          fallback_engine = "";
          updated_at = updated;
        })
        s

  unfoldable pub mark_failure :
      (List ℕ → Option ℕ) → (now updated : ℕ) → String → Exn → String → S → EngineRow × S
  mark_failure parse_reset now updated engine_name e fallback_engine s =
      upsert updated (failure_row parse_reset now engine_name e fallback_engine) s

  -- The lines of `probe_if_due` from the call of `probe_fn` on.
  unfoldable pub run_probe : Attempt → String → Probe → EngineRow → S → Option EngineRow × S
  run_probe a engine_name p row s =
      let (row', s') = upsert a.updated (probed_row a.now p engine_name row) s in (some row', s')

  -- `none` stands for the empty row.
  unfoldable pub probe_if_due : Attempt → String → S → Option EngineRow × S
  probe_if_due a engine_name s = elim (get_status engine_name s) [
    | none ↦ (none, s)
    | some row ↦
        if not (is_limited row.status)
        then (some row, s)
        else if is_before a.now row.next_probe_at
        then (some row, s)
        else (elim a.probe [ none ↦ (some row, s) | some p ↦ run_probe a engine_name p row s ])
  ]

  -- The end of `should_use_engine`, with its last probe.
  unfoldable pub settle : ℕ → Attempt → String → EngineStatus → Option ℕ → S → Bool × S
  settle now b engine_name status until s =
      if is_before now until
      then (false, (probe_if_due b engine_name s).1)
      else (is_usable status, s)

  -- `status` and `cooldown_until` as `should_use_engine` reads them off the probed row.
  abbrev pub status_after : Option EngineRow → EngineStatus → EngineStatus
  status_after none status = status
  status_after (some row) status = status_or row.status status

  abbrev pub until_after : Option EngineRow → Option ℕ
  until_after none = none
  until_after (some row) = row.cooldown_until

  abbrev pub after_probe : ℕ → Attempt → String → EngineStatus → Option EngineRow × S → Bool × S
  after_probe now b engine_name status (row, s) =
      if is_usable (status_after row status)
      then (true, s)
      else settle now b engine_name (status_after row status) (until_after row) s

  -- `a` and `b` are the two calls of `probe_if_due` that it may make.
  unfoldable pub should_use_engine : ℕ → (a b : Attempt) → String → S → Bool × S
  should_use_engine now a b engine_name s = elim (get_status engine_name s) [
    | none ↦ (true, s)
    | some row ↦
        let status = status_or row.status healthy in
        if is_usable status
        then (true, s)
        else if has_passed now row.cooldown_until
        then after_probe now b engine_name status (probe_if_due a engine_name s)
        else settle now b engine_name status row.cooldown_until s
  ]

  unfoldable pub remaining_cooldown_seconds : ℕ → String → S → ℕ
  remaining_cooldown_seconds now engine_name s = elim (get_status engine_name s) [
    | none ↦ 0
    | some row ↦ elim row.cooldown_until [ none ↦ 0 | some t ↦ t - now ]
  ]
