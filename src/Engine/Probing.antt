-- ===== src/Engine/Probing.antt =====
-- How an engine comes back: a probe after the cooldown, or a success that is reported.
use mathlib.Core.Path.{subst}
use swe_squad.Prelude.{
  ℕ, ◌+◌, ◌<◌, ◌≤◌, String, ◌≡◌, refl, sym, ap, ◌∙◌, inl, inr, Bool, true, false, ◌&&◌, not, none,
  some, [], arith, ltb, str_eq, Bool-cases,
}
use swe_squad.Engine.{
  EngineStatus, healthy, EngineRow, CooldownStore, is_limited, is_usable, status_defaults,
  status_or, Probe, Attempt, is_healthy_probe, is_before, has_passed, stamp, probed_row, get_status,
  upsert, mark_healthy, run_probe, probe_if_due, settle, after_probe, should_use_engine,
  remaining_cooldown_seconds,
}
use swe_squad.Engine.Refusal.{IsFaithful, upsert-found}

-- A status in which the engine is refused and may be probed.
abbrev pub is_failed : EngineStatus → Bool
is_failed s = is_limited s && not (is_usable s)

failed_limited : (st : EngineStatus) → is_failed st ≡ true → is_limited st ≡ true
failed_limited st h = ground arith

failed_unusable :
    (st : EngineStatus) → is_failed st ≡ true → is_usable (status_or st healthy) ≡ false
failed_unusable st h = ground arith

failed_or :
    (st : EngineStatus)
    → is_failed st ≡ true
    → is_usable (status_or st (status_or st healthy)) ≡ false
failed_or st h = ground arith

failed_delay : (st : EngineStatus) → is_failed st ≡ true → 0 < (status_defaults st).1
failed_delay st h = ground arith

module _ {S : Type 0} (store : CooldownStore S) (team_id engine_name : String)
    (open_store : store.available ≡ true) (named : str_eq engine_name "" ≡ false)
    (faithful : IsFaithful store) where
  -- The row that a probe leaves.
  abbrev pub row_after : Attempt → Probe → EngineRow → EngineRow
  row_after a p row = stamp team_id a.updated (probed_row a.now p engine_name row)

  -- The store that a probe leaves.
  abbrev pub store_after : Attempt → Probe → EngineRow → S → S
  store_after a p row s = (upsert store team_id a.updated (probed_row a.now p engine_name row) s).1

  probed_name :
      (now : ℕ) (p : Probe) (row : EngineRow)
      → (probed_row now p engine_name row).engine_name ≡ engine_name
  probed_name now p row = elim (Bool-cases (is_healthy_probe p)) [ inl y ↦ rw y | inr n ↦ rw n ]

  stored_after :
      (a : Attempt) (p : Probe) (s : S) (row : EngineRow)
      → get_status store team_id engine_name (store_after a p row s) ≡ some (row_after a p row)
  stored_after a p s row =
      upsert-found store team_id engine_name open_store named faithful a.updated
        (probed_row a.now p engine_name row) s (probed_name a.now p row)

  -- An engine whose row is healthy or recovering is used as it is.
  used :
      (now : ℕ) (a b : Attempt) (s : S) (row : EngineRow)
      → get_status store team_id engine_name s ≡ some row
      → is_usable (status_or row.status healthy) ≡ true
      → should_use_engine store team_id now a b engine_name s ≡ (true, s)
  unfolding should_use_engine
  used now a b s row at u = rw (at, should_use_engine) (rw u refl)

  -- A probe before its time changes nothing.
  too_early :
      (b : Attempt) (s : S) (row : EngineRow)
      → get_status store team_id engine_name s ≡ some row
      → is_before b.now row.next_probe_at ≡ true
      → probe_if_due store team_id b engine_name s ≡ (some row, s)
  unfolding probe_if_due
  too_early b s row at e =
      rw (at, probe_if_due)
        (elim (Bool-cases (is_limited row.status)) [ inl y ↦ rw (y, e) | inr n ↦ rw n ])

  module _ (now : ℕ) (a b : Attempt) (p : Probe) (s : S) (row : EngineRow)
      (at : get_status store team_id engine_name s ≡ some row) (f : is_failed row.status ≡ true)
      (past : has_passed now row.cooldown_until ≡ true)
      (due : is_before a.now row.next_probe_at ≡ false) (q : a.probe ≡ some p) where
    runs :
        probe_if_due store team_id a engine_name s
        ≡ (some (row_after a p row), store_after a p row s)
    unfolding probe_if_due run_probe upsert
    runs = rw (at, probe_if_due) (rw (failed_limited row.status f, due) (rw q refl))

    asks_probe :
        should_use_engine store team_id now a b engine_name s
        ≡ after_probe store team_id now b engine_name
            (status_or row.status healthy)
            (some (row_after a p row), store_after a p row s)
    unfolding should_use_engine
    asks_probe =
        rw (at, should_use_engine) (rw (failed_unusable row.status f) (rw past (rw runs refl)))

    recovered :
        is_healthy_probe p ≡ true
        → should_use_engine store team_id now a b engine_name s ≡ (true, store_after a p row s)
    recovered h = asks_probe ∙ rw h refl

    refused :
        is_healthy_probe p ≡ false
        → now ≤ a.now
        → b.now < a.now + (status_defaults row.status).1
        → should_use_engine store team_id now a b engine_name s ≡ (false, store_after a p row s)
    unfolding settle
    refused h le lt =
        asks_probe
        ∙ rw h (
            rw (failed_or row.status f) (
              let w : ltb now (a.now + (status_defaults row.status).1) ≡ true =
                ground (arith, failed_delay row.status f) in
              rw w (
                ap (λ x. (false, x.1))
                  (too_early b (store_after a p row s) (row_after a p row) (stored_after a p s row)
                    (rw h (ground arith))))))

    -- With a store that reads back the rows it was given, a failed engine whose cooldown is over
    -- and whose probe is due comes back if the probe finds it healthy: it is used now, and after
    -- that at any time.
    pub probe_recovers :
        (later : ℕ) (c d : Attempt)
        → is_healthy_probe p ≡ true
        → let (answer, s') = should_use_engine store team_id now a b engine_name s in
          (answer ≡ true) × (should_use_engine store team_id later c d engine_name s' ≡ (true, s'))
    probe_recovers later c d h =
        let e = recovered h in
        (
          ap (λ x. x.0) e,
          subst (λ x. should_use_engine store team_id later c d engine_name x ≡ (true, x))
              (sym (ap (λ x. x.1) e))
              (used later c d (store_after a p row s) (row_after a p row) (stored_after a p s row)
                (rw h refl)),
        )

    -- With such a store, if the probe of a failed engine that is due does not find it healthy, the
    -- engine is refused, and its cooldown and its next probe start again from the probe, with the
    -- delay of its status; the clock does not run backwards between the readings, and a second
    -- probe comes before the next one is due.
    pub probe_delays :
        is_healthy_probe p ≡ false
        → now ≤ a.now
        → b.now < a.now + (status_defaults row.status).1
        → let (answer, s') = should_use_engine store team_id now a b engine_name s in
          let again = some (a.now + (status_defaults row.status).1) in
          (answer ≡ false)
          × ((row' : EngineRow) × (get_status store team_id engine_name s' ≡ some row')
              × (row'.status ≡ row.status)
              × (row'.cooldown_until ≡ again)
              × (row'.next_probe_at ≡ again))
    probe_delays h le lt =
        let e = refused h le lt in
        (
          ap (λ x. x.0) e,
          (
            row_after a p row,
            ap (λ x. get_status store team_id engine_name x.1) e ∙ stored_after a p s row,
            rw h refl,
            rw h refl,
            rw h refl,
          ),
        )

  -- With such a store, after `mark_healthy` the engine is used at any time, and no cooldown remains.
  pub healthy_resets :
      (updated later : ℕ) (a b : Attempt) (s : S)
      → let s' = (mark_healthy store team_id updated engine_name s).1 in
        (should_use_engine store team_id later a b engine_name s' ≡ (true, s'))
        × (remaining_cooldown_seconds store team_id later engine_name s' ≡ 0)
  unfolding mark_healthy remaining_cooldown_seconds
  healthy_resets updated later a b s =
      let at =
        upsert-found store team_id engine_name open_store named faithful updated
          (record {
            team_id = "";
            engine_name = engine_name;
            status = healthy;
            cooldown_until = none;
            reset_at = none;
            next_probe_at = none;
            last_error = [];
            fallback_engine = "";
            updated_at = updated;
          })
          s refl in
      (used later a b _ _ at refl, rw (at, remaining_cooldown_seconds))
