-- ===== src/Engine/Refusal.antt =====
-- What follows a failure: the engine is refused, and a back-off does not even call it.
use mathlib.Core.Path.{subst}
use swe_squad.Prelude.{
  ℕ, zero, suc, ◌+◌, ◌-◌, ◌<◌, max, String, ◌≡◌, refl, ap, ◌∙◌, inl, inr, Bool, true, false, Option,
  none, some, List, [], arith, leb, ltb, str_eq, Bool-cases, Option-cases, if◌then◌else◌,
}
use swe_squad.Backoff.{Exn, is_monthly_exhaustion, Backoff, Reply, in_cooldown, stop, loop, execute}
use swe_squad.Engine.{
  EngineStatus, healthy, EngineRow, CooldownStore, is_usable, status_defaults, status_or,
  failure_status, reset_or, Attempt, is_before, has_passed, stamp, failure_row, get_status, upsert,
  mark_failure, probe_if_due, settle, should_use_engine, remaining_cooldown_seconds,
}

-- What a store promises: an upserted row is read back under the name of its engine.
abbrev pub IsFaithful : {S : Type 0} → CooldownStore S → Type 0
IsFaithful {S} store =
    (row : EngineRow) (s : S)
    → store.get_engine_cooldown row.engine_name (store.upsert_engine_cooldown row s) ≡ some row

-- The end of the cooldown that a failure starts.
abbrev pub failure_end : (List ℕ → Option ℕ) → ℕ → Exn → ℕ
failure_end parse_reset now e =
    reset_or now (if is_monthly_exhaustion e then parse_reset e.message else none)
      (now + (status_defaults (failure_status e)).0)

failure_status_unusable : (e : Exn) → is_usable (status_or (failure_status e) healthy) ≡ false
unfolding failure_status
failure_status_unusable e = ground arith

twice :
    (st : EngineStatus)
    → is_usable (status_or st (status_or st healthy)) ≡ is_usable (status_or st healthy)
twice st = ground arith

-- The loop ends where the gate is closed.
paused :
    {A : Type 0} (p : Backoff) (gate : ℕ → Option ℕ) (func : ℕ → Reply A) (jitter : ℕ → ℕ) (r : ℕ)
    (left i : ℕ) (last : Option Exn)
    → 0 < left
    → p.has_manager ≡ true
    → gate i ≡ some r
    → loop p gate func jitter left i last ≡ stop 0 [] (in_cooldown (max 1_000_000 r))
unfolding loop
paused p gate func jitter r zero i last h m g = absurd (omega arith)
paused p gate func jitter r (suc left) i last h m g = rw (m, g, loop)

module _ {S : Type 0} (store : CooldownStore S) (team_id engine_name : String) where
  abbrev pub asked : ℕ → (a b : Attempt) → S → Bool × S
  asked now a b s = should_use_engine store team_id now a b engine_name s

  unprobed :
      (a : Attempt) (s : S) (row : EngineRow)
      → get_status store team_id engine_name s ≡ some row
      → a.probe ≡ none
      → probe_if_due store team_id a engine_name s ≡ (some row, s)
  unfolding probe_if_due
  unprobed a s row at n = rw (at, probe_if_due) (ground arith)

  probe_if_due-none :
      (a : Attempt) (s : S) → a.probe ≡ none → (probe_if_due store team_id a engine_name s).1 ≡ s
  unfolding probe_if_due
  probe_if_due-none a s n = elim (Option-cases (get_status store team_id engine_name s)) [
    | inl m ↦ rw (m, probe_if_due)
    | inr (row, at) ↦ ap (λ x. x.1) (unprobed a s row at n)
  ]

  settled :
      (now : ℕ) (b : Attempt) (st : EngineStatus) (until : Option ℕ) (s : S)
      → is_usable st ≡ false
      → b.probe ≡ none
      → settle store team_id now b engine_name st until s ≡ (false, s)
  unfolding settle
  settled now b st until s u n = elim (Bool-cases (is_before now until)) [
    | inl y ↦ rw y (ap (λ x. (false, x)) (probe_if_due-none b s n))
    | inr f ↦ rw (f, u)
  ]

  -- Without a function to probe with, a failed engine is refused at every time, and its row stays.
  pub unprobed_refuses :
      (now : ℕ) (a b : Attempt) (s : S) (row : EngineRow)
      → get_status store team_id engine_name s ≡ some row
      → is_usable (status_or row.status healthy) ≡ false
      → a.probe ≡ none
      → b.probe ≡ none
      → should_use_engine store team_id now a b engine_name s ≡ (false, s)
  unfolding should_use_engine
  unprobed_refuses now a b s row at u m n =
      rw (at, should_use_engine)
        (rw u (elim (Bool-cases (has_passed now row.cooldown_until)) [
          | inl y ↦ rw y (
              rw (unprobed a s row at m) (
                rw (twice row.status ∙ u)
                  (settled now b _ row.cooldown_until s (twice row.status ∙ u) n)))
          | inr f ↦ rw f (settled now b _ row.cooldown_until s u n)
        ]))

  -- Before the end of its cooldown a failed engine is refused, whatever a probe would answer.
  waits :
      (now : ℕ) (a b : Attempt) (s : S) (row : EngineRow) (until : ℕ)
      → get_status store team_id engine_name s ≡ some row
      → is_usable (status_or row.status healthy) ≡ false
      → row.cooldown_until ≡ some until
      → now < until
      → (should_use_engine store team_id now a b engine_name s).0 ≡ false
  unfolding should_use_engine settle
  waits now a b s row until at u c h =
      rw (at, should_use_engine)
        (rw (u, c)
          (let p : leb until now ≡ false = ground arith in
            let q : ltb now until ≡ true = ground arith in rw (p, q) refl))

  module _ (open_store : store.available ≡ true) (named : str_eq engine_name "" ≡ false)
      (faithful : IsFaithful store) where
    pub upsert-found :
        (updated : ℕ) (row : EngineRow) (s : S)
        → row.engine_name ≡ engine_name
        → get_status store team_id engine_name (upsert store team_id updated row s).1
          ≡ some (stamp team_id updated row)
    unfolding get_status upsert
    upsert-found updated row s e =
        rw (named, open_store)
          (subst
            (λ x.
              store.get_engine_cooldown x
                (store.upsert_engine_cooldown (stamp team_id updated row) s)
              ≡ some (stamp team_id updated row))
            e (faithful (stamp team_id updated row) s))

  -- The failure that the theorems below start from.
  module _ (parse_reset : List ℕ → Option ℕ) (now updated : ℕ) (e : Exn) (fallback : String)
      (s : S) where
    abbrev pub failed : S
    failed = (mark_failure store team_id parse_reset now updated engine_name e fallback s).1

    -- What `execute` learns from the manager before a call, without a function to probe with.
    abbrev pub gate_of : (later : ℕ) (a b : Attempt) → Option ℕ
    gate_of later a b =
        let r = should_use_engine store team_id later a b engine_name failed in
        if r.0 then none else some (remaining_cooldown_seconds store team_id later engine_name r.1)

    module _ (open_store : store.available ≡ true) (named : str_eq engine_name "" ≡ false)
        (faithful : IsFaithful store) where
      failed-found :
          get_status store team_id engine_name failed
          ≡ some (stamp team_id updated (failure_row parse_reset now engine_name e fallback))
      unfolding mark_failure
      failed-found =
          upsert-found open_store named faithful updated
            (failure_row parse_reset now engine_name e fallback) s refl

      failed-remaining :
          (later : ℕ)
          → remaining_cooldown_seconds store team_id later engine_name failed
            ≡ failure_end parse_reset now e - later
      unfolding remaining_cooldown_seconds
      failed-remaining later = rw (failed-found, remaining_cooldown_seconds)

      -- With a store that reads back the rows it was given, an engine with a name is refused after
      -- `mark_failure` until the end of the cooldown that its status and, for an exhausted quota,
      -- the reset time of the message set, whatever a probe would answer; that end is what
      -- `remaining_cooldown_seconds` counts down to.
      pub failure_refuses :
          (later : ℕ) (a b : Attempt)
          → later < failure_end parse_reset now e
          → ((should_use_engine store team_id later a b engine_name failed).0 ≡ false)
            × (remaining_cooldown_seconds store team_id later engine_name failed
                ≡ failure_end parse_reset now e - later)
      failure_refuses later a b h = (
        waits later a b failed _ (failure_end parse_reset now e) failed-found
            (failure_status_unusable e) refl h,
        failed-remaining later,
      )

      -- With such a store, an engine that is not probed is refused at every time after
      -- `mark_failure`, also when its cooldown is over, and the store does not change.
      pub failure_sticks :
          (later : ℕ) (a b : Attempt)
          → a.probe ≡ none
          → b.probe ≡ none
          → should_use_engine store team_id later a b engine_name failed ≡ (false, failed)
      failure_sticks later a b m n =
          unprobed_refuses later a b failed _ failed-found (failure_status_unusable e) m n

      closed :
          (later : ℕ) (a b : Attempt)
          → a.probe ≡ none
          → b.probe ≡ none
          → gate_of later a b ≡ some (failure_end parse_reset now e - later)
      closed later a b m n = rw (failure_sticks later a b m n) (ap some (failed-remaining later))

      -- With such a store, `execute` on an engine that failed and was not probed since makes no
      -- call and does not sleep, however long ago the failure was: it raises `RateLimitCooldown`
      -- for what is left of the cooldown, and for a second at least.
      pub execute_pauses :
          {A : Type 0} (p : Backoff) (func : ℕ → Reply A) (jitter : ℕ → ℕ) (later : ℕ)
          (a b : Attempt)
          → p.has_manager ≡ true
          → a.probe ≡ none
          → b.probe ≡ none
          → let r = execute p (λ i. gate_of later a b) func jitter in
            (r.outcome ≡ in_cooldown (max 1_000_000 (failure_end parse_reset now e - later)))
            × (r.calls ≡ 0)
            × (r.sleeps ≡ [])
      unfolding execute
      execute_pauses p func jitter later a b m n k =
          let run =
            paused p (λ i. gate_of later a b) func jitter (failure_end parse_reset now e - later)
              (p.max_retries + 1) 0 none (omega arith) m (closed later a b n k) in
          (ap (λ x. x.outcome) run, ap (λ x. x.calls) run, ap (λ x. x.sleeps) run)
