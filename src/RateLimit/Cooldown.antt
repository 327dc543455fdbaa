-- ===== src/RateLimit/Cooldown.antt =====
-- How long a cooldown lasts, what ends it, and where the back-off stops.
use text.Mathlib.TextPositions.{eq_refl}
use mathlib.Core.Path.{subst}
use swe_squad.Prelude.{
  ℕ, ◌+◌, ◌*◌, ◌^◌, ◌≤◌, ◌<◌, min, String, ◌≡◌, refl, ◌∙◌, inl, inr, false, not, none, some, List,
  [], ◌∷◌, All, length, arith, leb, ltb, sym, Dict, lookup, insert, lookup-insert, str_eq, eq_iff,
  if◌then◌else◌, Option-cases, Bool-cases, ap,
}
use swe_squad.RateLimit.{
  cooldown, Lifecycle, new, can_proceed, Call, read_call, warning_call, hit_call, success_call,
  expired_call, perform, perform_all, on_rate_limit_hit, get_status, get_lifecycle,
}

-- A hit below level 1024 starts a cooldown of `initial * 2 ^ level`, at most `max_cooldown`, and
-- raises the level; requests may go on exactly from its end.
pub hit_lem :
    (now tick later tick' : ℕ) (l : Lifecycle)
    → l.backoff_level < 1024
    → let l' = (on_rate_limit_hit now tick l).1 in
      ((on_rate_limit_hit now tick l).0 ≡ some cooldown)
      × (l'.cooldown_until ≡ now + min (l.initial_cooldown * 2 ^ l.backoff_level) l.max_cooldown)
      × (l'.cooldown_until ≤ now + l.max_cooldown)
      × (l'.backoff_level ≡ l.backoff_level + 1)
      × (l'.total_hits ≡ l.total_hits + 1)
      × ((can_proceed later tick' l').0 ≡ leb l'.cooldown_until later)
unfolding on_rate_limit_hit can_proceed
hit_lem now tick later tick' l h = ground arith

-- The calls that do not end or restart a cooldown that lasts to `until`.
abbrev pub Waits : ℕ → Call → Type 0
Waits until (read_call now tick) = now < until
Waits until (warning_call tick) = Unit
Waits until (success_call tick) = Unit
Waits until (hit_call now tick) = ⊥
Waits until (expired_call tick) = ⊥

Waits-step :
    (c : Call) (l : Lifecycle)
    → l.state ≡ cooldown
    → Waits l.cooldown_until c
    → ((perform c l).state ≡ cooldown) × ((perform c l).cooldown_until ≡ l.cooldown_until)
unfolding perform
Waits-step (hit_call now tick) l s w = elim w [ ]
Waits-step (expired_call tick) l s w = elim w [ ]
Waits-step _ l s w = ground arith

-- Until its end nothing but `on_cooldown_expired` or another hit changes a cooldown: after any
-- warnings, successes and queries the provider still may not proceed.
pub cooldown_holds :
    (cs : List Call) (l : Lifecycle) (now tick until : ℕ)
    → l.state ≡ cooldown
    → l.cooldown_until ≡ until
    → All (Waits until) cs
    → now < until
    → (can_proceed now tick (perform_all cs l)).0 ≡ false
unfolding perform_all can_proceed
cooldown_holds [] l now tick until s u w h = ground arith
cooldown_holds (c ∷ cs) l now tick until s u w h =
    let (s', u') = Waits-step c l s (subst (λ x. Waits x c) (sym u) w.0) in
    cooldown_holds cs (perform c l) now tick until s' (u' ∙ u) w.1 h

abbrev pub hits : List (ℕ × ℕ) → List Call
hits [] = []
hits ((now, tick) ∷ ts) = hit_call now tick ∷ hits ts

hit_level :
    (now tick : ℕ) (l : Lifecycle)
    → l.backoff_level < 1024
    → (perform (hit_call now tick) l).backoff_level ≡ l.backoff_level + 1
unfolding perform
hit_level now tick l h = ground arith

hits_level :
    (ts : List (ℕ × ℕ)) (l : Lifecycle)
    → l.backoff_level + length ts ≤ 1024
    → (perform_all (hits ts) l).backoff_level ≡ l.backoff_level + length ts
unfolding perform_all
hits_level [] l h = omega arith
hits_level ((now, tick) ∷ ts) l h =
    let e = hit_level now tick l (omega arith) in
    omega (arith, hits_level ts (perform (hit_call now tick) l) (omega arith))

hit_raises :
    (now tick : ℕ) (l : Lifecycle)
    → l.backoff_level ≡ 1024
    → let r = on_rate_limit_hit now tick l in
      (r.0 ≡ none) × (r.1.state ≡ l.state) × (r.1.cooldown_until ≡ l.cooldown_until)
unfolding on_rate_limit_hit
hit_raises now tick l h = ground arith

-- With a float for `initial_cooldown`, as annotated (an int would not overflow): from level 0, after
-- 1024 hits in a row the next one raises `OverflowError` instead of starting a cooldown, and the end
-- of the cooldown stays where the last hit put it.
pub hits_overflow :
    (ts : List (ℕ × ℕ)) (now tick : ℕ) (l : Lifecycle)
    → l.backoff_level ≡ 0
    → length ts ≡ 1024
    → let l' = perform_all (hits ts) l in
      ((on_rate_limit_hit now tick l').0 ≡ none)
      × ((on_rate_limit_hit now tick l').1.cooldown_until ≡ l'.cooldown_until)
hits_overflow ts now tick l z n =
    let r =
      hit_raises now tick (perform_all (hits ts) l)
        (omega (arith, hits_level ts l (omega arith))) in
    (r.0, r.2)

-- What `get_status` reports agrees with `can_proceed` at the same instant: time remains in a
-- cooldown exactly when the provider may not proceed.
pub get_status_agrees :
    (now tick tick' : ℕ) (l : Lifecycle)
    → let s = (get_status now tick l).0 in
      (ltb 0 s.cooldown_remaining ≡ not (can_proceed now tick' l).0)
      × ((get_status now tick l).1 ≡ (can_proceed now tick l).1)
unfolding get_status can_proceed
get_status_agrees now tick tick' l = ground arith

get_known :
    (p : String) (i m r tick : ℕ) (d : Dict Lifecycle) (l : Lifecycle)
    → lookup p d ≡ some l
    → get_lifecycle p i m r tick d ≡ (l, d)
unfolding get_lifecycle
get_known p i m r tick d l e = rw (e, get_lifecycle)

get_fresh :
    (p : String) (i m r tick : ℕ) (d : Dict Lifecycle)
    → lookup p d ≡ none
    → get_lifecycle p i m r tick d ≡ (new p i m r tick, insert p (new p i m r tick) d)
unfolding get_lifecycle
get_fresh p i m r tick d n = rw (n, get_lifecycle)

-- The registry after `get_lifecycle` holds what was returned, and nothing else has changed.
stored :
    (p : String) (i m r tick : ℕ) (d : Dict Lifecycle) (other : String)
    → let (l, d') = get_lifecycle p i m r tick d in
      lookup other d' ≡ (if str_eq p other then some l else lookup other d)
stored p i m r tick d other = elim (Option-cases (lookup p d)) [
  | inl n ↦ rw (get_fresh p i m r tick d n) (lookup-insert p other _ d)
  | inr (l, e) ↦ rw (get_known p i m r tick d l e) (already l e)
]
  where
    already :
        (l : Lifecycle)
        → lookup p d ≡ some l
        → lookup other d ≡ (if str_eq p other then some l else lookup other d)
    already l e = elim (Bool-cases (str_eq p other)) [
      | inl y ↦ rw y (ap (λ x. lookup x d) (sym ((eq_iff p other).0 y)) ∙ e)
      | inr n ↦ rw n refl
    ]

-- The registry hands out one life cycle for each name: a second call with any parameters returns
-- what the first returned and changes nothing, and other providers are not touched.
pub get_lifecycle_once :
    (p other : String) (i m r tick i' m' r' tick' : ℕ) (d : Dict Lifecycle)
    → let (l, d') = get_lifecycle p i m r tick d in
      (get_lifecycle p i' m' r' tick' d' ≡ (l, d'))
      × (lookup other d' ≡ (if str_eq p other then some l else lookup other d))
get_lifecycle_once p other i m r tick i' m' r' tick' d =
    let (l, d') = get_lifecycle p i m r tick d in
    (
      get_known p i' m' r' tick' d' l (stored p i m r tick d p ∙ rw (eq_refl p)),
      stored p i m r tick d other,
    )
