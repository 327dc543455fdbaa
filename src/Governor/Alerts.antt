-- ===== src/Governor/Alerts.antt =====
-- `check_alerts` of the usage governor and the throttling of its alerts.
use swe_squad.Prelude.{
  ℕ, ◌+◌, ◌*◌, ◌≤◌, ◌<◌, ◌≡◌, refl, sym, ◌∙◌, inl, inr, String, Bool, true, false, ◌&&◌, none, some,
  List, [], ◌∷◌, ◌++◌, In, map, length, Dict, lookup, insert, lookup-insert, lookup-insert_ne, ◌≢◌,
  leb, ltb, str_eq, eq_iff, if◌then◌else◌, arith, Bool-cases, In-append_cases,
}
use native.Mathlib.Nat.{mul-le-mul_left, mul_right_comm, mul_assoc}
use mathlib.Core.Path.{subst}
use swe_squad.Rules.{Multiplier}
use swe_squad.Governor.{
  Usage, untracked, failing, hourly, Rate, sum, tokens_of, get_usage_data, get_quota_status,
}

pub record AlertSettings : Type 0 where
  pub quota_limit : ℕ
  pub quota_warning_pct : ℕ
  pub quota_critical_pct : ℕ
  pub burn_rate_spike_multiplier : Multiplier
  pub alert_throttle_minutes : ℕ

-- When the alert of each name was last sent.
abbrev pub AlertTimes : Type 0
AlertTimes = Dict ℕ

-- The clock is in seconds.
unfoldable pub should_fire : (throttle_minutes now : ℕ) → String → AlertTimes → Bool
should_fire throttle_minutes now key times =
    leb (elim (lookup key times) [ none ↦ 0 | some t ↦ t ] + throttle_minutes * 60) now

-- An alert that is due, if it may be sent.
unfoldable pub fire : (throttle_minutes now : ℕ) → String → AlertTimes → AlertTimes × List String
fire throttle_minutes now key times =
    if should_fire throttle_minutes now key times
    then (insert key now times, key ∷ [])
    else (times, [])

unfoldable pub quota_alert : AlertSettings → ℕ → Usage → AlertTimes → AlertTimes × List String
quota_alert s now usage times =
    let pct = (get_quota_status s.quota_limit usage).remaining_pct in
    if leb pct (s.quota_critical_pct * 100)
    then fire s.alert_throttle_minutes now "quota_critical" times
    else if leb pct (s.quota_warning_pct * 100)
    then fire s.alert_throttle_minutes now "quota_warning" times
    else (times, [])

-- `burn_rate > avg_rate * multiplier`
unfoldable pub exceeds : Rate → Rate → Multiplier → Bool
exceeds rate avg m = ltb (avg.tokens * m.num * rate.hours) (rate.tokens * (avg.hours * m.den))

-- The tests before the alert for a spike.
unfoldable pub spikes : Multiplier → Usage → Bool
spikes m untracked = false
spikes m failing = false
spikes m (hourly hs) =
    let rate = (get_usage_data (hourly hs)).1 in
    let avg : Rate = record { tokens = sum (map tokens_of hs); hours = length hs } in
    ltb 0 rate.tokens && leb 2 (length hs) && ltb 0 avg.tokens && exceeds rate avg m

unfoldable pub check_alerts : AlertSettings → ℕ → Usage → AlertTimes → AlertTimes × List String
check_alerts s now usage times =
    let (times', alerts) = quota_alert s now usage times in
    if spikes s.burn_rate_spike_multiplier usage
    then (let (later, spike) = fire s.alert_throttle_minutes now "burn_rate_spike" times' in
        (later, alerts ++ spike))
    else (times', alerts)

no_spike : (m : Multiplier) (usage : Usage) → m.den ≤ m.num → spikes m usage ≡ false
unfolding spikes exceeds get_usage_data
no_spike m untracked h = refl
no_spike m failing h = refl
no_spike m (hourly []) h = refl
no_spike m (hourly (x ∷ xs)) h =
    let total = sum (map tokens_of (x ∷ xs)) in
    let n = length (x ∷ xs) in
    let grows = mul-le-mul_left (total * n) h in
    let a = mul_right_comm total m.num n in
    let b = mul_assoc total n m.den in ground (arith, grows, a, b)

-- With a multiplier of at least 1 an alert is one for the quota: there is never one for a spike of
-- the burn rate.
pub check_alerts_quota :
    (s : AlertSettings) (now : ℕ) (usage : Usage) (times : AlertTimes)
    → s.burn_rate_spike_multiplier.den ≤ s.burn_rate_spike_multiplier.num
    → check_alerts s now usage times ≡ quota_alert s now usage times
unfolding check_alerts
check_alerts_quota s now usage times h = rw (no_spike s.burn_rate_spike_multiplier usage h) refl

-- What sending leaves behind.
fire_sends :
    (minutes now : ℕ) (key k : String) (times : AlertTimes)
    → In k (fire minutes now key times).1
    → lookup k (fire minutes now key times).0 ≡ some now
unfolding fire
fire_sends minutes now key k times h = elim (Bool-cases (should_fire minutes now key times)) [
  | inl y ↦ rw y (ground (arith, eq_iff key k, lookup-insert key k now times, h, y))
  | inr n ↦ ground (arith, h, n)
]

fire_keeps :
    (minutes now : ℕ) (key k : String) (times : AlertTimes)
    → lookup k times ≡ some now
    → lookup k (fire minutes now key times).0 ≡ some now
unfolding fire
fire_keeps minutes now key k times h = ground (arith, lookup-insert key k now times)

too_early :
    (minutes t now : ℕ) (k : String) (times : AlertTimes)
    → lookup k times ≡ some t
    → now < t + minutes * 60
    → should_fire minutes now k times ≢ true
unfolding should_fire
too_early minutes t now k times h early = rw h (λ y. ground (arith, early, y))

fire_waits :
    (minutes t now : ℕ) (key k : String) (times : AlertTimes)
    → lookup k times ≡ some t
    → now < t + minutes * 60
    → (lookup k (fire minutes now key times).0 ≡ some t) × ¬ (In k (fire minutes now key times).1)
unfolding fire should_fire
fire_waits minutes t now key k times h early =
    elim (Bool-cases (should_fire minutes now key times)) [
      | inl y ↦
          let other : str_eq key k ≡ false = elim (Bool-cases (str_eq key k)) [
            | inl same ↦
                let late =
                  subst (λ x. should_fire minutes now x times ≡ true) ((eq_iff key k).0 same) y in
                absurd (too_early minutes t now k times h early late)
            | inr d ↦ d
          ] in
          rw y (
            lookup-insert_ne key k now times other ∙ h,
            λ m. elim m [ inl e ↦ ground (arith, eq_iff key k, sym e) | inr z ↦ elim z [ ] ],
          )
      | inr n ↦ rw n (h, λ m. elim m [ ])
    ]

quota_sends :
    (s : AlertSettings) (now : ℕ) (usage : Usage) (times : AlertTimes) (k : String)
    → In k (quota_alert s now usage times).1
    → lookup k (quota_alert s now usage times).0 ≡ some now
unfolding quota_alert
quota_sends s now usage times k h = ground (
  arith,
  fire_sends s.alert_throttle_minutes now "quota_critical" k times,
  fire_sends s.alert_throttle_minutes now "quota_warning" k times,
)

quota_waits :
    (s : AlertSettings) (t now : ℕ) (usage : Usage) (times : AlertTimes) (k : String)
    → lookup k times ≡ some t
    → now < t + s.alert_throttle_minutes * 60
    → (lookup k (quota_alert s now usage times).0 ≡ some t)
      × ¬ (In k (quota_alert s now usage times).1)
unfolding quota_alert
quota_waits s t now usage times k h early =
    let critical = fire_waits s.alert_throttle_minutes t now "quota_critical" k times h early in
    let warning = fire_waits s.alert_throttle_minutes t now "quota_warning" k times h early in
    ground (arith, critical, warning)

check_sends :
    (s : AlertSettings) (now : ℕ) (usage : Usage) (times : AlertTimes) (k : String)
    → In k (check_alerts s now usage times).1
    → lookup k (check_alerts s now usage times).0 ≡ some now
unfolding check_alerts
check_sends s now usage times k h =
    let q = quota_alert s now usage times in
    let quota = quota_sends s now usage times k in
    let keeps = fire_keeps s.alert_throttle_minutes now "burn_rate_spike" k q.0 in
    let sends = fire_sends s.alert_throttle_minutes now "burn_rate_spike" k q.0 in
    let split = In-append_cases k q.1 (fire s.alert_throttle_minutes now "burn_rate_spike" q.0).1 in
    ground (arith, quota, keeps, sends, split)

-- An alert that was sent is not sent again by a check less than the throttle's minutes later.
pub check_alerts_wait :
    (s : AlertSettings) (t now : ℕ) (earlier usage : Usage) (times : AlertTimes) (k : String)
    → In k (check_alerts s t earlier times).1
    → now < t + s.alert_throttle_minutes * 60
    → ¬ In k (check_alerts s now usage (check_alerts s t earlier times).0).1
unfolding check_alerts
check_alerts_wait s t now earlier usage times k sent early =
    let sent_at = check_sends s t earlier times k sent in
    let quota = quota_waits s t now usage (check_alerts s t earlier times).0 k sent_at early in
    let q = quota_alert s now usage (check_alerts s t earlier times).0 in
    let spike = fire_waits s.alert_throttle_minutes t now "burn_rate_spike" k q.0 (quota.0) early in
    let split = In-append_cases k q.1 (fire s.alert_throttle_minutes now "burn_rate_spike" q.0).1 in
    λ m. ground (arith, quota, spike, split, m)
