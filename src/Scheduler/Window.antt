-- ===== src/Scheduler/Window.antt =====
-- TimeWindow.next_off_peak of src/swe_team/scheduler.py.
use swe_squad.Prelude.{
  ℕ, zero, suc, ◌+◌, ◌*◌, ◌/◌, ◌≤◌, ◌<◌, ◌≡◌, refl, sym, ap, ◌∙◌, true, false, ◌&&◌, inl, inr, some,
  List, ltb, leb, ◌==◌, arith, Bool-cases, le→leb, leb→le,
}
use swe_squad.Cron.{member}
use swe_squad.Scheduler.{
  TimeWindow, a_day, an_hour, weekday, hour_of, is_peak, skip_days, next_off_peak,
}

next_day : (t j : ℕ) → t + a_day + j * a_day ≡ t + suc j * a_day
next_day t j = omega arith

-- A day of the list that is at most `k` days away is found.
skip_days-found :
    (fuel k : ℕ) (days : List ℕ) (t : ℕ)
    → k < fuel
    → member (weekday (t + k * a_day)) days ≡ true
    → (j : ℕ) × (skip_days fuel days t ≡ some (t + j * a_day))
      × (member (weekday (t + j * a_day)) days ≡ true)
unfolding skip_days
skip_days-found zero k days t h m = absurd (omega arith)
skip_days-found (suc fuel) zero days t h m =
    let e : t + 0 * a_day ≡ t = omega arith in
    let here : member (weekday t) days ≡ true = ap (λ x. member (weekday x) days) (sym e) ∙ m in
    (0, rw here (ap some (sym e)), m)
skip_days-found (suc fuel) (suc k) days t h m = elim (Bool-cases (member (weekday t) days)) [
  | inl here ↦
      let e : t + 0 * a_day ≡ t = omega arith in
      (0, rw here (ap some (sym e)), ap (λ x. member (weekday x) days) e ∙ here)
  | inr there ↦
      let (j, found, on) =
        skip_days-found fuel k days (t + a_day) (omega arith)
          (ap (λ x. member (weekday x) days) (next_day t k) ∙ m) in
      (
        suc j,
        rw there (found ∙ ap some (next_day t j)),
        ap (λ x. member (weekday x) days) (sym (next_day t j)) ∙ on,
      )
]

hour_of-day : (q h j : ℕ) → h < 24 → hour_of (q * a_day + h * an_hour + j * a_day) ≡ h
hour_of-day q h j p = omega arith

weekday-day : (t h : ℕ) → h < 24 → weekday (t / a_day * a_day + h * an_hour) ≡ weekday t
weekday-day t h p = omega arith

weekday-week : (t : ℕ) → weekday (t / a_day * a_day + a_day + 6 * a_day) ≡ weekday t
weekday-week t = omega arith

later : (t h : ℕ) → hour_of t < h → t < t / a_day * a_day + h * an_hour
later t h p = omega arith

weekday_zero :
    (t h : ℕ) → h < 24 → weekday (t / a_day * a_day + h * an_hour + 0 * a_day) ≡ weekday t
weekday_zero t h p = omega arith

is_peak-at :
    (w : TimeWindow) (r h : ℕ)
    → hour_of r ≡ h
    → member (weekday r) w.peak_days ≡ true
    → is_peak w r ≡ (leb w.peak_start_hour h && ltb h w.peak_end_hour)
unfolding is_peak
is_peak-at w r h e on = rw (on, e) refl

next_off_peak-off : (w : TimeWindow) (t : ℕ) → is_peak w t ≡ false → next_off_peak w t ≡ some t
unfolding next_off_peak
next_off_peak-off w t off = rw off refl

-- At a peak moment the candidate lies ahead, and a day of the list at most six days after it.
module _ (w : TimeWindow) (t : ℕ) (peak : is_peak w t ≡ true) where
  on_day : member (weekday t) w.peak_days ≡ true
  unfolding is_peak
  on_day = ground arith

  in_hours : hour_of t < w.peak_end_hour
  unfolding is_peak
  in_hours = ground arith

  early :
      24 ≤ w.peak_end_hour
      → (r : ℕ) × (next_off_peak w t ≡ some r)
        × (t ≤ r)
        × (hour_of r ≡ 0)
        × (member (weekday r) w.peak_days ≡ true)
  unfolding next_off_peak
  early h =
      let c = t / a_day * a_day + a_day in
      let (j, found, on) =
        skip_days-found 7 6 w.peak_days c (omega arith)
          (ap (λ x. member x w.peak_days) (weekday-week t) ∙ on_day) in
      let big : leb 24 w.peak_end_hour ≡ true = le→leb 24 w.peak_end_hour h in
      let ahead : leb c t ≡ false = ground arith in
      (c + j * a_day, rw (peak, big, ahead) found, omega arith, omega arith, on)

  late :
      w.peak_end_hour < 24
      → (r : ℕ) × (next_off_peak w t ≡ some r)
        × (t ≤ r)
        × (hour_of r ≡ w.peak_end_hour)
        × (member (weekday r) w.peak_days ≡ true)
  unfolding next_off_peak
  late h =
      let c = t / a_day * a_day + w.peak_end_hour * an_hour in
      let (j, found, on) =
        skip_days-found 7 0 w.peak_days c (omega arith)
          (ap (λ x. member x w.peak_days) (weekday_zero t w.peak_end_hour h) ∙ on_day) in
      let small : leb 24 w.peak_end_hour ≡ false = ground arith in
      let ahead : leb c t ≡ false = ground (arith, later t w.peak_end_hour in_hours) in
      (
        c + j * a_day,
        rw (peak, small, ahead) found,
        omega (arith, later t w.peak_end_hour in_hours),
        hour_of-day (t / a_day) w.peak_end_hour j h,
        on,
      )

-- `next_off_peak` always gives a moment, which is not before the one asked about. The moment that
-- it gives is itself a peak moment exactly if
-- the one asked about is and the peak hours of a day start at 0 and end at 24 or later.
pub next_off_peak_lem :
    (w : TimeWindow) (t : ℕ)
    → (r : ℕ) × (next_off_peak w t ≡ some r)
      × (t ≤ r)
      × (is_peak w r ≡ (is_peak w t && (leb 24 w.peak_end_hour && (w.peak_start_hour == 0))))
next_off_peak_lem w t = elim (Bool-cases (is_peak w t)) [
  | inl peak ↦ elim (Bool-cases (leb 24 w.peak_end_hour)) [
    | inl big ↦
        let (r, e, le, h, on) = early w t peak (leb→le 24 w.peak_end_hour big) in
        (
          r,
          e,
          le,
          rw (peak, big) (is_peak-at w r 0 h on ∙ ground (arith, leb→le 24 w.peak_end_hour big)),
        )
    | inr small ↦
        let lt : w.peak_end_hour < 24 = ground arith in
        let (r, e, le, h, on) = late w t peak lt in
        (r, e, le, rw (peak, small) (is_peak-at w r w.peak_end_hour h on ∙ ground arith))
  ]
  | inr off ↦ (t, next_off_peak-off w t off, omega arith, rw off refl)
]
