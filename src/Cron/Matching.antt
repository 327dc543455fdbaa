-- ===== src/Cron/Matching.antt =====
-- Whole cron expressions: what the printed fields mean at a moment.
use swe_squad.Prelude.{
  ℕ, zero, suc, ◌+◌, ◌≤◌, ◌≡◌, refl, ◌∙◌, Bool, true, ◌&&◌, ◌||◌, inl, inr, List, [], ◌∷◌, ◌++◌,
  map, filter, any, leb, ◌==◌, ==_iff, strip, words, words_from, arith, Bool-cases, le→leb, All,
}
use swe_squad.Cron.{
  greatest, range_by, ok, range, member, parse_cron_field, python_day, translate_dow, Moment,
  test_field, match_fields, cron_matches, Moment,
}
use swe_squad.Cron.Ranges.{member-range}
use swe_squad.Cron.Fields.{Item, show_items, item_matches, IsStep, parse_cron_field-show_items}
use mathlib.Core.List.{append_assoc}
use swe_squad.Cron.Texts.{
  show_items-IsCons, show_items-Inked, strip-between, words_from-blank, words_from-end,
  flush-IsCons,
}

-- A field as a list of items that is not empty.
pub record Field : Type 0 where
  pub first : Item
  pub others : List Item

pub record Expression : Type 0 where
  pub minute : Field
  pub hour : Field
  pub day : Field
  pub month : Field
  pub weekday : Field

unfoldable pub show_field : Field → List ℕ
show_field f = show_items f.first f.others

abbrev pub matches_any : ℕ → ℕ → Field → Bool
matches_any low v f = any (item_matches low v) (f.first ∷ f.others)

abbrev pub HasSteps : Field → Type 0
HasSteps f = IsStep f.first × All IsStep f.others

unfoldable pub show_expression : Expression → List ℕ
show_expression e =
    show_field e.minute
    ++ 32
      ∷ (show_field e.hour
          ++ 32 ∷ (show_field e.day ++ 32 ∷ (show_field e.month ++ 32 ∷ show_field e.weekday)))

words-blank :
    (f : Field) (rest : List ℕ)
    → words_from [] (show_field f ++ 32 ∷ rest) ≡ show_field f ∷ words_from [] rest
unfolding show_field
words-blank f rest =
    words_from-blank [] (show_field f) rest (show_items-Inked f.first f.others)
    ∙ flush-IsCons (show_field f) _ (show_items-IsCons f.first f.others)

words-end : (f : Field) → words_from [] (show_field f) ≡ show_field f ∷ []
unfolding show_field
words-end f =
    words_from-end [] (show_field f) (show_items-Inked f.first f.others)
    ∙ flush-IsCons (show_field f) _ (show_items-IsCons f.first f.others)

words-show_expression :
    (e : Expression)
    → words_from [] (show_expression e)
      ≡ show_field e.minute
        ∷ show_field e.hour
        ∷ show_field e.day
        ∷ show_field e.month
        ∷ show_field e.weekday
        ∷ []
unfolding show_expression
words-show_expression e =
    rw
      (
        words-blank e.minute,
        words-blank e.hour,
        words-blank e.day,
        words-blank e.month,
        words-end e.weekday,
      )
      refl

strip-show_expression : (e : Expression) → strip (show_expression e) ≡ show_expression e
unfolding show_expression show_field
strip-show_expression e =
    let mid =
      32 ∷ (show_field e.hour ++ 32 ∷ (show_field e.day ++ 32 ∷ (show_field e.month ++ 32 ∷ []))) in
    let assoc : mid ++ show_field e.weekday
        ≡ 32
          ∷ (show_field e.hour
              ++ 32
                ∷ (show_field e.day ++ 32 ∷ (show_field e.month ++ 32 ∷ show_field e.weekday))) =
      simp append_assoc in
    let whole =
      strip-between (show_field e.minute) mid (show_field e.weekday)
        (show_items-Inked e.minute.first e.minute.others)
        (show_items-Inked e.weekday.first e.weekday.others)
        (show_items-IsCons e.minute.first e.minute.others)
        (show_items-IsCons e.weekday.first e.weekday.others) in
    rw (← assoc) whole

member-filter : (p : ℕ → Bool) (v : ℕ) (vs : List ℕ) → member v (filter p vs) ≡ (member v vs && p v)
member-filter p v [] = refl
member-filter p v (x ∷ xs) = elim (Bool-cases (x == v)) [
  | inl same ↦ let e : x ≡ v = (==_iff x v).0 same in rw e (ground (arith, member-filter p v xs))
  | inr other ↦ ground (arith, member-filter p v xs)
]

field_values :
    (f : Field) (low high : ℕ)
    → HasSteps f
    → parse_cron_field (show_field f) low high
      ≡ ok (filter (λ v. matches_any low v f) (range low (high + 1)))
unfolding show_field
field_values f low high h = parse_cron_field-show_items low high f.first f.others h.0 h.1

test_field_lem :
    (f : Field) (low high v : ℕ) (b : Bool)
    → HasSteps f
    → low ≤ v
    → v ≤ high
    → test_field v (show_field f) low high (ok b) ≡ ok (matches_any low v f && b)
unfolding test_field
test_field_lem f low high v b h p q =
    rw
      (
        field_values f low high h,
        member-filter (λ x. matches_any low x f) v (range low (high + 1)),
        member-range low high v,
        le→leb low v p,
        le→leb v high q,
      )
      (ground arith)

leb-greatest : (v : ℕ) (vs : List ℕ) → member v vs ≡ true → leb v (greatest vs) ≡ true
leb-greatest v [] h = cc
leb-greatest v (x ∷ xs) h = ground (arith, leb-greatest v xs)

member-translate_dow :
    (w : ℕ) (days : List ℕ) → member w (translate_dow days) ≡ member w (map python_day days)
unfolding translate_dow
member-translate_dow w days =
    let vs = map python_day days in
    rw
      (
        member-filter (λ v. member v vs) w (range 0 (greatest vs + 1)),
        member-range 0 (greatest vs) w,
      )
      (ground (arith, leb-greatest w vs))

member-map-filter :
    (p : ℕ → Bool) (w : ℕ) (vs : List ℕ)
    → member w (map python_day (filter p vs)) ≡ any (λ d. p d && (python_day d == w)) vs
member-map-filter p w [] = refl
member-map-filter p w (v ∷ vs) = elim (Bool-cases (p v)) [
  | inl k ↦ rw k (ground (arith, member-map-filter p w vs))
  | inr k ↦ rw k (member-map-filter p w vs)
]

-- The days of the week that a field names, with Sunday as 0 or 7; `w` counts from Monday = 0.
abbrev pub names_day : ℕ → Field → Bool
names_day w f = matches_any 0 (w + 1) f || ((w == 6) && matches_any 0 0 f)

days_by :
    (p : ℕ → Bool) (w : ℕ)
    → w ≤ 6
    → any (λ d. p d && (python_day d == w)) (range 0 8) ≡ (p (w + 1) || ((w == 6) && p 0))
unfolding range_by
days_by p zero h = ground arith
days_by p (suc zero) h = ground arith
days_by p (suc (suc zero)) h = ground arith
days_by p (suc (suc (suc zero))) h = ground arith
days_by p (suc (suc (suc (suc zero)))) h = ground arith
days_by p (suc (suc (suc (suc (suc zero))))) h = ground arith
days_by p (suc (suc (suc (suc (suc (suc zero)))))) h = ground arith
days_by p (suc (suc (suc (suc (suc (suc (suc w))))))) h = absurd (omega arith)

weekday_lem :
    (f : Field) (w : ℕ)
    → w ≤ 6
    → member w (translate_dow (filter (λ v. matches_any 0 v f) (range 0 8))) ≡ names_day w f
weekday_lem f w h =
    member-translate_dow w _
    ∙ (member-map-filter (λ v. matches_any 0 v f) w (range 0 8)
        ∙ days_by (λ v. matches_any 0 v f) w h)

-- What `datetime` says of every moment.
pub record IsMoment (t : Moment) : Type 0 where
  pub minute_le : t.minute ≤ 59
  pub hour_le : t.hour ≤ 23
  pub day_ge : 1 ≤ t.day
  pub day_le : t.day ≤ 31
  pub month_ge : 1 ≤ t.month
  pub month_le : t.month ≤ 12
  pub weekday_le : t.weekday ≤ 6

pub record AllHaveSteps (e : Expression) : Type 0 where
  pub minute_steps : HasSteps e.minute
  pub hour_steps : HasSteps e.hour
  pub day_steps : HasSteps e.day
  pub month_steps : HasSteps e.month
  pub weekday_steps : HasSteps e.weekday

-- A cron expression printed from five lists of items (`*`, `*/n` with n above 0, `a-b`, a number)
-- parses without error, and matches a moment exactly when in each of the five fields some item
-- matches, the day of the month and the day of the week both: minutes and hours count from 0, days
-- and months from 1, and a day of the week from Sunday, which is 0 or 7.
pub cron_matches-show_expression :
    (e : Expression) (t : Moment)
    → AllHaveSteps e
    → IsMoment t
    → cron_matches (show_expression e) t
      ≡ ok (
          matches_any 0 t.minute e.minute
          && (matches_any 0 t.hour e.hour
              && (matches_any 1 t.day e.day
                  && (matches_any 1 t.month e.month && names_day t.weekday e.weekday))))
unfolding cron_matches words match_fields
cron_matches-show_expression e t s m =
    rw
      (
        strip-show_expression e,
        words-show_expression e,
        field_values e.weekday 0 7 s.weekday_steps,
        weekday_lem e.weekday t.weekday m.weekday_le,
        test_field_lem e.month 1 12 t.month (names_day t.weekday e.weekday) s.month_steps m.month_ge
            m.month_le,
        test_field_lem e.day 1 31 t.day _ s.day_steps m.day_ge m.day_le,
        test_field_lem e.hour 0 23 t.hour _ s.hour_steps (omega arith) m.hour_le,
        test_field_lem e.minute 0 59 t.minute _ s.minute_steps (omega arith) m.minute_le,
      )
      refl
