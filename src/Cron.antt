-- ===== src/Cron.antt =====
-- Cron expressions of src/swe_team/scheduler.py. Expressions are texts by code points. A set that
-- the source collects and sorts is the list of its members in range, in order. What `datetime`
-- says of a moment is a record, and a function gives it for each whole minute, by its number from
-- the start of day 0. An instant is a number of microseconds from there.
pub mod Ranges
pub mod Digits
pub mod Fields
pub mod Texts
pub mod Matching
pub mod Search
use swe_squad.Prelude.{
  ℕ, zero, suc, ◌+◌, ◌-◌, ◌*◌, ◌/◌, min, max, Bool, true, false, ◌&&◌, ◌||◌, not, Option, none,
  some, List, [], ◌∷◌, ◌++◌, map, filter, any, ltb, leb, ◌==◌, if◌then◌else◌, is_prefix, contains,
  seq_eq, split_on, cut_at, strip, words, is_digits, to_nat, drop,
}

-- What the `ValueError` says.
pub data Problem : Type 0 where
  invalid_step zero_step invalid_range invalid_token no_match : Problem

pub data Result {ℓ} (A : Type ℓ) : Type ℓ where
  ok : A → Result A
  value_error : Problem → Result A

abbrev pub and_then {ℓ κ} : {A : Type ℓ} {B : Type κ} → Result A → (A → Result B) → Result B
and_then (ok a) f = f a
and_then (value_error e) f = value_error e

-- `range(start, stop, step)`, in at most `count` rounds.
unfoldable pub range_by : (count start stop step : ℕ) → List ℕ
range_by zero start stop step = []
range_by (suc count) start stop step =
    let rest = range_by count (start + step) stop step in
    if ltb start stop then start ∷ rest else []

abbrev pub range : ℕ → ℕ → List ℕ
range start stop = range_by (stop - start) start stop 1

abbrev pub member : ℕ → List ℕ → Bool
member v vs = any (λ x. x == v) vs

-- `sorted(v for v in values if low <= v <= high)`
abbrev pub sorted_within : ℕ → ℕ → List ℕ → List ℕ
sorted_within low high vs = filter (λ v. member v vs) (range low (high + 1))

abbrev pub star : ℕ
star = 42

abbrev pub minus : ℕ
minus = 45

abbrev pub slash : ℕ
slash = 47

abbrev pub comma : ℕ
comma = 44

-- `int` of the bounds, clamped.
abbrev clamped_range : ℕ → ℕ → ℕ → ℕ → List ℕ
clamped_range low high a b =
    let start = max low a in
    let end = min high b in if leb start end then range start (end + 1) else []

unfoldable pub parse_bounds : ℕ → ℕ → Option (List ℕ × List ℕ) → Result (List ℕ)
parse_bounds low high none = value_error invalid_range
parse_bounds low high (some (a, b)) =
    if is_digits (strip a) && is_digits (strip b)
    then ok (clamped_range low high (to_nat (strip a)) (to_nat (strip b)))
    else value_error invalid_range

-- The values of one part, without the blanks round it.
unfoldable pub parse_part : ℕ → ℕ → List ℕ → Result (List ℕ)
parse_part low high part =
    if seq_eq part (star ∷ [])
    then ok (range low (high + 1))
    else if is_prefix (star ∷ slash ∷ []) part
    then (if not (is_digits (drop 2 part))
        then value_error invalid_step
        else if to_nat (drop 2 part) == 0
        then value_error zero_step
        else ok (range_by (high + 1 - low) low (high + 1) (to_nat (drop 2 part))))
    else if contains (minus ∷ []) part
    then parse_bounds low high (cut_at minus part)
    else if is_digits part
    then ok (to_nat part ∷ [])
    else value_error invalid_token

-- The loop over the parts: the first that is wrong raises.
unfoldable pub parse_parts : ℕ → ℕ → List (List ℕ) → Result (List ℕ)
parse_parts low high [] = ok []
parse_parts low high (p ∷ ps) =
    and_then (parse_part low high (strip p))
      λ vs. and_then (parse_parts low high ps) λ ws. ok (vs ++ ws)

unfoldable pub parse_cron_field : List ℕ → ℕ → ℕ → Result (List ℕ)
parse_cron_field field low high =
    and_then (parse_parts low high (split_on comma field)) λ vs. ok (sorted_within low high vs)

-- `_translate_dow`
abbrev pub python_day : ℕ → ℕ
python_day d = if (d == 0) || (d == 7) then 6 else d - 1

abbrev pub greatest : List ℕ → ℕ
greatest [] = 0
greatest (v ∷ vs) = max v (greatest vs)

unfoldable pub translate_dow : List ℕ → List ℕ
translate_dow days = let vs = map python_day days in sorted_within 0 (greatest vs) vs

-- A moment, with `weekday()` from Monday = 0 on.
pub record Moment : Type 0 where
  pub minute : ℕ
  pub hour : ℕ
  pub day : ℕ
  pub month : ℕ
  pub weekday : ℕ

-- `v in parse_cron_field(field, low, high) and …`: the rest is evaluated only if the test holds.
unfoldable pub test_field : ℕ → List ℕ → ℕ → ℕ → Result Bool → Result Bool
test_field v field low high rest =
    and_then (parse_cron_field field low high) λ vs. if member v vs then rest else ok false

unfoldable pub match_fields : List (List ℕ) → Moment → Result Bool
match_fields (minute ∷ hour ∷ dom ∷ month ∷ dow ∷ []) t =
    and_then (parse_cron_field dow 0 7) λ days. test_field t.minute minute 0 59 (
      test_field t.hour hour 0 23 (
        test_field t.day dom 1 31
          (test_field t.month month 1 12 (ok (member t.weekday (translate_dow days))))))
match_fields _ t = ok false

unfoldable pub cron_matches : List ℕ → Moment → Result Bool
cron_matches expression t = match_fields (words (strip expression)) t

-- The `while` loop from the minute `i`, with `left` minutes to go before the limit: the minute of the
-- match.
unfoldable pub search : List ℕ → (ℕ → Moment) → (left i : ℕ) → Result ℕ
search expression at zero i = value_error no_match
search expression at (suc left) i =
    let rest = search expression at left (i + 1) in
    and_then (cron_matches expression (at i)) λ hit. if hit then ok i else rest

abbrev pub a_minute : ℕ
a_minute = 60_000_000

-- The start of a minute.
abbrev pub instant : Result ℕ → Result ℕ
instant (ok m) = ok (m * a_minute)
instant (value_error p) = value_error p

-- `after` without its seconds, and a minute more, is where the loop begins; it ends 48 hours later.
unfoldable pub next_cron_match : List ℕ → (at : ℕ → Moment) → (after : ℕ) → Result ℕ
next_cron_match expression at after = instant (search expression at 2880 (after / a_minute + 1))
