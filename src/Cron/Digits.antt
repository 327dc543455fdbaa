-- ===== src/Cron/Digits.antt =====
-- Decimal numbers as text, and the texts that are split and stripped at no place.
use swe_squad.Prelude.{
  ℕ, zero, suc, ◌+◌, ◌-◌, ◌*◌, ◌/◌, ◌%◌, ◌≤◌, ◌<◌, ◌≡◌, ◌≢◌, refl, ap, ◌∙◌, true, false, inl, inr,
  some, List, [], ◌∷◌, ◌++◌, ltb, if◌then◌else◌, is_prefix, contains, split_on, cut_at, strip,
  strip_left, is_digits, to_nat, to_nat_from, arith, Bool-cases, ltb→lt, All,
}
use swe_squad.Cron.{minus, comma}
use mathlib.Core.List.{reverse, reverse-cons, reverse-reverse}

-- The decimal digits of a number, before what follows.
unfoldable pub digits_onto : ℕ → ℕ → List ℕ → List ℕ
digits_onto zero n acc = (48 + n % 10) ∷ acc
digits_onto (suc f) n acc =
    let rest = digits_onto f (n / 10) ((48 + n % 10) ∷ acc) in
    if ltb n 10 then (48 + n % 10) ∷ acc else rest

unfoldable pub show_nat : ℕ → List ℕ
unfolding digits_onto
show_nat n = digits_onto n n []

pub digits-to_nat :
    (f n : ℕ) (acc : List ℕ) → n ≤ f → to_nat_from 0 (digits_onto f n acc) ≡ to_nat_from n acc
unfolding digits_onto to_nat_from
digits-to_nat zero n acc h = rw (let e : n ≡ 0 = omega arith in e) refl
digits-to_nat (suc f) n acc h = elim (Bool-cases (ltb n 10)) [
  | inl small ↦
      let k : n < 10 = ltb→lt n 10 small in
      let e : 0 * 10 + (48 + n % 10 - 48) ≡ n = omega arith in
      rw small (ap (λ x. to_nat_from x acc) e)
  | inr big ↦
      let k : n / 10 ≤ f = ground arith in
      let e : n / 10 * 10 + (48 + n % 10 - 48) ≡ n = omega arith in
      rw big (digits-to_nat f (n / 10) ((48 + n % 10) ∷ acc) k ∙ ap (λ x. to_nat_from x acc) e)
]

-- A text of digits only.
abbrev pub DigitsOnly : List ℕ → Type 0
DigitsOnly = All (λ c. (48 ≤ c) × (c ≤ 57))

pub digits-All : (f n : ℕ) (acc : List ℕ) → DigitsOnly acc → DigitsOnly (digits_onto f n acc)
unfolding digits_onto
digits-All zero n acc h = ((omega arith, omega arith), h)
digits-All (suc f) n acc h = elim (Bool-cases (ltb n 10)) [
  | inl small ↦ rw small ((omega arith, omega arith), h)
  | inr big ↦ rw big (digits-All f (n / 10) _ ((omega arith, omega arith), h))
]

pub digits-cons : (f n : ℕ) (acc : List ℕ) → (c : ℕ) × (w : List ℕ) × (digits_onto f n acc ≡ c ∷ w)
unfolding digits_onto
digits-cons zero n acc = (48 + n % 10, acc, refl)
digits-cons (suc f) n acc = elim (Bool-cases (ltb n 10)) [
  | inl small ↦ (48 + n % 10, acc, rw small refl)
  | inr big ↦ rw big (digits-cons f (n / 10) _)
]

pub show_nat-digits : (n : ℕ) → DigitsOnly (show_nat n)
unfolding show_nat
show_nat-digits n = digits-All n n [] tt

pub show_nat-cons : (n : ℕ) → (c : ℕ) × (w : List ℕ) × (show_nat n ≡ c ∷ w)
unfolding show_nat
show_nat-cons n = digits-cons n n []

pub to_nat-show_nat : (n : ℕ) → to_nat (show_nat n) ≡ n
unfolding show_nat to_nat to_nat_from
to_nat-show_nat n = digits-to_nat n n [] (omega arith)

pub DigitsOnly-is_digits : (c : ℕ) (w : List ℕ) → DigitsOnly (c ∷ w) → is_digits (c ∷ w) ≡ true
DigitsOnly-is_digits c [] h = ground arith
DigitsOnly-is_digits c (d ∷ w) h = ground (arith, DigitsOnly-is_digits d w h.1)

pub is_digits_of : (s : List ℕ) (c : ℕ) (w : List ℕ) → s ≡ c ∷ w → DigitsOnly s → is_digits s ≡ true
is_digits_of [] c w e h = cc
is_digits_of (d ∷ v) c w e h = DigitsOnly-is_digits d v h

pub is_digits-show_nat : (n : ℕ) → is_digits (show_nat n) ≡ true
is_digits-show_nat n =
    let (c, w, e) = show_nat-cons n in is_digits_of (show_nat n) c w e (show_nat-digits n)

-- The characters of a printed item.
abbrev pub Plain : List ℕ → Type 0
Plain = All (λ c. (42 ≤ c) × (c ≤ 57) × (c ≢ 44))

pub DigitsOnly-Plain : (w : List ℕ) → DigitsOnly w → Plain w
DigitsOnly-Plain [] h = tt
DigitsOnly-Plain (c ∷ w) h = ((omega arith, omega arith, omega arith), DigitsOnly-Plain w h.1)

pub Plain-append : (v w : List ℕ) → Plain v → Plain w → Plain (v ++ w)
Plain-append [] w h k = k
Plain-append (c ∷ v) w h k = (h.0, Plain-append v w h.1 k)

pub strip_left-Plain : (w : List ℕ) → Plain w → strip_left w ≡ w
unfolding strip_left
strip_left-Plain [] h = refl
strip_left-Plain (c ∷ w) h = ground arith

pub Plain-reverse : (w : List ℕ) → Plain w → Plain (reverse w)
Plain-reverse [] h = tt
Plain-reverse (c ∷ w) h =
    rw reverse-cons (Plain-append (reverse w) (c ∷ []) (Plain-reverse w h.1) (h.0, tt))

pub strip-Plain : (w : List ℕ) → Plain w → strip w ≡ w
unfolding strip
strip-Plain w h =
    rw (strip_left-Plain w h)
      (rw (strip_left-Plain (reverse w) (Plain-reverse w h)) (reverse-reverse w))

-- A text without the character that splits.
pub split_on-Plain : (w : List ℕ) → Plain w → split_on comma w ≡ w ∷ []
unfolding split_on
split_on-Plain [] h = refl
split_on-Plain (c ∷ w) h = ground (arith, split_on-Plain w h.1)

pub split_on-comma :
    (w rest : List ℕ) → Plain w → split_on comma (w ++ comma ∷ rest) ≡ w ∷ split_on comma rest
unfolding split_on
split_on-comma [] rest h = refl
split_on-comma (c ∷ w) rest h = ground (arith, split_on-comma w rest h.1)

pub contains-minus_digits : (w : List ℕ) → DigitsOnly w → contains (minus ∷ []) w ≡ false
unfolding contains is_prefix
contains-minus_digits [] h = refl
contains-minus_digits (c ∷ w) h = ground (arith, contains-minus_digits w h.1)

pub contains-minus : (v w : List ℕ) → contains (minus ∷ []) (v ++ minus ∷ w) ≡ true
unfolding contains is_prefix
contains-minus [] w = refl
contains-minus (c ∷ v) w = ground (arith, contains-minus v w)

pub cut_at-minus : (v w : List ℕ) → DigitsOnly v → cut_at minus (v ++ minus ∷ w) ≡ some (v, w)
unfolding cut_at
cut_at-minus [] w h = refl
cut_at-minus (c ∷ v) w h = ground (arith, cut_at-minus v w h.1)
