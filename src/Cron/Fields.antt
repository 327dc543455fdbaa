-- ===== src/Cron/Fields.antt =====
-- The fields of a cron expression, printed from items and parsed.
use swe_squad.Prelude.{
  ℕ, zero, suc, ◌+◌, ◌-◌, ◌%◌, ◌≤◌, ◌<◌, min, max, ◌≡◌, ◌≢◌, refl, ap, ◌∙◌, Bool, true, false, ◌&&◌,
  ◌||◌, inl, inr, List, [], ◌∷◌, ◌++◌, filter, any, ltb, leb, ◌==◌, is_prefix, seq_eq, split_on,
  strip, is_digits, to_nat, arith, Bool-cases, le→leb, All,
}
use swe_squad.Cron.{
  ok, range_by, range, member, star, minus, slash, comma, clamped_range, parse_bounds, parse_part,
  parse_parts, parse_cron_field,
}
use swe_squad.Cron.Ranges.{member-range_by, member-range}
use swe_squad.Cron.Digits.{
  show_nat, DigitsOnly, show_nat-digits, to_nat-show_nat, is_digits-show_nat, Plain,
  DigitsOnly-Plain, Plain-append, strip-Plain, split_on-Plain, split_on-comma,
  contains-minus_digits, contains-minus, cut_at-minus,
}

-- One part of a field.
pub data Item : Type 0 where
  every : Item
  every_nth : ℕ → Item
  span : ℕ → ℕ → Item
  at : ℕ → Item

unfoldable pub show_item : Item → List ℕ
show_item every = star ∷ []
show_item (every_nth n) = star ∷ slash ∷ show_nat n
show_item (span a b) = show_nat a ++ minus ∷ show_nat b
show_item (at n) = show_nat n

unfoldable pub show_items : Item → List Item → List ℕ
show_items i [] = show_item i
show_items i (j ∷ is) = show_item i ++ comma ∷ show_items j is

-- What the printed items mean for a number of the field.
abbrev pub item_matches : ℕ → ℕ → Item → Bool
item_matches low v every = true
item_matches low v (every_nth n) = ((v - low) % n) == 0
item_matches low v (span a b) = leb a v && leb v b
item_matches low v (at n) = n == v

abbrev pub IsStep : Item → Type 0
IsStep (every_nth n) = 0 < n
IsStep _ = 0 ≤ 0

pub show_item-Plain : (i : Item) → Plain (show_item i)
unfolding show_item
show_item-Plain every = omega arith
show_item-Plain (every_nth n) = (
  (omega arith, omega arith, omega arith),
  ((omega arith, omega arith, omega arith), DigitsOnly-Plain _ (show_nat-digits n)),
)
show_item-Plain (span a b) =
    Plain-append (show_nat a) _ (DigitsOnly-Plain _ (show_nat-digits a))
      ((omega arith, omega arith, omega arith), DigitsOnly-Plain _ (show_nat-digits b))
show_item-Plain (at n) = DigitsOnly-Plain _ (show_nat-digits n)

-- The parser on a printed item.
abbrev item_values : ℕ → ℕ → Item → List ℕ
item_values low high every = range low (high + 1)
item_values low high (every_nth n) = range_by (high + 1 - low) low (high + 1) n
item_values low high (span a b) = clamped_range low high a b
item_values low high (at n) = n ∷ []

-- A text that starts with a digit is no star.
not_star : (c : ℕ) (v w : List ℕ) → c ≢ star → seq_eq (c ∷ v) (star ∷ w) ≡ false
not_star c v w h = ground arith

not_prefix : (c : ℕ) (v w : List ℕ) → c ≢ star → is_prefix (star ∷ w) (c ∷ v) ≡ false
unfolding is_prefix
not_prefix c v w h = ground arith

parse_digits :
    (low high : ℕ) (s : List ℕ)
    → is_digits s ≡ true
    → DigitsOnly s
    → parse_part low high s ≡ ok (to_nat s ∷ [])
unfolding parse_part is_prefix
parse_digits low high [] h d = ground arith
parse_digits low high (c ∷ w) h d =
    rw
      (
        not_star c w [] (omega arith),
        not_prefix c w (slash ∷ []) (omega arith),
        contains-minus_digits (c ∷ w) d,
        h,
      )
      refl

parse_span :
    (low high : ℕ) (v w : List ℕ)
    → is_digits v ≡ true
    → is_digits w ≡ true
    → DigitsOnly v
    → DigitsOnly w
    → parse_part low high (v ++ minus ∷ w) ≡ ok (clamped_range low high (to_nat v) (to_nat w))
unfolding parse_part parse_bounds
parse_span low high [] w h k d e = cc
parse_span low high (c ∷ v) w h k d e =
    let sv : strip (c ∷ v) ≡ c ∷ v = strip-Plain (c ∷ v) (DigitsOnly-Plain (c ∷ v) d) in
    let sw : strip w ≡ w = strip-Plain w (DigitsOnly-Plain w e) in
    rw
      (
        not_star c (v ++ minus ∷ w) [] (omega arith),
        not_prefix c (v ++ minus ∷ w) (slash ∷ []) (omega arith),
        contains-minus (c ∷ v) w,
        cut_at-minus (c ∷ v) w d,
        sv,
        sw,
        h,
        k,
      )
      refl

parse_part-show_item :
    (low high : ℕ) (i : Item)
    → IsStep i
    → parse_part low high (show_item i) ≡ ok (item_values low high i)
unfolding parse_part show_item is_prefix
parse_part-show_item low high every h = refl
parse_part-show_item low high (every_nth n) h =
    rw (is_digits-show_nat n, to_nat-show_nat n) (ground arith)
parse_part-show_item low high (span a b) h =
    parse_span low high _ _ (is_digits-show_nat a) (is_digits-show_nat b) (show_nat-digits a)
      (show_nat-digits b)
    ∙ (rw (to_nat-show_nat a, to_nat-show_nat b) refl)
parse_part-show_item low high (at n) h =
    parse_digits low high _ (is_digits-show_nat n) (show_nat-digits n)
    ∙ (rw (to_nat-show_nat n) refl)

-- The numbers that the printed items give, in order.
abbrev values : ℕ → ℕ → Item → List Item → List ℕ
values low high i [] = item_values low high i ++ []
values low high i (j ∷ is) = item_values low high i ++ values low high j is

parse_parts-show_items :
    (low high : ℕ) (i : Item) (is : List Item)
    → IsStep i
    → All IsStep is
    → parse_parts low high (split_on comma (show_items i is)) ≡ ok (values low high i is)
unfolding parse_parts show_items
parse_parts-show_items low high i [] h k =
    rw
      (
        split_on-Plain (show_item i) (show_item-Plain i),
        strip-Plain (show_item i) (show_item-Plain i),
        parse_part-show_item low high i h,
      )
      refl
parse_parts-show_items low high i (j ∷ is) h k =
    rw
      (
        split_on-comma (show_item i) (show_items j is) (show_item-Plain i),
        strip-Plain (show_item i) (show_item-Plain i),
        parse_part-show_item low high i h,
        parse_parts-show_items low high j is k.0 k.1,
      )
      refl

any-append : (p : ℕ → Bool) (vs ws : List ℕ) → any p (vs ++ ws) ≡ (any p vs || any p ws)
any-append p [] ws = refl
any-append p (v ∷ vs) ws = ground (arith, any-append p vs ws)

-- Within the field's range an item's numbers are those that match it.
member-item_values :
    (low high v : ℕ) (i : Item)
    → IsStep i
    → leb low v ≡ true
    → leb v high ≡ true
    → member v (item_values low high i) ≡ item_matches low v i
member-item_values low high v every s h k = rw (member-range low high v, h, k) refl
member-item_values low high v (every_nth n) s h k =
    rw (member-range_by (high + 1 - low) low (high + 1) n v s (grind arith)) (ground arith)
member-item_values low high v (span a b) s h k = elim (Bool-cases (leb (max low a) (min high b))) [
  | inl p ↦ rw p (rw (member-range (max low a) (min high b) v) (ground arith))
  | inr q ↦ rw q (ground arith)
]
member-item_values low high v (at n) s h k = ground arith

member-values :
    (low high v : ℕ) (i : Item) (is : List Item)
    → IsStep i
    → All IsStep is
    → leb low v ≡ true
    → leb v high ≡ true
    → member v (values low high i is) ≡ any (item_matches low v) (i ∷ is)
member-values low high v i [] s t h k =
    rw (any-append (λ x. x == v) (item_values low high i) [], member-item_values low high v i s h k)
      (ground arith)
member-values low high v i (j ∷ is) s t h k =
    rw
      (
        any-append (λ x. x == v) (item_values low high i) (values low high j is),
        member-item_values low high v i s h k,
        member-values low high v j is t.0 t.1 h k,
      )
      (ground arith)

-- Every number of the list lies between the two.
abbrev IsIn : ℕ → ℕ → List ℕ → Type 0
IsIn low stop = All (λ v. (leb low v ≡ true) × (ltb v stop ≡ true))

range_by-IsIn : (n start stop low : ℕ) → low ≤ start → IsIn low stop (range_by n start stop 1)
unfolding range_by
range_by-IsIn zero start stop low h = tt
range_by-IsIn (suc n) start stop low h = elim (Bool-cases (ltb start stop)) [
  | inl p ↦ rw p ((le→leb low start h, p), range_by-IsIn n (start + 1) stop low (omega arith))
  | inr q ↦ rw q tt
]

filter_agree :
    (low stop : ℕ) (p q : ℕ → Bool) (vs : List ℕ)
    → IsIn low stop vs
    → ((v : ℕ) → leb low v ≡ true → ltb v stop ≡ true → p v ≡ q v)
    → filter p vs ≡ filter q vs
filter_agree low stop p q [] h e = refl
filter_agree low stop p q (v ∷ vs) h e =
    rw (e v h.0.0 h.0.1, filter_agree low stop p q vs h.1 e) refl

-- A cron field that lists items (`*`, a step `*/n` with n above 0, a range `a-b`, a number), printed
-- with decimal numbers and commas, parses without error, and gives in ascending order exactly those
-- numbers of the field's range that one of the items matches: for a step, counted from the low end
-- of the range; for a range or a number, whatever lies outside the field's range is left out.
pub parse_cron_field-show_items :
    (low high : ℕ) (i : Item) (is : List Item)
    → IsStep i
    → All IsStep is
    → parse_cron_field (show_items i is) low high
      ≡ ok (filter (λ v. any (item_matches low v) (i ∷ is)) (range low (high + 1)))
unfolding parse_cron_field
parse_cron_field-show_items low high i is s t = rw (parse_parts-show_items low high i is s t) (
    ap ok (
      filter_agree low (high + 1) _ _ _ (range_by-IsIn _ low (high + 1) low (omega arith))
        (λ v h k. member-values low high v i is s t h (ground arith))))
