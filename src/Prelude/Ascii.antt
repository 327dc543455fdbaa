-- ===== src/Prelude/Ascii.antt =====
-- Texts by code points: what the program uses of Python's `split`, `strip`, `isdigit` and `int`,
-- for ASCII.
use mathlib.Core.Bool.{Bool, true, false, ◌&&◌, ◌||◌}
use mathlib.Core.Option.{Option, none, some}
use mathlib.Core.List.{List, [], ◌∷◌, ◌++◌, reverse}
use Prim.Native.Nat.{ℕ, zero, suc, ◌+◌, ◌-◌, ◌*◌}
use swe_squad.Prelude.Tests.{leb, ◌==◌, if◌then◌else◌}

abbrev pub seq_eq : List ℕ → List ℕ → Bool
seq_eq [] [] = true
seq_eq (x ∷ xs) (y ∷ ys) = let rest = seq_eq xs ys in (x == y) && rest
seq_eq _ _ = false

abbrev cons_head : ℕ → List (List ℕ) → List (List ℕ)
cons_head c [] = (c ∷ []) ∷ []
cons_head c (w ∷ ws) = (c ∷ w) ∷ ws

-- `s.split(c)` for one character.
unfoldable pub split_on : ℕ → List ℕ → List (List ℕ)
split_on c [] = [] ∷ []
split_on c (x ∷ xs) = let rest = split_on c xs in if x == c then [] ∷ rest else cons_head x rest

-- `s.split(c, 1)` where `c` occurs.
unfoldable pub cut_at : ℕ → List ℕ → Option (List ℕ × List ℕ)
cut_at c [] = none
cut_at c (x ∷ xs) =
    let rest = cut_at c xs in
    if x == c then some ([], xs) else elim rest [ none ↦ none | some (a, b) ↦ some (x ∷ a, b) ]

abbrev pub is_space : ℕ → Bool
is_space c = (leb 9 c && leb c 13) || (leb 28 c && leb c 32)

unfoldable pub strip_left : List ℕ → List ℕ
strip_left [] = []
strip_left (x ∷ xs) = let rest = strip_left xs in if is_space x then rest else x ∷ xs

-- `s.strip()`
unfoldable pub strip : List ℕ → List ℕ
strip s = reverse (strip_left (reverse (strip_left s)))

abbrev pub flush : List ℕ → List (List ℕ) → List (List ℕ)
flush [] ws = ws
flush (c ∷ cs) ws = (c ∷ cs) ∷ ws

-- `s.split()`
unfoldable pub words_from : List ℕ → List ℕ → List (List ℕ)
words_from word [] = flush word []
words_from word (x ∷ xs) =
    let next = words_from [] xs in
    let more = words_from (word ++ x ∷ []) xs in if is_space x then flush word next else more

unfoldable pub words : List ℕ → List (List ℕ)
unfolding words_from
words s = words_from [] s

abbrev pub is_digit : ℕ → Bool
is_digit c = leb 48 c && leb c 57

abbrev all_digits : List ℕ → Bool
all_digits [] = true
all_digits (c ∷ cs) = let rest = all_digits cs in is_digit c && rest

-- `s.isdigit()`
abbrev pub is_digits : List ℕ → Bool
is_digits [] = false
is_digits (c ∷ cs) = all_digits (c ∷ cs)

unfoldable pub to_nat_from : ℕ → List ℕ → ℕ
to_nat_from n [] = n
to_nat_from n (c ∷ cs) = to_nat_from (n * 10 + (c - 48)) cs

-- `int(s)` of digits.
unfoldable pub to_nat : List ℕ → ℕ
to_nat s = to_nat_from 0 s

abbrev pub drop {ℓ} : {A : Type ℓ} → ℕ → List A → List A
drop zero s = s
drop (suc n) [] = []
drop (suc n) (x ∷ xs) = drop n xs
