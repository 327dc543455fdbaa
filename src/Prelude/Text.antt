-- ===== src/Prelude/Text.antt =====
-- The order of Python's `str`: by code points, from the left.
use Prim.Native.Char.{code}
use Prim.Native.String.{String}
use mathlib.Core.Path.{◌≡◌, refl}
use mathlib.Core.Logic.{◌⊎◌, inl, inr}
use mathlib.Core.List.{List, [], ◌∷◌}
use Prim.Native.Nat.{ℕ}
use mathlib.Core.Bool.{Bool, true, false}
use native.Mathlib.Omega.{arith}
use mathlib.Core.Bool.{◌&&◌}
use mathlib.Core.List.{map}
use Prim.Native.Nat.{◌+◌}
use swe_squad.Prelude.Lists.{any}
use swe_squad.Prelude.Tests.{leb, ltb, if◌then◌else◌, ◌==◌ as nat_eq}
pub use text.Mathlib.Text.{◌==◌ as str_eq}

unfoldable pub str_leb : String → String → Bool
str_leb String.[] t = true
str_leb (String.◌∷◌ c s) String.[] = false
str_leb (String.◌∷◌ c s) (String.◌∷◌ d t) =
    let rest = str_leb s t in
    if ltb (code c) (code d) then true else if nat_eq (code c) (code d) then rest else false

pub str_leb_refl : (s : String) → str_leb s s ≡ true
unfolding str_leb
str_leb_refl String.[] = refl
str_leb_refl (String.◌∷◌ c s) = ground (arith, str_leb_refl s)

pub str_leb-total : (s t : String) → (str_leb s t ≡ true) ⊎ (str_leb t s ≡ true)
unfolding str_leb
str_leb-total String.[] t = inl refl
str_leb-total (String.◌∷◌ c s) String.[] = inr refl
str_leb-total (String.◌∷◌ c s) (String.◌∷◌ d t) = ground (arith, str_leb-total s t)

pub str_leb_trans : (s t u : String) → str_leb s t ≡ true → str_leb t u ≡ true → str_leb s u ≡ true
unfolding str_leb
str_leb_trans String.[] t u h k = refl
str_leb_trans (String.◌∷◌ c s) (String.◌∷◌ d t) (String.◌∷◌ e u) h k =
    ground (arith, str_leb_trans s t u)
str_leb_trans _ _ _ h k = ground arith

-- The code points of a text.
abbrev pub codes : String → List ℕ
codes String.[] = []
codes (String.◌∷◌ c s) = code c ∷ codes s

-- `s.lower()` for the ASCII letters, in which every keyword that is looked for is written.
unfoldable pub lower : List ℕ → List ℕ
lower = map (λ c. if leb b'A' c && leb c b'Z' then c + 32 else c)

unfoldable pub is_prefix : List ℕ → List ℕ → Bool
is_prefix [] s = true
is_prefix (c ∷ p) [] = false
is_prefix (c ∷ p) (d ∷ s) = let rest = is_prefix p s in if nat_eq c d then rest else false

-- Python's `p in s`.
unfoldable pub contains : List ℕ → List ℕ → Bool
contains p [] = is_prefix p []
contains p (c ∷ s) = if is_prefix p (c ∷ s) then true else contains p s

unfoldable pub contains_any : List String → List ℕ → Bool
contains_any keywords s = any (λ k. contains (codes k) s) keywords
