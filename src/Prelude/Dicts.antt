-- ===== src/Prelude/Dicts.antt =====
-- Python's `dict` with text keys: an association list in insertion order.
use Prim.Native.String.{String}
use mathlib.Core.Path.{◌≡◌, refl}
use mathlib.Core.Bool.{true, false}
use mathlib.Core.Logic.{inl, inr}
use mathlib.Core.Option.{Option, none, some}
use mathlib.Core.List.{List, [], ◌∷◌}
use native.Mathlib.Omega.{arith}
use text.Mathlib.Text.{◌==◌, ◌==◌ as str_eq}
use text.Mathlib.TextEquality.{eq_iff}
use swe_squad.Prelude.Tests.{if◌then◌else◌, Bool-cases, is_some}
use swe_squad.Prelude.Lists.{length}
use Prim.Native.Nat.{◌+◌, ◌≤◌}

abbrev pub Dict {ℓ} : Type ℓ → Type ℓ
Dict V = List (String × V)

module _ {ℓ} {V : Type ℓ} where
  -- `d.get(k)`
  unfoldable pub lookup : String → Dict V → Option V
  lookup k [] = none
  lookup k ((j, v) ∷ d) = if j == k then some v else lookup k d

  -- `d[k] = v`: a key that is there keeps its place.
  unfoldable pub insert : String → V → Dict V → Dict V
  insert k v [] = (k, v) ∷ []
  insert k v ((j, w) ∷ d) = if j == k then (j, v) ∷ d else (j, w) ∷ insert k v d

  -- `del d[k]`, and `d.pop(k, None)`
  unfoldable pub erase : String → Dict V → Dict V
  erase k [] = []
  erase k ((j, v) ∷ d) = let rest = erase k d in if j == k then rest else (j, v) ∷ rest

  -- `list(d.values())`
  unfoldable pub values : Dict V → List V
  values [] = []
  values ((j, v) ∷ d) = v ∷ values d

  pub lookup-insert :
      (k j : String) (v : V) (d : Dict V)
      → lookup j (insert k v d) ≡ (if k == j then some v else lookup j d)
  unfolding lookup insert
  lookup-insert k j v [] = refl
  lookup-insert k j v ((i, w) ∷ d) =
      ground (arith, eq_iff k j, eq_iff i k, eq_iff i j, lookup-insert k j v d)

  pub lookup-erase :
      (k j : String) (d : Dict V) → lookup j (erase k d) ≡ (if k == j then none else lookup j d)
  unfolding lookup erase
  lookup-erase k j [] = ground arith
  lookup-erase k j ((i, w) ∷ d) =
      ground (arith, eq_iff k j, eq_iff i k, eq_iff i j, lookup-erase k j d)

  pub lookup-insert_self : (k : String) (v : V) (d : Dict V) → lookup k (insert k v d) ≡ some v
  lookup-insert_self k v d = ground (arith, lookup-insert k k v d, eq_iff k k)

  -- Each key stands once, as in every Python `dict`.
  abbrev pub HasUniqueKeys : Dict V → Type ℓ
  HasUniqueKeys [] = Unit
  HasUniqueKeys ((j, v) ∷ d) = (lookup j d ≡ none) × HasUniqueKeys d

  pub lookup-insert_eq :
      (k j : String) (v : V) (d : Dict V) → str_eq k j ≡ true → lookup j (insert k v d) ≡ some v
  lookup-insert_eq k j v d y = rw (lookup-insert k j v d) (rw y)

  pub lookup-insert_ne :
      (k j : String) (v : V) (d : Dict V)
      → str_eq k j ≡ false
      → lookup j (insert k v d) ≡ lookup j d
  lookup-insert_ne k j v d n = rw (lookup-insert k j v d) (rw n)

  pub insert-HasUniqueKeys :
      (k : String) (v : V) (d : Dict V) → HasUniqueKeys d → HasUniqueKeys (insert k v d)
  unfolding insert lookup
  insert-HasUniqueKeys k v [] u = (refl, tt)
  insert-HasUniqueKeys k v ((j, w) ∷ d) u = elim (Bool-cases (str_eq j k)) [
    | inl y ↦ rw y u
    | inr n ↦ rw n (
      rw (lookup-insert_ne k j v d (ground (arith, eq_iff k j, eq_iff j k))) u.0,
      insert-HasUniqueKeys k v d u.1,
    )
  ]

  pub lookup-erase-none :
      (k j : String) (d : Dict V) → lookup j d ≡ none → lookup j (erase k d) ≡ none
  lookup-erase-none k j d n = rw (lookup-erase k j d) (ground arith)

  pub erase-HasUniqueKeys : (k : String) (d : Dict V) → HasUniqueKeys d → HasUniqueKeys (erase k d)
  unfolding erase
  erase-HasUniqueKeys k [] u = tt
  erase-HasUniqueKeys k ((j, w) ∷ d) u = elim (Bool-cases (str_eq j k)) [
    | inl y ↦ rw y (erase-HasUniqueKeys k d u.1)
    | inr n ↦ rw n (lookup-erase-none k j d u.0, erase-HasUniqueKeys k d u.1)
  ]

  -- A new key makes the dictionary longer by one, an old one does not.
  pub length-insert :
      (k : String) (v : V) (d : Dict V)
      → length (insert k v d) ≡ length d + (if is_some (lookup k d) then 0 else 1)
  unfolding insert lookup
  length-insert k v [] = omega arith
  length-insert k v ((j, w) ∷ d) = elim (Bool-cases (str_eq j k)) [
    | inl y ↦ rw y (omega arith)
    | inr n ↦ rw n (omega (arith, length-insert k v d))
  ]

  pub length-erase :
      (k : String) (d : Dict V)
      → length (erase k d) + (if is_some (lookup k d) then 1 else 0) ≤ length d
  unfolding erase lookup
  length-erase k [] = omega arith
  length-erase k ((j, w) ∷ d) = elim (Bool-cases (str_eq j k)) [
    | inl y ↦ rw y (ground (arith, length-erase k d))
    | inr n ↦ rw n (ground (arith, length-erase k d))
  ]
