-- ===== src/Prelude/Sorting.antt =====
-- Python's `sorted(xs, key=key)`, which is stable, and the items that a test keeps.
use Prim.Native.Nat.{ℕ, ◌≤◌}
use mathlib.Core.Path.{◌≡◌, ap, ◌∙◌}
use mathlib.Core.Logic.{◌⊎◌, ◌↔◌, inl, inr}
use mathlib.Core.Bool.{Bool, true}
use mathlib.Core.List.{List, [], ◌∷◌, Perm}
use mathlib.Core.List.Perm
use native.Mathlib.Omega.{arith}
use swe_squad.Prelude.Tests.{leb, if◌then◌else◌, Bool-cases}
use swe_squad.Prelude.Lists.{In, filter}

pub In-filter :
    {A : Type 0} (p : A → Bool) (x : A) (xs : List A)
    → In x (filter p xs) ↔ (In x xs × (p x ≡ true))
In-filter p x [] = (λ h. elim h [ ], λ (m, h). m)
In-filter p x (y ∷ ys) =
    let rest = In-filter p x ys in
    elim (Bool-cases (p y)) [
      | inl h ↦ rw h (
        λ m. elim m [ inl e ↦ (inl e, ap p e ∙ h) | inr k ↦ (inr ((rest.0 k).0), (rest.0 k).1) ],
        λ (m, k). elim m [ inl e ↦ inl e | inr l ↦ inr (rest.1 (l, k)) ],
      )
      | inr h ↦ rw h (
        λ m. (inr ((rest.0 m).0), (rest.0 m).1),
        λ (m, k). elim m [
          | inl e ↦ let no = ap p e ∙ h in absurd (ground (arith, k, no))
          | inr l ↦ rest.1 (l, k)
        ],
      )
    ]

module _ {A : Type 0} (key : A → ℕ) where
  unfoldable pub insert_on : A → List A → List A
  insert_on x [] = x ∷ []
  insert_on x (y ∷ ys) =
      let rest = insert_on x ys in if leb (key x) (key y) then x ∷ y ∷ ys else y ∷ rest

  unfoldable pub sort_on : List A → List A
  sort_on [] = []
  sort_on (x ∷ xs) = insert_on x (sort_on xs)

  pub In-insert_on : (x y : A) (ys : List A) → In x (insert_on y ys) ↔ ((x ≡ y) ⊎ In x ys)
  unfolding insert_on
  In-insert_on x y [] = (λ h. h, λ h. h)
  In-insert_on x y (z ∷ ys) = ground (arith, In-insert_on x y ys)

  pub In-sort_on : (x : A) (xs : List A) → In x (sort_on xs) ↔ In x xs
  unfolding sort_on
  In-sort_on x [] = (λ h. h, λ h. h)
  In-sort_on x (y ∷ ys) =
      let i = In-insert_on x y (sort_on ys) in
      let rest = In-sort_on x ys in
      (
        λ h. elim (i.0 h) [ inl e ↦ inl e | inr k ↦ inr (rest.0 k) ],
        λ h. i.1 (elim h [ inl e ↦ inl e | inr k ↦ inr (rest.1 k) ]),
      )

  insert_on-perm : (x : A) (ys : List A) → Perm (insert_on x ys) (x ∷ ys)
  unfolding insert_on
  insert_on-perm x [] = Perm.rfl
  insert_on-perm x (y ∷ ys) = elim (Bool-cases (leb (key x) (key y))) [
    | inl c ↦ rw c Perm.rfl
    | inr n ↦ rw n (Perm.trans (Perm.cons y (insert_on-perm x ys)) (Perm.swap x y ys))
  ]

  pub sort_on-perm : (xs : List A) → Perm (sort_on xs) xs
  unfolding sort_on
  sort_on-perm [] = Perm.rfl
  sort_on-perm (x ∷ xs) = Perm.trans (insert_on-perm x (sort_on xs)) (Perm.cons x (sort_on-perm xs))

  abbrev pub IsBelow : A → List A → Type 0
  IsBelow x ys = (y : A) → In y ys → key x ≤ key y

  abbrev pub IsAscending : List A → Type 0
  IsAscending [] = 0 ≤ 0
  IsAscending (x ∷ xs) = IsBelow x xs × IsAscending xs

  insert_on-IsAscending : (x : A) (ys : List A) → IsAscending ys → IsAscending (insert_on x ys)
  unfolding insert_on
  insert_on-IsAscending x [] h = (λ u m. elim m [ ], h)
  insert_on-IsAscending x (y ∷ ys) h = elim (Bool-cases (leb (key x) (key y))) [
    | inl c ↦
        rw c
          (λ u m. elim m [ inl e ↦ ground (arith, ap key e) | inr k ↦ ground (arith, h.0 u k) ], h)
    | inr n ↦ rw n (
      λ u m. elim ((In-insert_on u x ys).0 m) [
        | inl e ↦ ground (arith, ap key e)
        | inr k ↦ h.0 u k
      ],
      insert_on-IsAscending x ys (h.1),
    )
  ]

  pub sort_on-IsAscending : (xs : List A) → IsAscending (sort_on xs)
  unfolding sort_on
  sort_on-IsAscending [] = omega arith
  sort_on-IsAscending (x ∷ xs) = insert_on-IsAscending x (sort_on xs) (sort_on-IsAscending xs)
