-- ===== src/Complexity/Modules.antt =====
-- Which fixes `check_fix_complexity` lets through.
use swe_squad.Prelude.{
  ℕ, ◌≤◌, String, ◌≡◌, refl, sym, ap, ◌∙◌, inl, inr, Bool, true, false, ◌&&◌, ◌||◌, not, Option,
  List, [], ◌∷◌, length, map, filter, In, arith, ltb, leb, str_eq, eq_iff, Bool-cases,
}
use swe_squad.Complexity.{
  is_in, distinct, is_empty, allowed_or_empty, module_for_path, changes_dependencies, outside,
  check_fix_complexity,
}

abbrev pub all : (String → Bool) → List String → Bool
all p [] = true
all p (x ∷ xs) = let rest = all p xs in p x && rest

-- What is left of a set once the names with `q` are taken out.
abbrev rest_of : (String → Bool) → List String → List String
rest_of q xs = filter (λ m. not (q m)) xs

is_in_cons : (x y : String) (ys : List String) → is_in x (y ∷ ys) ≡ (str_eq y x || is_in x ys)
unfolding is_in
is_in_cons x y ys = ground arith

rest_of_empty :
    (q : String → Bool) (x : String) (ys : List String)
    → is_in x ys ≡ true
    → is_empty (rest_of q ys) ≡ true
    → q x ≡ true
unfolding is_in
rest_of_empty q x [] m e = absurd (cc)
rest_of_empty q x (y ∷ ys) m e = elim (Bool-cases (q y)) [
  | inr n ↦ let e' = rw n at e in absurd (cc)
  | inl h ↦ elim (Bool-cases (str_eq y x)) [
    | inl y' ↦ ap q (sym ((eq_iff y x).0 y')) ∙ h
    | inr n ↦ rest_of_empty q x ys (rw n at m) (rw h at e)
  ]
]

-- A set has nothing outside `q` if and only if all names of the list are in `q`.
rest_of-distinct :
    (q : String → Bool) (xs : List String) → is_empty (rest_of q (distinct xs)) ≡ all q xs
unfolding distinct
rest_of-distinct q [] = refl
rest_of-distinct q (x ∷ xs) =
    let rest = rest_of-distinct q xs in
    elim (Bool-cases (is_in x (distinct xs))) [
      | inr n ↦ rw n (elim (Bool-cases (q x)) [ inl h ↦ rw h rest | inr f ↦ rw f ])
      | inl m ↦ rw m (elim (Bool-cases (is_empty (rest_of q (distinct xs)))) [
        | inl e ↦ rw (rest_of_empty q x (distinct xs) m e) rest
        | inr e ↦ ground arith
      ])
    ]

all-map :
    (f : String → String) (q : String → Bool) (xs : List String)
    → all q (map f xs) ≡ all (λ x. q (f x)) xs
all-map f q [] = refl
all-map f q (x ∷ xs) = rw (all-map f q xs) refl

is_in-distinct : (x : String) (xs : List String) → In x xs → is_in x (distinct xs) ≡ true
unfolding distinct is_in
is_in-distinct x [] m = elim m [ ]
is_in-distinct x (y ∷ xs) (inl e) = elim (Bool-cases (is_in y (distinct xs))) [
  | inl h ↦ rw h (ap (λ z. is_in z (distinct xs)) e ∙ h)
  | inr n ↦ rw n (rw ((eq_iff y x).1 (sym e)) refl)
]
is_in-distinct x (y ∷ xs) (inr m) =
    let rest = is_in-distinct x xs m in
    elim (Bool-cases (is_in y (distinct xs))) [
      | inl h ↦ rw h rest
      | inr n ↦ rw n (ground (arith, rest))
    ]

is_in-filter :
    (x : String) (p : String → Bool) (ys : List String)
    → is_in x ys ≡ true
    → p x ≡ true
    → is_in x (filter p ys) ≡ true
unfolding is_in
is_in-filter x p [] m h = m
is_in-filter x p (y ∷ ys) m h = elim (Bool-cases (str_eq y x)) [
  | inl e ↦ rw (ap p ((eq_iff y x).0 e) ∙ h) (rw e refl)
  | inr n ↦
      let rest = is_in-filter x p ys (rw n at m) h in
      elim (Bool-cases (p y)) [ inl k ↦ rw k (rw n rest) | inr k ↦ rw k rest ]
]

one_name :
    (x y : String) (zs : List String)
    → is_in x zs ≡ true
    → is_in y zs ≡ true
    → length zs ≤ 1
    → x ≡ y
unfolding is_in
one_name x y [] m n h = absurd (cc)
one_name x y (z ∷ []) m n h = sym ((eq_iff z x).0 (ground arith)) ∙ (eq_iff z y).0 (ground arith)
one_name x y (z ∷ w ∷ zs) m n h = absurd (omega arith)

In-map : (f : String → String) (x : String) (xs : List String) → In x xs → In (f x) (map f xs)
In-map f x [] m = elim m [ ]
In-map f x (y ∷ xs) (inl e) = inl (ap f e)
In-map f x (y ∷ xs) (inr m) = inr (In-map f x xs m)

module _ (as_posix : String → String) (parts : String → List String) (files : List String)
    (lines max_files max_lines : ℕ) (allowed_modules : Option (List String))
    (allow_dependency_changes : Bool) where
  -- The limits on size, and no dependency file unless they may change.
  abbrev pub fits : Bool
  fits =
      not (is_empty files)
      && (leb (length files) max_files
          && (leb lines max_lines
              && (allow_dependency_changes || not (changes_dependencies as_posix files))))

  abbrev pub is_valid : Bool
  is_valid =
      (check_fix_complexity as_posix parts files lines max_files max_lines allowed_modules
        allow_dependency_changes).0

  valid_allowed :
      is_empty (allowed_or_empty allowed_modules) ≡ false
      → is_valid
        ≡ (fits && is_empty (outside parts ("tests" ∷ allowed_or_empty allowed_modules) files))
  unfolding check_fix_complexity
  valid_allowed e = ground arith

  valid_single :
      is_empty (allowed_or_empty allowed_modules) ≡ true
      → is_valid ≡ (fits && not (ltb 1 (length (outside parts ("tests" ∷ []) files))))
  unfolding check_fix_complexity
  valid_single e = ground arith

  -- With allowed modules given, a fix is valid exactly if it changes at least one and at most
  -- `max_files` files, at most `max_lines` lines, no dependency file unless they may change, and
  -- only files of the allowed modules and of the tests.
  pub check_allowed :
      is_empty (allowed_or_empty allowed_modules) ≡ false
      → is_valid ≡ (
          fits
          && all
              (λ f. is_in (module_for_path parts f) ("tests" ∷ allowed_or_empty allowed_modules))
              files)
  unfolding outside
  check_allowed e =
      let scope =
        rest_of-distinct (λ m. is_in m ("tests" ∷ allowed_or_empty allowed_modules))
          (map (module_for_path parts) files)
        ∙ all-map (module_for_path parts)
            (λ m. is_in m ("tests" ∷ allowed_or_empty allowed_modules)) files in
      valid_allowed e ∙ ap (λ b. fits && b) scope

  -- Without allowed modules, a valid fix is within the same limits, and any two files that it
  -- changes outside the tests are of one module.
  pub check_single :
      (f g : String)
      → is_empty (allowed_or_empty allowed_modules) ≡ true
      → is_valid ≡ true
      → In f files
      → In g files
      → str_eq "tests" (module_for_path parts f) ≡ false
      → str_eq "tests" (module_for_path parts g) ≡ false
      → (fits ≡ true) × (module_for_path parts f ≡ module_for_path parts g)
  check_single f g e v mf mg nf ng =
      let both = sym (valid_single e) ∙ v in
      (
        ground arith,
        one_name (module_for_path parts f) (module_for_path parts g)
            (outside parts ("tests" ∷ []) files) (seen f mf nf) (seen g mg ng) (ground arith),
      )
    where
      seen :
          (x : String)
          → In x files
          → str_eq "tests" (module_for_path parts x) ≡ false
          → is_in (module_for_path parts x) (outside parts ("tests" ∷ []) files) ≡ true
      seen x m n =
          unfold outside is_in in
          is_in-filter (module_for_path parts x) (λ y. not (is_in y ("tests" ∷ [])))
            (distinct (map (module_for_path parts) files))
            (is_in-distinct (module_for_path parts x) (map (module_for_path parts) files)
              (In-map (module_for_path parts) x files m))
            (rw n refl)
