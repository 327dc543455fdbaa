-- ===== src/Checkout/Cleanup.antt =====
-- `cleanup_expired`: what it removes and what it leaves.
use text.Mathlib.TextPositions.{eq_refl}
use swe_squad.Prelude.{
  ℕ, ◌+◌, String, ◌≡◌, refl, sym, ap, ◌∙◌, inl, inr, Bool, true, false, Option, some, In, ◌↔◌, none,
  List, [], ◌∷◌, length, All, arith, Bool-cases, Dict, lookup, erase, HasUniqueKeys, str_eq, eq_iff,
  if◌then◌else◌,
}
use swe_squad.Checkout.{
  CheckoutLock, Provider, is_expired, unexpired, get_lock_info, expired_ids, erase_all,
  cleanup_expired,
}

-- The locks that have not expired.
kept : (String → ℕ) → Dict CheckoutLock → Dict CheckoutLock
kept now [] = []
kept now ((k, l) ∷ d) =
    let rest = kept now d in if is_expired (now k) l then rest else (k, l) ∷ rest

abbrev pub AllOther : String → List String → Type 0
AllOther j = All (λ k. str_eq j k ≡ false)

erase_all-cons :
    (j : String) (l : CheckoutLock) (ks : List String) (d : Dict CheckoutLock)
    → AllOther j ks
    → erase_all ks ((j, l) ∷ d) ≡ (j, l) ∷ erase_all ks d
unfolding erase_all erase
erase_all-cons j l [] d h = refl
erase_all-cons j l (k ∷ ks) d h = rw h.0 (erase_all-cons j l ks (erase k d) h.1)

erase_absent : (j : String) (d : Dict CheckoutLock) → lookup j d ≡ none → erase j d ≡ d
unfolding lookup erase
erase_absent j [] n = refl
erase_absent j ((k, l) ∷ d) n = elim (Bool-cases (str_eq k j)) [
  | inl y ↦ let n' = rw y at n in absurd (cc)
  | inr f ↦ rw f (ap (λ x. (k, l) ∷ x) (erase_absent j d (rw f at n)))
]

-- No id twice.
abbrev pub AreDistinct : List String → Type 0
AreDistinct [] = Unit
AreDistinct (k ∷ ks) = AllOther k ks × AreDistinct ks

abbrev pub has_expired : ℕ → Option CheckoutLock → Bool
has_expired now none = false
has_expired now (some l) = is_expired now l

module _ (now : String → ℕ) where
  expired_ids-AllOther :
      (j : String) (d : Dict CheckoutLock) → lookup j d ≡ none → AllOther j (expired_ids now d)
  unfolding lookup expired_ids
  expired_ids-AllOther j [] n = tt
  expired_ids-AllOther j ((k, l) ∷ d) n = elim (Bool-cases (str_eq k j)) [
    | inl y ↦ let n' = rw y at n in absurd (cc)
    | inr f ↦
        let rest = expired_ids-AllOther j d (rw f at n) in
        elim (Bool-cases (is_expired (now k) l)) [
          | inl e ↦ rw e (ground (arith, eq_iff k j, eq_iff j k), rest)
          | inr e ↦ rw e rest
        ]
  ]

  pub expired_ids-AreDistinct :
      (d : Dict CheckoutLock) → HasUniqueKeys d → AreDistinct (expired_ids now d)
  unfolding expired_ids
  expired_ids-AreDistinct [] u = tt
  expired_ids-AreDistinct ((k, l) ∷ d) u = elim (Bool-cases (is_expired (now k) l)) [
    | inl e ↦ rw e (expired_ids-AllOther k d u.0, expired_ids-AreDistinct d u.1)
    | inr e ↦ rw e (expired_ids-AreDistinct d u.1)
  ]

  -- The ids found are those of the locks that have expired.
  pub In-expired_ids :
      (k : String) (d : Dict CheckoutLock)
      → HasUniqueKeys d
      → In k (expired_ids now d) ↔ (has_expired (now k) (lookup k d) ≡ true)
  unfolding lookup expired_ids
  In-expired_ids k [] u = (λ m. elim m [ ], λ e. absurd (cc))
  In-expired_ids k ((j, l) ∷ d) u =
      let ih = In-expired_ids k d u.1 in
      elim (Bool-cases (str_eq j k)) [
        | inl y ↦
            let same : j ≡ k = (eq_iff j k).0 y in
            let gone : lookup k d ≡ none = ap (λ x. lookup x d) (sym same) ∙ u.0 in
            let e' : is_expired (now j) l ≡ is_expired (now k) l =
              ap (λ x. is_expired (now x) l) same in
            elim (Bool-cases (is_expired (now j) l)) [
              | inl e ↦ rw (e, y) (λ m. sym e' ∙ e, λ h. inl (sym same))
              | inr e ↦
                  rw (e, y)
                    (
                      λ m. let no = ap (has_expired (now k)) (sym gone) ∙ ih.0 m in absurd (cc),
                      λ h. let no = sym e ∙ (e' ∙ h) in absurd (cc),
                    )
            ]
        | inr f ↦ elim (Bool-cases (is_expired (now j) l)) [
          | inl e ↦
              rw (e, f)
                (
                  λ m. elim m [
                    | inl here ↦ absurd (ground (arith, eq_iff j k))
                    | inr there ↦ ih.0 there
                  ],
                  λ h. inr (ih.1 h),
                )
          | inr e ↦ rw (e, f) ih
        ]
      ]

  erase_head :
      (j : String) (l : CheckoutLock) (d : Dict CheckoutLock)
      → lookup j d ≡ none
      → erase j ((j, l) ∷ d) ≡ d
  unfolding erase
  erase_head j l d n = rw (eq_refl j) (erase_absent j d n)

  -- Removing the expired ids leaves exactly the locks that have not expired.
  erase_all-expired_ids :
      (d : Dict CheckoutLock) → HasUniqueKeys d → erase_all (expired_ids now d) d ≡ kept now d
  unfolding expired_ids kept erase_all
  erase_all-expired_ids [] u = refl
  erase_all-expired_ids ((k, l) ∷ d) u = elim (Bool-cases (is_expired (now k) l)) [
    | inl e ↦
        rw e
          (ap (erase_all (expired_ids now d)) (erase_head k l d u.0) ∙ erase_all-expired_ids d u.1)
    | inr e ↦ rw e (
        erase_all-cons k l (expired_ids now d) d (expired_ids-AllOther k d u.0)
        ∙ ap (λ x. (k, l) ∷ x) (erase_all-expired_ids d u.1))
  ]

  length-kept :
      (d : Dict CheckoutLock) → length (kept now d) + length (expired_ids now d) ≡ length d
  unfolding kept expired_ids
  length-kept [] = refl
  length-kept ((k, l) ∷ d) = elim (Bool-cases (is_expired (now k) l)) [
    | inl e ↦ rw e (omega (arith, length-kept d))
    | inr e ↦ rw e (omega (arith, length-kept d))
  ]

  lookup-kept_absent :
      (k : String) (d : Dict CheckoutLock) → lookup k d ≡ none → lookup k (kept now d) ≡ none
  unfolding lookup kept
  lookup-kept_absent k [] n = refl
  lookup-kept_absent k ((j, l) ∷ d) n = elim (Bool-cases (str_eq j k)) [
    | inl y ↦ let n' = rw y at n in absurd (cc)
    | inr f ↦
        let rest = lookup-kept_absent k d (rw f at n) in
        elim (Bool-cases (is_expired (now j) l)) [ inl e ↦ rw e rest | inr e ↦ rw (e, f) rest ]
  ]

  kept-HasUniqueKeys : (d : Dict CheckoutLock) → HasUniqueKeys d → HasUniqueKeys (kept now d)
  unfolding kept
  kept-HasUniqueKeys [] u = tt
  kept-HasUniqueKeys ((j, l) ∷ d) u = elim (Bool-cases (is_expired (now j) l)) [
    | inl e ↦ rw e (kept-HasUniqueKeys d u.1)
    | inr e ↦ rw e (lookup-kept_absent j d u.0, kept-HasUniqueKeys d u.1)
  ]

  pub cleanup-HasUniqueKeys :
      (p : Provider) → HasUniqueKeys p.locks → HasUniqueKeys (cleanup_expired now p).1.locks
  unfolding cleanup_expired
  cleanup-HasUniqueKeys p u = rw (erase_all-expired_ids p.locks u) (kept-HasUniqueKeys p.locks u)

  -- The count returned is the number of locks removed.
  pub length-cleanup :
      (p : Provider)
      → HasUniqueKeys p.locks
      → length (cleanup_expired now p).1.locks + (cleanup_expired now p).0 ≡ length p.locks
  unfolding cleanup_expired
  length-cleanup p u = rw (erase_all-expired_ids p.locks u) (length-kept p.locks)

  lookup-kept :
      (k : String) (d : Dict CheckoutLock)
      → HasUniqueKeys d
      → lookup k (kept now d) ≡ unexpired (now k) (lookup k d)
  unfolding kept unexpired lookup
  lookup-kept k [] u = refl
  lookup-kept k ((j, l) ∷ d) u = elim (Bool-cases (str_eq j k)) [
    | inl y ↦
        let same : j ≡ k = (eq_iff j k).0 y in
        let e' : is_expired (now j) l ≡ is_expired (now k) l =
          ap (λ x. is_expired (now x) l) same in
        let gone : lookup k (kept now d) ≡ none =
          ap (λ x. lookup x (kept now d)) (sym same) ∙ lookup-kept_absent j d u.0 in
        elim (Bool-cases (is_expired (now j) l)) [
          | inl e ↦ rw (e, y) (gone ∙ rw (sym e' ∙ e))
          | inr e ↦ rw (e, y) (rw (sym e' ∙ e))
        ]
    | inr f ↦
        let rest = lookup-kept k d u.1 in
        elim (Bool-cases (is_expired (now j) l)) [ inl e ↦ rw (e, f) rest | inr e ↦ rw (e, f) rest ]
  ]

  -- With one lock for each ticket, the stored lock of a ticket after a cleanup is what
  -- `get_lock_info` showed before: a live lock is kept as it was, and an expired one is gone.
  pub lookup-cleanup :
      (k : String) (p : Provider)
      → HasUniqueKeys p.locks
      → lookup k (cleanup_expired now p).1.locks ≡ get_lock_info (now k) k p
  unfolding cleanup_expired get_lock_info
  lookup-cleanup k p u = rw (erase_all-expired_ids p.locks u) (lookup-kept k p.locks u)
