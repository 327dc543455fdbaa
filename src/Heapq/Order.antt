-- ===== src/Heapq/Order.antt =====
-- The order of heap entries, and what a push keeps.
use swe_squad.Prelude.{
  ◌≡◌, refl, ◌⊎◌, inl, inr, true, false, List, [], ◌∷◌, In, All, All-In, Bool-cases, arith,
  str_leb_refl, str_leb-total, str_leb_trans,
}
use swe_squad.Heapq.{Entry, entry_leb, heappush, push_all}

pub entry_leb_refl : (a : Entry) → entry_leb a a ≡ true
unfolding entry_leb
entry_leb_refl a = ground (arith, str_leb_refl a.task_id)

pub entry_leb-total : (a b : Entry) → (entry_leb a b ≡ true) ⊎ (entry_leb b a ≡ true)
unfolding entry_leb
entry_leb-total a b = ground (arith, str_leb-total a.task_id b.task_id)

pub entry_leb_trans :
    (a b c : Entry) → entry_leb a b ≡ true → entry_leb b c ≡ true → entry_leb a c ≡ true
unfolding entry_leb
entry_leb_trans a b c h k = ground (arith, str_leb_trans a.task_id b.task_id c.task_id)

pub entry_leb-flip : (a b : Entry) → entry_leb a b ≡ false → entry_leb b a ≡ true
entry_leb-flip a b h = ground (arith, entry_leb-total a b)

-- `a` is at most every entry of the list.
abbrev pub IsBelow : Entry → List Entry → Type 0
IsBelow a = All (λ b. entry_leb a b ≡ true)

abbrev pub IsSorted : List Entry → Type 0
IsSorted [] = Unit
IsSorted (x ∷ h) = IsBelow x h × IsSorted h

pub IsBelow-trans :
    (a b : Entry) (h : List Entry) → entry_leb a b ≡ true → IsBelow b h → IsBelow a h
IsBelow-trans a b [] l k = tt
IsBelow-trans a b (x ∷ h) l k = (entry_leb_trans a b x l k.0, IsBelow-trans a b h l k.1)

pub IsBelow-heappush :
    (a e : Entry) (h : List Entry) → entry_leb a e ≡ true → IsBelow a h → IsBelow a (heappush e h)
unfolding heappush
IsBelow-heappush a e [] l k = (l, tt)
IsBelow-heappush a e (x ∷ h) l k = elim (Bool-cases (entry_leb e x)) [
  | inl y ↦ rw y (l, k)
  | inr n ↦ rw n (k.0, IsBelow-heappush a e h l k.1)
]

pub heappush-IsSorted : (e : Entry) (h : List Entry) → IsSorted h → IsSorted (heappush e h)
unfolding heappush
heappush-IsSorted e [] s = (tt, tt)
heappush-IsSorted e (x ∷ h) s = elim (Bool-cases (entry_leb e x)) [
  | inl y ↦ rw y ((y, IsBelow-trans e x h y s.0), s)
  | inr n ↦ rw n (IsBelow-heappush x e h (entry_leb-flip e x n) s.0, heappush-IsSorted e h s.1)
]

pub In-heappush_self : (e : Entry) (h : List Entry) → In e (heappush e h)
unfolding heappush
In-heappush_self e [] = inl refl
In-heappush_self e (x ∷ h) = elim (Bool-cases (entry_leb e x)) [
  | inl y ↦ rw y (inl refl)
  | inr n ↦ rw n (inr (In-heappush_self e h))
]

pub In-heappush : (a e : Entry) (h : List Entry) → In a h → In a (heappush e h)
unfolding heappush
In-heappush a e [] m = elim m [ ]
In-heappush a e (x ∷ h) m = elim (Bool-cases (entry_leb e x)) [
  | inl y ↦ rw y (inr m)
  | inr n ↦ rw n (elim m [ inl here ↦ inl here | inr there ↦ inr (In-heappush a e h there) ])
]

pub In-heappush_cases : (a e : Entry) (h : List Entry) → In a (heappush e h) → (a ≡ e) ⊎ In a h
unfolding heappush
In-heappush_cases a e [] (inl here) = inl here
In-heappush_cases a e [] (inr there) = elim there [ ]
In-heappush_cases a e (x ∷ h) m = elim (Bool-cases (entry_leb e x)) [
  | inl y ↦ rw y at m
  | inr n ↦
      let m' : In a (x ∷ heappush e h) = rw n at m in
      elim m' [
        | inl here ↦ inr (inl here)
        | inr there ↦ elim (In-heappush_cases a e h there) [ inl p ↦ inl p | inr q ↦ inr (inr q) ]
      ]
]

pub push_all-IsSorted : (es h : List Entry) → IsSorted h → IsSorted (push_all es h)
unfolding push_all
push_all-IsSorted [] h s = s
push_all-IsSorted (e ∷ es) h s = push_all-IsSorted es (heappush e h) (heappush-IsSorted e h s)

pub In-push_all_old : (a : Entry) (es h : List Entry) → In a h → In a (push_all es h)
unfolding push_all
In-push_all_old a [] h m = m
In-push_all_old a (e ∷ es) h m = In-push_all_old a es (heappush e h) (In-heappush a e h m)

pub In-push_all_new : (a : Entry) (es h : List Entry) → In a es → In a (push_all es h)
unfolding push_all
In-push_all_new a [] h m = elim m [ ]
In-push_all_new a (e ∷ es) h (inl here) =
    In-push_all_old a es (heappush e h) (rw here (In-heappush_self e h))
In-push_all_new a (e ∷ es) h (inr there) = In-push_all_new a es (heappush e h) there

pub entry_leb_of_IsBelow :
    (a b : Entry) (h : List Entry) → IsBelow a h → In b h → entry_leb a b ≡ true
entry_leb_of_IsBelow a b h k m = All-In (λ (x : Entry). entry_leb a x ≡ true) b h k m

pub In-push_all_cases : (a : Entry) (es h : List Entry) → In a (push_all es h) → In a es ⊎ In a h
unfolding push_all
In-push_all_cases a [] h m = inr m
In-push_all_cases a (e ∷ es) h m = elim (In-push_all_cases a es (heappush e h) m) [
  | inl new ↦ inl (inr new)
  | inr old ↦ elim (In-heappush_cases a e h old) [ inl p ↦ inl (inl p) | inr q ↦ inr q ]
]
