-- ===== src/Dependencies/Named.antt =====
-- The ids that a ticket names, and the sets of the graph.
use swe_squad.Prelude.{
  ◌≡◌, refl, sym, ap, ◌∙◌, ◌≢◌, ◌↔◌, ◌⊎◌, inl, inr, true, List, [], ◌∷◌, In, strip, seq_eq, ==_iff,
  arith, Bool-cases, In-append_left, In-append_right, In-append_cases,
}
use mathlib.Core.Path.{subst}
use swe_squad.Dependencies.{TicketId, Edges, get, put, is_member, add, is_other, named}

pub seq_iff : (s t : TicketId) → (seq_eq s t ≡ true) ↔ (s ≡ t)
seq_iff [] [] = (λ h. refl, λ h. refl)
seq_iff [] (y ∷ t) = ground arith
seq_iff (x ∷ s) [] = ground arith
seq_iff (x ∷ s) (y ∷ t) = ground (arith, seq_iff s t, ==_iff x y)

-- `d` is a text of the list, stripped, that is neither empty nor the ticket's own id.
abbrev pub IsNamed : (own : TicketId) → List TicketId → TicketId → Type 0
IsNamed own ids d = (d ≢ []) × (d ≢ own) × ((x : TicketId) × In x ids × (strip x ≡ d))

is_member_iff : (i : TicketId) (ids : List TicketId) → (is_member i ids ≡ true) ↔ In i ids
is_member_iff i [] = ground arith
is_member_iff i (j ∷ ids) = ground (arith, is_member_iff i ids, seq_iff j i)

pub add_iff : (i d : TicketId) (ids : List TicketId) → In d (add i ids) ↔ ((d ≡ i) ⊎ In d ids)
unfolding add
add_iff i d ids = elim (Bool-cases (is_member i ids)) [
  | inl y ↦
      let here = (is_member_iff i ids).0 y in
      rw y (λ h. inr h, λ h. elim h [ inl e ↦ subst (λ x. In x ids) (sym e) here | inr m ↦ m ])
  | inr n ↦ rw n (
    λ h. elim (In-append_cases d ids (i ∷ []) h) [
      | inl m ↦ inr m
      | inr m ↦ elim m [ inl e ↦ inl e | inr z ↦ elim z [ ] ]
    ],
    λ h. elim h [
      | inl e ↦ In-append_right d ids (i ∷ []) (inl e)
      | inr m ↦ In-append_left d ids (i ∷ []) m
    ],
  )
]

pub is_other_iff : (own i : TicketId) → (is_other own i ≡ true) ↔ ((i ≢ []) × (i ≢ own))
unfolding is_other
is_other_iff own i = ground (arith, seq_iff i [], seq_iff i own)

pub get-put_self : (i : TicketId) (ds : List TicketId) (es : Edges) → get i (put i ds es) ≡ ds
unfolding get put
get-put_self i ds [] = let h = (seq_iff i i).1 refl in ground (arith, h)
get-put_self i ds ((j, e) ∷ es) = ground (arith, get-put_self i ds es, seq_iff j i)

pub get-put_other :
    (i j : TicketId) (ds : List TicketId) (es : Edges) → i ≢ j → get j (put i ds es) ≡ get j es
unfolding get put
get-put_other i j ds [] n = ground (arith, n, seq_iff i j)
get-put_other i j ds ((k, e) ∷ es) n =
    ground (arith, get-put_other i j ds es n, seq_iff k i, seq_iff k j, seq_iff i j)

pub IsNamed-cons :
    (own x d : TicketId) (ids : List TicketId)
    → IsNamed own (x ∷ ids) d ↔ (((d ≢ []) × (d ≢ own) × (strip x ≡ d)) ⊎ IsNamed own ids d)
IsNamed-cons own x d ids = (
  λ (e, o, (y, m, s)). elim m [
    | inl p ↦ inl (e, o, ap strip (sym p) ∙ s)
    | inr k ↦ inr (e, o, (y, k, s))
  ],
  λ h. elim h [
    | inl (e, o, s) ↦ (e, o, (x, inl refl, s))
    | inr (e, o, (y, m, s)) ↦ (e, o, (y, inr m, s))
  ],
)

pub named_iff :
    (own d : TicketId) (ids deps : List TicketId)
    → In d (named own ids deps) ↔ (IsNamed own ids d ⊎ In d deps)
unfolding named
named_iff own d [] deps =
    (λ h. inr h, λ h. elim h [ inl (e, o, (y, m, s)) ↦ elim m [ ] | inr k ↦ k ])
named_iff own d (x ∷ ids) deps =
    let cons = IsNamed-cons own x d ids in
    elim (Bool-cases (is_other own (strip x))) [
      | inl y ↦
          let i = named_iff own d ids (add (strip x) deps) in
          let (e, o) = (is_other_iff own (strip x)).0 y in
          let added = add_iff (strip x) d deps in
          rw y (
            λ h. elim (i.0 h) [
              | inl k ↦ inl (cons.1 (inr k))
              | inr k ↦ elim (added.0 k) [
                | inl p ↦ inl (cons.1 (inl (λ z. e (sym p ∙ z), λ z. o (sym p ∙ z), sym p)))
                | inr m ↦ inr m
              ]
            ],
            λ h. elim h [
              | inl k ↦ elim (cons.0 k) [
                | inl (a, b, s) ↦ i.1 (inr (added.1 (inl (sym s))))
                | inr l ↦ i.1 (inl l)
              ]
              | inr m ↦ i.1 (inr (added.1 (inr m)))
            ],
          )
      | inr n ↦
          let i = named_iff own d ids deps in
          let not_this : ¬ ((d ≢ []) × (d ≢ own) × (strip x ≡ d)) = λ (a, b, s).
            let yes = (is_other_iff own (strip x)).1 (λ z. a (sym s ∙ z), λ z. b (sym s ∙ z)) in
            absurd (ground (arith, yes, n)) in
          rw n (
            λ h. elim (i.0 h) [ inl k ↦ inl (cons.1 (inr k)) | inr m ↦ inr m ],
            λ h. elim h [
              | inl k ↦ elim (cons.0 k) [ inl t ↦ absurd (not_this t) | inr l ↦ i.1 (inl l) ]
              | inr m ↦ i.1 (inr m)
            ],
          )
    ]
