-- ===== src/Dependencies/Edges.antt =====
-- The edges of the graph are the dependencies.
use swe_squad.Prelude.{
  ◌≡◌, refl, sym, ap, ◌∙◌, ◌≢◌, ◌↔◌, ◌⊎◌, inl, inr, none, some, List, [], ◌∷◌, ◌++◌, In, strip,
  seq_eq, if◌then◌else◌, arith, Bool-cases, Option-cases,
}
use mathlib.Core.Path.{subst}
use mathlib.Core.Option.{some_inj}
use swe_squad.Dependencies.{
  TicketId, Node, Edges, get, put, add, is_other, named, put_named, add_blocked, add_blocking,
  build_edges, by_id,
}
use swe_squad.Dependencies.Named.{
  IsNamed, seq_iff, IsNamed-cons, named_iff, add_iff, is_other_iff, get-put_self, get-put_other,
}

-- The last ticket with the id names `d`, or the ticket `d` says that it blocks the id.
pub data IsDependency (nodes : List Node) (i d : TicketId) : Type 0 where
  names :
      (n : Node)
      → by_id i nodes ≡ some n
      → IsNamed i (n.blocked_by ++ n.depends_on) d
      → IsDependency nodes i d
  blocks :
      (n : Node) → In n nodes → n.ticket_id ≡ d → IsNamed d n.blocking i → IsDependency nodes i d

abbrev named_by : Node → List TicketId
named_by n = named n.ticket_id (n.blocked_by ++ n.depends_on) []

put_named_lem :
    (i : TicketId) (ns : List Node) (es : Edges)
    → get i (put_named ns es)
      ≡ elim (by_id i ns) as (λ x. List TicketId) [ none ↦ get i es | some n ↦ named_by n ]
unfolding put_named by_id
put_named_lem i [] es = refl
put_named_lem i (n ∷ ns) es =
    let rest = put_named_lem i ns (put n.ticket_id (named_by n) es) in
    elim (Option-cases (by_id i ns)) [
      | inl none_later ↦
          rest
          ∙ rw none_later (elim (Bool-cases (seq_eq n.ticket_id i)) [
            | inl y ↦
                let e = (seq_iff n.ticket_id i).0 y in
                rw y (
                  ap (λ x. get x (put n.ticket_id (named_by n) es)) (sym e)
                  ∙ get-put_self n.ticket_id (named_by n) es)
            | inr o ↦
                let other : n.ticket_id ≢ i =
                  λ e. let y = (seq_iff n.ticket_id i).1 e in absurd (ground (arith, y, o)) in
                rw o (get-put_other n.ticket_id i (named_by n) es other)
          ])
      | inr (m, later) ↦ rest ∙ rw later refl
    ]

-- One id of the list.
blocks_one :
    (own i d c : TicketId) (es : Edges)
    → In d (get i (if is_other own c then put c (add own (get c es)) es else es))
      ↔ (((d ≡ own) × (i ≢ []) × (i ≢ own) × (c ≡ i)) ⊎ In d (get i es))
blocks_one own i d c es =
    let iff = is_other_iff own c in
    let added = add_iff own d (get c es) in
    elim (Bool-cases (is_other own c)) [
      | inl y ↦
          let (e, o) = iff.0 y in
          rw y (elim (Bool-cases (seq_eq c i)) [
            | inl same ↦
                let p = (seq_iff c i).0 same in
                let q = get-put_self c (add own (get c es)) es in
                subst
                  (λ x.
                    In d (get x (put c (add own (get c es)) es))
                    ↔ (((d ≡ own) × (x ≢ []) × (x ≢ own) × (c ≡ x)) ⊎ In d (get x es)))
                  p
                  (
                    λ h. elim (added.0 (subst (In d) q h)) [
                      | inl k ↦ inl (k, e, o, refl)
                      | inr k ↦ inr k
                    ],
                    λ h.
                        subst (In d) (sym q)
                          (added.1 (elim h [ inl k ↦ inl (k.0) | inr k ↦ inr k ])),
                  )
            | inr other ↦
                let apart : c ≢ i =
                  λ p. let z = (seq_iff c i).1 p in absurd (ground (arith, z, other)) in
                let q = get-put_other c i (add own (get c es)) es apart in
                (
                  λ h. inr (subst (In d) q h),
                  λ h. elim h [ inl k ↦ absurd (apart k.3) | inr k ↦ subst (In d) (sym q) k ],
                )
          ])
      | inr n ↦ rw n (
        λ h. inr h,
        λ h. elim h [
          | inl (k, a, b, p) ↦
              let yes = iff.1 (λ z. a (sym p ∙ z), λ z. b (sym p ∙ z)) in
              absurd (ground (arith, yes, n))
          | inr k ↦ k
        ],
      )
    ]

add_blocked_iff :
    (own i d : TicketId) (bs : List TicketId) (es : Edges)
    → In d (get i (add_blocked own bs es)) ↔ (((d ≡ own) × IsNamed own bs i) ⊎ In d (get i es))
unfolding add_blocked
add_blocked_iff own i d [] es =
    (λ h. inr h, λ h. elim h [ inl (p, (e, o, (y, m, s))) ↦ elim m [ ] | inr k ↦ k ])
add_blocked_iff own i d (b ∷ bs) es =
    let cons = IsNamed-cons own b i bs in
    let one = blocks_one own i d (strip b) es in
    let rest = add_blocked_iff own i d bs _ in
    (
      λ h. elim (rest.0 h) [
        | inl (p, k) ↦ inl (p, cons.1 (inr k))
        | inr k ↦ elim (one.0 k) [
          | inl (p, e, o, q) ↦ inl (p, cons.1 (inl (e, o, q)))
          | inr m ↦ inr m
        ]
      ],
      λ h. elim h [
        | inl (p, k) ↦ elim (cons.0 k) [
          | inl (e, o, q) ↦ rest.1 (inr (one.1 (inl (p, e, o, q))))
          | inr l ↦ rest.1 (inl (p, l))
        ]
        | inr m ↦ rest.1 (inr (one.1 (inr m)))
      ],
    )

-- A ticket of the list with the id `d` says that it blocks `i`.
abbrev IsBlocking : List Node → TicketId → TicketId → Type 0
IsBlocking ns i d = (n : Node) × In n ns × (n.ticket_id ≡ d) × IsNamed d n.blocking i

add_blocking_iff :
    (i d : TicketId) (ns : List Node) (es : Edges)
    → In d (get i (add_blocking ns es)) ↔ (IsBlocking ns i d ⊎ In d (get i es))
unfolding add_blocking
add_blocking_iff i d [] es = (λ h. inr h, λ h. elim h [ inl (n, m, p, k) ↦ elim m [ ] | inr k ↦ k ])
add_blocking_iff i d (n ∷ ns) es =
    let one = add_blocked_iff n.ticket_id i d n.blocking es in
    let rest = add_blocking_iff i d ns (add_blocked n.ticket_id n.blocking es) in
    (
      λ h. elim (rest.0 h) [
        | inl (m, k, p, l) ↦ inl (m, inr k, p, l)
        | inr k ↦ elim (one.0 k) [
          | inl (p, l) ↦ inl (n, inl refl, sym p, subst (λ x. IsNamed x n.blocking i) (sym p) l)
          | inr o ↦ inr o
        ]
      ],
      λ h. elim h [
        | inl (m, k, p, l) ↦ elim k [
          | inl same ↦
              let q = ap (λ x. x.ticket_id) (sym same) ∙ p in
              rest.1 (
                inr (
                  one.1 (
                    inl (
                      sym q,
                      subst (λ x. IsNamed x n.blocking i) (sym q)
                          (subst (λ x. IsNamed d x.blocking i) same l),
                    ))))
          | inr j ↦ rest.1 (inl (m, j, p, l))
        ]
        | inr o ↦ rest.1 (inr (one.1 (inr o)))
      ],
    )

by_id-id : (i : TicketId) (ns : List Node) (n : Node) → by_id i ns ≡ some n → n.ticket_id ≡ i
unfolding by_id
by_id-id i [] n h = ground arith
by_id-id i (m ∷ ns) n h = ground (arith, by_id-id i ns n, seq_iff m.ticket_id i, h)

-- The last ticket with the id `i` names `d`.
abbrev IsNaming : List Node → TicketId → TicketId → Type 0
IsNaming ns i d = (n : Node) × (by_id i ns ≡ some n) × IsNamed i (n.blocked_by ++ n.depends_on) d

put_named_iff : (i d : TicketId) (ns : List Node) → In d (get i (put_named ns [])) ↔ IsNaming ns i d
unfolding get
put_named_iff i d ns =
    let own = put_named_lem i ns [] in
    elim (Option-cases (by_id i ns)) [
      | inl e ↦ rw own (rw e (λ h. elim h [ ], λ (n, p, k). absurd (ground (arith, p))))
      | inr (n, e) ↦
          let id = by_id-id i ns n e in
          let iff = named_iff n.ticket_id d (n.blocked_by ++ n.depends_on) [] in
          rw own (
            rw e (
              λ h. elim (iff.0 h) [
                | inl k ↦ (n, refl, subst (λ x. IsNamed x (n.blocked_by ++ n.depends_on) d) id k)
                | inr z ↦ elim z [ ]
              ],
              λ (m, p, k).
                  let same = some_inj.0 p in
                  iff.1 (
                    inl (
                      subst (λ x. IsNamed x (n.blocked_by ++ n.depends_on) d) (sym id)
                        (subst (λ x. IsNamed i (x.blocked_by ++ x.depends_on) d) (sym same) k))),
            ))
    ]

pub build_edges_iff :
    (i d : TicketId) (ns : List Node) → In d (get i (build_edges ns)) ↔ IsDependency ns i d
unfolding build_edges
build_edges_iff i d ns =
    let block = add_blocking_iff i d ns (put_named ns []) in
    let own = put_named_iff i d ns in
    (
      λ h. elim (block.0 h) [
        | inl (n, m, p, k) ↦ blocks n m p k
        | inr k ↦ let (n, p, l) = own.0 k in names n p l
      ],
      λ h. elim h [
        | names n p l ↦ block.1 (inr (own.1 (n, p, l)))
        | blocks n m p k ↦ block.1 (inl (n, m, p, k))
      ],
    )
