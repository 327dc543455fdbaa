-- ===== src/Dependencies/Ready.antt =====
-- Which tickets are ready.
use swe_squad.Prelude.{
  In-sort_on, In-filter, ◌≡◌, refl, ap, ◌∙◌, ◌↔◌, inl, inr, Bool, true, false, not, some, List, [],
  ◌∷◌, In, filter, arith, Bool-cases, Option-cases,
}
use mathlib.Core.Option.{some_inj}
use swe_squad.Dependencies.{
  TicketId, Node, get, build_edges, by_id, is_done, has_resolved_status, unresolved_dependencies,
  is_empty, is_blocked, position, get_ready_tickets,
}
use swe_squad.Dependencies.Edges.{IsDependency, build_edges_iff}

-- The last ticket with the id is resolved or closed.
abbrev pub IsResolved : List Node → TicketId → Type 0
IsResolved ns d = (n : Node) × (by_id d ns ≡ some n) × (is_done n.status ≡ true)

has_resolved_status_iff :
    (ns : List Node) (d : TicketId) → (has_resolved_status d ns ≡ true) ↔ IsResolved ns d
unfolding has_resolved_status
has_resolved_status_iff ns d = elim (Option-cases (by_id d ns)) [
  | inl e ↦
      rw (e, has_resolved_status)
        (λ h. absurd (ground arith), λ (n, p, k). absurd (ground (arith, p)))
  | inr (n, e) ↦
      rw (e, has_resolved_status)
        (λ h. (n, refl, h), λ (m, p, k). ap (λ x. is_done x.status) (some_inj.0 p) ∙ k)
]

empty_iff :
    (p : TicketId → Bool) (ids : List TicketId)
    → (is_empty (filter p ids) ≡ true) ↔ ((d : TicketId) → In d ids → p d ≡ false)
empty_iff p [] = (λ h d m. elim m [ ], λ h. refl)
empty_iff p (x ∷ ids) =
    let rest = empty_iff p ids in
    elim (Bool-cases (p x)) [
      | inl y ↦
          rw y (
            λ h. absurd (ground arith),
            λ h. let f = h x (inl refl) in absurd (ground (arith, f, y)),
          )
      | inr n ↦ rw n (
        λ h d m. elim m [ inl e ↦ ap p e ∙ n | inr k ↦ rest.0 h d k ],
        λ h. rest.1 (λ d m. h d (inr m)),
      )
    ]

-- A ticket is free exactly if each of its dependencies is resolved or closed.
free_iff :
    (ns : List Node) (i : TicketId)
    → (is_blocked ns i ≡ false) ↔ ((d : TicketId) → IsDependency ns i d → IsResolved ns d)
unfolding is_blocked unresolved_dependencies
free_iff ns i =
    let deps = get i (build_edges ns) in
    let empty = empty_iff (λ d. not (has_resolved_status d ns)) deps in
    (
      λ h d k.
          let done = empty.0 (ground (arith, h)) d ((build_edges_iff i d ns).1 k) in
          (has_resolved_status_iff ns d).0 (ground (arith, done)),
      λ h.
          let all = empty.1 (λ d m.
            let yes = (has_resolved_status_iff ns d).1 (h d ((build_edges_iff i d ns).0 m)) in
            ground (arith, yes)) in
          ground (arith, all),
    )

-- The tickets that are ready are the candidates of which each dependency is resolved or closed: each
-- id that the ticket, the last of the graph with its id, names in `blocked_by` or `depends_on`, and
-- each ticket of the graph that names it in `blocking`, where ids are stripped and an empty one and
-- the ticket's own do not count. A dependency that is no ticket of the graph is never resolved.
pub get_ready_tickets_iff :
    (nodes candidates : List Node) (w : Node)
    → In w (get_ready_tickets nodes candidates)
      ↔ (In w candidates × ((d : TicketId) → IsDependency nodes w.ticket_id d → IsResolved nodes d))
unfolding get_ready_tickets
get_ready_tickets_iff nodes candidates w =
    let order =
      In-sort_on (λ n. position 0 n.ticket_id candidates) w
        (filter (λ n. not (is_blocked nodes n.ticket_id)) candidates) in
    let chosen = In-filter (λ n. not (is_blocked nodes n.ticket_id)) w candidates in
    let free = free_iff nodes w.ticket_id in
    (
      λ h. let (m, unblocked) = chosen.0 (order.0 h) in (m, free.0 (ground (arith, unblocked))),
      λ (m, k). let unblocked = free.1 k in order.1 (chosen.1 (m, ground (arith, unblocked))),
    )
