-- ===== src/Dependencies.antt =====
-- `DependencyGraph` of src/swe_team/dependency_graph.py. An id is a text by code points, since it
-- is stripped; ids that are no text, which the source passes over, are left out of the lists. A
-- set is a list in the order of its additions. The search for cycles, which only logs, and the
-- reverse map `_dependents`, which nothing reads, are left out.
pub mod Named
pub mod Edges
pub mod Ready
use swe_squad.Prelude.{
  sort_on, ℕ, zero, suc, ◌+◌, Bool, true, false, ◌&&◌, ◌||◌, not, Option, none, some, List, [], ◌∷◌,
  ◌++◌, any, filter, strip, seq_eq, leb, if◌then◌else◌,
}
use swe_squad.Ticket.{TicketStatus, resolved, closed}

abbrev pub TicketId : Type 0
TicketId = List ℕ

-- The part of a ticket that the graph reads; `depends_on` is of its metadata.
pub record Node : Type 0 where
  pub ticket_id : TicketId
  pub status : TicketStatus
  pub blocked_by : List TicketId
  pub depends_on : List TicketId
  pub blocking : List TicketId

abbrev pub Edges : Type 0
Edges = List (TicketId × List TicketId)

-- `_deps.get(id, set())`
unfoldable pub get : TicketId → Edges → List TicketId
get i [] = []
get i ((j, ds) ∷ es) = let rest = get i es in if seq_eq j i then ds else rest

-- `_deps[id] = deps`
unfoldable pub put : TicketId → List TicketId → Edges → Edges
put i ds [] = (i, ds) ∷ []
put i ds ((j, es) ∷ rest) =
    let more = put i ds rest in if seq_eq j i then (j, ds) ∷ rest else (j, es) ∷ more

abbrev pub is_member : TicketId → List TicketId → Bool
is_member i ids = any (λ j. seq_eq j i) ids

-- `s.add(i)`
unfoldable pub add : TicketId → List TicketId → List TicketId
add i ids = if is_member i ids then ids else ids ++ i ∷ []

-- An id as written in a ticket, unless it is empty or the ticket's own.
unfoldable pub is_other : TicketId → TicketId → Bool
is_other own i = not (seq_eq i []) && not (seq_eq i own)

-- The dependencies that a ticket names.
unfoldable pub named : TicketId → List TicketId → List TicketId → List TicketId
named own [] deps = deps
named own (d ∷ ds) deps = named own ds (if is_other own (strip d) then add (strip d) deps else deps)

unfoldable pub put_named : List Node → Edges → Edges
put_named [] es = es
put_named (n ∷ ns) es =
    put_named ns (put n.ticket_id (named n.ticket_id (n.blocked_by ++ n.depends_on) []) es)

-- The links of the tickets that a ticket blocks.
unfoldable pub add_blocked : TicketId → List TicketId → Edges → Edges
add_blocked own [] es = es
add_blocked own (b ∷ bs) es =
    add_blocked own bs
      (if is_other own (strip b) then put (strip b) (add own (get (strip b) es)) es else es)

unfoldable pub add_blocking : List Node → Edges → Edges
add_blocking [] es = es
add_blocking (n ∷ ns) es = add_blocking ns (add_blocked n.ticket_id n.blocking es)

unfoldable pub build_edges : List Node → Edges
build_edges nodes = add_blocking nodes (put_named nodes [])

-- `_by_id.get(id)`: the last of the tickets with an id.
unfoldable pub by_id : TicketId → List Node → Option Node
by_id i [] = none
by_id i (n ∷ ns) =
    let later = by_id i ns in
    elim later [ some m ↦ some m | none ↦ if seq_eq n.ticket_id i then some n else none ]

abbrev pub is_done : TicketStatus → Bool
is_done resolved = true
is_done closed = true
is_done _ = false

unfoldable pub has_resolved_status : TicketId → List Node → Bool
has_resolved_status i nodes = elim (by_id i nodes) [ none ↦ false | some n ↦ is_done n.status ]

-- Before they are sorted.
unfoldable pub unresolved_dependencies : List Node → TicketId → List TicketId
unresolved_dependencies nodes i =
    filter (λ d. not (has_resolved_status d nodes)) (get i (build_edges nodes))

abbrev pub is_empty : List TicketId → Bool
is_empty [] = true
is_empty (x ∷ xs) = false

unfoldable pub is_blocked : List Node → TicketId → Bool
is_blocked nodes i = not (is_empty (unresolved_dependencies nodes i))

-- `order[id]`: the last position of the id, from `n` on.
unfoldable pub position : ℕ → TicketId → List Node → ℕ
position n i [] = 0
position n i (m ∷ ms) =
    let later = position (n + 1) i ms in
    if any (λ k. seq_eq k.ticket_id i) ms then later else if seq_eq m.ticket_id i then n else 0

unfoldable pub get_ready_tickets : List Node → List Node → List Node
get_ready_tickets nodes candidates =
    sort_on (λ n. position 0 n.ticket_id candidates)
      (filter (λ n. not (is_blocked nodes n.ticket_id)) candidates)
