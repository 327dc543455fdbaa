-- ===== src/Distribution.antt =====
-- `WorkloadDistributor` of src/swe_team/workload_distributor.py and what it asks of
-- src/swe_team/team_registry.py. The load of a team, which the registry reads from a store, is an
-- argument, and so is the graph. Texts that are searched are code points; `assigned_to` is empty
-- if there is nobody, and a time is in microseconds, or none if it is no date. The texts of reasons
-- and the calls of `gh` are left out.
pub mod Best
pub mod Assign
use swe_squad.Prelude.{
  sort_on, ℕ, zero, suc, ◌+◌, ◌-◌, ◌*◌, String, Bool, true, false, ◌&&◌, ◌||◌, not, Option, none,
  some, List, [], ◌∷◌, ◌++◌, map, any, filter, count_if, length, ltb, leb, ◌==◌, str_eq, seq_eq,
  codes, lower, contains, if◌then◌else◌,
}
use swe_squad.Ticket.{
  TicketSeverity, critical, high, medium, low, TicketStatus, investigating, in_development,
}

abbrev Text : Type 0
Text = List ℕ

-- `TeamConfig`, which has no `tier`.
pub record Team : Type 0 where
  pub name : String
  pub role : Text
  pub max_concurrent : ℕ
  pub specialization : List Text

-- The part of a ticket that is read.
pub record Work : Type 0 where
  pub ticket_id : String
  pub severity : TicketSeverity
  pub status : TicketStatus
  pub title : Text
  pub description : Text
  pub labels : List Text
  pub required_role : Text
  pub assigned_to : String
  pub updated_at : Option ℕ

abbrev pub is_in : Text → List Text → Bool
is_in s texts = any (λ t. seq_eq t s) texts

-- `team.role not in {role_filter, "full"}`, for a filter that is given.
abbrev pub has_role : Option Text → Team → Bool
has_role none t = true
has_role (some role) t = seq_eq t.role role || seq_eq t.role (codes "full")

unfoldable pub get_available_teams : (load : String → ℕ) → List Team → Option Text → List Team
get_available_teams load teams role =
    filter (λ t. has_role role t && ltb (load t.name) t.max_concurrent) teams

unfoldable pub required_role_of : Work → Text
required_role_of w =
    let required = lower w.required_role in
    let by_label =
      if is_in (codes "investigation") (map lower w.labels)
      then codes "investigator"
      else codes "developer" in
    if not (seq_eq required [])
    then required
    else elim w.status [ investigating ↦ codes "investigator" | _ ↦ by_label ]

-- The keywords that are looked for, with the terms that they add.
abbrev keywords : List (String × String)
keywords =
    ("frontend", "frontend")
    ∷ ("webui", "webui")
    ∷ ("react", "react")
    ∷ ("typescript", "typescript")
    ∷ ("vite", "vite")
    ∷ ("ui/", "ui")
    ∷ ("component", "component")
    ∷ ("architecture", "architecture")
    ∷ ("security", "security")
    ∷ ("orchestration", "orchestration")
    ∷ ("critical", "critical")
    ∷ ("complex", "complex")
    ∷ ("regression", "regression")
    ∷ ("investigation", "investigation")
    ∷ ("triage", "triage")
    ∷ ("research", "research")
    ∷ ("analysis", "analysis")
    ∷ ("documentation", "documentation")
    ∷ []

unfoldable pub add_terms : Text → List (String × String) → List Text → List Text
add_terms text [] terms = terms
add_terms text ((k, term) ∷ ks) terms =
    let rest = add_terms text ks terms in
    if contains (codes k) text then codes term ∷ rest else rest

unfoldable pub specialization_terms : Work → List Text
specialization_terms w =
    let text = lower (w.title ++ codes " " ++ w.description) in
    let terms = add_terms text keywords (map lower w.labels) in
    if contains (codes "[webui]") text
    then codes "webui" ∷ codes "frontend" ∷ codes "feature" ∷ codes "enhancement" ∷ terms
    else terms

abbrev is_stallable : TicketStatus → Bool
is_stallable investigating = true
is_stallable in_development = true
is_stallable _ = false

unfoldable pub is_stalled : (now : ℕ) → Work → Bool
is_stalled now w = elim w.updated_at [
  | none ↦ false
  | some t ↦ is_stallable w.status && leb (t + 7200 * 1000000) now
]

unfoldable pub is_complex_ticket : Work → Bool
is_complex_ticket w =
    let labels = map lower w.labels in
    any (λ k. is_in (codes k) labels)
      ("architecture" ∷ "security" ∷ "critical" ∷ "orchestration" ∷ "complex" ∷ "regression" ∷ [])
    || ltb 2000 (length w.description)

pub data Tier : Type 0 where
  senior standard economy : Tier

-- `getattr(team, 'tier', 'standard')`
abbrev pub tier_of : Team → Tier
tier_of t = standard

abbrev is_critical : TicketSeverity → Bool
is_critical critical = true
is_critical _ = false

abbrev by_role : Text → Tier → ℕ
by_role role senior = 0
by_role role standard = if seq_eq role (codes "developer") then 5 else 0
by_role role economy = if seq_eq role (codes "investigator") then 5 else 0

abbrev pub tier_bonus : Work → Text → Tier → ℕ
tier_bonus w role senior =
    if is_critical w.severity || is_complex_ticket w then 10 else by_role role senior
tier_bonus w role tier = by_role role tier

-- The numbers of a candidate, in the order in which they are compared.
pub record Row : Type 0 where
  pub primary : ℕ
  pub capacity : ℕ
  pub score : ℕ
  pub team : Team

unfoldable pub row : (load : String → ℕ) → Work → Team → Row
row load w t =
    let score = count_if (λ s. is_in s (specialization_terms w)) t.specialization in
    record {
      primary = tier_bonus w (required_role_of w) (tier_of t) + score;
      capacity = t.max_concurrent - load t.name;
      score = score;
      team = t;
    }

abbrev pub is_less : Row → Row → Bool
is_less r s =
    if ltb r.primary s.primary
    then true
    else if ltb s.primary r.primary
    then false
    else if ltb r.capacity s.capacity
    then true
    else if ltb s.capacity r.capacity
    then false
    else ltb r.score s.score

-- The head of the rows, sorted in reverse by a stable sort: the first of the greatest.
unfoldable pub greatest : Row → List Row → Row
greatest r [] = r
greatest r (s ∷ rs) = greatest (if is_less r s then s else r) rs

abbrev pub may_take : (now : ℕ) → Work → Team → Bool
may_take now w t =
    not (is_stalled now w && not (str_eq w.assigned_to "") && str_eq t.name w.assigned_to)

abbrev pub team_of : List Row → Option Team
team_of [] = none
team_of (r ∷ rs) = some (greatest r rs).team

-- The teams with the role, or all teams if there is none.
abbrev pub or_all : List Team → List Team → List Team
or_all [] all = all
or_all (t ∷ ts) all = t ∷ ts

unfoldable pub find_best_team : (now : ℕ) (load : String → ℕ) → List Team → Work → Option Team
find_best_team now load teams w =
    let with_role = get_available_teams load teams (some (required_role_of w)) in
    let available = or_all with_role (get_available_teams load teams none) in
    team_of (map (row load w) (filter (may_take now w) available))

abbrev pub severity_order : TicketSeverity → ℕ
severity_order critical = 0
severity_order high = 1
severity_order medium = 2
severity_order low = 3

abbrev pub sort_work : List Work → List Work
sort_work ws = sort_on (λ w. severity_order w.severity) ws

pub record AssignmentDecision : Type 0 where
  pub ticket_id : String
  pub team_id : String

unfoldable pub assign :
    (now : ℕ) (load : String → ℕ) → List Team → List Work → List AssignmentDecision
assign now load teams [] = []
assign now load teams (w ∷ ws) =
    let rest = assign now load teams ws in
    elim (find_best_team now load teams w) [
      | none ↦ rest
      | some t ↦ record { ticket_id = w.ticket_id; team_id = t.name } ∷ rest
    ]

unfoldable pub distribute :
    (now : ℕ) (load : String → ℕ) (ready : List Work → List Work)
    → List Team
    → List Work
    → List AssignmentDecision
distribute now load ready teams tickets = assign now load teams (sort_work (ready tickets))
