-- ===== src/Tests/Teams.antt =====
-- Two tickets of which one waits for the other, and two teams.
use swe_squad.Prelude.{
  IsAscending, sort_on, insert_on, ℕ, ◌≡◌, refl, ◌↔◌, String, none, some, List, [], ◌∷◌, In, codes,
  strip, strip_left, contains, lower, is_prefix,
}
use mathlib.Core.List.{Perm}
use swe_squad.Ticket.{critical, opened, in_development}
use swe_squad.Dependencies.{
  Node, get_ready_tickets, is_blocked, unresolved_dependencies, get, build_edges, put_named, named,
  add, is_other, add_blocking, add_blocked, put, has_resolved_status, by_id, position,
}
use swe_squad.Dependencies.Edges.{IsDependency}
use swe_squad.Dependencies.Ready.{IsResolved, get_ready_tickets_iff}
use swe_squad.Distribution.{
  severity_order, Team, Work, find_best_team, get_available_teams, required_role_of, is_stalled,
  row, greatest, specialization_terms, add_terms, distribute, assign,
}
use swe_squad.Distribution.Best.{IsFound, find_best_team-IsFound}
use swe_squad.Distribution.Assign.{IsDealt, distribute-IsDealt}

abbrev waiting : Node
waiting = record {
  ticket_id = codes "a";
  status = opened;
  blocked_by = codes " b " ∷ codes "a" ∷ [];
  depends_on = [];
  blocking = [];
}

abbrev other : Node
other = record waiting { ticket_id = codes "b"; blocked_by = [] }

only_other : get_ready_tickets (waiting ∷ other ∷ []) (waiting ∷ other ∷ []) ≡ other ∷ []
unfolding get_ready_tickets sort_on insert_on is_blocked unresolved_dependencies get build_edges
    put_named named add is_other add_blocking add_blocked put has_resolved_status by_id position
    strip strip_left
only_other = refl

get_ready_tickets_iff_example :
    In waiting (get_ready_tickets (waiting ∷ other ∷ []) (waiting ∷ other ∷ [])) ↔ (
      In waiting (waiting ∷ other ∷ [])
      × ((d : List ℕ)
          → IsDependency (waiting ∷ other ∷ []) (codes "a") d
          → IsResolved (waiting ∷ other ∷ []) d))
get_ready_tickets_iff_example =
    get_ready_tickets_iff (waiting ∷ other ∷ []) (waiting ∷ other ∷ []) waiting

abbrev coders : Team
coders = record {
  name = "coders";
  role = codes "developer";
  max_concurrent = 1;
  specialization = codes "webui" ∷ [];
}

abbrev helpers : Team
helpers = record coders { name = "helpers"; role = codes "full"; specialization = [] }

abbrev detectives : Team
detectives = record coders { name = "detectives"; role = codes "investigator" }

abbrev page : Work
page = record {
  ticket_id = "t1";
  severity = critical;
  status = opened;
  title = codes "Broken [WebUI]";
  description = [];
  labels = [];
  required_role = [];
  assigned_to = "";
  updated_at = some 0;
}

abbrev teams : List Team
teams = detectives ∷ helpers ∷ coders ∷ []

abbrev idle : String → ℕ
idle team = 0

to_coders : find_best_team 0 idle teams page ≡ some coders
unfolding find_best_team get_available_teams required_role_of is_stalled row greatest
    specialization_terms add_terms contains lower is_prefix
to_coders = refl

-- A ticket that stalled with the only team of its role goes to nobody, although others are free.
stays_stalled :
    find_best_team 7200000000 idle
      (helpers ∷ detectives ∷ [])
      (record page { status = in_development; assigned_to = "helpers" })
    ≡ none
unfolding find_best_team get_available_teams required_role_of is_stalled row greatest
    specialization_terms add_terms lower
stays_stalled = refl

-- The places that a distribution itself fills do not count.
overfilled :
    distribute 0 idle (λ ws. ws) (coders ∷ []) (page ∷ record page { ticket_id = "t2" } ∷ [])
    ≡ record { ticket_id = "t1"; team_id = "coders" }
      ∷ record { ticket_id = "t2"; team_id = "coders" }
      ∷ []
unfolding distribute assign sort_on insert_on find_best_team get_available_teams required_role_of
    is_stalled row greatest specialization_terms add_terms lower
overfilled = refl

find_best_team-IsFound_example : IsFound 0 idle teams page (find_best_team 0 idle teams page)
find_best_team-IsFound_example = find_best_team-IsFound 0 idle teams page

distribute-IsDealt_example :
    (ws : List Work) × Perm ws (page ∷ [])
    × IsAscending (λ w. severity_order w.severity) ws
    × IsDealt 0 idle teams ws (distribute 0 idle (λ ws. ws) teams (page ∷ []))
distribute-IsDealt_example = distribute-IsDealt 0 idle (λ ws. ws) teams (page ∷ [])
