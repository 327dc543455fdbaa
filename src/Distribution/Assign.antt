-- ===== src/Distribution/Assign.antt =====
-- The decisions for the tickets that are ready.
use swe_squad.Prelude.{
  IsAscending, sort_on-IsAscending, sort_on-perm, ℕ, ◌≡◌, refl, inl, inr, String, List, [], ◌∷◌,
  Option-cases,
}
use mathlib.Core.Path.{subst}
use mathlib.Core.List.{Perm}
use swe_squad.Ticket.{TicketSeverity}
use swe_squad.Distribution.{
  severity_order, Team, Work, find_best_team, AssignmentDecision, assign, distribute, sort_work,
  required_role_of, row, specialization_terms, is_stalled,
}
use swe_squad.Distribution.Best.{IsEligible, IsBest, IsFound, find_best_team-IsFound}

abbrev pub decision_for : Work → Team → AssignmentDecision
decision_for w t = record { ticket_id = w.ticket_id; team_id = t.name }

-- The decisions for the tickets of a list, in turn: one for a best of the teams that are eligible,
-- or none if there is no such team.
pub data IsDealt (now : ℕ) (load : String → ℕ) (teams : List Team)
    : List Work → List AssignmentDecision → Type 0 where
  done : IsDealt now load teams [] []
  passed_over :
      (w : Work) (ws : List Work) (ds : List AssignmentDecision)
      → ((u : Team) → ¬ IsEligible now load teams w u)
      → IsDealt now load teams ws ds
      → IsDealt now load teams (w ∷ ws) ds
  dealt :
      (w : Work) (t : Team) (ws : List Work) (ds : List AssignmentDecision)
      → IsBest now load teams w t
      → IsDealt now load teams ws ds
      → IsDealt now load teams (w ∷ ws) (decision_for w t ∷ ds)

assign-IsDealt :
    (now : ℕ) (load : String → ℕ) (teams : List Team) (ws : List Work)
    → IsDealt now load teams ws (assign now load teams ws)
unfolding assign
assign-IsDealt now load teams [] = done
assign-IsDealt now load teams (w ∷ ws) =
    let rest = assign-IsDealt now load teams ws in
    let found = find_best_team-IsFound now load teams w in
    elim (Option-cases (find_best_team now load teams w)) [
      | inl n ↦ rw (n, assign) (passed_over w ws _ (subst (IsFound now load teams w) n found) rest)
      | inr (t, y) ↦ rw (y, assign) (dealt w t ws _ (subst (IsFound now load teams w) y found) rest)
    ]

-- A distribution goes through the ready tickets, each as often as it is there, in the order of their
-- severity, from critical to low, and gives each to a best of the teams that are eligible for it; a ticket for which no team is
-- eligible gets no decision, and there are no other decisions.
pub distribute-IsDealt :
    (now : ℕ) (load : String → ℕ) (ready : List Work → List Work) (teams : List Team)
    (tickets : List Work)
    → (ws : List Work) × Perm ws (ready tickets)
      × IsAscending (λ w. severity_order w.severity) ws
      × IsDealt now load teams ws (distribute now load ready teams tickets)
unfolding distribute
distribute-IsDealt now load ready teams tickets =
    let key = λ (w : Work). severity_order w.severity in
    (
      sort_work (ready tickets),
      sort_on-perm key (ready tickets),
      sort_on-IsAscending key (ready tickets),
      assign-IsDealt now load teams (sort_work (ready tickets)),
    )

-- The severity of a ticket does not matter for the choice of its team.
pub find_best_team_ignores_severity :
    (now : ℕ) (load : String → ℕ) (teams : List Team) (w : Work) (s : TicketSeverity)
    → find_best_team now load teams (record w { severity = s }) ≡ find_best_team now load teams w
unfolding find_best_team row required_role_of is_stalled specialization_terms
find_best_team_ignores_severity now load teams w s = refl
