-- ===== src/Ticket/Audit.antt =====
-- When a ticket may be resolved.
use swe_squad.Prelude.{
  ℕ, ◌≡◌, refl, Bool, true, false, not, ◌∙◌, ◌&&◌, ◌||◌, List, [], ◌∷◌, length, arith, leb,
}
use swe_squad.Ticket.{
  TicketStatus, SweTicket, report_text, needs_attempt, is_empty, has_bypass, resolution_audit,
  is_resolved, Result, moved, value_error, transition,
}

-- The rule of the docstring, in one formula.
abbrev pub may_resolve : SweTicket → Bool
may_resolve t =
    has_bypass t
    || (leb 200 (length (report_text t.investigation_report))
        && (not (needs_attempt t.severity) || not (is_empty t.attempts)))

-- The audit passes exactly by the rule of its docstring: a bypass note, or a report of at least
-- 200 characters and, for HIGH and CRITICAL, a fix attempt.
pub resolution_audit_lem : (t : SweTicket) → (resolution_audit t).0 ≡ may_resolve t
unfolding resolution_audit
resolution_audit_lem t = ground arith

abbrev pub after : SweTicket → Result → SweTicket
after t (moved t') = t'
after t (value_error r) = t

transition_audited :
    (now : ℕ) (s : TicketStatus) (t : SweTicket)
    → is_resolved t.status ≡ false
    → is_resolved (after t (transition now s t)).status ≡ true
    → may_resolve t ≡ true
unfolding transition resolution_audit
transition_audited now s t h k = ground arith

transition_keeps :
    (now : ℕ) (s : TicketStatus) (t : SweTicket)
    → may_resolve (after t (transition now s t)) ≡ may_resolve t
unfolding transition has_bypass
transition_keeps now s t = ground arith

-- A list of attempted transitions; one that raises leaves the ticket as it was.
unfoldable pub transitions : List (ℕ × TicketStatus) → SweTicket → SweTicket
transitions [] t = t
transitions ((now, s) ∷ rest) t = transitions rest (after t (transition now s t))

-- A ticket that is not resolved, and that the rule does not let resolve, is not resolved after
-- any transitions.
pub transitions_blocked :
    (steps : List (ℕ × TicketStatus)) (t : SweTicket)
    → is_resolved t.status ≡ false
    → may_resolve t ≡ false
    → is_resolved (transitions steps t).status ≡ false
unfolding transitions
transitions_blocked [] t r m = r
transitions_blocked ((now, s) ∷ rest) t r m =
    transitions_blocked rest (after t (transition now s t))
      (not_resolved (is_resolved (after t (transition now s t)).status) refl)
      (transition_keeps now s t ∙ m)
  where
    not_resolved :
        (b : Bool)
        → is_resolved (after t (transition now s t)).status ≡ b
        → is_resolved (after t (transition now s t)).status ≡ false
    not_resolved false e = e
    not_resolved true e = let y = transition_audited now s t r e in absurd (cc)
