-- ===== src/Ticket.antt =====
-- src/swe_team/models.py: severities, statuses, and the part of a ticket that its resolution
-- audit and its transitions read or write. `investigation_report` is a text by code points,
-- `resolution_note` is `str(metadata.get("resolution_note", ""))` and `attempts` is
-- `metadata.get("attempts", [])`.
pub mod Audit
use swe_squad.Prelude.{
  ℕ, String, Bool, true, false, ◌&&◌, Option, none, some, List, [], ◌∷◌, length, take, ltb, lower,
  contains_any, if◌then◌else◌,
}

pub data TicketSeverity : Type 0 where
  critical high medium low : TicketSeverity

pub data TicketStatus : Type 0 where
  opened triaged needs_info blocked acknowledged investigating investigation_complete : TicketStatus
  in_development in_review rework_requested testing deploying monitoring resolved : TicketStatus
  rolled_back closed verifying failed : TicketStatus

pub record SweTicket : Type 0 where
  pub ticket_id : String
  pub severity : TicketSeverity
  pub status : TicketStatus
  pub updated_at : ℕ
  pub blocked_by : List String
  pub investigation_report : Option (List ℕ)
  pub resolution_note : List ℕ
  pub attempts : List String

unfoldable pub is_blocked : SweTicket → Bool
is_blocked t = ltb 0 (length t.blocked_by)

abbrev pub resolution_bypass_reasons : List String
resolution_bypass_reasons =
    "false_regression" ∷ "duplicate" ∷ "already_fixed_externally" ∷ "not_reproducible"
    ∷ "wont_fix_approved" ∷ "manual_override" ∷ "fix_succeeded" ∷ []

-- The reason that the audit gives, with what its text quotes.
pub data AuditReason : Type 0 where
  bypass : List ℕ → AuditReason
  report_too_short : ℕ → AuditReason
  attempt_required : TicketSeverity → AuditReason
  audit_passed : AuditReason

-- `report or ""`
abbrev pub report_text : Option (List ℕ) → List ℕ
report_text none = []
report_text (some r) = r

abbrev pub needs_attempt : TicketSeverity → Bool
needs_attempt critical = true
needs_attempt high = true
needs_attempt _ = false

abbrev pub is_empty : List String → Bool
is_empty [] = true
is_empty (_ ∷ _) = false

unfoldable pub has_bypass : SweTicket → Bool
has_bypass t = contains_any resolution_bypass_reasons (lower t.resolution_note)

unfoldable pub resolution_audit : SweTicket → Bool × AuditReason
resolution_audit t =
    let report = report_text t.investigation_report in
    if has_bypass t
    then (true, bypass (take 80 (lower t.resolution_note)))
    else if ltb (length report) 200
    then (false, report_too_short (length report))
    else if needs_attempt t.severity && is_empty t.attempts
    then (false, attempt_required t.severity)
    else (true, audit_passed)

abbrev pub is_resolved : TicketStatus → Bool
is_resolved resolved = true
is_resolved _ = false

-- `ValueError` carries the reason of the audit.
pub data Result : Type 0 where
  moved : SweTicket → Result
  value_error : AuditReason → Result

unfoldable pub transition : (now : ℕ) → TicketStatus → SweTicket → Result
transition now new_status t =
    let (ok, reason) = resolution_audit t in
    if is_resolved new_status
    then (if ok
        then moved (record t { status = new_status; updated_at = now })
        else value_error reason)
    else moved (record t { status = new_status; updated_at = now })
