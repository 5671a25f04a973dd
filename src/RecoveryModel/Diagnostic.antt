-- ===== src/RecoveryModel/Diagnostic.antt =====
-- internal/shared/recoverymodel/model.go: diagnostics, capabilities, and their validation. A count
-- below 0, which the tests refuse as they refuse 0, is 0 here. `SanitizeEvidence` is the parameter
-- `sanitize`, as in Report.
use Prim.Native.String.{len}
use nur_proxy.Base.{
  ℕ, Bool, true, false, not, ◌&&◌, ◌||◌, String, string_eq, Option, none, some, List, [], ◌∷◌, ◌==◌,
  ltb, leb, nat_beq, if◌then◌else◌, any, all,
}
use nur_proxy.Text.{codes, is_blank, is_trimmed}
use nur_proxy.RecoveryModel.Code
use nur_proxy.RecoveryModel.Code.{Code}
use nur_proxy.RecoveryModel.Severity
use nur_proxy.RecoveryModel.Severity.{Severity}
use nur_proxy.RecoveryModel.Ownership
use nur_proxy.RecoveryModel.Ownership.{Ownership, nurproxy, ownership_eq}
use nur_proxy.RecoveryModel.OwnershipConfidence
use nur_proxy.RecoveryModel.OwnershipConfidence.{OwnershipConfidence}
use nur_proxy.RecoveryModel.RepairScope
use nur_proxy.RecoveryModel.RepairScope.{RepairScope}
use nur_proxy.RecoveryModel.ResolutionReason
use nur_proxy.RecoveryModel.ResolutionReason.{ResolutionReason, repaired, resolution_reason_eq}
use nur_proxy.RecoveryModel.Action
use nur_proxy.RecoveryModel.Action.{Action, action_eq}
use nur_proxy.RecoveryModel.Report.{
  ReportError, check, first, validate_bounded_sanitized, precedes_start,
}

pub record Diagnostic : Type 0 where
  pub id : String
  pub code : Code
  pub subsystem : String
  pub severity : Severity
  pub ownership : Ownership
  pub ownership_confidence : OwnershipConfidence
  pub summary : String
  pub evidence : String
  pub affected_paths : List String
  pub resource_fingerprint : String
  pub proposed_action : Action
  pub repair_scope : RepairScope
  pub repair_eligible : Bool
  pub repair_refusal_code : String
  pub auto_repair_eligible : Bool
  pub hard_change : Bool
  pub first_seen_at : ℕ
  pub last_seen_at : ℕ
  pub occurrences : ℕ
  pub resolved_at : Option ℕ
  pub resolution_reason : ResolutionReason
  pub resolution_operation_id : String

pub data DiagnosticError : Type 0 where
  no_id invalid_code no_subsystem invalid_severity invalid_ownership : DiagnosticError
  invalid_confidence invalid_scope invalid_reason active_with_resolution : DiagnosticError
  resolved_without_reason repaired_without_operation eligible_with_refusal : DiagnosticError
  invalid_refusal invalid_resolution_operation resolved_too_early no_fingerprint : DiagnosticError
  no_occurrence no_timestamps timestamps_swapped invalid_proposed_action : DiagnosticError
  not_owned hard_change_eligible eligible_without_action : DiagnosticError
  bad_evidence : ReportError → DiagnosticError

-- The characters that `validSemanticID` allows.
unfoldable pub is_semantic : ℕ → Bool
is_semantic c =
    (leb b'a' c && leb c b'z')
    || (leb b'A' c && leb c b'Z')
    || (leb b'0' c && leb c b'9')
    || any (nat_beq c) (b'.' ∷ b'_' ∷ b':' ∷ b'-' ∷ [])

-- `validSemanticID`
unfoldable pub valid_semantic_id : String → Bool
valid_semantic_id value =
    not (value == "" || ltb 128 (len value) || not (is_trimmed (codes value)))
    && all is_semantic (codes value)

abbrev pub is_resolved : Option ℕ → Bool
is_resolved none = false
is_resolved (some t) = true

-- The checks of an auto-repair eligible diagnostic.
unfoldable pub check_eligible : Diagnostic → Option DiagnosticError
check_eligible d =
    if d.auto_repair_eligible
    then check (d.ownership == nurproxy) not_owned (
        check (not d.hard_change) hard_change_eligible
          (check (Action.valid d.proposed_action) eligible_without_action none))
    else none

-- The checks of what is said about a resolution.
unfoldable pub check_resolution : Diagnostic → Option DiagnosticError → Option DiagnosticError
check_resolution d rest =
    check
      (not (
        not (is_resolved d.resolved_at)
        && (not (ResolutionReason.name d.resolution_reason == "")
            || not (d.resolution_operation_id == ""))))
      active_with_resolution
      (check (not (is_resolved d.resolved_at && ResolutionReason.name d.resolution_reason == ""))
        resolved_without_reason
        (check (not (d.resolution_reason == repaired && is_blank d.resolution_operation_id))
          repaired_without_operation
          (check (not (d.repair_eligible && not (d.repair_refusal_code == "")))
            eligible_with_refusal
            (check (d.repair_refusal_code == "" || valid_semantic_id d.repair_refusal_code)
              invalid_refusal
              (check
                (d.resolution_operation_id == "" || valid_semantic_id d.resolution_operation_id)
                invalid_resolution_operation
                (check (not (precedes_start d.resolved_at d.last_seen_at)) resolved_too_early
                  rest))))))

abbrev pub evidence_error : Option ReportError → Option DiagnosticError
evidence_error none = none
evidence_error (some e) = some (bad_evidence e)

module _ (sanitize : String → String) where
  -- `Diagnostic.Validate`
  unfoldable pub validate_diagnostic : Diagnostic → Option DiagnosticError
  validate_diagnostic d = check (not (is_blank d.id)) no_id (
      check (Code.valid d.code) invalid_code (
        check (not (is_blank d.subsystem)) no_subsystem (
          check (Severity.valid d.severity) invalid_severity (
            check (Ownership.valid d.ownership) invalid_ownership (
              check
                (OwnershipConfidence.name d.ownership_confidence == ""
                  || OwnershipConfidence.valid d.ownership_confidence)
                invalid_confidence
                (check (RepairScope.name d.repair_scope == "" || RepairScope.valid d.repair_scope)
                  invalid_scope
                  (check
                    (ResolutionReason.name d.resolution_reason == ""
                      || ResolutionReason.valid d.resolution_reason)
                    invalid_reason
                    (check_resolution d (
                      check (not (is_blank d.resource_fingerprint)) no_fingerprint (
                        check (leb 1 d.occurrences) no_occurrence (
                          check (not (nat_beq d.first_seen_at 0 || nat_beq d.last_seen_at 0))
                            no_timestamps
                            (check (not (ltb d.last_seen_at d.first_seen_at)) timestamps_swapped (
                              first
                                (evidence_error (validate_bounded_sanitized sanitize d.evidence))
                                (check
                                  (Action.name d.proposed_action == ""
                                    || Action.valid d.proposed_action)
                                  invalid_proposed_action (check_eligible d)))))))))))))))

-- `Capability`: a stage below 0 is 0 here.
pub record Capability : Type 0 where
  pub stage : ℕ
  pub actions : List Action

pub data CapabilityError : Type 0 where
  no_stage invalid_capability_action duplicate_capability_action : CapabilityError

-- The loop of `Capability.Validate`; `seen` is its set, the last first.
unfoldable pub validate_actions : List Action → List Action → Option CapabilityError
validate_actions seen [] = none
validate_actions seen (a ∷ actions) =
    let rest = validate_actions (a ∷ seen) actions in
    if not (Action.valid a)
    then some invalid_capability_action
    else if any (λ b. b == a) seen
    then some duplicate_capability_action
    else rest

unfoldable pub validate_capability : Capability → Option CapabilityError
validate_capability c = check (leb 1 c.stage) no_stage (validate_actions [] c.actions)
