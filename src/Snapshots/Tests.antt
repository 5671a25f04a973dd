-- ===== src/Snapshots/Tests.antt =====
-- internal/agent/recovery/snapshot.go: runs at concrete inputs, and instances of the theorems.
use nur_proxy.Samples.{
  id_sanitize, is_letter, is_digit, fine, validating_report, in_the_middle, one_operation,
}
use nur_proxy.Snapshots.{
  restart_report, restart_moved, restart_loaded, moved_manifest, move_loaded, same_operation,
  check_report, decide_move, prepare_restart, transition, find_manifest, load,
}
use nur_proxy.Manifests.{valid_entries, valid_operation_id, validate_manifest}
use nur_proxy.Snapshots.Lives.{calls_advance, restart, run_calls, move, Later, Call}
use nur_proxy.Snapshots.Reached.{restart-Prepared, transition-Reached, Prepared, Reached}
use nur_proxy.Base.{◌≡◌, refl, true, false, string_eq, none, some, [], ◌∷◌, List}
use nur_proxy.Dict.{lookup, insert}
use nur_proxy.Text.{is_blank, all_space, is_space}
use nur_proxy.RecoveryModel.Action
use nur_proxy.RecoveryModel.Action.{action_eq}
use nur_proxy.RecoveryModel.RequestSource
use nur_proxy.RecoveryModel.RequestSource.{request_source_eq}
use nur_proxy.RecoveryModel.OperationState
use nur_proxy.RecoveryModel.OperationState.{OperationState, operation_state_eq}
use nur_proxy.RecoveryModel.Code
use nur_proxy.RecoveryModel.Severity
use nur_proxy.RecoveryModel.Ownership
use nur_proxy.RecoveryModel.OwnershipConfidence
use nur_proxy.RecoveryModel.RepairScope
use nur_proxy.RecoveryModel.ResolutionReason
use nur_proxy.RecoveryModel.Report.{
  validate, validate_texts, validate_bounded_sanitized, validate_steps, validate_step,
}
use nur_proxy.RecoveryModel.Diagnostic.{validate_diagnostic, check_resolution, check_eligible}
use nur_proxy.History.Graph.{valid_transition, valid_next}
use nur_proxy.History.Reports.{steps_are_prefix, steps_agree, step_beq}
use nur_proxy.History.Restart.{restart_disposition_for, restart_resume_rollback}

moved_on :
    (transition id_sanitize is_letter is_digit fine fine fine one_operation "op"
      OperationState.applying OperationState.validating validating_report 23 true).1
    ≡ none
unfolding load find_manifest validate_manifest valid_operation_id valid_entries lookup insert
    is_blank all_space is_space validate validate_texts validate_bounded_sanitized validate_steps
    validate_step Action.valid RequestSource.valid OperationState.valid Code.valid Severity.valid
    Ownership.valid OwnershipConfidence.valid RepairScope.valid ResolutionReason.valid
    validate_diagnostic check_resolution check_eligible decide_move check_report same_operation
    steps_are_prefix steps_agree step_beq valid_transition valid_next move_loaded moved_manifest
    transition
moved_on = refl

restarted :
    (prepare_restart id_sanitize is_letter is_digit fine fine fine one_operation "op" 30 true).1
    ≡ restart_resume_rollback
unfolding load find_manifest validate_manifest valid_operation_id valid_entries lookup insert
    is_blank all_space is_space validate validate_texts validate_bounded_sanitized validate_steps
    validate_step Action.valid RequestSource.valid OperationState.valid Code.valid Severity.valid
    Ownership.valid OwnershipConfidence.valid RepairScope.valid ResolutionReason.valid
    validate_diagnostic check_resolution check_eligible decide_move check_report same_operation
    steps_are_prefix steps_agree step_beq valid_transition valid_next move_loaded moved_manifest
    transition prepare_restart restart_loaded restart_moved restart_report restart_disposition_for
restarted = refl

restarted_well :
    (prepare_restart id_sanitize is_letter is_digit fine fine fine one_operation "op" 30 true).2
    ≡ none
unfolding load find_manifest validate_manifest valid_operation_id valid_entries lookup insert
    is_blank all_space is_space validate validate_texts validate_bounded_sanitized validate_steps
    validate_step Action.valid RequestSource.valid OperationState.valid Code.valid Severity.valid
    Ownership.valid OwnershipConfidence.valid RepairScope.valid ResolutionReason.valid
    validate_diagnostic check_resolution check_eligible decide_move check_report same_operation
    steps_are_prefix steps_agree step_beq valid_transition valid_next move_loaded moved_manifest
    transition prepare_restart restart_loaded restart_moved restart_report restart_disposition_for
restarted_well = refl

transition-Reached_example :
    Reached
      (transition id_sanitize is_letter is_digit fine fine fine one_operation "op"
        OperationState.applying OperationState.validating validating_report 23 true).0
      "op"
      OperationState.validating
transition-Reached_example =
    transition-Reached id_sanitize is_letter is_digit fine fine fine one_operation "op"
      OperationState.applying OperationState.validating validating_report 23 true moved_on

middle_found : lookup "op" one_operation.operations ≡ some in_the_middle
unfolding lookup
middle_found = refl

restart-Prepared_example :
    Prepared id_sanitize is_letter is_digit fine fine fine "op" in_the_middle
      (prepare_restart id_sanitize is_letter is_digit fine fine fine one_operation "op" 30 true)
restart-Prepared_example =
    restart-Prepared id_sanitize is_letter is_digit fine fine fine one_operation "op" in_the_middle
      30 true middle_found restarted_well

abbrev two_calls : List Call
two_calls =
    move "op" OperationState.applying OperationState.validating validating_report 23 false
    ∷ restart "op" 30 true
    ∷ []

calls_advance_example :
    Later
      (run_calls id_sanitize is_letter is_digit fine fine fine two_calls one_operation)
      "op"
      in_the_middle
calls_advance_example =
    calls_advance id_sanitize is_letter is_digit fine fine fine two_calls one_operation "op"
      in_the_middle middle_found
