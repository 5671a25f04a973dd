-- ===== src/Coordinator/Resumption/Tests.antt =====
-- internal/agent/recovery/coordinator.go: resumptions at concrete inputs.

use nur_proxy.Samples.{
  id_sanitize, is_letter, is_digit, fine, validating_report, in_the_middle, one_operation, auto_id,
  clock, ready_coordinator, all_well, states_of,
}
use nur_proxy.Coordinator.{now, emit, effect, add_step}
use nur_proxy.Coordinator.{Answers}
use nur_proxy.Coordinator.Resume.{
  restored_after, report_failed, catch_up, restore_files, record_end, roll_back_after,
  resume_validation, finish_rollback, resume_rollback, resume_begun, resume_prepared, resume_loaded,
  Turnout, recover,
}
use nur_proxy.Snapshots.{
  SnapshotError, restart_report, restart_moved, restart_loaded, moved_manifest, move_loaded,
  same_operation, check_report, decide_move, prepare_restart, transition, find_manifest,
  SnapshotStore, load,
}
use nur_proxy.Manifests.{valid_entries, valid_operation_id, validate_manifest}
use nur_proxy.Base.{◌≡◌, refl, true, String, string_eq, some, [], ◌∷◌}
use nur_proxy.Dict.{lookup, insert}
use nur_proxy.Text.{is_blank, all_space, is_space}
use nur_proxy.RecoveryModel.Action
use nur_proxy.RecoveryModel.Action.{action_eq}
use nur_proxy.RecoveryModel.RequestSource
use nur_proxy.RecoveryModel.RequestSource.{request_source_eq}
use nur_proxy.RecoveryModel.OperationState
use nur_proxy.RecoveryModel.OperationState.{OperationState, operation_state_eq}
use nur_proxy.RecoveryModel.Code
use nur_proxy.RecoveryModel.Severity
use nur_proxy.RecoveryModel.Ownership
use nur_proxy.RecoveryModel.OwnershipConfidence
use nur_proxy.RecoveryModel.RepairScope
use nur_proxy.RecoveryModel.ResolutionReason
use nur_proxy.RecoveryModel.Report.{
  validate, validate_texts, validate_bounded_sanitized, validate_steps, validate_step,
}
use nur_proxy.RecoveryModel.Diagnostic.{validate_diagnostic, check_resolution, check_eligible}
use nur_proxy.History.Graph.{valid_transition, valid_next}
use nur_proxy.History.Reports.{operation_reports_equal, steps_are_prefix, steps_agree, step_beq}
use nur_proxy.History.Restart.{restart_disposition_for}

abbrev explain : SnapshotError → String
explain e = "store"

abbrev all_written : Turnout
all_written = record {
  restart_clock = 30;
  restart_written = true;
  validation_written = true;
  outcome_written = true;
}

abbrev in_validation : SnapshotStore
in_validation = record {
  in_use = true;
  operations =
      (
        "op",
        record in_the_middle {
          updated_at = 23;
          state = OperationState.validating;
          report = validating_report;
        },
      )
      ∷ [];
}

abbrev invalid_config : Answers
invalid_config = record all_well { validates = some "syntax" }

rolled_back_after_crash :
    states_of
      (recover id_sanitize auto_id clock all_well is_letter is_digit fine fine fine explain
        all_written "op" ready_coordinator one_operation).coordinator.emitted
    ≡ OperationState.rolling_back ∷ OperationState.rolled_back ∷ []
unfolding load find_manifest validate_manifest valid_operation_id valid_entries lookup insert
    is_blank all_space is_space validate validate_texts validate_bounded_sanitized validate_steps
    validate_step Action.valid RequestSource.valid OperationState.valid Code.valid Severity.valid
    Ownership.valid OwnershipConfidence.valid RepairScope.valid ResolutionReason.valid
    validate_diagnostic check_resolution check_eligible decide_move check_report same_operation
    steps_are_prefix steps_agree step_beq valid_transition valid_next move_loaded moved_manifest
    transition prepare_restart restart_loaded restart_moved restart_report restart_disposition_for
    recover resume_loaded resume_prepared resume_begun resume_rollback finish_rollback
    resume_validation roll_back_after record_end restore_files catch_up report_failed now add_step
    emit effect operation_reports_equal
rolled_back_after_crash = refl

validated_after_crash :
    states_of
      (recover id_sanitize auto_id clock all_well is_letter is_digit fine fine fine explain
        all_written "op" ready_coordinator in_validation).coordinator.emitted
    ≡ OperationState.succeeded ∷ []
unfolding load find_manifest validate_manifest valid_operation_id valid_entries lookup insert
    is_blank all_space is_space validate validate_texts validate_bounded_sanitized validate_steps
    validate_step Action.valid RequestSource.valid OperationState.valid Code.valid Severity.valid
    Ownership.valid OwnershipConfidence.valid RepairScope.valid ResolutionReason.valid
    validate_diagnostic check_resolution check_eligible decide_move check_report same_operation
    steps_are_prefix steps_agree step_beq valid_transition valid_next move_loaded moved_manifest
    transition prepare_restart restart_loaded restart_moved restart_report restart_disposition_for
    recover resume_loaded resume_prepared resume_begun resume_rollback finish_rollback
    resume_validation roll_back_after record_end restore_files catch_up report_failed now add_step
    emit effect operation_reports_equal
validated_after_crash = refl

-- A validation that fails is followed by the rollback, which puts the prior files back.
refused_after_crash :
    (recover id_sanitize auto_id clock invalid_config is_letter is_digit fine fine fine explain
      all_written "op" ready_coordinator in_validation).error
    ≡ some (restored_after "syntax")
unfolding load find_manifest validate_manifest valid_operation_id valid_entries lookup insert
    is_blank all_space is_space validate validate_texts validate_bounded_sanitized validate_steps
    validate_step Action.valid RequestSource.valid OperationState.valid Code.valid Severity.valid
    Ownership.valid OwnershipConfidence.valid RepairScope.valid ResolutionReason.valid
    validate_diagnostic check_resolution check_eligible decide_move check_report same_operation
    steps_are_prefix steps_agree step_beq valid_transition valid_next move_loaded moved_manifest
    transition prepare_restart restart_loaded restart_moved restart_report restart_disposition_for
    recover resume_loaded resume_prepared resume_begun resume_rollback finish_rollback
    resume_validation roll_back_after record_end restore_files catch_up report_failed now add_step
    emit effect operation_reports_equal
refused_after_crash = refl
