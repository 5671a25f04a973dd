-- ===== src/Coordinator/Tests.antt =====
-- internal/agent/recovery/coordinator.go: runs at concrete inputs, and instances of the theorems.
use nur_proxy.Coordinator.Found.{IsActive, IsFailedRollback, inspect_known}
use nur_proxy.Wire.{items}
use nur_proxy.Coordinator.Inspect.{put}
use nur_proxy.Coordinator.Inspect.{rollback_failed_diagnostic}
use nur_proxy.Coordinator.Inspect.{diagnose}
use nur_proxy.Coordinator.Inspect.{record_diagnostic}
use nur_proxy.Coordinator.Inspect.{inspect_all}
use nur_proxy.Dict.{keep}
use nur_proxy.Coordinator.Inspect.{forget_unseen}
use nur_proxy.Coordinator.Inspect.{sort}
use nur_proxy.Coordinator.Inspect.{diagnostic_for_candidate, snapshot_of, inspect}
use nur_proxy.Samples.{auto_id, clock, ready_coordinator, all_well, states_of, id_sanitize, orphan}
use nur_proxy.RecoveryModel.RequestSource.{valid, user, request_source_eq}
use nur_proxy.Breaker.{valid_opaque_id, valid_key, Reason, allow, record_outcome}
use nur_proxy.Text.{is_space, all_space, is_blank}
use nur_proxy.Coordinator.Guarded.{repair-Guarded, Guarded}
use nur_proxy.RecoveryModel.Requests.{has_start_identity, validate_request, RepairRequest}
use nur_proxy.Coordinator.{
  RecoveryCandidate, conclude, restore_state, rollback, effect, emit, finish, on_error, return_if,
  add_step, now, start, restored, executed, persisted, captured, Answers,
}
use nur_proxy.RecoveryModel.OperationState.{OperationState}
use nur_proxy.RecoveryModel.Diagnostic.{validate_diagnostic, check_resolution, check_eligible}
use nur_proxy.Coordinator.Repair.{
  complete, execute, apply_action, end_with, snapshot, prepare, consider, same_request, repair,
  handle_request, auto_repair,
}
use nur_proxy.Coordinator.Accepted.{repair-Told, Told}
use nur_proxy.RecoveryModel.Report.{validate_bounded_sanitized}
use nur_proxy.Base.{Any, ◌↔◌, string_eq, true, ◌⊎◌, ◌≡◌, refl, false, String, some, [], ◌∷◌}
use nur_proxy.RecoveryModel.Action.{prune_managed_orphan, action_eq}
use nur_proxy.RecoveryModel.Action
use nur_proxy.Dict.{lookup, insert, delete}
use nur_proxy.RecoveryModel.Code
use nur_proxy.RecoveryModel.Severity
use nur_proxy.RecoveryModel.Ownership
use nur_proxy.RecoveryModel.OwnershipConfidence
use nur_proxy.RecoveryModel.RepairScope
use nur_proxy.RecoveryModel.ResolutionReason
use nur_proxy.RecoveryModel.OperationState

abbrev reason_text : Reason → String
reason_text r = "circuit open"

abbrev asked : RepairRequest
asked = record {
  operation_id = "op";
  diagnostic_id = "diag";
  action = prune_managed_orphan;
  started_at = 900;
  initial_step = record {
    name = "planned";
    summary = "";
    state = OperationState.planned;
    at = 900;
  };
}

abbrev execution_fails : Answers
execution_fails = record all_well { executes = some "boom" }

repaired :
    states_of
      (handle_request id_sanitize auto_id reason_text clock all_well asked
        ready_coordinator).0.emitted
    ≡ OperationState.planned ∷ OperationState.snapshotted ∷ OperationState.applying
      ∷ OperationState.validating ∷ OperationState.succeeded ∷ []
unfolding handle_request validate_request has_start_identity same_request repair start now add_step
    validate_diagnostic consider return_if on_error prepare snapshot finish end_with emit effect
    apply_action execute complete rollback restore_state conclude lookup insert delete is_blank
    all_space is_space validate_bounded_sanitized check_eligible check_resolution Action.valid
    Code.valid Severity.valid Ownership.valid OwnershipConfidence.valid RepairScope.valid
    ResolutionReason.valid OperationState.valid allow record_outcome valid_key valid_opaque_id valid
repaired = refl

undone :
    states_of
      (auto_repair id_sanitize auto_id reason_text clock execution_fails orphan
        ready_coordinator).0.emitted
    ≡ OperationState.detected ∷ OperationState.planned ∷ OperationState.snapshotted
      ∷ OperationState.applying ∷ OperationState.rolling_back ∷ OperationState.rolled_back ∷ []
unfolding auto_repair repair start now add_step validate_diagnostic consider return_if on_error
    prepare snapshot finish end_with emit effect apply_action execute complete rollback
    restore_state conclude lookup insert delete is_blank all_space is_space
    validate_bounded_sanitized check_eligible check_resolution Action.valid Code.valid
    Severity.valid Ownership.valid OwnershipConfidence.valid RepairScope.valid
    ResolutionReason.valid OperationState.valid allow record_outcome valid_key valid_opaque_id valid
undone = refl

undone_effects :
    (auto_repair id_sanitize auto_id reason_text clock execution_fails orphan
      ready_coordinator).0.effects
    ≡ captured
      ∷ persisted OperationState.applying
      ∷ executed
      ∷ persisted OperationState.rolling_back
      ∷ restored
      ∷ persisted OperationState.rolled_back
      ∷ []
unfolding auto_repair repair start now add_step validate_diagnostic consider return_if on_error
    prepare snapshot finish end_with emit effect apply_action execute complete rollback
    restore_state conclude lookup insert delete is_blank all_space is_space
    validate_bounded_sanitized check_eligible check_resolution Action.valid Code.valid
    Severity.valid Ownership.valid OwnershipConfidence.valid RepairScope.valid
    ResolutionReason.valid OperationState.valid allow record_outcome valid_key valid_opaque_id valid
undone_effects = refl

repair-Told_example :
    Told id_sanitize auto_id reason_text clock all_well asked false ready_coordinator
      (repair id_sanitize auto_id reason_text clock all_well orphan asked user ready_coordinator)
repair-Told_example =
    repair-Told id_sanitize auto_id reason_text clock all_well orphan asked user ready_coordinator

repair-Guarded_example :
    Guarded id_sanitize auto_id reason_text clock execution_fails []
      (repair id_sanitize auto_id reason_text clock execution_fails orphan asked user
        ready_coordinator).0
repair-Guarded_example =
    repair-Guarded id_sanitize auto_id reason_text clock execution_fails orphan asked user
      ready_coordinator

abbrev a_candidate : RecoveryCandidate
a_candidate = record { action = prune_managed_orphan; host = "h"; paths = "/b" ∷ "/a" ∷ [] }

-- What is found twice is counted twice, and what is found no more goes.
found_twice :
    snapshot_of
      (inspect id_sanitize auto_id clock all_well
        (λ s. s)
        (λ ss. "h")
        (λ host. true)
        "agent"
        (some ((a_candidate, true) ∷ (a_candidate, false) ∷ (a_candidate, true) ∷ []))
        ready_coordinator).1
    ≡ record (diagnostic_for_candidate id_sanitize auto_id clock all_well
        (λ s. s)
        (λ ss. "h")
        (λ host. true)
        "agent"
        a_candidate
        1001) { first_seen_at = 1000; occurrences = 2 }
      ∷ []
unfolding sort inspect forget_unseen keep inspect_all record_diagnostic insert now diagnose
    diagnostic_for_candidate rollback_failed_diagnostic put lookup
found_twice = refl

inspect_known_example :
    let w =
      inspect id_sanitize auto_id clock all_well
        (λ s. s)
        (λ ss. "h")
        (λ host. true)
        "agent"
        (some ((a_candidate, true) ∷ []))
        ready_coordinator in
    IsActive "diag" w.1 ↔ (
      Any (λ d. d.id ≡ "diag") (items w.0)
      ⊎ (IsActive "diag" ready_coordinator
          × Any (IsFailedRollback "diag") ready_coordinator.operations))
inspect_known_example =
    inspect_known id_sanitize auto_id clock all_well (λ s. s) (λ ss. "h") (λ host. true) "agent"
      "diag" ((a_candidate, true) ∷ []) ready_coordinator
