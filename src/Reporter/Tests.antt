-- ===== src/Reporter/Tests.antt =====
-- internal/agent/recovery/reporter.go: runs at concrete inputs, and instances of the theorems.
use nur_proxy.Samples.{id_sanitize, orphan}
use nur_proxy.Reporter.Run.{calm, idle, step, entrants}
use nur_proxy.Reporter.Flush.{
  settle, settle_of, next, next_of, begin, deliver, earliest_from, held_back, pick, put_back,
  quarantine, release_lane, settle_first, settle_item, trim_sent,
}
use nur_proxy.Reporter.Queue.{
  enqueue, enqueue_as, key_of, add_pending_diagnostics, add_to_lane, admit, forget, is_full,
  make_way, push, release_pending_diagnostics, strip, supersede, verdict,
}
use nur_proxy.Reporter.{
  new_bounded_reporter, diagnostic_snapshot_key, is_terminal, report_key, report_operation_id,
  terminal_operation_report,
}
use nur_proxy.Wire.{validate_envelope, validate_diagnostics, validate_operations}
use nur_proxy.RecoveryModel.Report.{
  validate, validate_bounded_sanitized, validate_step, validate_steps, validate_texts,
}
use nur_proxy.RecoveryModel.Diagnostic.{
  check_eligible, check_resolution, is_semantic, valid_semantic_id, validate_actions,
  validate_capability, validate_diagnostic,
}
use nur_proxy.Text.{is_blank, all_space, ends_in_space, is_space, is_trimmed}
use nur_proxy.Dict.{delete, insert, lookup}
use nur_proxy.Base.{
  ℕ, ◌≡◌, ◌≤◌, refl, true, false, String, string_eq, none, some, [], ◌∷◌, ◌++◌, List, arith, length,
}
use mathlib.Core.List.{Perm}
use nur_proxy.RecoveryModel.Action
use nur_proxy.RecoveryModel.RequestSource
use nur_proxy.RecoveryModel.OperationState
use nur_proxy.RecoveryModel.OperationState.{OperationState}
use nur_proxy.RecoveryModel.Code
use nur_proxy.RecoveryModel.Severity
use nur_proxy.RecoveryModel.Ownership
use nur_proxy.RecoveryModel.OwnershipConfidence
use nur_proxy.RecoveryModel.RepairScope
use nur_proxy.RecoveryModel.ResolutionReason
use nur_proxy.Wire.{RecoveryReport}
use nur_proxy.Reporter.Run.{Event, enqueues, begins, picks, settles, run}
use nur_proxy.Reporter.Flush.{broken, status, attempts, max_attempts, delivered, refused, failed}
use nur_proxy.Reporter.Lists.{of_operation, lane}
use nur_proxy.Reporter.Promise.{at_first, run_prefix, run_order}
use nur_proxy.Reporter.Limits.{run_bounds}
use nur_proxy.Reporter.Lanes.{pending_of}

abbrev digits : ℕ → String
digits n = "1"

abbrev report_of : String → OperationState → RecoveryReport
report_of id state = record {
  capability = none;
  diagnostics = none;
  operations =
      record {
        operation_id = id;
        diagnostic_id = "diag";
        action = Action.prune_managed_orphan;
        source = RequestSource.user;
        state = state;
        steps = [];
        snapshot_reference = "";
        validation_outcome = "";
        rollback_outcome = "";
        error = "";
        started_at = 10;
        finished_at = none;
      }
      ∷ [];
}

abbrev snapshot : RecoveryReport
snapshot = record { capability = none; diagnostics = some (orphan ∷ []); operations = [] }

abbrev x1 : RecoveryReport
x1 = report_of "x" OperationState.planned

abbrev x2 : RecoveryReport
x2 = report_of "x" OperationState.snapshotted

abbrev x3 : RecoveryReport
x3 = report_of "x" OperationState.applying

abbrev y1 : RecoveryReport
y1 = report_of "y" OperationState.planned

-- The sender fails at the first report of `x`: the second one waits for the next flush.
abbrev patient : List Event
patient =
    enqueues x1
    ∷ enqueues y1
    ∷ enqueues x2
    ∷ enqueues x1
    ∷ begins
    ∷ picks
    ∷ settles failed
    ∷ picks
    ∷ settles delivered
    ∷ picks
    ∷ begins
    ∷ picks
    ∷ settles delivered
    ∷ picks
    ∷ settles refused
    ∷ []

patient_sent : (run id_sanitize digits patient (at_first 4 true)).0.accepted_reports ≡ y1 ∷ x1 ∷ []
unfolding run step entrants settle settle_of next next_of begin deliver earliest_from held_back pick
    put_back quarantine release_lane settle_first settle_item trim_sent enqueue enqueue_as key_of
    add_pending_diagnostics add_to_lane admit forget is_full make_way push
    release_pending_diagnostics strip supersede verdict new_bounded_reporter diagnostic_snapshot_key
    is_terminal report_key report_operation_id terminal_operation_report validate_envelope
    validate_diagnostics validate_operations validate validate_bounded_sanitized validate_step
    validate_steps validate_texts check_eligible check_resolution is_semantic valid_semantic_id
    validate_actions validate_capability validate_diagnostic is_blank all_space ends_in_space
    is_space is_trimmed delete insert lookup Action.valid RequestSource.valid OperationState.valid
    Code.valid Severity.valid Ownership.valid OwnershipConfidence.valid RepairScope.valid
    ResolutionReason.valid
patient_sent = refl

-- A report that comes in during a flush overtakes the one that the flush has yet to visit.
overtaking :
    (run id_sanitize digits
      (enqueues x1
        ∷ enqueues y1
        ∷ enqueues x2
        ∷ begins
        ∷ picks
        ∷ settles failed
        ∷ picks
        ∷ enqueues x3
        ∷ settles delivered
        ∷ picks
        ∷ begins
        ∷ picks
        ∷ settles delivered
        ∷ picks
        ∷ settles delivered
        ∷ picks
        ∷ settles delivered
        ∷ [])
      (at_first 4 true)).0.accepted_reports
    ≡ y1 ∷ x1 ∷ x3 ∷ x2 ∷ []
unfolding run step entrants settle settle_of next next_of begin deliver earliest_from held_back pick
    put_back quarantine release_lane settle_first settle_item trim_sent enqueue enqueue_as key_of
    add_pending_diagnostics add_to_lane admit forget is_full make_way push
    release_pending_diagnostics strip supersede verdict new_bounded_reporter diagnostic_snapshot_key
    is_terminal report_key report_operation_id terminal_operation_report validate_envelope
    validate_diagnostics validate_operations validate validate_bounded_sanitized validate_step
    validate_steps validate_texts check_eligible check_resolution is_semantic valid_semantic_id
    validate_actions validate_capability validate_diagnostic is_blank all_space ends_in_space
    is_space is_trimmed delete insert lookup Action.valid RequestSource.valid OperationState.valid
    Code.valid Severity.valid Ownership.valid OwnershipConfidence.valid RepairScope.valid
    ResolutionReason.valid
overtaking = refl

-- A snapshot that stands between two reports of an operation on its diagnostic reverses them.
reversed :
    (run id_sanitize digits
      (enqueues x1
        ∷ enqueues snapshot
        ∷ enqueues x2
        ∷ begins
        ∷ picks
        ∷ picks
        ∷ settles delivered
        ∷ picks
        ∷ settles delivered
        ∷ begins
        ∷ picks
        ∷ settles delivered
        ∷ [])
      (at_first 4 true)).0.accepted_reports
    ≡ snapshot ∷ x2 ∷ x1 ∷ []
unfolding run step entrants settle settle_of next next_of begin deliver earliest_from held_back pick
    put_back quarantine release_lane settle_first settle_item trim_sent enqueue enqueue_as key_of
    add_pending_diagnostics add_to_lane admit forget is_full make_way push
    release_pending_diagnostics strip supersede verdict new_bounded_reporter diagnostic_snapshot_key
    is_terminal report_key report_operation_id terminal_operation_report validate_envelope
    validate_diagnostics validate_operations validate validate_bounded_sanitized validate_step
    validate_steps validate_texts check_eligible check_resolution is_semantic valid_semantic_id
    validate_actions validate_capability validate_diagnostic is_blank all_space ends_in_space
    is_space is_trimmed delete insert lookup Action.valid RequestSource.valid OperationState.valid
    Code.valid Severity.valid Ownership.valid OwnershipConfidence.valid RepairScope.valid
    ResolutionReason.valid
reversed = refl

given_up : attempts max_attempts (λ n. broken) (λ n. false) 0 ≡ failed
unfolding attempts
given_up = refl

not_again : attempts max_attempts (λ n. status 409) (λ n. false) 0 ≡ refused
unfolding attempts
not_again = refl

is_calm_run : calm id_sanitize digits patient (at_first 4 true) ≡ true
unfolding run step entrants settle settle_of next next_of begin deliver earliest_from held_back pick
    put_back quarantine release_lane settle_first settle_item trim_sent enqueue enqueue_as key_of
    add_pending_diagnostics add_to_lane admit forget is_full make_way push
    release_pending_diagnostics strip supersede verdict new_bounded_reporter diagnostic_snapshot_key
    is_terminal report_key report_operation_id terminal_operation_report validate_envelope
    validate_diagnostics validate_operations validate validate_bounded_sanitized validate_step
    validate_steps validate_texts check_eligible check_resolution is_semantic valid_semantic_id
    validate_actions validate_capability validate_diagnostic is_blank all_space ends_in_space
    is_space is_trimmed delete insert lookup Action.valid RequestSource.valid OperationState.valid
    Code.valid Severity.valid Ownership.valid OwnershipConfidence.valid RepairScope.valid
    ResolutionReason.valid calm
is_calm_run = refl

at_rest_after : idle (run id_sanitize digits patient (at_first 4 true)).0 ≡ true
unfolding run step entrants settle settle_of next next_of begin deliver earliest_from held_back pick
    put_back quarantine release_lane settle_first settle_item trim_sent enqueue enqueue_as key_of
    add_pending_diagnostics add_to_lane admit forget is_full make_way push
    release_pending_diagnostics strip supersede verdict new_bounded_reporter diagnostic_snapshot_key
    is_terminal report_key report_operation_id terminal_operation_report validate_envelope
    validate_diagnostics validate_operations validate validate_bounded_sanitized validate_step
    validate_steps validate_texts check_eligible check_resolution is_semantic valid_semantic_id
    validate_actions validate_capability validate_diagnostic is_blank all_space ends_in_space
    is_space is_trimmed delete insert lookup Action.valid RequestSource.valid OperationState.valid
    Code.valid Severity.valid Ownership.valid OwnershipConfidence.valid RepairScope.valid
    ResolutionReason.valid
at_rest_after = refl

run_prefix_example :
    let w = run id_sanitize digits patient (at_first 4 true) in
    (rest : List RecoveryReport) × (of_operation "x" w.1
      ≡ of_operation "x" w.0.accepted_reports ++ rest)
    × Perm rest (lane "x" w.0.reporter.queue)
run_prefix_example = run_prefix id_sanitize digits 4 true patient is_calm_run "x" refl

run_order_example :
    let w = run id_sanitize digits patient (at_first 4 true) in
    of_operation "x" w.1 ≡ of_operation "x" w.0.accepted_reports ++ lane "x" w.0.reporter.queue
run_order_example = run_order id_sanitize digits 4 true patient is_calm_run at_rest_after "x" refl

run_bounds_example :
    let r = (run id_sanitize digits patient (at_first 4 true)).0.reporter in
    (length r.operations ≤ 4)
    × (length r.sent ≤ 32)
    × (length r.sent_order ≤ 32)
    × (pending_of "x" r.operations ≡ length (lane "x" r.queue))
run_bounds_example = run_bounds id_sanitize digits 4 true patient "x" (omega arith) refl
