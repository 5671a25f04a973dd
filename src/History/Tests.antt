-- ===== src/History/Tests.antt =====
-- internal/orchestrator/db/recovery.go: runs at concrete inputs, and instances of the theorems.
use nur_proxy.History.Status.{
  rollback_failed_latched, repair_breaker_status, repair_rollback_failed_latched, latest_success,
  recent_failures, select_rows, by_receipt, put, limit, receipts, after_all,
}
use nur_proxy.History.Status.{find_opening}
use nur_proxy.History.Graph.{valid_next}
use nur_proxy.Base.{arith, false, List, ◌*◌, ◌+◌}
use nur_proxy.History.Graph.{valid_transition}
use nur_proxy.History.Restart.{
  restart_disposition_for, restart_none, restart_iff, agent_moves_legal,
}
use nur_proxy.History.Store.{
  validate_both, advance_row, count_outcome, decide_advance, fields_kept, in_unix_range, latest,
  next_stamp, readable, same_identity, select_row, write_advance,
}
use nur_proxy.RecoveryModel.Report.{
  validate, validate_texts, validate_bounded_sanitized, validate_steps, validate_step,
}
use nur_proxy.RecoveryModel.Action
use nur_proxy.RecoveryModel.RequestSource
use nur_proxy.RecoveryModel.OperationState
use nur_proxy.Text.{is_blank, all_space, is_space}
use nur_proxy.History.Graph.{operation_successors, search_from, visit}
use nur_proxy.History.Reports.{
  operation_requires_snapshot, validate_successors, validate_history, historical_replay_compatible,
  operation_reports_equal, step_beq, steps_agree, steps_are_prefix, validate_append_only_steps,
}
use nur_proxy.History.Graph.{operation_successors}
use nur_proxy.History.Reports.{validate_successors}
use nur_proxy.Text.{is_blank}
use nur_proxy.History.Reports.{operation_requires_snapshot}
use nur_proxy.Base.{
  ℕ, ◌≡◌, ◌≢◌, ◌↔◌, ◌≤◌, refl, ap, true, String, string_eq, none, some, [], ◌∷◌, length,
}
use nur_proxy.Dict.{lookup, insert}
use nur_proxy.RecoveryModel.Action.{prune_managed_orphan, action_eq}
use nur_proxy.RecoveryModel.RequestSource.{user, request_source_eq}
use nur_proxy.RecoveryModel.OperationState.{
  rollback_failed, OperationState, operation_state_eq, detected, planned, snapshotted, applying,
  validating, succeeded, rolled_back,
}
use nur_proxy.RecoveryModel.Report.{Step, OperationReport}
use nur_proxy.History.Graph.{
  ◌⟶◌, ◌⟶*◌, legal_iff, legal_operation_transition, operation_state_reachable, search_states,
}
use nur_proxy.History.Reachable.{reachable_iff, search_states-total}
use nur_proxy.History.Reports.{
  validate_operation_history, validate_persisted_operation, recovery_operation_terminal,
}
use nur_proxy.History.Walk.{HasWalk, history_iff, states}
use nur_proxy.History.Outcomes.{succeeded_steps, steps_bounded}
use nur_proxy.History.Store.{unix_epoch, Row, Store, advance_repair_operation}
use nur_proxy.History.Opening.{Threshold, Descending, empty, below, Picked, pick, pass, status_iff}
use nur_proxy.History.Latching.{failed_rollback_latches, user_success_unlatches}
use nur_proxy.History.Status.{repair_breaker_status_from_history, shut, failure_threshold}
use nur_proxy.History.Advance.{Effect, advance-Effect}
use nur_proxy.History.Life.{Later, advance, run_calls, calls_follow, ended_frozen}

abbrev id_sanitize : String → String
id_sanitize s = s

abbrev a_step : String → OperationState → ℕ → Step
a_step name state at = record { name = name; summary = ""; state = state; at = at }

abbrev start : ℕ
start = 62135596800000000007

abbrev planned_report : OperationReport
planned_report = record {
  operation_id = "op";
  diagnostic_id = "diag";
  action = prune_managed_orphan;
  source = user;
  state = planned;
  steps = a_step "plan" planned 62135596800000000007 ∷ [];
  snapshot_reference = "";
  validation_outcome = "";
  rollback_outcome = "";
  error = "";
  started_at = 62135596800000000007;
  finished_at = none;
}

abbrev snapshotted_report : OperationReport
snapshotted_report = record planned_report {
  state = snapshotted;
  snapshot_reference = "snap";
  steps =
      a_step "plan" planned 62135596800000000007
      ∷ a_step "snapshot" snapshotted 62135596800000000008
      ∷ [];
}

abbrev finished_report : OperationReport
finished_report = record planned_report {
  state = succeeded;
  snapshot_reference = "snap";
  validation_outcome = "ok";
  finished_at = some 62135596800000000012;
  steps =
      a_step "plan" planned 62135596800000000007
      ∷ a_step "snapshot" snapshotted 62135596800000000008
      ∷ a_step "apply" applying 62135596800000000009
      ∷ a_step "validate" validating 62135596800000000010
      ∷ a_step "done" succeeded 62135596800000000011
      ∷ [];
}

abbrev row_of : OperationReport → Row
row_of r = record {
  agent_id = "agent";
  fingerprint = "fp";
  report = r;
  created_at = 1;
  received_at = 2;
}

abbrev store_of : OperationReport → Store
store_of r = record {
  operations = ("op", row_of r) ∷ [];
  agents = "agent" ∷ [];
  diagnostics = [];
  totals = [];
}

-- The transition to `snapshotted` is written with the next stamp.
advanced :
    advance_repair_operation id_sanitize
      (store_of planned_report)
      62135596800000000020
      "agent"
      snapshotted_report
    ≡ (
      record (store_of planned_report) {
        operations = ("op", record (row_of snapshotted_report) { received_at = 20 }) ∷ [];
      },
      none,
    )
unfolding advance_repair_operation validate_persisted_operation validate_operation_history
    recovery_operation_terminal insert lookup legal_operation_transition operation_state_reachable
    search_states Action.valid RequestSource.valid OperationState.valid validate_both advance_row
    count_outcome decide_advance fields_kept in_unix_range latest next_stamp readable same_identity
    select_row write_advance validate validate_texts validate_bounded_sanitized validate_steps
    validate_step is_blank all_space is_space operation_successors search_from visit
    operation_requires_snapshot validate_successors validate_history historical_replay_compatible
    operation_reports_equal step_beq steps_agree steps_are_prefix validate_append_only_steps
advanced = refl

finished_ok : validate_persisted_operation finished_report ≡ none
unfolding validate_persisted_operation recovery_operation_terminal operation_requires_snapshot
    is_blank validate_operation_history validate_successors legal_operation_transition
    operation_successors
finished_ok = refl

reachable_iff_example :
    (operation_state_reachable detected rolled_back ≡ true) ↔ (detected ⟶* rolled_back)
reachable_iff_example = reachable_iff detected rolled_back

search_states-total_example : search_states detected succeeded ≢ none
search_states-total_example = search_states-total detected succeeded

legal_iff_example : (legal_operation_transition detected planned ≡ true) ↔ (detected ⟶ planned)
legal_iff_example = legal_iff detected planned

history_iff_example : (validate_operation_history finished_report ≡ none) ↔ HasWalk finished_report
history_iff_example = history_iff finished_report

succeeded_steps_example :
    states finished_report.steps ≡ planned ∷ snapshotted ∷ applying ∷ validating ∷ succeeded ∷ []
succeeded_steps_example = succeeded_steps finished_report finished_ok refl

steps_bounded_example : length finished_report.steps ≤ 7
steps_bounded_example = steps_bounded finished_report finished_ok

advance-Effect_example :
    Effect
      (store_of planned_report)
      "agent"
      snapshotted_report
      (advance_repair_operation id_sanitize
        (store_of planned_report)
        62135596800000000020
        "agent"
        snapshotted_report).0
advance-Effect_example =
    advance-Effect id_sanitize (store_of planned_report) 62135596800000000020 "agent"
      snapshotted_report (ap (λ r. r.1) advanced)

calls_follow_example :
    Later
      (run_calls id_sanitize
        (advance 62135596800000000020 "agent" snapshotted_report ∷ [])
        (store_of planned_report))
      "op"
      (row_of planned_report)
unfolding lookup
calls_follow_example =
    calls_follow id_sanitize (advance 62135596800000000020 "agent" snapshotted_report ∷ [])
      (store_of planned_report) "op" (row_of planned_report) refl

ended_frozen_example :
    lookup "op"
      (run_calls id_sanitize
        (advance 62135596800000000020 "agent" snapshotted_report ∷ [])
        (store_of finished_report)).operations
    ≡ some (row_of finished_report)
unfolding lookup recovery_operation_terminal
ended_frozen_example =
    ended_frozen id_sanitize (advance 62135596800000000020 "agent" snapshotted_report ∷ [])
      (store_of finished_report) "op" (row_of finished_report) refl refl

restart_iff_example :
    (restart_disposition_for validating ≢ restart_none)
    ↔ ((applying ⟶* validating) × (recovery_operation_terminal validating ≡ false))
restart_iff_example = restart_iff validating

agent_moves_legal_example : legal_operation_transition planned snapshotted ≡ true
unfolding valid_transition valid_next
agent_moves_legal_example = agent_moves_legal planned snapshotted refl refl

abbrev minute : ℕ
minute = 60000000000

-- Three failures in the last minutes of 1970's first hour.
abbrev three_receipts : List ℕ
three_receipts = 59 * minute ∷ 58 * minute ∷ 50 * minute ∷ []

abbrev an_hour_in : ℕ
an_hour_in = unix_epoch + 60 * minute

abbrev failed_row : ℕ → Row
failed_row at = record (row_of (record planned_report { state = rolled_back })) { received_at = at }

abbrev three_failures : Store
three_failures = record (store_of planned_report) {
  operations =
      ("a", failed_row (50 * minute))
      ∷ ("b", failed_row (59 * minute))
      ∷ ("c", failed_row (58 * minute))
      ∷ [];
}

failures_read :
    recent_failures three_failures "agent" prune_managed_orphan "fp" an_hour_in ≡ three_receipts
unfolding recent_failures latest_success select_rows by_receipt put limit receipts
failures_read = refl

three-Descending : Descending three_receipts
three-Descending = below at_first (below at_second (below (λ y p. elim p [ ]) empty))
  where
    at_second : (y : ℕ) → Picked (y ∷ []) (50 * minute ∷ []) → y ≤ 58 * minute
    at_second _ (pick _ p) = omega arith
    at_second y (pass _ p) = elim p [ ]

    at_first : (y : ℕ) → Picked (y ∷ []) (58 * minute ∷ 50 * minute ∷ []) → y ≤ 59 * minute
    at_first _ (pick _ p) = omega arith
    at_first y (pass _ (pick _ p)) = omega arith
    at_first y (pass _ (pass _ p)) = elim p [ ]

status_iff_example :
    (repair_breaker_status_from_history false none three_receipts an_hour_in ≢ shut)
    ↔ Threshold none an_hour_in three_receipts
status_iff_example = status_iff none an_hour_in three_receipts three-Descending

-- A rollback that failed after a user's repair had succeeded, and the other way round.
abbrev failed_last : Row
failed_last = record (row_of (record planned_report { state = rollback_failed })) {
  received_at = 60 * minute;
}

abbrev succeeded_first : Row
succeeded_first = record (row_of (record planned_report { state = succeeded })) {
  received_at = 59 * minute;
}

abbrev succeeded_last : Row
succeeded_last = record succeeded_first { received_at = 61 * minute }

abbrev user_first : Store
user_first = record (store_of planned_report) {
  operations = ("a", succeeded_first) ∷ ("b", failed_last) ∷ [];
}

user_first_read :
    (repair_breaker_status user_first "agent" prune_managed_orphan "fp" an_hour_in).1 ≡ none
unfolding repair_breaker_status repair_rollback_failed_latched select_rows by_receipt put is_blank
    all_space is_space Action.valid in_unix_range
user_first_read = refl

failed_rollback_latches_example :
    (repair_breaker_status user_first "agent" prune_managed_orphan "fp" an_hour_in).0
    ≡ rollback_failed_latched
unfolding lookup
failed_rollback_latches_example =
    failed_rollback_latches user_first "agent" prune_managed_orphan "fp" an_hour_in "b" failed_last
      refl (record { agent_id = refl; same_action = refl; same_fingerprint = refl }) refl
      ((λ k s. omega arith), ((λ k s. absurd (cc (s.state))), tt)) user_first_read

abbrev user_last : Store
user_last = record (store_of planned_report) {
  operations = ("a", succeeded_last) ∷ ("b", failed_last) ∷ [];
}

user_success_unlatches_example :
    (repair_breaker_status user_last "agent" prune_managed_orphan "fp" an_hour_in).0
    ≢ rollback_failed_latched
unfolding lookup
user_success_unlatches_example =
    user_success_unlatches user_last "agent" prune_managed_orphan "fp" an_hour_in "a" succeeded_last
      refl (record { agent_id = refl; same_action = refl; same_fingerprint = refl })
      (record { state = refl; source = refl }) ((λ k s. absurd (cc)), ((λ k s. omega arith), tt))

threshold_opens :
    repair_breaker_status_from_history false none three_receipts an_hour_in
    ≡ failure_threshold (119 * minute)
unfolding repair_breaker_status_from_history find_opening after_all
threshold_opens = refl

success_shuts :
    repair_breaker_status_from_history false (some (55 * minute)) three_receipts an_hour_in ≡ shut
unfolding repair_breaker_status_from_history find_opening after_all
success_shuts = refl
