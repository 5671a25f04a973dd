-- ===== src/History/Reports.antt =====
-- internal/orchestrator/db/recovery.go: when reports of one operation agree, and which reports may
-- be stored. An error is the constructor for its `return`.
use nur_proxy.Base.{
  ℕ, ◌+◌, Bool, true, false, not, ◌&&◌, ◌||◌, String, string_eq, Option, none, some, List, [], ◌∷◌,
  ◌==◌, leb, nat_beq, length, if◌then◌else◌,
}
use nur_proxy.Text.{is_blank}
use nur_proxy.RecoveryModel.Action.{action_eq}
use nur_proxy.RecoveryModel.RequestSource.{RequestSource, user, request_source_eq}
use nur_proxy.RecoveryModel.OperationState.{
  OperationState, detected, diagnosis_only, planned, snapshotted, applying, validating, succeeded,
  rolling_back, rolled_back, rollback_failed, suppressed, operation_state_eq,
}
use nur_proxy.RecoveryModel.Report.{Step, OperationReport, check, first}
use nur_proxy.History.Graph.{legal_operation_transition, operation_state_reachable}

unfoldable pub step_beq : Step → Step → Bool
step_beq a b = a.name == b.name && a.summary == b.summary && a.state == b.state && nat_beq a.at b.at

-- The loops that compare two lists of steps of which the first is not longer.
unfoldable pub steps_agree : List Step → List Step → Bool
steps_agree [] complete = true
steps_agree (a ∷ prefix) [] = false
steps_agree (a ∷ prefix) (b ∷ complete) = step_beq a b && steps_agree prefix complete

-- Two pointers to times: both nil, or equal instants.
abbrev pub same_finish : Option ℕ → Option ℕ → Bool
same_finish none none = true
same_finish (some a) (some b) = nat_beq a b
same_finish _ _ = false

unfoldable pub operation_reports_equal : OperationReport → OperationReport → Bool
operation_reports_equal a b =
    a.operation_id == b.operation_id
    && a.diagnostic_id == b.diagnostic_id
    && a.action == b.action
    && a.source == b.source
    && a.state == b.state
    && a.snapshot_reference == b.snapshot_reference
    && a.validation_outcome == b.validation_outcome
    && a.rollback_outcome == b.rollback_outcome
    && a.error == b.error
    && nat_beq a.started_at b.started_at
    && nat_beq (length a.steps) (length b.steps)
    && same_finish a.finished_at b.finished_at
    && steps_agree a.steps b.steps

unfoldable pub steps_are_prefix : List Step → List Step → Bool
steps_are_prefix prefix complete =
    leb (length prefix) (length complete) && steps_agree prefix complete

-- `values[0] == "" || values[0] == values[1]`
abbrev pub unset_or_same : String → String → Bool
unset_or_same a b = a == "" || a == b

abbrev pub finish_kept : Option ℕ → Option ℕ → Bool
finish_kept none b = true
finish_kept (some a) none = false
finish_kept (some a) (some b) = nat_beq a b

unfoldable pub historical_replay_compatible : OperationReport → OperationReport → Bool
historical_replay_compatible submitted stored =
    not (submitted.state == stored.state)
    && operation_state_reachable submitted.state stored.state
    && submitted.operation_id == stored.operation_id
    && submitted.diagnostic_id == stored.diagnostic_id
    && submitted.action == stored.action
    && submitted.source == stored.source
    && nat_beq submitted.started_at stored.started_at
    && steps_are_prefix submitted.steps stored.steps
    && unset_or_same submitted.snapshot_reference stored.snapshot_reference
    && unset_or_same submitted.validation_outcome stored.validation_outcome
    && unset_or_same submitted.rollback_outcome stored.rollback_outcome
    && unset_or_same submitted.error stored.error
    && finish_kept submitted.finished_at stored.finished_at

pub data LifecycleError : Type 0 where
  terminal_unfinished nonterminal_finished no_snapshot unexpected_snapshot : LifecycleError
  no_initial_step wrong_initial_step illegal_step wrong_final_step : LifecycleError
  not_one_step_more changed_history : LifecycleError

unfoldable pub recovery_operation_terminal : OperationState → Bool
recovery_operation_terminal diagnosis_only = true
recovery_operation_terminal succeeded = true
recovery_operation_terminal rolled_back = true
recovery_operation_terminal rollback_failed = true
recovery_operation_terminal suppressed = true
recovery_operation_terminal _ = false

unfoldable pub operation_requires_snapshot : OperationState → Bool
operation_requires_snapshot snapshotted = true
operation_requires_snapshot applying = true
operation_requires_snapshot validating = true
operation_requires_snapshot succeeded = true
operation_requires_snapshot rolling_back = true
operation_requires_snapshot rolled_back = true
operation_requires_snapshot rollback_failed = true
operation_requires_snapshot _ = false

unfoldable pub validate_append_only_steps : List Step → List Step → Option LifecycleError
validate_append_only_steps previous next =
    check (nat_beq (length next) (length previous + 1)) not_one_step_more
      (check (steps_agree previous next) changed_history none)

-- The state that the first step must have.
abbrev pub initial_state : RequestSource → OperationState
initial_state source = if source == user then planned else detected

-- The loop over adjacent steps, and the test of the last one.
unfoldable pub validate_successors :
    OperationState → OperationState → List Step → Option LifecycleError
validate_successors final last [] = check (last == final) wrong_final_step none
validate_successors final last (s ∷ steps) =
    check (legal_operation_transition last s.state) illegal_step
      (validate_successors final s.state steps)

unfoldable pub validate_history : OperationReport → List Step → Option LifecycleError
validate_history r [] = some no_initial_step
validate_history r (s ∷ steps) =
    check (s.state == initial_state r.source) wrong_initial_step
      (validate_successors r.state s.state steps)

unfoldable pub validate_operation_history : OperationReport → Option LifecycleError
unfolding validate_history
validate_operation_history r = validate_history r r.steps

abbrev pub is_set : Option ℕ → Bool
is_set none = false
is_set (some t) = true

unfoldable pub validate_persisted_operation : OperationReport → Option LifecycleError
validate_persisted_operation r =
    let terminal = recovery_operation_terminal r.state in
    check (not (terminal && not (is_set r.finished_at))) terminal_unfinished (
      check (not (not terminal && is_set r.finished_at)) nonterminal_finished (
        first
          (if operation_requires_snapshot r.state
            then check (not (is_blank r.snapshot_reference)) no_snapshot none
            else check (r.snapshot_reference == "") unexpected_snapshot none)
          (validate_operation_history r)))
