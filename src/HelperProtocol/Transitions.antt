-- ===== src/HelperProtocol/Transitions.antt =====
-- internal/shared/helperprotocol/types.go: the transitions of a journalled operation.
use nur_proxy.Base.{Bool, false, ◌||◌, ◌==◌, string_eq}
use nur_proxy.HelperProtocol.JournalState.{
  JournalState, planned, authorized, running, mutated, validated, succeeded, failed_before_mutation,
  rollback_running, rolled_back, rollback_failed, outcome_indeterminate, journal_state_eq,
}

-- `CanTransition`
unfoldable pub can_transition : JournalState → JournalState → Bool
can_transition planned to = to == authorized
can_transition authorized to = to == running || to == failed_before_mutation
can_transition running to =
    to == mutated || to == succeeded || to == failed_before_mutation || to == outcome_indeterminate
can_transition mutated to = to == validated || to == rollback_running || to == outcome_indeterminate
can_transition validated to =
    to == succeeded || to == rollback_running || to == outcome_indeterminate
can_transition rollback_running to =
    to == rolled_back || to == rollback_failed || to == outcome_indeterminate
can_transition _ to = false
