-- ===== src/Journal/Tests.antt =====
-- internal/agent/helper/journal.go: runs at concrete inputs, and instances of the theorems.
use nur_proxy.Journal.Calls.{run_call}
use nur_proxy.Base.{◌≡◌, refl, Bool, true, String, string_eq, none, some, List, [], ◌∷◌}
use nur_proxy.Dict.{lookup, insert}
use nur_proxy.HelperProtocol.HelperAction.{HelperAction, helper_action_eq}
use nur_proxy.Journal.Grants.{Claimed}
use nur_proxy.Journal.Calls.{JournalCall, begin_call, run_calls, grant_used_once}
use nur_proxy.HelperProtocol.HelperAction.{restart_proxy}
use nur_proxy.HelperProtocol.JournalState.{authorized, succeeded, journal_state_eq}
use nur_proxy.Journal.Final.{final_record_kept}
use nur_proxy.Journal.{
  Journal, holds, OperationRecord, claim_grant, begin_record, begin_operation, load_operation,
}
use nur_proxy.HelperProtocol.Transitions.{can_transition}
use nur_proxy.HelperProtocol.HelperAction

abbrev always : {A : Type 0} → A → Bool
always a = true

abbrev empty : Journal
empty = record { operations = []; grants = [] }

empty-Claimed : Claimed empty
unfolding lookup
empty-Claimed id r at = absurd (cc)

abbrev begins : List JournalCall
begins =
    begin_call true true "op" "grant" "digest" restart_proxy "now"
    ∷ begin_call true true "other" "grant" "digest" restart_proxy "now"
    ∷ []

abbrev begun : String → OperationRecord
begun id = record {
  operation_id = id;
  grant_id = "grant";
  canonical_request_digest = "digest";
  action = restart_proxy;
  state = authorized;
  receipt = none;
  updated_at = "now";
}

-- The second operation is refused, since the grant is claimed by the first.
abbrev after : Journal
after = run_calls always always always begins empty

begun_there : lookup "op" after.operations ≡ some (holds (begun "op"))
unfolding run_calls lookup run_call begin_operation HelperAction.valid load_operation claim_grant
    begin_record insert
begun_there = refl

begun_once : lookup "other" after.operations ≡ none
unfolding run_calls lookup run_call begin_operation HelperAction.valid load_operation claim_grant
    begin_record insert
begun_once = refl

abbrev first_id : String
first_id = "op"

grant_used_once_example : first_id ≡ first_id
grant_used_once_example =
    grant_used_once always always always begins empty first_id first_id (begun "op") (begun "op")
      empty-Claimed begun_there begun_there refl

abbrev ended : OperationRecord
ended = record (begun "op") { state = succeeded }

abbrev ended_journal : Journal
ended_journal = record { operations = ("op", holds ended) ∷ []; grants = [] }

final_record_kept_example :
    lookup "op" (run_calls always always always begins ended_journal).operations
    ≡ some (holds ended)
unfolding lookup can_transition
final_record_kept_example =
    final_record_kept always always always begins "op" ended ended_journal (λ next. refl) refl
