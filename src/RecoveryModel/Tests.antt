-- ===== src/RecoveryModel/Tests.antt =====
-- internal/shared/recoverymodel/model.go: runs at concrete inputs, and instances of the theorems.
use nur_proxy.RecoveryModel.Report.{validate_bounded_sanitized}
use nur_proxy.RecoveryModel.Action.{valid}
use nur_proxy.Text.{is_blank}
use nur_proxy.Base.{[], ◌∷◌}
use nur_proxy.RecoveryModel.Action.{prune_managed_orphan}
use nur_proxy.RecoveryModel.RequestSource.{user}
use nur_proxy.RecoveryModel.Report.{OperationReport, validate_steps}
use nur_proxy.RecoveryModel.Requests.{
  RepairRequest, validate_request, has_start_identity, request_step_accepted,
}
use nur_proxy.Base.{◌≡◌, refl, some, none}
use nur_proxy.Dict.{lookup}
use nur_proxy.Names.{of_name, unmarshal, unmarshal_closed_string}
use nur_proxy.RecoveryModel.States.{Spells, unmarshal_json_iff}
use nur_proxy.Base.{◌↔◌}
use nur_proxy.RecoveryModel.OperationState
use nur_proxy.RecoveryModel.OperationState.{planned}

unknown_state : OperationState.unmarshal_json "broken" ≡ none
unfolding OperationState.unmarshal_json unmarshal unmarshal_closed_string of_name lookup
    OperationState.valid
unknown_state = refl

unmarshal_json_iff_example :
    (OperationState.unmarshal_json "planned" ≡ some planned) ↔ Spells "planned" planned
unmarshal_json_iff_example = unmarshal_json_iff "planned" planned

abbrev small_request : RepairRequest
small_request = record {
  operation_id = "op";
  diagnostic_id = "diag";
  action = prune_managed_orphan;
  started_at = 7;
  initial_step = record { name = "plan"; summary = "because"; state = planned; at = 7 };
}

abbrev small_report : OperationReport
small_report = record {
  operation_id = "op";
  diagnostic_id = "diag";
  action = prune_managed_orphan;
  source = user;
  state = planned;
  steps = [];
  snapshot_reference = "";
  validation_outcome = "";
  rollback_outcome = "";
  error = "";
  started_at = 7;
  finished_at = none;
}

request_step_accepted_example :
    validate_steps (λ s. s) small_report 0 (small_request.initial_step ∷ []) ≡ none
unfolding validate_request has_start_identity is_blank valid validate_bounded_sanitized
request_step_accepted_example =
    request_step_accepted (λ s. s) small_request small_report refl refl refl
