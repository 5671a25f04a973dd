-- ===== src/RecoveryModel/Requests.antt =====
-- internal/shared/recoverymodel/model.go: a request for a repair, and its validation.
use nur_proxy.Base.{
  ap, [], ◌∷◌, ◌≡◌, refl, ℕ, Bool, true, not, ◌&&◌, String, Option, none, some, ◌==◌, nat_beq,
  arith,
}
use nur_proxy.Text.{is_blank}
use nur_proxy.RecoveryModel.Action
use nur_proxy.RecoveryModel.Action.{Action}
use nur_proxy.RecoveryModel.OperationState
use nur_proxy.RecoveryModel.OperationState.{OperationState, planned, operation_state_eq}
use nur_proxy.RecoveryModel.Report.{
  OperationReport, validate_steps, validate_step, Step, ReportError, check, first,
  validate_bounded_sanitized,
}

pub record RepairRequest : Type 0 where
  pub operation_id : String
  pub diagnostic_id : String
  pub action : Action
  pub started_at : ℕ
  pub initial_step : Step

pub data RequestError : Type 0 where
  no_operation no_diagnostic unknown_action no_start_identity : RequestError
  bad_text : ReportError → RequestError

abbrev pub text_error : Option ReportError → Option RequestError
text_error none = none
text_error (some e) = some (bad_text e)

-- The persisted planned start identity.
unfoldable pub has_start_identity : RepairRequest → Bool
has_start_identity r =
    not (nat_beq r.started_at 0)
    && r.initial_step.state == planned
    && not (nat_beq r.initial_step.at 0)
    && nat_beq r.initial_step.at r.started_at
    && not (is_blank r.initial_step.name)

module _ (sanitize : String → String) where
  -- `RepairRequest.Validate`
  unfoldable pub validate_request : RepairRequest → Option RequestError
  validate_request r = check (not (is_blank r.operation_id)) no_operation (
      check (not (is_blank r.diagnostic_id)) no_diagnostic (
        check (Action.valid r.action) unknown_action (
          check (has_start_identity r) no_start_identity (
            first (text_error (validate_bounded_sanitized sanitize r.initial_step.name))
              (text_error (validate_bounded_sanitized sanitize r.initial_step.summary))))))

  no_text_error : (e : Option ReportError) → text_error e ≡ none → e ≡ none
  no_text_error none h = refl
  no_text_error (some e) h = absurd (cc)

  planned_valid : (s : OperationState) → (s == planned) ≡ true → OperationState.valid s ≡ true
  unfolding OperationState.valid
  planned_valid s h = ap OperationState.valid ((operation_state_eq.beq_iff s planned).0 h)

  -- The first step of a request that is valid is accepted as the only step of a report that starts
  -- when the request does and has not finished.
  pub request_step_accepted :
      (r : RepairRequest) (report : OperationReport)
      → validate_request r ≡ none
      → report.started_at ≡ r.started_at
      → report.finished_at ≡ none
      → validate_steps sanitize report 0 (r.initial_step ∷ []) ≡ none
  unfolding validate_request has_start_identity validate_steps validate_step
  request_step_accepted r report h start open_end = ground (
    arith,
    no_text_error (validate_bounded_sanitized sanitize r.initial_step.name),
    no_text_error (validate_bounded_sanitized sanitize r.initial_step.summary),
    planned_valid r.initial_step.state,
  )
