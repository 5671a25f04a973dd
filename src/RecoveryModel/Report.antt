-- ===== src/RecoveryModel/Report.antt =====
-- internal/shared/recoverymodel/model.go: repair operations, and the validation of their reports.
-- `SanitizeEvidence`, which rests on Go's regular expressions, is the parameter `sanitize`: what is
-- proved holds for every such function. An error is the constructor for its `return`.
use Prim.Native.String.{len}
use nur_proxy.Base.{
  ℕ, Bool, false, not, ◌||◌, String, string_eq, Option, none, some, List, [], ◌∷◌, ◌==◌, ltb, leb,
  nat_beq, if◌then◌else◌,
}
use nur_proxy.Text.{is_blank}
use nur_proxy.RecoveryModel.Action
use nur_proxy.RecoveryModel.Action.{Action}
use nur_proxy.RecoveryModel.RequestSource
use nur_proxy.RecoveryModel.RequestSource.{RequestSource}
use nur_proxy.RecoveryModel.OperationState
use nur_proxy.RecoveryModel.OperationState.{OperationState}

pub record Step : Type 0 where
  pub name : String
  pub summary : String
  pub state : OperationState
  pub at : ℕ

pub record OperationReport : Type 0 where
  pub operation_id : String
  pub diagnostic_id : String
  pub action : Action
  pub source : RequestSource
  pub state : OperationState
  pub steps : List Step
  pub snapshot_reference : String
  pub validation_outcome : String
  pub rollback_outcome : String
  pub error : String
  pub started_at : ℕ
  pub finished_at : Option ℕ

pub data ReportError : Type 0 where
  no_operation_id no_diagnostic_id invalid_action invalid_source invalid_state no_start :
      ReportError
  finish_before_start too_long not_sanitized : ReportError
  no_step_name invalid_step_state no_step_time step_before_start step_after_finish : ReportError
  step_out_of_order : ReportError

abbrev pub max_evidence_bytes : ℕ
max_evidence_bytes = 8192

-- `if !ok { return e }`, then the rest; `none` is success.
abbrev pub check {ℓ} : {E : Type ℓ} → Bool → E → Option E → Option E
check ok e rest = if ok then rest else some e

-- `if err != nil { return err }`, then the rest.
abbrev pub first {ℓ} : {E : Type ℓ} → Option E → Option E → Option E
first none rest = rest
first (some e) rest = some e

-- `finishedAt != nil && t.After(*finishedAt)`
abbrev pub follows_finish : ℕ → Option ℕ → Bool
follows_finish t none = false
follows_finish t (some f) = ltb f t

abbrev pub precedes_start : Option ℕ → ℕ → Bool
precedes_start none s = false
precedes_start (some f) s = ltb f s

module _ (sanitize : String → String) where
  unfoldable pub validate_bounded_sanitized : String → Option ReportError
  validate_bounded_sanitized value =
      check (leb (len value) max_evidence_bytes) too_long
        (check (sanitize value == value) not_sanitized none)

  -- One round of the loop over the steps; `previous` is `previousStepAt`.
  unfoldable pub validate_step : OperationReport → ℕ → Step → Option ReportError
  validate_step r previous s = check (not (is_blank s.name)) no_step_name (
      first (validate_bounded_sanitized s.name) (
        check (OperationState.valid s.state) invalid_step_state (
          check (not (nat_beq s.at 0)) no_step_time (
            check (not (ltb s.at r.started_at)) step_before_start (
              check (not (follows_finish s.at r.finished_at)) step_after_finish (
                check (nat_beq previous 0 || not (ltb s.at previous)) step_out_of_order
                  (validate_bounded_sanitized s.summary)))))))

  unfoldable pub validate_steps : OperationReport → ℕ → List Step → Option ReportError
  validate_steps r previous [] = none
  validate_steps r previous (s ∷ steps) =
      first (validate_step r previous s) (validate_steps r s.at steps)

  unfoldable pub validate_texts : List String → Option ReportError
  validate_texts [] = none
  validate_texts (value ∷ values) = first (validate_bounded_sanitized value) (validate_texts values)

  -- `OperationReport.Validate`
  unfoldable pub validate : OperationReport → Option ReportError
  validate r = check (not (is_blank r.operation_id)) no_operation_id (
      check (not (is_blank r.diagnostic_id)) no_diagnostic_id (
        check (Action.valid r.action) invalid_action (
          check (RequestSource.valid r.source) invalid_source (
            check (OperationState.valid r.state) invalid_state (
              check (not (nat_beq r.started_at 0)) no_start (
                check (not (precedes_start r.finished_at r.started_at)) finish_before_start (
                  first
                    (validate_texts (
                      r.error ∷ r.validation_outcome ∷ r.rollback_outcome ∷ r.snapshot_reference
                      ∷ []))
                    (validate_steps r 0 r.steps))))))))
