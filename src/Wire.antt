-- ===== src/Wire.antt =====
-- internal/shared/proxymodel/wire.go: the report that an agent sends about its recovery. A slice that
-- may be nil is an `Option`, where the code asks for it.
use nur_proxy.Base.{String, Option, none, some, List, [], ◌∷◌}
use nur_proxy.RecoveryModel.Report.{OperationReport, ReportError, validate}
use nur_proxy.RecoveryModel.Diagnostic.{
  Diagnostic, DiagnosticError, Capability, CapabilityError, validate_diagnostic,
  validate_capability,
}

pub record RecoveryReport : Type 0 where
  pub capability : Option Capability
  pub diagnostics : Option (List Diagnostic)
  pub operations : List OperationReport

pub data EnvelopeError : Type 0 where
  bad_capability : CapabilityError → EnvelopeError
  bad_diagnostic : DiagnosticError → EnvelopeError
  bad_operation : ReportError → EnvelopeError

abbrev pub items : Option (List Diagnostic) → List Diagnostic
items none = []
items (some ds) = ds

module _ (sanitize : String → String) where
  unfoldable pub validate_operations : List OperationReport → Option EnvelopeError
  validate_operations [] = none
  validate_operations (r ∷ rs) = elim (validate sanitize r) [
    | some e ↦ some (bad_operation e)
    | none ↦ validate_operations rs
  ]

  unfoldable pub validate_diagnostics : List Diagnostic → Option EnvelopeError
  validate_diagnostics [] = none
  validate_diagnostics (d ∷ ds) = elim (validate_diagnostic sanitize d) [
    | some e ↦ some (bad_diagnostic e)
    | none ↦ validate_diagnostics ds
  ]

  abbrev pub capability_error : Option Capability → Option CapabilityError
  capability_error none = none
  capability_error (some c) = validate_capability c

  -- `RecoveryReportEnvelope.Validate`
  unfoldable pub validate_envelope : RecoveryReport → Option EnvelopeError
  validate_envelope r = elim (capability_error r.capability) [
    | some e ↦ some (bad_capability e)
    | none ↦ elim (validate_diagnostics (items r.diagnostics)) [
      | some e ↦ some e
      | none ↦ validate_operations r.operations
    ]
  ]
