-- ===== src/Reporter.antt =====
-- internal/agent/recovery/reporter.go: the bounded queue of reports to the orchestrator. A key of the
-- source, one text, is the triple of its parts: no state has a colon, so no two triples give the same
-- text of an operation. A set is a map to `Unit`. What the sender does is an argument, and the waits
-- between its attempts are left out. Each section under the lock is one step.
pub mod Queue
pub mod Flush
pub mod Remembered
pub mod Run
pub mod Lists
pub mod Order
pub mod Fifo
pub mod Delivery
pub mod Calm
pub mod Promise
pub mod Lanes
pub mod Held
pub mod Entering
pub mod Bounds
pub mod Steady
pub mod Admission
pub mod Limits
mod Tests
use nur_proxy.Base.{
  ℕ, Bool, true, false, not, ◌&&◌, String, string_eq, pair_eq, Option, none, some, List, [], ◌∷◌,
  ltb, if◌then◌else◌,
}
use Prim.Native.String.{◌++◌ as ◌<>◌}
use nur_proxy.Dict.{Dict}
use nur_proxy.RecoveryModel.OperationState
use nur_proxy.RecoveryModel.OperationState.{
  OperationState, succeeded, rolled_back, rollback_failed, diagnosis_only, suppressed,
}
use nur_proxy.RecoveryModel.Report.{OperationReport}
use nur_proxy.RecoveryModel.Diagnostic.{Diagnostic}
use nur_proxy.Wire.{RecoveryReport, items}

abbrev pub ReportKey : Type 0
ReportKey = String × (String × String)

pub record QueuedReport : Type 0 where
  pub key : ReportKey
  pub report : RecoveryReport
  pub diagnostic_seq : ℕ

-- `pending` is an int in the source, which does not go below 0 here: what is proved of the queue shows
-- that it is the number of the operation's reports in it.
pub record OperationLane : Type 0 where
  pub pending : ℕ
  pub terminal : Bool
  pub quarantined : Bool

pub record BoundedReporter : Type 0 where
  pub limit : ℕ
  pub queue : List QueuedReport
  pub keys : Dict ReportKey Unit
  pub sent : Dict ReportKey Unit
  pub sent_order : List ReportKey
  pub operations : Dict String OperationLane
  pub diagnostic_pending : Dict String ℕ
  pub next_diagnostic_seq : ℕ
  pub has_sender : Bool

-- `NewBoundedReporter`
unfoldable pub new_bounded_reporter : ℕ → Bool → BoundedReporter
new_bounded_reporter limit has_sender = record {
  limit = if ltb limit 1 then 1 else limit;
  queue = [];
  keys = [];
  sent = [];
  sent_order = [];
  operations = [];
  diagnostic_pending = [];
  next_diagnostic_seq = 0;
  has_sender = has_sender;
}

abbrev pub is_nil {ℓ} : {A : Type ℓ} → List A → Bool
is_nil [] = true
is_nil (x ∷ xs) = false

abbrev pub is_set {ℓ} : {A : Type ℓ} → Option A → Bool
is_set none = false
is_set (some a) = true

abbrev pub the_operation : List OperationReport → Option OperationReport
the_operation (op ∷ []) = some op
the_operation _ = none

-- `reportOperationID`
unfoldable pub report_operation_id : RecoveryReport → String
report_operation_id r = elim (the_operation r.operations) [
  | none ↦ ""
  | some op ↦
      if is_nil (items r.diagnostics) && not (is_set r.capability) then op.operation_id else ""
]

unfoldable pub is_terminal : OperationState → Bool
is_terminal succeeded = true
is_terminal rolled_back = true
is_terminal rollback_failed = true
is_terminal diagnosis_only = true
is_terminal suppressed = true
is_terminal _ = false

-- `terminalOperationReport`
unfoldable pub terminal_operation_report : RecoveryReport → Bool
terminal_operation_report r = elim (the_operation r.operations) [
  | none ↦ false
  | some op ↦ is_terminal op.state
]

-- A report of diagnostics alone.
abbrev pub is_snapshot : RecoveryReport → Bool
is_snapshot r = is_set r.diagnostics && is_nil r.operations && not (is_set r.capability)

module _ (decimal : ℕ → String) where
  -- `diagnosticSnapshotKey`, where `decimal` is the format `%d`.
  unfoldable pub diagnostic_snapshot_key : List Diagnostic → String
  diagnostic_snapshot_key [] = ""
  diagnostic_snapshot_key (d ∷ ds) =
      d.id <> ":" <> decimal d.occurrences <> ";" <> diagnostic_snapshot_key ds

  -- `reportKey`; `none` is the empty text.
  unfoldable pub report_key : RecoveryReport → Option ReportKey
  report_key r = elim (the_operation r.operations) [
    | some op ↦
        if is_nil (items r.diagnostics)
        then some ("operation:", (op.operation_id, OperationState.name op.state))
        else none
    | none ↦
        if is_snapshot r
        then some ("diagnostic-snapshot:", (diagnostic_snapshot_key (items r.diagnostics), ""))
        else if is_set r.capability && is_nil (items r.diagnostics) && is_nil r.operations
        then some ("capability", ("", ""))
        else none
  ]
