-- ===== src/Samples.antt =====
-- Reports, manifests and coordinators that the tests of several parts share.
use nur_proxy.RecoveryModel.RequestSource.{user}
use nur_proxy.RecoveryModel.Action.{prune_managed_orphan}
use nur_proxy.RecoveryModel.Diagnostic.{Diagnostic}
use nur_proxy.Manifests.{SnapshotManifest}
use nur_proxy.Snapshots.{SnapshotStore}
use nur_proxy.RecoveryModel.Report.{Step, OperationReport}
use nur_proxy.Coordinator.{Answers, Coordinator}
use nur_proxy.RecoveryModel.OperationState.{OperationState}
use nur_proxy.RecoveryModel.Code
use nur_proxy.RecoveryModel.OperationState
use nur_proxy.RecoveryModel.Ownership
use nur_proxy.RecoveryModel.OwnershipConfidence
use nur_proxy.RecoveryModel.RepairScope
use nur_proxy.RecoveryModel.ResolutionReason
use nur_proxy.RecoveryModel.Severity
use nur_proxy.Base.{ℕ, String, true, false, none, [], ◌∷◌, List, Bool, leb, ◌&&◌, ◌+◌}

abbrev pub id_sanitize : String → String
id_sanitize s = s

abbrev pub is_letter : ℕ → Bool
is_letter c = leb b'a' c && leb c b'z'

abbrev pub is_digit : ℕ → Bool
is_digit c = leb b'0' c && leb c b'9'

abbrev pub fine : String → Bool
fine s = true

abbrev pub a_step : OperationState → ℕ → Step
a_step s at = record { name = OperationState.name s; summary = ""; state = s; at = at }

abbrev pub applying_report : OperationReport
applying_report = record {
  operation_id = "op";
  diagnostic_id = "diag";
  action = prune_managed_orphan;
  source = user;
  state = OperationState.applying;
  steps =
      a_step OperationState.planned 20
      ∷ a_step OperationState.snapshotted 21
      ∷ a_step OperationState.applying 22
      ∷ [];
  snapshot_reference = "op";
  validation_outcome = "";
  rollback_outcome = "";
  error = "";
  started_at = 20;
  finished_at = none;
}

abbrev pub validating_report : OperationReport
validating_report = record applying_report {
  state = OperationState.validating;
  steps =
      a_step OperationState.planned 20
      ∷ a_step OperationState.snapshotted 21
      ∷ a_step OperationState.applying 22
      ∷ a_step OperationState.validating 23
      ∷ [];
}

abbrev pub orphan : Diagnostic
orphan = record {
  id = "diag";
  code = Code.managed_orphan_config;
  subsystem = "proxy";
  severity = Severity.error;
  ownership = Ownership.nurproxy;
  ownership_confidence = OwnershipConfidence.other "";
  summary = "";
  evidence = "";
  affected_paths = [];
  resource_fingerprint = "fp";
  proposed_action = prune_managed_orphan;
  repair_scope = RepairScope.other "";
  repair_eligible = false;
  repair_refusal_code = "";
  auto_repair_eligible = true;
  hard_change = false;
  first_seen_at = 10;
  last_seen_at = 10;
  occurrences = 1;
  resolved_at = none;
  resolution_reason = ResolutionReason.other "";
  resolution_operation_id = "";
}

abbrev pub in_the_middle : SnapshotManifest
in_the_middle = record {
  version = 2;
  operation_id = "op";
  action = prune_managed_orphan;
  fingerprint = "fp";
  created_at = 21;
  updated_at = 22;
  state = OperationState.applying;
  report = applying_report;
  diagnostic = orphan;
  entries = [];
}

abbrev pub one_operation : SnapshotStore
one_operation = record { in_use = true; operations = ("op", in_the_middle) ∷ [] }

abbrev pub auto_id : ℕ → ℕ → String
auto_id at n = "auto"

abbrev pub clock : ℕ → ℕ
clock n = 1000 + n

abbrev pub ready_coordinator : Coordinator
ready_coordinator = record {
  policy = true;
  policy_known = true;
  diagnostics = ("diag", orphan) ∷ [];
  candidates = ("diag", record { action = prune_managed_orphan; host = "h"; paths = [] }) ∷ [];
  operations = [];
  sequence = 0;
  last_now = 0;
  readings = 0;
  breaker = record { states = []; dir = true; persistent = true; closed = false; file = none };
  emitted = [];
  effects = [];
}

abbrev pub all_well : Answers
all_well = record {
  admits = true;
  resolves = none;
  captures = none;
  persists_applying = none;
  executes = none;
  persists_validating = none;
  validates = none;
  activates = none;
  persists_success = none;
  persists_rolling = none;
  restores = none;
  revalidates = none;
  reactivates = none;
  persists_outcome = none;
  breaker_written = true;
}

abbrev pub states_of : List OperationReport → List OperationState
states_of [] = []
states_of (r ∷ rs) = r.state ∷ states_of rs
