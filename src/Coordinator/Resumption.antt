-- ===== src/Coordinator/Resumption.antt =====
-- internal/agent/recovery/coordinator.go: how the resumption of an operation ends.
mod Tests
use nur_proxy.History.Reports.{recovery_operation_terminal}
use nur_proxy.Base.{Bool, true, false, ◌≡◌, String, string_eq, Option, some, List, [], ◌∷◌, ◌++◌}
use nur_proxy.Dict.{lookup}
use nur_proxy.RecoveryModel.Report.{OperationReport}
use nur_proxy.Manifests.{SnapshotManifest}
use nur_proxy.Snapshots.{SnapshotStore}
use nur_proxy.Coordinator.{Coordinator}
use nur_proxy.Coordinator.Resume.{ResumeError, from_store, not_resumable, not_ready, Resumed}
use nur_proxy.Snapshots.Reached.{Reached}

-- The resumption stopped before an outcome was stored.
abbrev pub has_stopped : Option ResumeError → Bool
has_stopped (some (from_store e)) = true
has_stopped (some (not_resumable s)) = true
has_stopped (some (not_ready s)) = true
has_stopped _ = false

-- The operation has ended: its manifest, what the coordinator keeps of it and the last report that
-- was sent agree.
pub record Finished (id : String) (w : Resumed) : Type 0 where
  pub outcome : OperationReport
  pub reported : w.report ≡ some outcome
  pub stored : Reached w.store id outcome.state
  pub over : recovery_operation_terminal outcome.state ≡ true
  pub kept : lookup id w.coordinator.operations ≡ some outcome
  pub sent : (before : List OperationReport) × (w.coordinator.emitted ≡ before ++ outcome ∷ [])

-- A report of a manifest that is read is in the state of the manifest.
abbrev Read : SnapshotStore → String → SnapshotManifest → Type 0
Read st id m = (lookup id st.operations ≡ some m) × (m.report.state ≡ m.state)
