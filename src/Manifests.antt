-- ===== src/Manifests.antt =====
-- internal/agent/recovery/snapshot.go: the manifests of snapshots, and their validation. Unicode's
-- classes and the tests of paths, digests and blob names, which rest on Go's packages, are parameters,
-- and so is `SanitizeEvidence`.
use Prim.Native.String.{len}
use nur_proxy.Base.{
  ℕ, Bool, true, false, not, ◌&&◌, ◌||◌, String, string_eq, Option, none, some, List, [], ◌∷◌, ◌==◌,
  ltb, leb, nat_beq, any, all,
}
use nur_proxy.Text.{codes}
use nur_proxy.RecoveryModel.Action
use nur_proxy.RecoveryModel.Action.{Action, action_eq}
use nur_proxy.RecoveryModel.RequestSource.{request_source_eq}
use nur_proxy.RecoveryModel.OperationState
use nur_proxy.RecoveryModel.OperationState.{OperationState, operation_state_eq}
use nur_proxy.RecoveryModel.Report.{OperationReport, validate}
use nur_proxy.RecoveryModel.Diagnostic.{Diagnostic, validate_diagnostic}

pub data SnapshotKind : Type 0 where
  absent regular symlink : SnapshotKind
  other_kind : String → SnapshotKind

pub record SnapshotEntry : Type 0 where
  pub path : String
  pub resolved_path : String
  pub kind : SnapshotKind
  pub mode : ℕ
  pub symlink_target : String
  pub sha256 : String
  pub snapshot_file : String
  pub parent_device : ℕ
  pub parent_inode : ℕ

pub record SnapshotManifest : Type 0 where
  pub version : ℕ
  pub operation_id : String
  pub action : Action
  pub fingerprint : String
  pub created_at : ℕ
  pub updated_at : ℕ
  pub state : OperationState
  pub report : OperationReport
  pub diagnostic : Diagnostic
  pub entries : List SnapshotEntry

abbrev pub manifest_version : ℕ
manifest_version = 2

abbrev pub is_none {ℓ} : {A : Type ℓ} → Option A → Bool
is_none none = true
is_none (some e) = false

module _ (sanitize : String → String) (is_letter is_digit : ℕ → Bool)
    (safe_path valid_digest valid_snapshot_file : String → Bool) where
  -- `validOperationID`
  unfoldable pub valid_operation_id : String → Bool
  valid_operation_id value =
      not (value == "" || ltb 128 (len value) || value == "." || value == "..")
      && all (λ c. is_letter c || is_digit c || nat_beq c b'-' || nat_beq c b'_') (codes value)

  unfoldable pub valid_entry_kind : SnapshotEntry → SnapshotKind → Bool
  valid_entry_kind e absent =
      nat_beq e.mode 0 && e.symlink_target == "" && e.sha256 == "" && e.snapshot_file == ""
  valid_entry_kind e regular =
      leb e.mode 511
      && valid_digest e.sha256
      && valid_snapshot_file e.snapshot_file
      && e.symlink_target == ""
  valid_entry_kind e symlink =
      nat_beq e.mode 0
      && not (e.symlink_target == "")
      && sanitize e.symlink_target == e.symlink_target
      && valid_digest e.sha256
      && e.snapshot_file == ""
  valid_entry_kind e (other_kind s) = false

  -- The loop over the entries; `seen` has the paths before. A safe path is absolute and clean, so
  -- that `filepath.Dir` gives it back only if it is the root.
  unfoldable pub valid_entries : List String → List SnapshotEntry → Bool
  valid_entries seen [] = true
  valid_entries seen (e ∷ entries) =
      safe_path e.path
      && safe_path e.resolved_path
      && not (e.path == "/")
      && not (nat_beq e.parent_device 0)
      && not (nat_beq e.parent_inode 0)
      && not (any (λ p. p == e.path) seen)
      && valid_entry_kind e e.kind
      && valid_entries (e.path ∷ seen) entries

  -- `validateManifest`
  unfoldable pub validate_manifest : SnapshotManifest → Bool
  validate_manifest m =
      nat_beq m.version manifest_version
      && valid_operation_id m.operation_id
      && Action.valid m.action
      && not (m.fingerprint == "")
      && leb (len m.fingerprint) 256
      && sanitize m.fingerprint == m.fingerprint
      && not (nat_beq m.created_at 0)
      && not (nat_beq m.updated_at 0)
      && not (ltb m.updated_at m.created_at)
      && OperationState.valid m.state
      && m.report.operation_id == m.operation_id
      && m.report.action == m.action
      && m.report.state == m.state
      && is_none (validate sanitize m.report)
      && m.diagnostic.id == m.report.diagnostic_id
      && m.diagnostic.proposed_action == m.action
      && m.diagnostic.resource_fingerprint == m.fingerprint
      && is_none (validate_diagnostic sanitize m.diagnostic)
      && valid_entries [] m.entries
