-- ===== src/Snapshots.antt =====
-- internal/agent/recovery/snapshot.go: the manifests of the snapshot store and their transitions.
-- `operations` has the manifests of the operation directories; a file that does not decode is not
-- there. Writing a manifest succeeds or changes nothing, by `written`. The parameters are those of
-- Manifests. The lock makes each call one step.
pub mod Moves
pub mod Lives
pub mod Loads
pub mod Reached
mod Tests
use nur_proxy.Base.{
  ℕ, Bool, true, false, not, ◌&&◌, String, string_eq, Option, none, some, [], ◌∷◌, ◌++◌, ◌==◌, ltb,
  nat_beq, if◌then◌else◌,
}
use nur_proxy.Manifests.{SnapshotManifest, valid_operation_id, validate_manifest, is_none}
use nur_proxy.Dict.{Dict, lookup, insert}
use nur_proxy.RecoveryModel.Action.{action_eq}
use nur_proxy.RecoveryModel.RequestSource.{request_source_eq}
use nur_proxy.RecoveryModel.OperationState
use nur_proxy.RecoveryModel.OperationState.{
  OperationState, applying, rolling_back, operation_state_eq,
}
use nur_proxy.RecoveryModel.Report.{OperationReport, validate}
use nur_proxy.History.Graph.{valid_transition}
use nur_proxy.History.Reports.{operation_reports_equal, steps_are_prefix}
use nur_proxy.History.Restart.{
  RestartDisposition, restart_none, restart_begin_rollback, restart_resume_rollback,
  restart_disposition_for,
}

pub record SnapshotStore : Type 0 where
  pub in_use : Bool
  pub operations : Dict String SnapshotManifest

pub data SnapshotError : Type 0 where
  invalid_operation_id closed_store no_manifest invalid_manifest report_mismatch : SnapshotError
  stale_state invalid_move identity_mismatch invalid_report prefix_mismatch not_written :
      SnapshotError

pub data Loaded : Type 0 where
  failed : SnapshotError → Loaded
  loaded : SnapshotManifest → Loaded

module _ (sanitize : String → String) (is_letter is_digit : ℕ → Bool)
    (safe_path valid_digest valid_snapshot_file : String → Bool) where
  unfoldable pub find_manifest : SnapshotStore → String → Option SnapshotManifest
  find_manifest st id = elim (lookup id st.operations) [
    | none ↦ none
    | some m ↦
        if m.operation_id == id
          && validate_manifest sanitize is_letter is_digit safe_path valid_digest
              valid_snapshot_file m
        then some m
        else none
  ]

  -- `Load`, whose checks `transition` makes too.
  unfoldable pub load : SnapshotStore → String → Loaded
  load st id =
      if not (
        valid_operation_id sanitize is_letter is_digit safe_path valid_digest valid_snapshot_file
          id)
      then failed invalid_operation_id
      else if not st.in_use
      then failed closed_store
      else elim (find_manifest st id) [ none ↦ failed no_manifest | some m ↦ loaded m ]

  -- The identity that a report of the operation must have.
  unfoldable pub same_operation : SnapshotManifest → OperationState → OperationReport → Bool
  same_operation m next r =
      r.operation_id == m.operation_id
      && r.diagnostic_id == m.report.diagnostic_id
      && r.action == m.action
      && r.source == m.report.source
      && nat_beq r.started_at m.report.started_at
      && r.snapshot_reference == m.report.snapshot_reference
      && r.state == next

  unfoldable pub check_report :
      SnapshotManifest → OperationState → OperationReport → Option SnapshotError
  check_report m next r =
      if r.operation_id == ""
      then none
      else if not (same_operation m next r)
      then some identity_mismatch
      else if not (is_none (validate sanitize r))
      then some invalid_report
      else if not (steps_are_prefix m.report.steps r.steps)
      then some prefix_mismatch
      else none

  -- What `transition` decides about a manifest: `some` is its return, of an error or of success with
  -- nothing written; `none` goes on to write. Times are compared as instants.
  unfoldable pub decide_move :
      SnapshotManifest
      → OperationState
      → OperationState
      → OperationReport
      → Option (Option SnapshotError)
  decide_move m expected next r =
      if m.state == next && valid_transition expected next
      then (if not (r.operation_id == "") && not (operation_reports_equal r m.report)
          then some (some report_mismatch)
          else some none)
      else if not (m.state == expected)
      then some (some stale_state)
      else if not (valid_transition expected next)
      then some (some invalid_move)
      else elim (check_report m next r) [ some e ↦ some (some e) | none ↦ none ]

  -- The manifest after a transition at the time `now`.
  unfoldable pub moved_manifest :
      SnapshotManifest → OperationState → OperationReport → ℕ → SnapshotManifest
  moved_manifest m next r now = record m {
    report =
        if r.operation_id == ""
        then record m.report {
          state = next;
          steps =
              m.report.steps
              ++ record { name = OperationState.name next; summary = ""; state = next; at = now }
                ∷ [];
        }
        else r;
    state = next;
    updated_at = if ltb now m.updated_at then m.updated_at else now;
  }

  -- `persistUnlocked` and its error. Its own `validateManifest` is left out, and a write that replaced
  -- the manifest before it failed is not told from one that succeeded, but for the answer.
  abbrev pub store_moved :
      SnapshotStore → String → SnapshotManifest → Bool → SnapshotStore × Option SnapshotError
  store_moved st id m true = (record st { operations = insert id m st.operations }, none)
  store_moved st id m false = (st, some not_written)

  -- `transition` from the load on.
  unfoldable pub move_loaded :
      SnapshotStore
      → String
      → OperationState
      → OperationState
      → OperationReport
      → ℕ
      → Bool
      → Loaded
      → SnapshotStore × Option SnapshotError
  move_loaded st id expected next r now written (failed e) = (st, some e)
  move_loaded st id expected next r now written (loaded m) = elim (decide_move m expected next r) [
    | some result ↦ (st, result)
    | none ↦ store_moved st id (moved_manifest m next r now) written
  ]

  -- `transition`; the manifest that it returns is the one that is stored then.
  unfoldable pub transition :
      SnapshotStore
      → String
      → OperationState
      → OperationState
      → OperationReport
      → ℕ
      → Bool
      → SnapshotStore × Option SnapshotError
  transition st id expected next r now written =
      move_loaded st id expected next r now written (load st id)

  -- `TransitionReport`
  abbrev pub transition_report :
      SnapshotStore
      → String
      → OperationState
      → OperationReport
      → ℕ
      → Bool
      → SnapshotStore × Option SnapshotError
  transition_report st id expected r now written = transition st id expected r.state r now written

  -- The time at which `PrepareRestart` begins a rollback, and its report.
  abbrev pub restart_at : SnapshotManifest → ℕ → ℕ
  restart_at m clock = if ltb clock m.updated_at then m.updated_at else clock

  unfoldable pub restart_report : SnapshotManifest → ℕ → OperationReport
  restart_report m clock = record m.report {
    state = rolling_back;
    steps =
        m.report.steps
        ++ record {
          name = OperationState.name rolling_back;
          summary = "resuming rollback after restart";
          state = rolling_back;
          at = restart_at m clock;
        }
          ∷ [];
  }

  abbrev pub restart_result :
      SnapshotStore × Option SnapshotError
      → SnapshotStore × RestartDisposition × Option SnapshotError
  restart_result (st, some e) = (st, restart_none, some e)
  restart_result (st, none) = (st, restart_resume_rollback, none)

  -- `PrepareRestart` from the test of the disposition on.
  unfoldable pub restart_moved :
      SnapshotStore
      → String
      → SnapshotManifest
      → ℕ
      → Bool
      → RestartDisposition
      → SnapshotStore × RestartDisposition × Option SnapshotError
  restart_moved st id m clock written restart_begin_rollback =
      elim (validate sanitize (restart_report m clock)) [
        | some e ↦ (st, restart_none, some invalid_report)
        | none ↦
            restart_result (
              transition_report st id applying (restart_report m clock) (restart_at m clock)
                written)
      ]
  restart_moved st id m clock written d = (st, d, none)

  unfoldable pub restart_loaded :
      SnapshotStore
      → String
      → ℕ
      → Bool
      → Loaded
      → SnapshotStore × RestartDisposition × Option SnapshotError
  restart_loaded st id clock written (failed e) = (st, restart_none, some e)
  restart_loaded st id clock written (loaded m) =
      restart_moved st id m clock written (restart_disposition_for m.state)

  -- `PrepareRestart`
  unfoldable pub prepare_restart :
      SnapshotStore → String → ℕ → Bool → SnapshotStore × RestartDisposition × Option SnapshotError
  prepare_restart st id clock written = restart_loaded st id clock written (load st id)
