-- ===== src/Coordinator/Resume.antt =====
-- internal/agent/recovery/coordinator.go: `Recover`, which resumes an operation after a crash from its
-- manifest in the snapshot store. What the backend answers is in `Answers`; `restores` is what restoring
-- the files answers, once the manifest was found and is rolling back. `Turnout` has the outcome of the
-- writes of the store and the time that `PrepareRestart` reads. `explain` is the text of an error of
-- the store. The snapshot of diagnostics that goes to the queue is left out.
use nur_proxy.Base.{
  ℕ, Bool, false, not, String, string_eq, Option, none, some, ◌==◌, ltb, if◌then◌else◌,
}
use nur_proxy.Dict.{insert}
use nur_proxy.RecoveryModel.OperationState.{
  OperationState, applying, validating, succeeded, rolling_back, rollback_failed,
  operation_state_eq,
}
use nur_proxy.RecoveryModel.Report.{OperationReport}
use nur_proxy.Breaker.{BreakerKey, record_outcome}
use nur_proxy.Manifests.{SnapshotManifest}
use nur_proxy.Snapshots.{
  SnapshotStore, SnapshotError, stale_state, Loaded, failed, loaded, load, transition_report,
  prepare_restart,
}
use nur_proxy.History.Restart.{
  RestartDisposition, restart_resume_validation, restart_resume_rollback,
}
use nur_proxy.Coordinator.{
  Coordinator, Answers, Work, restored, persisted, now, add_step, emit, effect, or_else, outcome_of,
  note_of,
}

pub record Turnout : Type 0 where
  pub restart_clock : ℕ
  pub restart_written : Bool
  pub validation_written : Bool
  pub outcome_written : Bool

pub data ResumeError : Type 0 where
  from_store : SnapshotError → ResumeError
  not_resumable not_ready : OperationState → ResumeError
  restored_after : String → ResumeError
  not_restored : String → ResumeError

pub record Resumed : Type 0 where
  pub coordinator : Coordinator
  pub store : SnapshotStore
  pub report : Option OperationReport
  pub error : Option ResumeError

-- `fmt.Errorf("post-crash validation failed and was rolled back: %w", ...)`
abbrev pub cause_error : Option String → Option ResumeError
cause_error none = none
cause_error (some e) = some (restored_after e)

abbrev pub end_error : Option String → Option String → Option ResumeError
end_error (some failure) cause = some (not_restored failure)
end_error none cause = cause_error cause

module _ (sanitize : String → String) (auto_id : ℕ → ℕ → String) (clock : ℕ → ℕ) (ans : Answers)
    (is_letter is_digit : ℕ → Bool) (safe_path valid_digest valid_snapshot_file : String → Bool)
    (explain : SnapshotError → String) (turn : Turnout) where
  -- `if c.lastNow.Before(manifest.UpdatedAt) { ... }`
  unfoldable pub catch_up : SnapshotManifest → Coordinator → Coordinator
  catch_up m c = record c {
    last_now = if ltb c.last_now m.updated_at then m.updated_at else c.last_now;
  }

  -- `Rollback` of the store, up to the restoring of the files.
  unfoldable pub restore_files : Loaded → Option String
  restore_files (failed e) = some (explain e)
  restore_files (loaded m) =
      if m.state == rolling_back then ans.restores else some (explain stale_state)

  -- The report of an outcome is kept, sent and recorded, once it is stored.
  unfoldable pub record_end :
      String
      → BreakerKey
      → ℕ
      → OperationReport
      → Option ResumeError
      → Coordinator
      → SnapshotStore × Option SnapshotError
      → Resumed
  record_end id key at r error c (st, some e) = record {
    coordinator = c;
    store = st;
    report = some r;
    error = some (from_store e);
  }
  record_end id key at r error c (st, none) =
      let kept = record (effect sanitize auto_id clock ans (persisted r.state) c) {
        operations = insert id r c.operations;
      } in
      let sent = (emit sanitize auto_id clock ans (kept, r)).0 in
      record {
        coordinator = record sent {
          breaker =
              (record_outcome sanitize ans.breaker_written key r.state at false sent.breaker).0;
        };
        store = st;
        report = some r;
        error = error;
      }

  -- The end of `Recover`: the rollback and its outcome.
  unfoldable pub finish_rollback :
      String → BreakerKey → Option String → SnapshotStore → Work → Resumed
  finish_rollback id key cause st (c, r) =
      let l = load sanitize is_letter is_digit safe_path valid_digest valid_snapshot_file st id in
      let failure = or_else (restore_files l) (or_else ans.revalidates ans.reactivates) in
      let outcome = outcome_of sanitize auto_id clock ans failure in
      let note = note_of sanitize auto_id clock ans failure in
      let (c', r') = add_step sanitize auto_id clock ans outcome note (
        effect sanitize auto_id clock ans restored c,
        record r { state = outcome; rollback_outcome = note },
      ) in
      let (at, c'') = now sanitize auto_id clock ans c' in
      let done = record r' { finished_at = some at } in
      record_end id key at done (end_error failure cause) c'' (
        transition_report sanitize is_letter is_digit safe_path valid_digest valid_snapshot_file st
          id rolling_back done at turn.outcome_written)

  -- The rollback, if the report is of a rollback.
  unfoldable pub resume_rollback :
      String → BreakerKey → Option String → SnapshotStore → Work → Resumed
  resume_rollback id key cause st (c, r) =
      let finished = finish_rollback id key cause st (c, r) in
      if not (r.state == rolling_back)
      then record { coordinator = c; store = st; report = some r; error = some (not_ready r.state) }
      else finished

  -- The rollback after a validation that failed, once that is stored.
  unfoldable pub roll_back_after :
      String → BreakerKey → String → Work → SnapshotStore × Option SnapshotError → Resumed
  roll_back_after id key cause (c, r) (st, some e) = record {
    coordinator = c;
    store = st;
    report = some r;
    error = some (from_store e);
  }
  roll_back_after id key cause (c, r) (st, none) = resume_rollback id key (some cause) st (
      emit sanitize auto_id clock ans
        (effect sanitize auto_id clock ans (persisted rolling_back) c, r))

  -- The validation of an operation that was being validated.
  unfoldable pub resume_validation :
      String → BreakerKey → SnapshotStore → Option String → Work → Resumed
  resume_validation id key st none (c, r) =
      let (c', r') =
        add_step sanitize auto_id clock ans succeeded "post-crash validation succeeded"
          (c, record r { state = succeeded; validation_outcome = "valid" }) in
      let (at, c'') = now sanitize auto_id clock ans c' in
      let done = record r' { finished_at = some at } in
      record_end id key at done none c'' (
        transition_report sanitize is_letter is_digit safe_path valid_digest valid_snapshot_file st
          id validating done at turn.validation_written)
  resume_validation id key st (some e) (c, r) =
      let (c', r') =
        add_step sanitize auto_id clock ans rolling_back "resuming rollback after restart"
          (c, record r { validation_outcome = sanitize e; state = rolling_back }) in
      let (at, c'') = now sanitize auto_id clock ans c' in
      roll_back_after id key e (c'', r')
        (transition_report sanitize is_letter is_digit safe_path valid_digest valid_snapshot_file st
          id validating r' at turn.validation_written)

  -- The manifest is read again where `PrepareRestart` has begun the rollback.
  unfoldable pub resume_begun : String → BreakerKey → SnapshotStore → Loaded → Work → Resumed
  resume_begun id key st (failed e) (c, r) = record {
    coordinator = c;
    store = st;
    report = some r;
    error = some (from_store e);
  }
  resume_begun id key st (loaded m) (c, r) =
      resume_rollback id key none st (emit sanitize auto_id clock ans (catch_up m c, m.report))

  unfoldable pub resume_prepared :
      String
      → SnapshotManifest
      → Coordinator
      → SnapshotStore × RestartDisposition × Option SnapshotError
      → Resumed
  resume_prepared id m c (st, d, some e) = record {
    coordinator = c;
    store = st;
    report = some m.report;
    error = some (from_store e);
  }
  resume_prepared id m c (st, restart_resume_rollback, none) =
      let key : BreakerKey = (m.action, m.fingerprint) in
      let again =
        resume_begun id key st
          (load sanitize is_letter is_digit safe_path valid_digest valid_snapshot_file st id)
          (c, m.report) in
      let straight = resume_rollback id key none st (c, m.report) in
      if m.state == applying then again else straight
  resume_prepared id m c (st, restart_resume_validation, none) =
      resume_validation id (m.action, m.fingerprint) st (or_else ans.validates ans.activates)
        (c, m.report)
  resume_prepared id m c (st, d, none) = record {
    coordinator = c;
    store = st;
    report = some m.report;
    error = some (not_resumable m.state);
  }

  -- A rollback that had failed is only reported again.
  unfoldable pub report_failed : String → SnapshotManifest → Coordinator → SnapshotStore → Resumed
  report_failed id m c st =
      let recorded = record c {
        operations = insert id m.report c.operations;
        diagnostics = insert m.diagnostic.id m.diagnostic c.diagnostics;
        breaker =
            (record_outcome sanitize ans.breaker_written (m.action, m.fingerprint) m.report.state
              m.updated_at false c.breaker).0;
      } in
      record {
        coordinator = (emit sanitize auto_id clock ans (recorded, m.report)).0;
        store = st;
        report = some m.report;
        error = none;
      }

  unfoldable pub resume_loaded : String → Coordinator → SnapshotStore → Loaded → Resumed
  resume_loaded id c st (failed e) = record {
    coordinator = c;
    store = st;
    report = none;
    error = some (from_store e);
  }
  resume_loaded id c st (loaded m) =
      let resumed = resume_prepared id m (catch_up m c) (
        prepare_restart sanitize is_letter is_digit safe_path valid_digest valid_snapshot_file st id
          turn.restart_clock turn.restart_written) in
      if m.state == rollback_failed then report_failed id m (catch_up m c) st else resumed

  -- `Recover`, where there is a store.
  unfoldable pub recover : String → Coordinator → SnapshotStore → Resumed
  recover id c st =
      resume_loaded id c st
        (load sanitize is_letter is_digit safe_path valid_digest valid_snapshot_file st id)
