-- ===== src/Snapshots/Reached.antt =====
-- internal/agent/recovery/snapshot.go: the state in which a transition or a restart leaves a manifest.
use nur_proxy.History.Restart.{restart_begin_rollback, RestartDisposition, restart_disposition_for}
use nur_proxy.History.Reports.{operation_reports_equal}
use nur_proxy.History.Graph.{valid_transition}
use nur_proxy.Snapshots.{
  invalid_move, stale_state, report_mismatch, loaded, failed, store_moved, restart_result, Loaded,
  moved_manifest, load, restart_report, restart_loaded, prepare_restart, transition, move_loaded,
  SnapshotError, decide_move, restart_moved, SnapshotStore,
}
use nur_proxy.Manifests.{SnapshotManifest}
use nur_proxy.History.Restart.{
  restart_none, restart_begin_rollback, restart_resume_validation, restart_resume_rollback,
  restart_disposition_for,
}
use nur_proxy.Base.{
  if◌then◌else◌, ℕ, ◌≡◌, ◌≢◌, ◌==◌, refl, ◌∙◌, ap, sym, Bool, true, false, not, ◌&&◌, Option, none,
  some, arith, eq_iff, Option-cases, inl, inr, string_eq, String,
}
use mathlib.Core.Path.{subst}
use nur_proxy.Dict.{lookup}
use nur_proxy.Dict.Laws.{lookup-insert}
use nur_proxy.RecoveryModel.OperationState.{
  rolling_back, OperationState, applying, validating, operation_state_eq,
}
use nur_proxy.RecoveryModel.Report.{OperationReport, validate}
use nur_proxy.Snapshots.Lives.{loaded_at}

-- The manifest of the operation is stored with this state.
abbrev pub Reached : SnapshotStore → String → OperationState → Type 0
Reached st id s = (m : SnapshotManifest) × (lookup id st.operations ≡ some m) × (m.state ≡ s)

-- Success with nothing written is decided only where the state is the one that is asked for.
same_state :
    (same valid test at : Bool) (p q x y : SnapshotError) (e : Option SnapshotError)
    → (if same && valid
        then (if test then some (some p) else some none)
        else if not at
        then some (some x)
        else if not valid
        then some (some y)
        else elim e [ some e' ↦ some (some e') | none ↦ none ])
      ≡ some none
    → same ≡ true
same_state true valid test at p q x y e h = refl
same_state false valid test false p q x y e h = absurd (cc)
same_state false false test true p q x y e h = absurd (cc)
same_state false true test true p q x y none h = absurd (cc)
same_state false true test true p q x y (some e) h = absurd (cc)

module _ (sanitize : String → String) (is_letter is_digit : ℕ → Bool)
    (safe_path valid_digest valid_snapshot_file : String → Bool) where
  decided_same :
      (m : SnapshotManifest) (expected next : OperationState) (r : OperationReport)
      → decide_move sanitize is_letter is_digit safe_path valid_digest valid_snapshot_file m
          expected next r
        ≡ some none
      → m.state ≡ next
  unfolding decide_move
  decided_same m expected next r h = (operation_state_eq.beq_iff m.state next).0 (
      same_state (m.state == next) (valid_transition expected next)
        (not (r.operation_id == "") && not (operation_reports_equal r m.report))
        (m.state == expected) report_mismatch report_mismatch stale_state invalid_move _ h)

  stored-Reached :
      (st : SnapshotStore) (id : String) (m : SnapshotManifest) (written : Bool)
      → (store_moved sanitize is_letter is_digit safe_path valid_digest valid_snapshot_file st id m
          written).1
        ≡ none
      → Reached
          (store_moved sanitize is_letter is_digit safe_path valid_digest valid_snapshot_file st id
            m written).0
          id
          m.state
  stored-Reached st id m true h =
      (m, ground (arith, eq_iff id id, lookup-insert id id m st.operations), refl)
  stored-Reached st id m false h = absurd (cc)

  moved-Reached :
      (st : SnapshotStore) (id : String) (expected next : OperationState) (r : OperationReport)
      (now : ℕ) (written : Bool) (l : Loaded)
      → load sanitize is_letter is_digit safe_path valid_digest valid_snapshot_file st id ≡ l
      → (move_loaded sanitize is_letter is_digit safe_path valid_digest valid_snapshot_file st id
          expected next r now written l).1
        ≡ none
      → Reached
          (move_loaded sanitize is_letter is_digit safe_path valid_digest valid_snapshot_file st id
            expected next r now written l).0
          id
          next
  unfolding move_loaded moved_manifest
  moved-Reached st id expected next r now written (failed e) q = λ h. absurd (cc)
  moved-Reached st id expected next r now written (loaded m) q =
      elim (Option-cases (
        decide_move sanitize is_letter is_digit safe_path valid_digest valid_snapshot_file m
          expected next r)) [
            | inr (result, d) ↦
                rw (d, move_loaded)
                  (λ h. (
                    m,
                    loaded_at sanitize is_letter is_digit safe_path valid_digest valid_snapshot_file
                        st id m q,
                    decided_same m expected next r (d ∙ ap some h),
                  ))
            | inl d ↦ rw (d, move_loaded) (λ h. stored-Reached st id _ written h)
          ]

  -- A transition that reports no error leaves the operation's manifest in the state that it asked
  -- for, whether it was written now or before.
  pub transition-Reached :
      (st : SnapshotStore) (id : String) (expected next : OperationState) (r : OperationReport)
      (now : ℕ) (written : Bool)
      → (transition sanitize is_letter is_digit safe_path valid_digest valid_snapshot_file st id
          expected next r now written).1
        ≡ none
      → Reached
          (transition sanitize is_letter is_digit safe_path valid_digest valid_snapshot_file st id
            expected next r now written).0
          id
          next
  unfolding transition
  transition-Reached st id expected next r now written =
      moved-Reached st id expected next r now written
        (load sanitize is_letter is_digit safe_path valid_digest valid_snapshot_file st id) refl

  -- The state of a manifest after a restart: in the middle of its action it is rolled back first.
  abbrev pub state_prepared : OperationState → OperationState
  state_prepared applying = rolling_back
  state_prepared s = s

  -- What a restart answers about a stored state.
  abbrev pub resumption : OperationState → RestartDisposition
  resumption validating = restart_resume_validation
  resumption rolling_back = restart_resume_rollback
  resumption _ = restart_none

  -- The manifest `old` of the operation is stored in the state that a restart gives it, and the
  -- answer is to resume in that state.
  abbrev pub Prepared :
      String → SnapshotManifest → SnapshotStore × RestartDisposition × Option SnapshotError → Type 0
  Prepared id old w =
      (m : SnapshotManifest) × (lookup id w.0.operations ≡ some m)
      × (m.state ≡ state_prepared old.state)
      × (w.1 ≡ resumption (state_prepared old.state))

  result-Prepared :
      (id : String) (old : SnapshotManifest) (w : SnapshotStore × Option SnapshotError)
      → old.state ≡ applying
      → (w.1 ≡ none → Reached w.0 id rolling_back)
      → (restart_result sanitize is_letter is_digit safe_path valid_digest valid_snapshot_file w).2
        ≡ none
      → Prepared id old
          (restart_result sanitize is_letter is_digit safe_path valid_digest valid_snapshot_file w)
  result-Prepared id old (st, some e) q f h = absurd (cc)
  result-Prepared id old (st, none) q f h =
      let (m, at, s) = f refl in
      let p : rolling_back ≡ state_prepared old.state = sym (ap state_prepared q) in
      (m, at, s ∙ p, ap resumption p)

  -- Which states a disposition is of, and what is stored then.
  begins_applying :
      (s : OperationState) → restart_disposition_for s ≡ restart_begin_rollback → s ≡ applying
  unfolding restart_disposition_for
  begins_applying applying h = refl
  begins_applying _ h = absurd (cc)

  stays_prepared :
      (s : OperationState)
      → restart_disposition_for s ≢ restart_begin_rollback
      → (s ≡ state_prepared s) × (restart_disposition_for s ≡ resumption (state_prepared s))
  unfolding restart_disposition_for
  stays_prepared applying h = absurd (h refl)
  stays_prepared validating h = (refl, refl)
  stays_prepared rolling_back h = (refl, refl)
  stays_prepared _ h = (refl, refl)

  same-Prepared :
      (st : SnapshotStore) (id : String) (m : SnapshotManifest) (d : RestartDisposition)
      → lookup id st.operations ≡ some m
      → restart_disposition_for m.state ≡ d
      → d ≢ restart_begin_rollback
      → Prepared id m (st, d, none)
  same-Prepared st id m d at q other =
      let (s, r) = stays_prepared m.state (λ e. other (sym q ∙ e)) in (m, at, s, sym q ∙ r)

  begun-Prepared :
      (st : SnapshotStore) (id : String) (m : SnapshotManifest) (clock : ℕ) (written : Bool)
      (d : RestartDisposition)
      → lookup id st.operations ≡ some m
      → restart_disposition_for m.state ≡ d
      → (restart_moved sanitize is_letter is_digit safe_path valid_digest valid_snapshot_file st id
          m clock written d).2
        ≡ none
      → Prepared id m (
          restart_moved sanitize is_letter is_digit safe_path valid_digest valid_snapshot_file st id
            m clock written d)
  unfolding restart_moved restart_report
  begun-Prepared st id m clock written restart_begin_rollback at q =
      elim (Option-cases (
        validate sanitize (
          restart_report sanitize is_letter is_digit safe_path valid_digest valid_snapshot_file m
            clock))) [
              | inr (e, v) ↦ rw (v, restart_moved) (λ h. absurd (cc))
              | inl v ↦
                  rw (v, restart_moved)
                    (λ h.
                      result-Prepared id m _ (begins_applying m.state q)
                        (transition-Reached st id applying rolling_back _ _ written) h)
            ]
  begun-Prepared st id m clock written restart_none at q =
      λ h. same-Prepared st id m restart_none at q (λ e. cc)
  begun-Prepared st id m clock written restart_resume_validation at q =
      λ h. same-Prepared st id m restart_resume_validation at q (λ e. cc)
  begun-Prepared st id m clock written restart_resume_rollback at q =
      λ h. same-Prepared st id m restart_resume_rollback at q (λ e. cc)

  loaded-Prepared :
      (st : SnapshotStore) (id : String) (old : SnapshotManifest) (clock : ℕ) (written : Bool)
      (l : Loaded)
      → lookup id st.operations ≡ some old
      → load sanitize is_letter is_digit safe_path valid_digest valid_snapshot_file st id ≡ l
      → (restart_loaded sanitize is_letter is_digit safe_path valid_digest valid_snapshot_file st id
          clock written l).2
        ≡ none
      → Prepared id old (
          restart_loaded sanitize is_letter is_digit safe_path valid_digest valid_snapshot_file st
            id clock written l)
  unfolding restart_loaded
  loaded-Prepared st id old clock written (failed e) at q = λ h. absurd (cc)
  loaded-Prepared st id old clock written (loaded m) at q =
      let found =
        loaded_at sanitize is_letter is_digit safe_path valid_digest valid_snapshot_file st id m
          q in
      let same : m ≡ old = ground (arith, found, at) in
      λ h.
        subst
          (λ o. Prepared id o (
            restart_loaded sanitize is_letter is_digit safe_path valid_digest valid_snapshot_file st
              id clock written (loaded m)))
          same (begun-Prepared st id m clock written (restart_disposition_for m.state) found refl h)

  -- A restart of a stored operation that reports no error stores an operation that was found in the
  -- middle of its action as rolling back, and leaves every other one in its state. It answers that a
  -- rollback or a validation is to be resumed, as the stored state is then, and nothing in any other
  -- state, and so never that a rollback is to be begun.
  pub restart-Prepared :
      (st : SnapshotStore) (id : String) (old : SnapshotManifest) (clock : ℕ) (written : Bool)
      → lookup id st.operations ≡ some old
      → (prepare_restart sanitize is_letter is_digit safe_path valid_digest valid_snapshot_file st
          id clock written).2
        ≡ none
      → Prepared id old (
          prepare_restart sanitize is_letter is_digit safe_path valid_digest valid_snapshot_file st
            id clock written)
  unfolding prepare_restart
  restart-Prepared st id old clock written at =
      loaded-Prepared st id old clock written
        (load sanitize is_letter is_digit safe_path valid_digest valid_snapshot_file st id) at refl
