-- ===== src/Snapshots/Lives.antt =====
-- internal/agent/recovery/snapshot.go: a manifest under any sequence of calls.
use nur_proxy.Snapshots.{
  no_manifest, closed_store, loaded, Loaded, invalid_operation_id, restart_report, restart_loaded,
  move_loaded, restart_moved, store_moved, failed, load, restart_result, restart_disposition_for,
  SnapshotError, RestartDisposition, transition, prepare_restart, decide_move, SnapshotStore,
  find_manifest,
}
use nur_proxy.Manifests.{valid_operation_id, validate_manifest, SnapshotManifest}
use nur_proxy.History.Restart.{
  RestartDisposition, restart_none, restart_begin_rollback, restart_resume_validation,
  restart_resume_rollback, restart_disposition_for,
}
use nur_proxy.Base.{
  if◌then◌else◌, ℕ, ◌≡◌, ◌==◌, refl, sym, ◌∙◌, Bool, true, false, not, ◌&&◌, Option, none, some,
  List, [], ◌∷◌, arith, eq_iff, Bool-cases, Option-cases, inl, inr, string_eq, String,
}
use mathlib.Core.Path.{subst}
use nur_proxy.Dict.{lookup, insert}
use nur_proxy.Dict.Laws.{lookup-insert}
use nur_proxy.RecoveryModel.OperationState.{OperationState, applying}
use nur_proxy.RecoveryModel.Report.{OperationReport, validate}
use nur_proxy.Snapshots.Moves.{Advanced, Advanced-refl, Advanced-trans, moved-Advanced}

-- The manifest of the operation `id` after a call.
abbrev pub Later : SnapshotStore → String → SnapshotManifest → Type 0
Later st id old = (new : SnapshotManifest) × (lookup id st.operations ≡ some new) × Advanced old new

-- A call, with the time that it reads and whether it could write.
pub data Call : Type 0 where
  move : String → OperationState → OperationState → OperationReport → ℕ → Bool → Call
  restart : String → ℕ → Bool → Call

module _ (sanitize : String → String) (is_letter is_digit : ℕ → Bool)
    (safe_path valid_digest valid_snapshot_file : String → Bool) where
  pub found_at :
      (st : SnapshotStore) (id : String) (m : SnapshotManifest)
      → find_manifest sanitize is_letter is_digit safe_path valid_digest valid_snapshot_file st id
        ≡ some m
      → lookup id st.operations ≡ some m
  unfolding find_manifest
  found_at st id m h = elim (Option-cases (lookup id st.operations)) [
    | inl e ↦ absurd (ground arith)
    | inr (m', e) ↦ e ∙ some_manifest m' e
  ]
    where
      kept :
          (b : Bool) (m' : SnapshotManifest)
          → (if b then some m' else none) ≡ some m
          → some m' ≡ some m
      kept true m' q = q
      kept false m' q = absurd (cc)

      some_manifest : (m' : SnapshotManifest) → lookup id st.operations ≡ some m' → some m' ≡ some m
      some_manifest m' e =
          kept
            (m'.operation_id == id
              && validate_manifest sanitize is_letter is_digit safe_path valid_digest
                  valid_snapshot_file m')
            m' (sym (rw (e, find_manifest) refl) ∙ h)

  pub load_gate :
      (valid in_use : Bool) (o : Option SnapshotManifest) (m : SnapshotManifest)
      → (if not valid
          then failed invalid_operation_id
          else if not in_use
          then failed closed_store
          else elim o [ none ↦ failed no_manifest | some m ↦ loaded m ])
        ≡ loaded m
      → o ≡ some m
  load_gate false in_use o m h = absurd (cc)
  load_gate true false o m h = absurd (cc)
  load_gate true true none m h = absurd (cc)
  load_gate true true (some m') m h = cc

  pub loaded_at :
      (st : SnapshotStore) (id : String) (m : SnapshotManifest)
      → load sanitize is_letter is_digit safe_path valid_digest valid_snapshot_file st id ≡ loaded m
      → lookup id st.operations ≡ some m
  unfolding load
  loaded_at st id m h = found_at st id m (
      load_gate
        (valid_operation_id sanitize is_letter is_digit safe_path valid_digest valid_snapshot_file
          id)
        st.in_use _ m h)

  pub same-Later :
      (st : SnapshotStore) (id : String) (old : SnapshotManifest)
      → lookup id st.operations ≡ some old
      → Later st id old
  same-Later st id old at = (old, at, Advanced-refl old)

  stored-Later :
      (st : SnapshotStore) (id : String) (m new : SnapshotManifest)
      → lookup id st.operations ≡ some m
      → Advanced m new
      → (id' : String) (old : SnapshotManifest) → lookup id' st.operations ≡ some old
      → Later (record st { operations = insert id new st.operations }) id' old
  stored-Later st id m new found a id' old at = elim (Bool-cases (id == id')) [
    | inr other ↦ (old, ground (arith, lookup-insert id' id new st.operations), Advanced-refl old)
    | inl same ↦
        let q : m ≡ old = ground (arith, eq_iff id id') in
        (
          new,
          ground (arith, lookup-insert id' id new st.operations),
          subst (λ o. Advanced o new) q a,
        )
  ]

  written-Later :
      (st : SnapshotStore) (id : String) (m new : SnapshotManifest) (written : Bool)
      → lookup id st.operations ≡ some m
      → Advanced m new
      → (id' : String) (old : SnapshotManifest) → lookup id' st.operations ≡ some old
      → Later
          (store_moved sanitize is_letter is_digit safe_path valid_digest valid_snapshot_file st id
            new written).0
          id'
          old
  written-Later st id m new true found a id' old at = stored-Later st id m new found a id' old at
  written-Later st id m new false found a id' old at = same-Later st id' old at

  moved-Later :
      (st : SnapshotStore) (id : String) (expected next : OperationState) (r : OperationReport)
      (now : ℕ) (written : Bool) (l : Loaded)
      → load sanitize is_letter is_digit safe_path valid_digest valid_snapshot_file st id ≡ l
      → (id' : String) (old : SnapshotManifest) → lookup id' st.operations ≡ some old
      → Later
          (move_loaded sanitize is_letter is_digit safe_path valid_digest valid_snapshot_file st id
            expected next r now written l).0
          id'
          old
  unfolding move_loaded
  moved-Later st id expected next r now written (failed e) h id' old at = same-Later st id' old at
  moved-Later st id expected next r now written (loaded m) h id' old at =
      elim (Option-cases (
        decide_move sanitize is_letter is_digit safe_path valid_digest valid_snapshot_file m
          expected next r)) [
            | inr (result, d) ↦ rw (d, move_loaded) (same-Later st id' old at)
            | inl d ↦
                rw (d, move_loaded)
                  (written-Later st id m _ written (loaded_at st id m h)
                    (moved-Advanced sanitize is_letter is_digit safe_path valid_digest
                      valid_snapshot_file m expected next r now d)
                    id' old at)
          ]

  pub transition-Later :
      (st : SnapshotStore) (id : String) (expected next : OperationState) (r : OperationReport)
      (now : ℕ) (written : Bool) (id' : String) (old : SnapshotManifest)
      → lookup id' st.operations ≡ some old
      → Later
          (transition sanitize is_letter is_digit safe_path valid_digest valid_snapshot_file st id
            expected next r now written).0
          id'
          old
  unfolding transition
  transition-Later st id expected next r now written id' old at =
      moved-Later st id expected next r now written
        (load sanitize is_letter is_digit safe_path valid_digest valid_snapshot_file st id) refl id'
        old at

  result-Later :
      (w : SnapshotStore × Option SnapshotError) (id' : String) (old : SnapshotManifest)
      → Later w.0 id' old
      → Later
          (restart_result sanitize is_letter is_digit safe_path valid_digest valid_snapshot_file
            w).0
          id'
          old
  result-Later (st, some e) id' old later = later
  result-Later (st, none) id' old later = later

  begun-Later :
      (st : SnapshotStore) (id : String) (m : SnapshotManifest) (clock : ℕ) (written : Bool)
      (d : RestartDisposition) (id' : String) (old : SnapshotManifest)
      → lookup id' st.operations ≡ some old
      → Later
          (restart_moved sanitize is_letter is_digit safe_path valid_digest valid_snapshot_file st
            id m clock written d).0
          id'
          old
  unfolding restart_moved
  begun-Later st id m clock written restart_begin_rollback id' old at =
      elim (Option-cases (
        validate sanitize (
          restart_report sanitize is_letter is_digit safe_path valid_digest valid_snapshot_file m
            clock))) [
              | inr (e, h) ↦ rw (h, restart_moved) (same-Later st id' old at)
              | inl h ↦
                  rw (h, restart_moved)
                    (result-Later _ id' old
                      (transition-Later st id applying _ _ _ written id' old at))
            ]
  begun-Later st id m clock written restart_none id' old at = same-Later st id' old at
  begun-Later st id m clock written restart_resume_validation id' old at = same-Later st id' old at
  begun-Later st id m clock written restart_resume_rollback id' old at = same-Later st id' old at

  restart_loaded-Later :
      (st : SnapshotStore) (id : String) (clock : ℕ) (written : Bool) (l : Loaded) (id' : String)
      (old : SnapshotManifest)
      → lookup id' st.operations ≡ some old
      → Later
          (restart_loaded sanitize is_letter is_digit safe_path valid_digest valid_snapshot_file st
            id clock written l).0
          id'
          old
  unfolding restart_loaded
  restart_loaded-Later st id clock written (failed e) id' old at = same-Later st id' old at
  restart_loaded-Later st id clock written (loaded m) id' old at =
      begun-Later st id m clock written (restart_disposition_for m.state) id' old at

  pub restart-Later :
      (st : SnapshotStore) (id : String) (clock : ℕ) (written : Bool) (id' : String)
      (old : SnapshotManifest)
      → lookup id' st.operations ≡ some old
      → Later
          (prepare_restart sanitize is_letter is_digit safe_path valid_digest valid_snapshot_file st
            id clock written).0
          id'
          old
  unfolding prepare_restart
  restart-Later st id clock written id' old at =
      restart_loaded-Later st id clock written
        (load sanitize is_letter is_digit safe_path valid_digest valid_snapshot_file st id) id' old
        at

  -- The store after one call, and after a list of calls.
  unfoldable pub run_call : Call → SnapshotStore → SnapshotStore
  run_call (move id expected next r now written) st =
      (transition sanitize is_letter is_digit safe_path valid_digest valid_snapshot_file st id
        expected next r now written).0
  run_call (restart id clock written) st =
      (prepare_restart sanitize is_letter is_digit safe_path valid_digest valid_snapshot_file st id
        clock written).0

  unfoldable pub run_calls : List Call → SnapshotStore → SnapshotStore
  run_calls [] st = st
  run_calls (c ∷ calls) st = run_calls calls (run_call c st)

  call-Later :
      (c : Call) (st : SnapshotStore) (id : String) (old : SnapshotManifest)
      → lookup id st.operations ≡ some old
      → Later (run_call c st) id old
  unfolding run_call
  call-Later (move id expected next r now written) st id' old at =
      transition-Later st id expected next r now written id' old at
  call-Later (restart id clock written) st id' old at = restart-Later st id clock written id' old at

  -- After any transitions and restarts, with any arguments and times and whichever writes fail, each
  -- operation of the snapshot store still has its manifest: for the same snapshot and the same
  -- request, in a state that was reached along the diagram, with a history that extends the earlier
  -- one, and not changed at an earlier time.
  pub calls_advance :
      (calls : List Call) (st : SnapshotStore) (id : String) (old : SnapshotManifest)
      → lookup id st.operations ≡ some old
      → Later (run_calls calls st) id old
  unfolding run_calls
  calls_advance [] st id old at = same-Later st id old at
  calls_advance (c ∷ calls) st id old at =
      let (mid, at', f) = call-Later c st id old at in
      let (new, at'', g) = calls_advance calls (run_call c st) id mid at' in
      (new, at'', Advanced-trans f g)
