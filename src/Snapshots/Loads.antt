-- ===== src/Snapshots/Loads.antt =====
-- internal/agent/recovery/snapshot.go: a manifest that is loaded is valid.
use nur_proxy.RecoveryModel.Diagnostic.{validate_diagnostic}
use nur_proxy.Snapshots.Lives.{load_gate}
use nur_proxy.Base.{
  [], ltb, leb, nat_beq, Bool-cases, ℕ, Bool, true, false, not, ◌&&◌, ◌≡◌, ◌∙◌, sym, refl, ap,
  String, string_eq, Option, none, some, ◌==◌, if◌then◌else◌, Option-cases, inl, inr,
}
use Prim.Native.String.{len}
use nur_proxy.RecoveryModel.Action
use nur_proxy.RecoveryModel.Action.{action_eq}
use nur_proxy.RecoveryModel.OperationState
use nur_proxy.RecoveryModel.Report.{validate}
use nur_proxy.Dict.{lookup}
use nur_proxy.RecoveryModel.OperationState.{OperationState, operation_state_eq}
use nur_proxy.Manifests.{
  valid_entries, is_none, manifest_version, valid_operation_id, SnapshotManifest, validate_manifest,
}
use nur_proxy.Snapshots.{SnapshotStore, loaded, load, find_manifest}

-- The test that stands before six others.
before_six : (p x a b c d e f : Bool) → (p && x && a && b && c && d && e && f) ≡ true → x ≡ true
before_six true true a b c d e f h = refl
before_six true false a b c d e f h = absurd (cc)
before_six false x a b c d e f h = absurd (cc)

module _ (sanitize : String → String) (is_letter is_digit : ℕ → Bool)
    (safe_path valid_digest valid_snapshot_file : String → Bool) where
  found_valid :
      (st : SnapshotStore) (id : String) (m : SnapshotManifest)
      → find_manifest sanitize is_letter is_digit safe_path valid_digest valid_snapshot_file st id
        ≡ some m
      → validate_manifest sanitize is_letter is_digit safe_path valid_digest valid_snapshot_file m
        ≡ true
  unfolding find_manifest
  found_valid st id m h = elim (Option-cases (lookup id st.operations)) [
    | inl e ↦ absurd (none_found e)
    | inr (m', e) ↦ kept m' (m'.operation_id == id) (sym (rw (e, find_manifest) refl) ∙ h)
  ]
    where
      none_found : lookup id st.operations ≡ none → ⊥
      none_found e = let h' : none ≡ some m = rw (e, find_manifest) at h in cc

      kept :
          (m' : SnapshotManifest) (b : Bool)
          → (if b
                && validate_manifest sanitize is_letter is_digit safe_path valid_digest
                    valid_snapshot_file m'
              then some m'
              else none)
            ≡ some m
          → validate_manifest sanitize is_letter is_digit safe_path valid_digest valid_snapshot_file
              m
            ≡ true
      kept m' false q = absurd (cc)
      kept m' true q =
          elim (Bool-cases (
            validate_manifest sanitize is_letter is_digit safe_path valid_digest valid_snapshot_file
              m')) [
                | inr v ↦ (let q' : none ≡ some m = rw v at q in absurd (cc))
                | inl v ↦
                    let q' : some m' ≡ some m = rw v at q in
                    let same : validate_manifest sanitize is_letter is_digit safe_path valid_digest
                          valid_snapshot_file m'
                        ≡ validate_manifest sanitize is_letter is_digit safe_path valid_digest
                            valid_snapshot_file m =
                      ap
                        (λ (o : Option SnapshotManifest). elim o [
                          | none ↦ true
                          | some n ↦
                              validate_manifest sanitize is_letter is_digit safe_path valid_digest
                                valid_snapshot_file n
                        ])
                        q' in
                    sym same ∙ v
              ]

  state_valid :
      (m : SnapshotManifest)
      → validate_manifest sanitize is_letter is_digit safe_path valid_digest valid_snapshot_file m
        ≡ true
      → m.report.state ≡ m.state
  unfolding validate_manifest
  state_valid m h = (operation_state_eq.beq_iff m.report.state m.state).0 (
      before_six
        (nat_beq m.version manifest_version
          && valid_operation_id sanitize is_letter is_digit safe_path valid_digest
              valid_snapshot_file m.operation_id
          && Action.valid m.action
          && not (m.fingerprint == "")
          && leb (len m.fingerprint) 256
          && sanitize m.fingerprint == m.fingerprint
          && not (nat_beq m.created_at 0)
          && not (nat_beq m.updated_at 0)
          && not (ltb m.updated_at m.created_at)
          && OperationState.valid m.state
          && m.report.operation_id == m.operation_id
          && m.report.action == m.action)
        (m.report.state == m.state) (is_none (validate sanitize m.report))
        (m.diagnostic.id == m.report.diagnostic_id) (m.diagnostic.proposed_action == m.action)
        (m.diagnostic.resource_fingerprint == m.fingerprint)
        (is_none (validate_diagnostic sanitize m.diagnostic))
        (valid_entries sanitize is_letter is_digit safe_path valid_digest valid_snapshot_file []
          m.entries)
        h)

  pub loaded_state :
      (st : SnapshotStore) (id : String) (m : SnapshotManifest)
      → load sanitize is_letter is_digit safe_path valid_digest valid_snapshot_file st id ≡ loaded m
      → m.report.state ≡ m.state
  unfolding load
  loaded_state st id m h = state_valid m (
      found_valid st id m (
        load_gate sanitize is_letter is_digit safe_path valid_digest valid_snapshot_file
          (valid_operation_id sanitize is_letter is_digit safe_path valid_digest valid_snapshot_file
            id)
          st.in_use _ m h))
