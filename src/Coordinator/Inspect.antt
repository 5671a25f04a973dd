-- ===== src/Coordinator/Inspect.antt =====
-- internal/agent/recovery/coordinator.go: `Inspect`, which renews the diagnostics. What the backend
-- finds is a list, where each candidate comes with what its `Validate` answers; `bundle_ready` tells that
-- the desired bundle of a host is complete. `digest` is the hexadecimal SHA-256 of a text, and
-- `framed_digest` that of texts with their lengths. The snapshot that goes to the queue is
-- `snapshot_of`.

use Prim.Native.String.{◌++◌ as ◌<>◌, compare}
use Prim.Native.Nat.{Ordering}
use nur_proxy.Base.{
  ℕ, ◌+◌, Bool, true, false, not, ◌&&◌, ◌||◌, String, string_eq, Option, none, some, List, [], ◌∷◌,
  ◌==◌, any, if◌then◌else◌,
}
use nur_proxy.Dict.{Dict, lookup, insert, keep}
use nur_proxy.RecoveryModel.Action
use nur_proxy.RecoveryModel.Action.{
  Action, action_eq, prune_managed_orphan, remove_managed_temp, rematerialize_cert_bundle,
  rematerialize_runtime_key,
}
use nur_proxy.RecoveryModel.Code
use nur_proxy.RecoveryModel.Code.{Code}
use nur_proxy.RecoveryModel.Severity
use nur_proxy.RecoveryModel.Ownership
use nur_proxy.RecoveryModel.OwnershipConfidence
use nur_proxy.RecoveryModel.RepairScope
use nur_proxy.RecoveryModel.ResolutionReason
use nur_proxy.RecoveryModel.OperationState.{rollback_failed, operation_state_eq}
use nur_proxy.RecoveryModel.Report.{OperationReport}
use nur_proxy.RecoveryModel.Diagnostic.{Diagnostic}
use nur_proxy.Coordinator.{Coordinator, RecoveryCandidate, Answers, now}

-- `sort.Strings` and `sort.Slice`, by the text.
unfoldable pub put {ℓ} : {A : Type ℓ} → (A → String) → A → List A → List A
put text x [] = x ∷ []
put text x (y ∷ ys) =
    let rest = put text x ys in
    elim (compare (text y) (text x)) [ Ordering.lt ↦ y ∷ rest | _ ↦ x ∷ y ∷ ys ]

unfoldable pub sort {ℓ} : {A : Type ℓ} → (A → String) → List A → List A
sort text [] = []
sort text (x ∷ xs) = put text x (sort text xs)

-- `strings.Join` by a zero byte.
unfoldable pub join : List String → String
join [] = ""
join (x ∷ []) = x
join (x ∷ xs) = x <> "\0" <> join xs

unfoldable pub code_of : Action → Code × String
code_of prune_managed_orphan =
    (Code.managed_orphan_config, "Managed orphan proxy configuration detected")
code_of remove_managed_temp = (Code.managed_stale_temp, "Managed stale temporary file detected")
code_of rematerialize_cert_bundle =
    (Code.managed_cert_file_missing, "Managed certificate bundle requires restoration")
code_of rematerialize_runtime_key =
    (Code.managed_runtime_key_missing, "Managed runtime key requires restoration")
code_of _ = (Code.unknown_proxy_error, "Managed recovery candidate detected")

-- `rollbackFailedDiagnostic`
unfoldable pub rollback_failed_diagnostic : String → Dict String OperationReport → Bool
rollback_failed_diagnostic id [] = false
rollback_failed_diagnostic id ((k, r) ∷ operations) =
    r.diagnostic_id == id && r.state == rollback_failed || rollback_failed_diagnostic id operations

-- `recordDiagnostic`, without its snapshot.
unfoldable pub record_diagnostic : Diagnostic → RecoveryCandidate → Coordinator → Coordinator
record_diagnostic d candidate c =
    let d' : Diagnostic = elim (lookup d.id c.diagnostics) [
      | none ↦ d
      | some previous ↦ record d {
        first_seen_at = previous.first_seen_at;
        occurrences = previous.occurrences + 1;
      }
    ] in
    record c {
      diagnostics = insert d.id d' c.diagnostics;
      candidates =
          if Action.valid candidate.action
          then insert d.id candidate c.candidates
          else c.candidates;
    }

abbrev pub is_known {ℓ} : {A : Type ℓ} → Option A → Bool
is_known none = false
is_known (some a) = true

abbrev pub values {ℓ} : {A : Type ℓ} → List (String × A) → List A
values [] = []
values ((k, a) ∷ m) = a ∷ values m

-- The diagnostics that `emitDiagnosticSnapshot` sends.
abbrev pub snapshot_of : Coordinator → List Diagnostic
snapshot_of c = sort (λ d. d.id) (values c.diagnostics)

-- The end of `inspectLocked`: what was not seen goes, unless its rollback has failed.
unfoldable pub forget_unseen : List Diagnostic → Coordinator → Coordinator
forget_unseen seen c =
    let stays =
      λ (id : String). any (λ d. d.id == id) seen || rollback_failed_diagnostic id c.operations in
    record c {
      diagnostics = keep (λ id d. stays id) c.diagnostics;
      candidates = keep (λ id k. stays id || not (is_known (lookup id c.diagnostics))) c.candidates;
    }

module _ (sanitize : String → String) (auto_id : ℕ → ℕ → String) (clock : ℕ → ℕ) (ans : Answers)
    (digest : String → String) (framed_digest : List String → String) (bundle_ready : String → Bool)
    (agent : String) where
  -- `diagnosticForCandidate`
  unfoldable pub diagnostic_for_candidate : RecoveryCandidate → ℕ → Diagnostic
  diagnostic_for_candidate candidate at =
      let paths = sort (λ p. p) candidate.paths in
      let (code, summary) = code_of candidate.action in
      let fingerprint =
        digest (Action.name candidate.action <> "\0" <> candidate.host <> "\0" <> join paths) in
      record {
        id = "diag_" <> framed_digest (agent ∷ Code.name code ∷ fingerprint ∷ []);
        code = code;
        subsystem = "proxy";
        severity = Severity.error;
        ownership = Ownership.nurproxy;
        ownership_confidence = OwnershipConfidence.other "";
        summary = summary;
        evidence = "";
        affected_paths = paths;
        resource_fingerprint = fingerprint;
        proposed_action = candidate.action;
        repair_scope = RepairScope.other "";
        repair_eligible = false;
        repair_refusal_code = "";
        auto_repair_eligible = true;
        hard_change = false;
        first_seen_at = at;
        last_seen_at = at;
        occurrences = 1;
        resolved_at = none;
        resolution_reason = ResolutionReason.other "";
        resolution_operation_id = "";
      }

  -- A round of the loop over the candidates, of one that is valid.
  unfoldable pub diagnose : RecoveryCandidate → ℕ → Diagnostic
  diagnose candidate at =
      let d = diagnostic_for_candidate candidate at in
      record d {
        auto_repair_eligible =
            if candidate.action == rematerialize_cert_bundle && not (bundle_ready candidate.host)
            then false
            else d.auto_repair_eligible;
      }

  -- The loop: the diagnostics found, and the coordinator that has recorded them.
  unfoldable pub inspect_all :
      List (RecoveryCandidate × Bool) → Coordinator → List Diagnostic × Coordinator
  inspect_all [] c = ([], c)
  inspect_all ((candidate, valid) ∷ candidates) c =
      let (at, c') = now sanitize auto_id clock ans c in
      let d = diagnose candidate at in
      let (ds, done) = inspect_all candidates (record_diagnostic d candidate c') in
      let skipped = inspect_all candidates c in if valid then (d ∷ ds, done) else skipped

  -- `Inspect`; `none` is an error of the backend.
  unfoldable pub inspect :
      Option (List (RecoveryCandidate × Bool))
      → Coordinator
      → Option (List Diagnostic) × Coordinator
  inspect none c = (none, c)
  inspect (some candidates) c =
      let (ds, c') = inspect_all candidates c in (some ds, forget_unseen ds c')
