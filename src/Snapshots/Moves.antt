-- ===== src/Snapshots/Moves.antt =====
-- internal/agent/recovery/snapshot.go: what one transition does to a manifest.
use nur_proxy.History.Restart.{agent_moves_legal}
use nur_proxy.History.Advance.{step_eq}
use nur_proxy.RecoveryModel.Diagnostic.{Diagnostic}
use nur_proxy.Snapshots.{SnapshotError, same_operation, decide_move, moved_manifest, check_report}
use nur_proxy.Manifests.{SnapshotEntry, SnapshotManifest}
use nur_proxy.History.Reports.{operation_reports_equal, steps_are_prefix, steps_agree}
use nur_proxy.RecoveryModel.Report.{Step, OperationReport}
use nur_proxy.Base.{
  String, ltb, if◌then◌else◌, ℕ, ◌≡◌, ◌≤◌, ◌==◌, refl, sym, ◌∙◌, ap, Bool, true, false, ◌&&◌, not,
  Option, none, some, List, [], ◌∷◌, ◌++◌, arith, eq_iff, Bool-cases, inl, inr, string_eq,
}
use mathlib.Core.List.{append_assoc, append-nil}
use nur_proxy.RecoveryModel.Action.{Action, action_eq}
use nur_proxy.RecoveryModel.RequestSource.{RequestSource, request_source_eq}
use nur_proxy.RecoveryModel.OperationState.{OperationState, operation_state_eq}
use nur_proxy.History.Graph.{◌⟶◌, ◌⟶*◌, here, step, legal_iff, valid_transition}

-- What of a manifest no transition changes.
abbrev pub identity_of :
    SnapshotManifest → String × Action × String × ℕ × Diagnostic × List SnapshotEntry
identity_of m = (m.operation_id, m.action, m.fingerprint, m.created_at, m.diagnostic, m.entries)

abbrev pub asked_of : OperationReport → String × RequestSource × ℕ × String
asked_of r = (r.diagnostic_id, r.source, r.started_at, r.snapshot_reference)

-- The later manifest of the same operation: the same snapshot for the same request, a state further
-- along the diagram, a history that extends the earlier one, and no earlier time of change.
pub record Advanced (old new : SnapshotManifest) : Type 0 where
  pub identity : identity_of new ≡ identity_of old
  pub asked : asked_of new.report ≡ asked_of old.report
  pub state : old.state ⟶* new.state
  pub steps : (more : List Step) × (new.report.steps ≡ old.report.steps ++ more)
  pub updated_at : old.updated_at ≤ new.updated_at

pub Advanced-refl : (m : SnapshotManifest) → Advanced m m
Advanced-refl m = record {
  identity = refl;
  asked = refl;
  state = here;
  steps = ([], sym (append-nil m.report.steps));
  updated_at = omega arith;
}

way_on : {s t u : OperationState} → s ⟶* t → t ⟶* u → s ⟶* u
way_on here r = r
way_on (step e q) r = step e (way_on q r)

pub Advanced-trans : {a b c : SnapshotManifest} → Advanced a b → Advanced b c → Advanced a c
Advanced-trans {a} {b} {c} f g = record {
  identity = g.identity ∙ f.identity;
  asked = g.asked ∙ f.asked;
  state = way_on f.state g.state;
  steps = (
    f.steps.0 ++ g.steps.0,
    g.steps.1
        ∙ ap (λ xs. xs ++ g.steps.0) f.steps.1
        ∙ append_assoc a.report.steps f.steps.0 g.steps.0,
  );
  updated_at = let x = f.updated_at in let y = g.updated_at in omega (arith, x, y);
}

-- A history of which another is a prefix extends it.
prefix_more :
    (previous next : List Step)
    → steps_agree previous next ≡ true
    → (more : List Step) × (next ≡ previous ++ more)
unfolding steps_agree
prefix_more [] next h = (next, refl)
prefix_more (a ∷ previous) [] h = absurd (cc)
prefix_more (a ∷ previous) (b ∷ next) h =
    let (more, e) = prefix_more previous next (ground arith) in
    (more, same_head more (step_eq a b (ground arith)) e)
  where
    same_head :
        (more : List Step) → a ≡ b → next ≡ previous ++ more → b ∷ next ≡ a ∷ previous ++ more
    same_head more p q = cc

later_time : (now updated : ℕ) → updated ≤ (if ltb now updated then updated else now)
later_time now updated = ground arith

gates {ℓ} :
    {E : Type ℓ} (away at valid test : Bool) (p q x y : E) (rest : Option E)
    → (if away && valid
        then (if test then some p else some q)
        else if not at
        then some x
        else if not valid
        then some y
        else rest)
      ≡ none
    → (at ≡ true) × (valid ≡ true) × (away ≡ false) × (rest ≡ none)
gates true at true true p q x y rest h = absurd (cc)
gates true at true false p q x y rest h = absurd (cc)
gates true false false test p q x y rest h = absurd (cc)
gates true true false test p q x y rest h = absurd (cc)
gates false false valid test p q x y rest h = absurd (cc)
gates false true false test p q x y rest h = absurd (cc)
gates false true true test p q x y rest h = (refl, refl, refl, h)

no_error :
    (e : Option SnapshotError) → (elim e [ some e ↦ some (some e) | none ↦ none ]) ≡ none → e ≡ none
no_error none h = refl
no_error (some e) h = absurd (cc)

module _ (sanitize : String → String) (is_letter is_digit : ℕ → Bool)
    (safe_path valid_digest valid_snapshot_file : String → Bool) where
  -- The tests that a transition has passed which goes on to write.
  passed :
      (m : SnapshotManifest) (expected next : OperationState) (r : OperationReport)
      → decide_move sanitize is_letter is_digit safe_path valid_digest valid_snapshot_file m
          expected next r
        ≡ none
      → ((m.state == expected) ≡ true)
        × (valid_transition expected next ≡ true)
        × ((m.state == next) ≡ false)
        × ((elim (check_report sanitize is_letter is_digit safe_path valid_digest
              valid_snapshot_file m next r) [ some e ↦ some (some e) | none ↦ none ])
            ≡ none)
  unfolding decide_move
  passed m expected next r h =
      gates (m.state == next) (m.state == expected) (valid_transition expected next)
        (not (r.operation_id == "") && not (operation_reports_equal r m.report)) _ _ _ _ _ h

  decided_edge :
      (m : SnapshotManifest) (expected next : OperationState) (r : OperationReport)
      → decide_move sanitize is_letter is_digit safe_path valid_digest valid_snapshot_file m
          expected next r
        ≡ none
      → m.state ⟶ next
  decided_edge m expected next r h =
      let (at, valid, away, rest) = passed m expected next r h in
      let same = (operation_state_eq.beq_iff m.state expected).0 at in
      (legal_iff m.state next).0
        (agent_moves_legal m.state next (ap (λ s. valid_transition s next) same ∙ valid) away)

  decided_report :
      (m : SnapshotManifest) (expected next : OperationState) (r : OperationReport)
      → decide_move sanitize is_letter is_digit safe_path valid_digest valid_snapshot_file m
          expected next r
        ≡ none
      → check_report sanitize is_letter is_digit safe_path valid_digest valid_snapshot_file m next r
        ≡ none
  decided_report m expected next r h = no_error _ (passed m expected next r h).3

  -- A report that is checked keeps to the request and extends the history.
  checked_asked :
      (m : SnapshotManifest) (next : OperationState) (r : OperationReport)
      → check_report sanitize is_letter is_digit safe_path valid_digest valid_snapshot_file m next r
        ≡ none
      → (r.operation_id == "") ≡ false
      → (asked_of r ≡ asked_of m.report) × (steps_agree m.report.steps r.steps ≡ true)
  unfolding check_report same_operation steps_are_prefix
  checked_asked m next r h named =
      let d : r.diagnostic_id ≡ m.report.diagnostic_id =
        ground (arith, eq_iff r.diagnostic_id m.report.diagnostic_id) in
      let s : r.source ≡ m.report.source =
        ground (arith, request_source_eq.beq_iff r.source m.report.source) in
      let t : r.started_at ≡ m.report.started_at = ground arith in
      let p : r.snapshot_reference ≡ m.report.snapshot_reference =
        ground (arith, eq_iff r.snapshot_reference m.report.snapshot_reference) in
      (cc, ground arith)

  pub moved-Advanced :
      (m : SnapshotManifest) (expected next : OperationState) (r : OperationReport) (now : ℕ)
      → decide_move sanitize is_letter is_digit safe_path valid_digest valid_snapshot_file m
          expected next r
        ≡ none
      → Advanced m (
          moved_manifest sanitize is_letter is_digit safe_path valid_digest valid_snapshot_file m
            next r now)
  unfolding moved_manifest
  moved-Advanced m expected next r now h =
      let edge = decided_edge m expected next r h in
      let later = later_time now m.updated_at in
      elim (Bool-cases (r.operation_id == "")) [
        | inl e ↦
            rw (e, moved_manifest)
              (record {
                identity = refl;
                asked = refl;
                state = step edge here;
                steps = (_, refl);
                updated_at = later;
              })
        | inr e ↦
            let (asked, agree) = checked_asked m next r (decided_report m expected next r h) e in
            rw (e, moved_manifest)
              (record {
                identity = refl;
                asked = asked;
                state = step edge here;
                steps = prefix_more m.report.steps r.steps agree;
                updated_at = later;
              })
      ]
