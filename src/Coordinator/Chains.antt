-- ===== src/Coordinator/Chains.antt =====
-- internal/agent/recovery/coordinator.go: the reports of a whole repair, as the orchestrator gets them.
use nur_proxy.Coordinator.Repair.{take_one, consider, snapshot, prepare, unplan, end_with}
use nur_proxy.Coordinator.Told.{
  still_open, both_tests, edge_from, captured_kept, both_answers, Said-after, Next, same_kept,
  Next-of, Reported, outcomes, told, Said,
}
use nur_proxy.Coordinator.{
  automatic, captured, Result, Coordinator, Answers, effect, emit, now, add_step,
}
use nur_proxy.RecoveryModel.OperationState.{
  suppressed, diagnosis_only, planned, detected, snapshotted, OperationState,
}
use nur_proxy.RecoveryModel.Report.{Step, OperationReport}
use nur_proxy.RecoveryModel.RequestSource.{RequestSource, request_source_eq, automatic}
use nur_proxy.RecoveryModel.Requests.{RepairRequest}
use nur_proxy.RecoveryModel.Diagnostic.{Diagnostic}
use nur_proxy.Breaker.{BreakerKey, Reason}
use nur_proxy.Base.{
  if◌then◌else◌, Bool-cases, Bool, ◌∙◌, true, false, inl, inr, [], none, List, ℕ, String, ◌≡◌, refl,
  ◌++◌, ◌∷◌, ◌==◌,
}
use mathlib.Core.Path.{ap}
use nur_proxy.History.Reports.{recovery_operation_terminal}
use nur_proxy.History.Graph.{capture, plan, hold_back, suppress, give_up, diagnose, ◌⟶◌}
use nur_proxy.Coordinator.Emissions.{apply_action-Reported, finish-Reported, ReportedBy, Said-emit}

module _ (sanitize : String → String) (auto_id : ℕ → ℕ → String) (reason_text : Reason → String)
    (clock : ℕ → ℕ) (ans : Answers) (before : List OperationReport) (first : OperationReport) where
  abbrev By : Result → Type 0
  By = ReportedBy sanitize auto_id reason_text clock ans before first

  end_with-Reported :
      (s : OperationState) (m : String) (c : Coordinator) (r : OperationReport)
      → Said sanitize before c first r
      → r.state ⟶ s
      → recovery_operation_terminal s ≡ true
      → Reported sanitize before
          (end_with sanitize auto_id reason_text clock ans s m (c, r)).0
          first
  unfolding end_with
  end_with-Reported s m c r said edge terminal =
      finish-Reported sanitize auto_id reason_text clock ans before first s m c r r said edge refl
        refl terminal

  user_capture-Reported :
      (key : BreakerKey) (d : Diagnostic) (c : Coordinator) (r : OperationReport)
      → Said sanitize before c first r
      → r.state ≡ planned
      → outcomes r ≡ ("", "", "")
      → Reported sanitize before
          (snapshot sanitize auto_id reason_text clock ans key d false (c, r)).0
          first
  unfolding snapshot add_step now emit effect recovery_operation_terminal
  user_capture-Reported key d c r said at unset =
      let w =
        add_step sanitize auto_id clock ans snapshotted "prior filesystem state captured"
          (c, record r { snapshot_reference = r.operation_id; state = snapshotted }) in
      let c' = (now sanitize auto_id clock ans w.0).1 in
      let c3 = effect sanitize auto_id clock ans captured c' in
      let given_up = edge_from at give_up in
      both_answers By ans.resolves _ _
        (λ e.
          finish-Reported sanitize auto_id reason_text clock ans before first diagnosis_only e c r r
            said given_up refl refl refl)
        (both_answers By ans.captures _ _
          (λ e.
            finish-Reported sanitize auto_id reason_text clock ans before first diagnosis_only e c'
              r r (Said-after sanitize said refl) given_up refl refl refl)
          (apply_action-Reported sanitize auto_id reason_text clock ans before first key d _ w.1
            (Said-emit sanitize auto_id reason_text clock ans before first c c3 r w.1 said
              (Next-of sanitize _ (edge_from at capture) refl
                (captured_kept r w.1 (ap (λ o. o.0) unset) refl)
                (still_open r snapshotted said.ends (edge_from at capture) refl))
              refl)
            refl (ap (λ o. o.1) unset) (ap (λ o. o.2) unset)))

  automatic_capture-Reported :
      (key : BreakerKey) (d : Diagnostic) (c : Coordinator) (last r : OperationReport)
      → Said sanitize before c first last
      → Next sanitize last r
      → last.state ≡ detected
      → r.state ≡ planned
      → outcomes last ≡ ("", "", "")
      → outcomes r ≡ outcomes last
      → told (unplan sanitize auto_id reason_text clock ans true r) ≡ told last
      → Reported sanitize before
          (snapshot sanitize auto_id reason_text clock ans key d true (c, r)).0
          first
  unfolding snapshot add_step now emit effect recovery_operation_terminal
  automatic_capture-Reported key d c last r said planned_next from at unset same_outcomes same =
      let w =
        add_step sanitize auto_id clock ans snapshotted "prior filesystem state captured"
          (c, record r { snapshot_reference = r.operation_id; state = snapshotted }) in
      let c' = (now sanitize auto_id clock ans w.0).1 in
      let c3 = effect sanitize auto_id clock ans captured c' in
      let c4 = (emit sanitize auto_id clock ans (c3, r)).0 in
      let unset' = same_outcomes ∙ unset in
      both_answers By ans.resolves _ _
        (λ e.
          finish-Reported sanitize auto_id reason_text clock ans before first diagnosis_only e c _
            last said (edge_from from diagnose) same same_outcomes refl)
        (both_answers By ans.captures _ _
          (λ e.
            finish-Reported sanitize auto_id reason_text clock ans before first diagnosis_only e c'
              _ last (Said-after sanitize said refl) (edge_from from diagnose) same same_outcomes
              refl)
          (apply_action-Reported sanitize auto_id reason_text clock ans before first key d _ w.1
            (Said-emit sanitize auto_id reason_text clock ans before first c4 c4 r w.1
              (Said-emit sanitize auto_id reason_text clock ans before first c c3 last r said
                planned_next refl)
              (Next-of sanitize _ (edge_from at capture) refl
                (captured_kept r w.1 (ap (λ o. o.0) unset') refl)
                (still_open r snapshotted planned_next.ends (edge_from at capture) refl))
              refl)
            refl (ap (λ o. o.1) unset') (ap (λ o. o.2) unset')))

  -- The first report of an operation, as the orchestrator takes it for a new operation.
  pub record Opening (request : RepairRequest) (automated : Bool) (r : OperationReport)
      : Type 0 where
    pub state : r.state ≡ (if automated then detected else planned)
    pub one_step : (s : Step) × (r.steps ≡ s ∷ [])
    pub asked :
        automated ≡ false
        → (r.steps ≡ request.initial_step ∷ []) × (r.started_at ≡ request.started_at)
    pub unset : outcomes r ≡ ("", "", "")
    pub unfinished : r.finished_at ≡ none

  back_to_one :
      (xs : List Step) (s t : Step)
      → xs ≡ s ∷ []
      → take_one sanitize auto_id reason_text clock ans (xs ++ t ∷ []) ≡ xs
  back_to_one xs s t e = rw e refl

  prepare-Reported :
      (key : BreakerKey) (d : Diagnostic) (request : RepairRequest) (source : RequestSource)
      (c : Coordinator) (r : OperationReport)
      → Said sanitize before c first r
      → Opening request (source == automatic) r
      → Reported sanitize before
          (prepare sanitize auto_id reason_text clock ans key d source (c, r)).0
          first
  unfolding prepare add_step now recovery_operation_terminal
  prepare-Reported key d request source c r said o = elim (Bool-cases (source == automatic)) [
    | inl h ↦
        let w =
          add_step sanitize auto_id clock ans planned "safe typed repair planned"
            (c, record r { state = planned }) in
        let from : r.state ≡ detected = o.state ∙ ap (λ b. if b then detected else planned) h in
        rw (h, prepare)
          (automatic_capture-Reported key d w.0 r w.1 (Said-after sanitize said refl)
            (Next-of sanitize _ (edge_from from plan) refl (same_kept r w.1 refl)
              (still_open r planned said.ends (edge_from from plan) refl))
            from refl o.unset refl
            (ap (λ xs. (r.operation_id, r.diagnostic_id, r.action, r.source, r.started_at, xs))
              (back_to_one r.steps o.one_step.0 _ o.one_step.1)))
    | inr h ↦
        rw (h, prepare)
          (user_capture-Reported key d c r said
            (o.state ∙ ap (λ b. if b then detected else planned) h) o.unset)
  ]

  open_edge :
      (automated : Bool) (s : OperationState)
      → detected ⟶ s
      → planned ⟶ s
      → (if automated then detected else planned) ⟶ s
  open_edge true s e f = e
  open_edge false s e f = f

  pub consider-Reported :
      (d : Diagnostic) (request : RepairRequest) (source : RequestSource) (at : ℕ) (c : Coordinator)
      (r : OperationReport)
      → Said sanitize before c first r
      → Opening request (source == automatic) r
      → Reported sanitize before
          (consider sanitize auto_id reason_text clock ans d source at (c, r)).0
          first
  unfolding consider recovery_operation_terminal
  consider-Reported d request source at c r said o =
      let given_up =
        edge_from o.state (open_edge (source == automatic) diagnosis_only diagnose give_up) in
      let held =
        edge_from o.state (open_edge (source == automatic) suppressed suppress hold_back) in
      both_tests By _ _ _ (end_with-Reported diagnosis_only _ c r said given_up refl) (
        both_tests By _ _ _ (end_with-Reported diagnosis_only _ c r said given_up refl) (
          both_tests By _ _ _
            (end_with-Reported suppressed _ _ r (Said-after sanitize said refl) held refl)
            (prepare-Reported _ d request source _ r (Said-after sanitize said refl) o)))
