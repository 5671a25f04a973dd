-- ===== src/History/Decide.antt =====
-- internal/orchestrator/db/recovery.go: which transitions `AdvanceRepairOperation` goes on to write.
use nur_proxy.Base.{
  inr, inl, ◌≡◌, refl, true, false, String, string_eq, none, List, [], ◌∷◌, ◌++◌, ◌==◌,
  length-append, arith, eq_iff,
}
use nur_proxy.RecoveryModel.Action.{action_eq}
use nur_proxy.RecoveryModel.RequestSource.{request_source_eq}
use nur_proxy.RecoveryModel.OperationState.{OperationState, operation_state_eq}
use nur_proxy.RecoveryModel.Report.{Step, OperationReport}
use nur_proxy.History.Graph.{◌⟶◌, legal_iff, operation_state_reachable, search_states, diagnose}
use nur_proxy.History.Reports.{unset_or_same, step_beq, steps_agree, validate_append_only_steps}
use nur_proxy.History.Store.{fields_kept, decide_advance, same_identity}
use nur_proxy.History.Advance.{Kept, Transition}

step_beq_refl : (s : Step) → step_beq s s ≡ true
unfolding step_beq
step_beq_refl s = ground (
  arith,
  eq_iff s.name s.name,
  eq_iff s.summary s.summary,
  operation_state_eq.beq_iff s.state s.state,
)

agree_prefix : (previous : List Step) (s : Step) → steps_agree previous (previous ++ s ∷ []) ≡ true
unfolding steps_agree
agree_prefix [] s = refl
agree_prefix (a ∷ previous) s = ground (arith, step_beq_refl a, agree_prefix previous s)

appends :
    (previous next : List Step) (s : Step)
    → next ≡ previous ++ s ∷ []
    → validate_append_only_steps previous next ≡ none
unfolding validate_append_only_steps
appends previous next s e =
    rw e (ground (arith, agree_prefix previous s, length-append previous (s ∷ [])))

-- No edge can be gone back, and none stays in place.
edge_forward :
    {s t : OperationState} → s ⟶ t → (operation_state_reachable t s ≡ false) × ((s == t) ≡ false)
unfolding operation_state_reachable search_states
edge_forward diagnose = (refl, refl)
edge_forward _ = (refl, refl)

Kept-unset_or_same : (before after : String) → Kept before after → unset_or_same before after ≡ true
Kept-unset_or_same before after (inl unset) = ground (arith, eq_iff before "")
Kept-unset_or_same before after (inr same) = ground (arith, eq_iff before after)

Transition-kept :
    (stored report : OperationReport) → Transition stored report → fields_kept stored report ≡ true
unfolding fields_kept
Transition-kept stored report t = ground (
  arith,
  Kept-unset_or_same stored.snapshot_reference report.snapshot_reference t.snapshot_reference,
  Kept-unset_or_same stored.validation_outcome report.validation_outcome t.validation_outcome,
  Kept-unset_or_same stored.rollback_outcome report.rollback_outcome t.rollback_outcome,
)

Transition-same :
    (stored report : OperationReport)
    → Transition stored report
    → same_identity stored report ≡ true
unfolding same_identity
Transition-same stored report t =
    let a = t.diagnostic_id in
    let b = t.action in
    let c = t.source in
    let d = t.started_at in
    ground (
      arith,
      eq_iff stored.diagnostic_id report.diagnostic_id,
      action_eq.beq_iff stored.action report.action,
      request_source_eq.beq_iff stored.source report.source,
    )

pub Transition-decided :
    (sanitize : String → String) (stored report : OperationReport)
    → Transition stored report
    → decide_advance sanitize stored report ≡ none
unfolding decide_advance
Transition-decided sanitize stored report t =
    let (back, stay) = edge_forward t.edge in
    let same = Transition-same stored report t in
    let legal = (legal_iff stored.state report.state).1 t.edge in
    let append = appends stored.steps report.steps t.one_step_more.0 t.one_step_more.1 in
    let kept = Transition-kept stored report t in
    rw stay (rw same (rw back (rw legal (rw append (rw kept refl)))))
