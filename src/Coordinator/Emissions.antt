-- ===== src/Coordinator/Emissions.antt =====
-- internal/agent/recovery/coordinator.go: what the orchestrator makes of the reports of a repair.
use nur_proxy.Coordinator.Repair.{complete, apply_action, execute}
use nur_proxy.Coordinator.Told.{
  edge_from, validated_kept, restored_kept, both_answers, Said-after, Next, same_kept, told_more,
  still_open, Next-of, Reported, outcomes, told, Said, Said-Next,
}
use nur_proxy.Coordinator.{
  or_else, persisted, executed, Result, restore_state, outcome_of, rollback, conclude, Coordinator,
  Answers, effect, finish, emit, now, add_step,
}
use nur_proxy.RecoveryModel.OperationState.{
  validating, snapshotted, applying, rolling_back, OperationState,
}
use nur_proxy.RecoveryModel.Diagnostic.{Diagnostic}
use nur_proxy.RecoveryModel.Report.{OperationReport}
use nur_proxy.Breaker.{BreakerKey, Reason}
use nur_proxy.Base.{[], none, true, some, Option, List, ℕ, String, ◌≡◌, refl, ◌++◌, ◌∷◌}
use mathlib.Core.Path.{ap, sym}
use nur_proxy.History.Reports.{recovery_operation_terminal}
use nur_proxy.History.Graph.{
  succeed, abort_snapshot, check, apply, abort_apply, abort_check, fail, restore, ◌⟶◌,
}

module _ (sanitize : String → String) (auto_id : ℕ → ℕ → String) (reason_text : Reason → String)
    (clock : ℕ → ℕ) (ans : Answers) (before : List OperationReport) (first : OperationReport) where
  abbrev pub ReportedBy : Result → Type 0
  ReportedBy w = Reported sanitize before w.0 first

  pub finish-Reported :
      (s : OperationState) (m : String) (c : Coordinator) (r last : OperationReport)
      → Said sanitize before c first last
      → last.state ⟶ s
      → told r ≡ told last
      → outcomes r ≡ outcomes last
      → recovery_operation_terminal s ≡ true
      → Reported sanitize before (finish sanitize auto_id clock ans s m (c, r)).0 first
  unfolding finish add_step now emit
  finish-Reported s m c r last said edge same kept terminal =
      let done = (finish sanitize auto_id clock ans s m (c, r)).1 in
      (
        done,
        Said-Next sanitize said
            (Next-of sanitize _ edge (told_more r last _ same) (same_kept last done kept)
              (sym terminal))
            refl,
      )

  -- A report that was handed to the queue after the last one.
  pub Said-emit :
      (c c' : Coordinator) (last next : OperationReport)
      → Said sanitize before c first last
      → Next sanitize last next
      → c'.emitted ≡ c.emitted
      → Said sanitize before (emit sanitize auto_id clock ans (c', next)).0 first next
  unfolding emit
  Said-emit c c' last next said n e = Said-Next sanitize said n (ap (λ xs. xs ++ next ∷ []) e)

  reported :
      (c c' : Coordinator) (last next : OperationReport)
      → Said sanitize before c first last
      → Next sanitize last next
      → c'.emitted ≡ c.emitted ++ next ∷ []
      → Reported sanitize before c' first
  reported c c' last next said n e = (next, Said-Next sanitize said n e)

  unreported :
      (c c' : Coordinator) (last : OperationReport)
      → Said sanitize before c first last
      → c'.emitted ≡ c.emitted
      → Reported sanitize before c' first
  unreported c c' last said e = (last, Said-after sanitize said e)

  outcome_edge :
      (failure : Option String) → rolling_back ⟶ outcome_of sanitize auto_id clock ans failure
  outcome_edge none = restore
  outcome_edge (some e) = fail

  outcome_terminal :
      (failure : Option String)
      → true ≡ recovery_operation_terminal (outcome_of sanitize auto_id clock ans failure)
  unfolding recovery_operation_terminal
  outcome_terminal none = refl
  outcome_terminal (some e) = refl

  conclude-Reported :
      (key : BreakerKey) (cause : String) (failure : Option String) (c : Coordinator)
      (r : OperationReport)
      → Said sanitize before c first r
      → r.state ≡ rolling_back
      → r.rollback_outcome ≡ ""
      → Reported sanitize before
          (conclude sanitize auto_id clock ans key cause failure (c, r)).0
          first
  unfolding conclude add_step now emit effect
  conclude-Reported key cause failure c r said at unset =
      both_answers ReportedBy ans.persists_outcome _ _ (λ e. unreported c _ r said refl)
        (reported c _ r _ said
          (Next-of sanitize _ (edge_from at (outcome_edge failure)) refl
            (restored_kept r _ unset refl) (outcome_terminal failure))
          refl)

  restore_emitted :
      (c : Coordinator) → (restore_state sanitize auto_id clock ans c).0.emitted ≡ c.emitted
  unfolding restore_state effect
  restore_emitted c =
      both_answers (λ (w : Coordinator × Option String). w.0.emitted ≡ c.emitted)
        ans.persists_rolling _ _ (λ e. refl) refl

  rollback-Reported :
      (key : BreakerKey) (cause : String) (c : Coordinator) (r : OperationReport)
      → Said sanitize before c first r
      → r.state ⟶ rolling_back
      → r.rollback_outcome ≡ ""
      → Reported sanitize before (rollback sanitize auto_id clock ans key cause (c, r)).0 first
  unfolding rollback add_step now emit recovery_operation_terminal
  rollback-Reported key cause c r said edge unset =
      let w =
        add_step sanitize auto_id clock ans rolling_back "restoring captured state"
          (c, record r { state = rolling_back }) in
      let c' = (now sanitize auto_id clock ans w.0).1 in
      let c'' = (restore_state sanitize auto_id clock ans c').0 in
      conclude-Reported key cause _ _ w.1
        (Said-emit c c'' r w.1 said
          (Next-of sanitize _ edge refl (same_kept r w.1 refl)
            (still_open r rolling_back said.ends edge refl))
          (restore_emitted c'))
        refl unset

  complete-Reported :
      (key : BreakerKey) (d : Diagnostic) (c : Coordinator) (r : OperationReport)
      → Said sanitize before c first r
      → r.state ≡ validating
      → r.validation_outcome ≡ ""
      → Reported sanitize before
          (complete sanitize auto_id reason_text clock ans key d (c, r)).0
          first
  unfolding complete add_step now emit effect recovery_operation_terminal
  complete-Reported key d c r said at unset =
      both_answers ReportedBy ans.persists_success _ _ (λ e. unreported c _ r said refl)
        (reported c _ r _ said
          (Next-of sanitize _ (edge_from at succeed) refl (validated_kept r _ unset refl) refl)
          refl)

  execute-Reported :
      (key : BreakerKey) (d : Diagnostic) (c : Coordinator) (r : OperationReport)
      → Said sanitize before c first r
      → r.state ≡ applying
      → r.validation_outcome ≡ ""
      → r.rollback_outcome ≡ ""
      → Reported sanitize before
          (execute sanitize auto_id reason_text clock ans key d (c, r)).0
          first
  unfolding execute add_step now emit effect recovery_operation_terminal
  execute-Reported key d c r said at valid back =
      let started = effect sanitize auto_id clock ans executed c in
      let w =
        add_step sanitize auto_id clock ans validating "full proxy validation started"
          (started, record r { state = validating }) in
      let c' = (now sanitize auto_id clock ans w.0).1 in
      let c3 = effect sanitize auto_id clock ans (persisted validating) c' in
      let failed = edge_from at abort_apply in
      let told_on =
        Said-emit c c3 r w.1 said
          (Next-of sanitize _ (edge_from at check) refl (same_kept r w.1 refl)
            (still_open r validating said.ends (edge_from at check) refl))
          refl in
      both_answers ReportedBy ans.executes _ _
        (λ e. rollback-Reported key e started r (Said-after sanitize said refl) failed back)
        (both_answers ReportedBy ans.persists_validating _ _
          (λ e. rollback-Reported key e c' r (Said-after sanitize said refl) failed back)
          (both_answers ReportedBy (or_else ans.validates ans.activates) _ _
            (λ e. rollback-Reported key e _ w.1 told_on abort_check back)
            (complete-Reported key d _ w.1 told_on refl valid)))

  pub apply_action-Reported :
      (key : BreakerKey) (d : Diagnostic) (c : Coordinator) (r : OperationReport)
      → Said sanitize before c first r
      → r.state ≡ snapshotted
      → r.validation_outcome ≡ ""
      → r.rollback_outcome ≡ ""
      → Reported sanitize before
          (apply_action sanitize auto_id reason_text clock ans key d (c, r)).0
          first
  unfolding apply_action add_step now emit effect recovery_operation_terminal
  apply_action-Reported key d c r said at valid back =
      let w =
        add_step sanitize auto_id clock ans applying "typed recovery action started"
          (c, record r { state = applying }) in
      let c' = (now sanitize auto_id clock ans w.0).1 in
      let c3 = effect sanitize auto_id clock ans (persisted applying) c' in
      both_answers ReportedBy ans.persists_applying _ _
        (λ e.
          rollback-Reported key e c' r (Said-after sanitize said refl) (edge_from at abort_snapshot)
            back)
        (execute-Reported key d _ w.1
          (Said-emit c c3 r w.1 said
            (Next-of sanitize _ (edge_from at apply) refl (same_kept r w.1 refl)
              (still_open r applying said.ends (edge_from at apply) refl))
            refl)
          refl valid back)
