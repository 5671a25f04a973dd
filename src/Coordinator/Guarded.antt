-- ===== src/Coordinator/Guarded.antt =====
-- internal/agent/recovery/coordinator.go: each repair keeps to the order of the phases.
use nur_proxy.Coordinator.Told.{both_tests, by_answer, both_answers}
use nur_proxy.Coordinator.Repair.{
  end_with, prepare, repair, consider, complete, execute, snapshot, apply_action,
}
use nur_proxy.Coordinator.{
  captured, Work, start, or_else, executed, emit, outcome_of, now, persisted, add_step, finish,
  effect, rollback, restore_state, Coordinator, conclude, Result, Effect, Answers,
}
use nur_proxy.RecoveryModel.Diagnostic.{validate_diagnostic, Diagnostic}
use nur_proxy.Breaker.{Breaker, BreakerKey, Reason}
use nur_proxy.RecoveryModel.OperationState.{
  OperationState, snapshotted, planned, validating, applying, rolling_back,
}
use nur_proxy.RecoveryModel.RequestSource.{RequestSource, request_source_eq, automatic}
use nur_proxy.RecoveryModel.Requests.{RepairRequest}
use nur_proxy.RecoveryModel.Report.{OperationReport}
use mathlib.Core.List.{[], append-nil}
use mathlib.Core.Path.{sym}
use nur_proxy.Dict.{lookup}
use nur_proxy.Base.{
  ◌∙◌, none, some, if◌then◌else◌, true, false, Bool, Option, List, String, ℕ, ◌≡◌, ◌⊎◌, inl, inr,
  refl, ◌==◌, string_eq, Option-cases, Bool-cases,
}
use nur_proxy.RecoveryModel.Action.{action_eq}
use nur_proxy.Coordinator.Phases.{
  from_checked, from_ran, checking, preparing, executing, from_taken, ran, succeeding, capturing,
  restoring, taken, checked, ready, undo, restoring_failed, undo_failed, restoring_ended, Undoable,
  undone, Ran, Does, Phase, Ran-on, Ran-still, begin, closed, idle,
}

-- An outcome that could not be persisted.
abbrev pub Unpersisted : Answers → Type 0
Unpersisted ans = (e : String) × ((ans.persists_outcome ≡ some e) ⊎ (ans.persists_success ≡ some e))

-- A repair that ended: untouched, closed, or with an outcome that could not be persisted.
pub data Ended (ans : Answers) : Phase → Type 0 where
  untouched : Ended ans idle
  recorded : Ended ans closed
  unpersisted : {p : Phase} → Unpersisted ans → Ended ans p

module _ (sanitize : String → String) (auto_id : ℕ → ℕ → String) (reason_text : Reason → String)
    (clock : ℕ → ℕ) (ans : Answers) (before : List Effect) where
  -- The repair has kept to the order, and has ended.
  abbrev pub Guarded : Coordinator → Type 0
  Guarded c = (p : Phase) × (Ran before c p × Ended ans p)

  abbrev By : Result → Type 0
  By w = Guarded w.0

  conclude-Guarded :
      (key : BreakerKey) (cause : String) (failure : Option String) (c : Coordinator)
      (r : OperationReport) (p : Phase)
      → Ran before c p
      → Does p (persisted (outcome_of sanitize auto_id clock ans failure)) closed
      → Guarded (conclude sanitize auto_id clock ans key cause failure (c, r)).0
  unfolding conclude add_step now emit effect
  conclude-Guarded key cause failure c r p way d =
      by_answer By ans.persists_outcome _ _
        (λ e h. (p, (Ran-still way refl, unpersisted (e, inl h))))
        (closed, (Ran-on way d refl, recorded))

  abbrev Restoring : Coordinator × Option String → Type 0
  Restoring w =
      (q : Phase) × (Ran before w.0 q
        × Does q (persisted (outcome_of sanitize auto_id clock ans w.1)) closed)

  undone_outcome :
      (failure : Option String)
      → Does undone (persisted (outcome_of sanitize auto_id clock ans failure)) closed
  undone_outcome none = restoring_ended
  undone_outcome (some e) = restoring_failed

  restore_state-Restoring :
      (c : Coordinator) (p : Phase)
      → Ran before c p
      → Undoable p
      → Restoring (restore_state sanitize auto_id clock ans c)
  unfolding restore_state effect
  restore_state-Restoring c p way u =
      both_answers Restoring ans.persists_rolling _ _
        (λ e. (p, (Ran-still way refl, undo_failed u)))
        (
          undone,
          (
            Ran-on
                (Ran-on {c' = effect sanitize auto_id clock ans (persisted rolling_back) c} way
                  (undo u) refl)
                restoring refl,
            undone_outcome _,
          ),
        )

  rollback-Guarded :
      (key : BreakerKey) (cause : String) (c : Coordinator) (r : OperationReport) (p : Phase)
      → Ran before c p
      → Undoable p
      → Guarded (rollback sanitize auto_id clock ans key cause (c, r)).0
  unfolding rollback add_step now emit
  rollback-Guarded key cause c r p way u =
      let w =
        add_step sanitize auto_id clock ans rolling_back "restoring captured state"
          (c, record r { state = rolling_back }) in
      let c' = (now sanitize auto_id clock ans w.0).1 in
      let (q, (way', d)) = restore_state-Restoring c' p (Ran-still way refl) u in
      conclude-Guarded key cause _ _ _ q (Ran-still way' refl) d

  complete-Guarded :
      (key : BreakerKey) (d : Diagnostic) (c : Coordinator) (r : OperationReport)
      → Ran before c checked
      → Guarded (complete sanitize auto_id reason_text clock ans key d (c, r)).0
  unfolding complete add_step now emit effect
  complete-Guarded key d c r way =
      by_answer By ans.persists_success _ _
        (λ e h. (checked, (Ran-still way refl, unpersisted (e, inr h))))
        (closed, (Ran-on way succeeding refl, recorded))

  execute-Guarded :
      (key : BreakerKey) (d : Diagnostic) (c : Coordinator) (r : OperationReport)
      → Ran before c ready
      → Guarded (execute sanitize auto_id reason_text clock ans key d (c, r)).0
  unfolding execute add_step now emit effect
  execute-Guarded key d c r ready_ran =
      let started = effect sanitize auto_id clock ans executed c in
      let has_run : Ran before started ran = Ran-on ready_ran executing refl in
      let w =
        add_step sanitize auto_id clock ans validating "full proxy validation started"
          (started, record r { state = validating }) in
      let c' = (now sanitize auto_id clock ans w.0).1 in
      let c3 = effect sanitize auto_id clock ans (persisted validating) c' in
      let has_checked : Ran before c3 checked = Ran-on has_run checking refl in
      both_answers By ans.executes _ _ (λ e. rollback-Guarded key e started r ran has_run from_ran)
        (both_answers By ans.persists_validating _ _
          (λ e. rollback-Guarded key e c' r ran (Ran-still has_run refl) from_ran)
          (both_answers By (or_else ans.validates ans.activates) _ _
            (λ e. rollback-Guarded key e _ w.1 checked (Ran-still has_checked refl) from_checked)
            (complete-Guarded key d _ w.1 (Ran-still has_checked refl))))

  apply_action-Guarded :
      (key : BreakerKey) (d : Diagnostic) (c : Coordinator) (r : OperationReport)
      → Ran before c taken
      → Guarded (apply_action sanitize auto_id reason_text clock ans key d (c, r)).0
  unfolding apply_action add_step now emit effect
  apply_action-Guarded key d c r has_taken =
      let w =
        add_step sanitize auto_id clock ans applying "typed recovery action started"
          (c, record r { state = applying }) in
      let c' = (now sanitize auto_id clock ans w.0).1 in
      both_answers By ans.persists_applying _ _
        (λ e. rollback-Guarded key e c' r taken (Ran-still has_taken refl) from_taken)
        (execute-Guarded key d _ w.1 (Ran-on has_taken preparing refl))

  emitted_effects :
      (automated : Bool) (c : Coordinator) (r : OperationReport)
      → (if automated then (emit sanitize auto_id clock ans (c, r)).0 else c).effects ≡ c.effects
  unfolding emit
  emitted_effects true c r = refl
  emitted_effects false c r = refl

  snapshot-Guarded :
      (key : BreakerKey) (d : Diagnostic) (automated : Bool) (w : Work)
      → Ran before w.0 idle
      → Guarded (snapshot sanitize auto_id reason_text clock ans key d automated w).0
  unfolding snapshot finish add_step now emit effect
  snapshot-Guarded key d automated (c, r) fresh =
      let w =
        add_step sanitize auto_id clock ans snapshotted "prior filesystem state captured"
          (c, record r { snapshot_reference = r.operation_id; state = snapshotted }) in
      let c3 = effect sanitize auto_id clock ans captured (now sanitize auto_id clock ans w.0).1 in
      let has_taken : Ran before c3 taken = Ran-on fresh capturing refl in
      both_answers By ans.resolves _ _ (λ e. (idle, (Ran-still fresh refl, untouched)))
        (both_answers By ans.captures _ _ (λ e. (idle, (Ran-still fresh refl, untouched)))
          (apply_action-Guarded key d _ _ (Ran-still has_taken (emitted_effects automated c3 r))))

  prepared_idle :
      (automated : Bool) (c : Coordinator) (r : OperationReport)
      → Ran before c idle
      → Ran before
          (if automated
            then add_step sanitize auto_id clock ans planned "safe typed repair planned"
                (c, record r { state = planned })
            else (c, r)).0
          idle
  unfolding add_step now
  prepared_idle true c r fresh = Ran-still fresh refl
  prepared_idle false c r fresh = fresh

  consider-Guarded :
      (d : Diagnostic) (source : RequestSource) (at : ℕ) (c : Coordinator) (r : OperationReport)
      → Ran before c idle
      → Guarded (consider sanitize auto_id reason_text clock ans d source at (c, r)).0
  unfolding consider prepare end_with finish add_step now emit
  consider-Guarded d source at c r fresh =
      let still : (s : OperationState) (m : String) (b : Breaker)
          → Guarded
              (end_with sanitize auto_id reason_text clock ans s m
                (record c { breaker = b }, r)).0 =
        λ s m b. (idle, (Ran-still fresh refl, untouched)) in
      both_tests By _ _ _ (still _ _ c.breaker) (
        both_tests By _ _ _ (still _ _ c.breaker) (
          both_tests By _ _ _ (still _ _ _) (
            snapshot-Guarded _ d (source == automatic) _
              (prepared_idle (source == automatic) _ r (Ran-still fresh refl)))))

module _ (sanitize : String → String) (auto_id : ℕ → ℕ → String) (reason_text : Reason → String)
    (clock : ℕ → ℕ) (ans : Answers) where
  start_effects :
      (d : Diagnostic) (request : RepairRequest) (source : RequestSource) (c : Coordinator)
      → (start sanitize auto_id clock ans d request source c).0.effects ≡ c.effects
  unfolding start add_step now
  start_effects d request source c = elim (Bool-cases (source == automatic)) [
    | inl h ↦ rw (h, start) refl
    | inr h ↦ rw (h, start) refl
  ]

  -- Whatever the store, the guard and the backend answer, the effects of a repair come in the order of
  -- the phases: nothing is executed before the prior state was captured and `applying` persisted, and
  -- nothing is restored before `rolling_back` was persisted. The repair ends with nothing captured,
  -- with an outcome that was persisted, or with an answer that it could not be persisted.
  pub repair-Guarded :
      (d : Diagnostic) (request : RepairRequest) (source : RequestSource) (c : Coordinator)
      → Guarded sanitize auto_id reason_text clock ans c.effects
          (repair sanitize auto_id reason_text clock ans d request source c).0
  unfolding repair emit
  repair-Guarded d request source c = elim (Option-cases (validate_diagnostic sanitize d)) [
    | inr (e, h) ↦ rw (h, repair) (still c refl)
    | inl h ↦ elim (Option-cases (lookup d.id c.candidates)) [
      | inl h' ↦ rw (h, repair) (rw h' (still c refl))
      | inr (candidate, h') ↦
          rw (h, repair)
            (rw h' (
              both_tests by_result _ _ _ (still c refl) (
                both_tests by_result _ _ _ (still _ (start_effects d request source c)) (
                  consider-Guarded sanitize auto_id reason_text clock ans c.effects d source _ _ _
                    (fresh _ (start_effects d request source c))))))
    ]
  ]
    where
      by_result : Result → Type 0
      by_result w = Guarded sanitize auto_id reason_text clock ans c.effects w.0

      fresh : (c' : Coordinator) → c'.effects ≡ c.effects → Ran c.effects c' idle
      fresh c' h = record { more = []; effects = h ∙ sym (append-nil c.effects); run = begin }

      still :
          (c' : Coordinator)
          → c'.effects ≡ c.effects
          → Guarded sanitize auto_id reason_text clock ans c.effects c'
      still c' h = (idle, (fresh c' h, untouched))
