-- ===== src/Coordinator/Repair.antt =====
-- internal/agent/recovery/coordinator.go: `repairLocked` and the calls that make a repair.
use nur_proxy.Base.{
  ℕ, Bool, false, not, ◌&&◌, ◌||◌, String, string_eq, none, some, List, [], ◌∷◌, ◌==◌, nat_beq,
  if◌then◌else◌,
}
use nur_proxy.Dict.{lookup, insert, delete}
use nur_proxy.RecoveryModel.Action.{Action, action_eq}
use nur_proxy.RecoveryModel.Ownership.{nurproxy, ownership_eq}
use nur_proxy.RecoveryModel.RequestSource.{RequestSource, automatic, user, request_source_eq}
use nur_proxy.RecoveryModel.OperationState.{
  OperationState, detected, diagnosis_only, planned, snapshotted, applying, validating, succeeded,
  suppressed,
}
use nur_proxy.RecoveryModel.Report.{Step, OperationReport}
use nur_proxy.RecoveryModel.Diagnostic.{Diagnostic, validate_diagnostic}
use nur_proxy.RecoveryModel.Requests.{RepairRequest, validate_request}
use nur_proxy.Breaker.{BreakerKey, Reason, allow, record_outcome}
use nur_proxy.History.Reports.{step_beq}
use nur_proxy.Coordinator.{
  return_if, on_error, other_action, inactive, reused, invalid_request, Coordinator, Answers,
  captured, executed, persisted, invalid_diagnostic, no_candidate, queue_full, unresolved,
  not_captured, not_persisted, Work, Result, now, add_step, emit, effect, finish, start, rollback,
  or_else,
}

module _ (sanitize : String → String) (auto_id : ℕ → ℕ → String) (reason_text : Reason → String)
    (clock : ℕ → ℕ) (ans : Answers) where
  -- The end of a repair whose validation succeeded.
  unfoldable pub complete : BreakerKey → Diagnostic → Work → Result
  complete key d (c, r) =
      let (c', r') =
        add_step sanitize auto_id clock ans succeeded "repair validated and activated"
          (c, record r { validation_outcome = "valid"; state = succeeded }) in
      let (at, c'') = now sanitize auto_id clock ans c' in
      let done = record r' { finished_at = some at } in
      let kept = record (effect sanitize auto_id clock ans (persisted succeeded) c'') {
        operations = insert r.operation_id done c''.operations;
        diagnostics = delete d.id c''.diagnostics;
        candidates = delete d.id c''.candidates;
      } in
      let recorded = record kept {
        breaker =
            (record_outcome sanitize ans.breaker_written key succeeded at (r.source == user)
              kept.breaker).0;
      } in
      on_error ans.persists_success (λ (e : String). (c'', some done, some (not_persisted e)))
        (((emit sanitize auto_id clock ans (recorded, done)).0, some done, none))

  -- From the state `applying`, which was reported: execution.
  unfoldable pub execute : BreakerKey → Diagnostic → Work → Result
  execute key d (c, r) =
      let started = effect sanitize auto_id clock ans executed c in
      let (c', next) =
        add_step sanitize auto_id clock ans validating "full proxy validation started"
          (started, record r { state = validating }) in
      let (at, c'') = now sanitize auto_id clock ans c' in
      let c3 = effect sanitize auto_id clock ans (persisted validating) c'' in
      let (c4, r4) = emit sanitize auto_id clock ans (c3, next) in
      on_error ans.executes (λ (e : String). rollback sanitize auto_id clock ans key e (started, r))
        (on_error ans.persists_validating
          (λ (e : String). rollback sanitize auto_id clock ans key e (c'', r))
          (on_error (or_else ans.validates ans.activates)
            (λ (e : String). rollback sanitize auto_id clock ans key e (c4, r4))
            (complete key d (c4, r4))))

  -- From the state `snapshotted`, which was reported: the move to `applying`.
  unfoldable pub apply_action : BreakerKey → Diagnostic → Work → Result
  apply_action key d (c, r) =
      let (c', next) =
        add_step sanitize auto_id clock ans applying "typed recovery action started"
          (c, record r { state = applying }) in
      let (at, c'') = now sanitize auto_id clock ans c' in
      let c3 = effect sanitize auto_id clock ans (persisted applying) c'' in
      on_error ans.persists_applying
        (λ (e : String). rollback sanitize auto_id clock ans key e (c'', r))
        (execute key d (emit sanitize auto_id clock ans (c3, next)))

  abbrev pub take_one : List Step → List Step
  take_one [] = []
  take_one (s ∷ steps) = s ∷ []

  -- The report of an automatic repair goes back to its first step.
  abbrev pub unplan : Bool → OperationReport → OperationReport
  unplan automated r = record r { steps = if automated then take_one r.steps else r.steps }

  abbrev pub undetect : Bool → OperationReport → OperationReport
  undetect automated r = record (unplan automated r) {
    state = if automated then detected else r.state;
  }

  -- From the planned report: the paths are resolved and their state is captured.
  -- `automated` tells that the source is automatic.
  unfoldable pub snapshot : BreakerKey → Diagnostic → Bool → Work → Result
  snapshot key d automated (c, r) =
      let unresolved_end = λ (e : String).
        finish sanitize auto_id clock ans diagnosis_only e (c, unplan automated r) in
      let (c', shot) =
        add_step sanitize auto_id clock ans snapshotted "prior filesystem state captured"
          (c, record r { snapshot_reference = r.operation_id; state = snapshotted }) in
      let (at, c'') = now sanitize auto_id clock ans c' in
      let uncaptured_end = λ (e : String).
        finish sanitize auto_id clock ans diagnosis_only e (c'', undetect automated r) in
      let c3 = effect sanitize auto_id clock ans captured c'' in
      let c4 = if automated then (emit sanitize auto_id clock ans (c3, r)).0 else c3 in
      on_error ans.resolves
        (λ (e : String). ((unresolved_end e).0, some (unresolved_end e).1, some (unresolved e)))
        (on_error ans.captures
          (λ (e : String). ((uncaptured_end e).0, some (uncaptured_end e).1, some (not_captured e)))
          (apply_action key d (emit sanitize auto_id clock ans (c4, shot))))

  -- An automatic repair that may go on is planned, which is reported only once it is captured.
  unfoldable pub prepare : BreakerKey → Diagnostic → RequestSource → Work → Result
  prepare key d source (c, r) =
      let planned_work =
        add_step sanitize auto_id clock ans planned "safe typed repair planned"
          (c, record r { state = planned }) in
      let automated = source == automatic in
      snapshot key d automated (if automated then planned_work else (c, r))

  abbrev pub eligible : Diagnostic → Bool
  eligible d = not (not d.auto_repair_eligible || d.hard_change || not (d.ownership == nurproxy))

  unfoldable pub end_with : OperationState → String → Work → Result
  end_with state message w =
      let (c', r') = finish sanitize auto_id clock ans state message w in (c', some r', none)

  -- From the opening report, which was admitted: the checks of eligibility, policy and breaker.
  unfoldable pub consider : Diagnostic → RequestSource → ℕ → Work → Result
  consider d source at (c, r) =
      let key : BreakerKey = (d.proposed_action, d.resource_fingerprint) in
      let (b, decision) = allow sanitize key source at c.breaker in
      let asked = record c { breaker = b } in
      return_if (not (eligible d))
        (end_with diagnosis_only "diagnostic is not eligible for safe repair" (c, r))
        (return_if (source == automatic && (not c.policy_known || not c.policy))
          (end_with diagnosis_only "automatic repair policy is disabled or unavailable" (c, r))
          (return_if (not decision.allowed)
            (end_with suppressed (reason_text decision.reason) (asked, r))
            (prepare key d source (asked, r))))

  -- `repairLocked`
  unfoldable pub repair : Diagnostic → RepairRequest → RequestSource → Coordinator → Result
  repair d request source c =
      let (at, read) = now sanitize auto_id clock ans c in
      let (c', r) = start sanitize auto_id clock ans d request source c in
      elim (validate_diagnostic sanitize d) [
        | some e ↦ (c, none, some (invalid_diagnostic e))
        | none ↦ elim (lookup d.id c.candidates) [
          | none ↦ (c, none, some no_candidate)
          | some candidate ↦
              return_if (not (candidate.action == d.proposed_action)) (c, none, some no_candidate)
                (return_if (not ans.admits) (c', none, some queue_full)
                  (consider d source at (emit sanitize auto_id clock ans (c', r))))
        ]
      ]

  abbrev pub first_is : Step → List Step → Bool
  first_is s [] = false
  first_is s (a ∷ steps) = step_beq a s

  -- `HandleRequest`: the request of a known operation gets its report, if it is the same request.
  -- Times are compared as instants.
  unfoldable pub same_request : RepairRequest → OperationReport → Bool
  same_request request previous =
      previous.diagnostic_id == request.diagnostic_id
      && previous.action == request.action
      && nat_beq previous.started_at request.started_at
      && first_is request.initial_step previous.steps

  unfoldable pub handle_request : RepairRequest → Coordinator → Result
  handle_request request c = elim (validate_request sanitize request) [
    | some e ↦ (c, none, some (invalid_request e))
    | none ↦ elim (lookup request.operation_id c.operations) [
      | some previous ↦
          if same_request request previous then (c, some previous, none) else (c, none, some reused)
      | none ↦ elim (lookup request.diagnostic_id c.diagnostics) [
        | none ↦ (c, none, some inactive)
        | some d ↦
            if not (d.proposed_action == request.action)
            then (c, none, some other_action)
            else repair d request user c
      ]
    ]
  ]

  -- `AutoRepair`, whose request is the empty one.
  unfoldable pub auto_repair : Diagnostic → Coordinator → Result
  auto_repair d c =
      let nothing : RepairRequest = record {
        operation_id = "";
        diagnostic_id = "";
        action = Action.other "";
        started_at = 0;
        initial_step = record { name = ""; summary = ""; state = OperationState.other ""; at = 0 };
      } in
      repair d nothing automatic c
