-- ===== src/Coordinator/Accepted.antt =====
-- internal/agent/recovery/coordinator.go: a repair, as the orchestrator gets its reports.
use nur_proxy.Coordinator.Told.{one, both_tests, Said}
use nur_proxy.Coordinator.Chains.{consider-Reported, Opening}
use nur_proxy.Coordinator.Repair.{consider, repair}
use nur_proxy.Coordinator.{Result, emit, now, Coordinator, add_step, start, Answers}
use nur_proxy.RecoveryModel.Diagnostic.{validate_diagnostic, Diagnostic}
use nur_proxy.RecoveryModel.Report.{OperationReport}
use nur_proxy.RecoveryModel.RequestSource.{RequestSource, request_source_eq, automatic}
use nur_proxy.RecoveryModel.Requests.{RepairRequest}
use nur_proxy.Breaker.{Reason}
use nur_proxy.History.Reports.{is_set, recovery_operation_terminal}
use nur_proxy.RecoveryModel.OperationState.{detected, planned}
use nur_proxy.Dict.{lookup}
use nur_proxy.Base.{
  string_eq, ap, sym, ◌∙◌, true, false, if◌then◌else◌, [], none, Bool, ℕ, String, inl, inr, ◌≡◌,
  refl, ◌++◌, ◌∷◌, ◌==◌, Option-cases, Bool-cases,
}
use nur_proxy.RecoveryModel.Action.{action_eq}

module _ (sanitize : String → String) (auto_id : ℕ → ℕ → String) (reason_text : Reason → String)
    (clock : ℕ → ℕ) (ans : Answers) where
  start-Opening :
      (d : Diagnostic) (request : RepairRequest) (source : RequestSource) (c : Coordinator)
      → Opening sanitize auto_id reason_text clock ans c.emitted
          (start sanitize auto_id clock ans d request source c).1
          request
          (source == automatic)
          (start sanitize auto_id clock ans d request source c).1
  unfolding start add_step now
  start-Opening d request source c = elim (Bool-cases (source == automatic)) [
    | inl h ↦
        rw (h, start)
          (record {
            state = refl;
            one_step = (_, refl);
            asked = λ e. absurd (cc);
            unset = refl;
            unfinished = refl;
          })
    | inr h ↦
        rw (h, start)
          (record {
            state = refl;
            one_step = (_, refl);
            asked = λ e. (refl, refl);
            unset = refl;
            unfinished = refl;
          })
  ]

  opening_open :
      (automated : Bool)
      → recovery_operation_terminal (if automated then detected else planned) ≡ false
  unfolding recovery_operation_terminal
  opening_open true = refl
  opening_open false = refl

  start_emitted :
      (d : Diagnostic) (request : RepairRequest) (source : RequestSource) (c : Coordinator)
      → (start sanitize auto_id clock ans d request source c).0.emitted ≡ c.emitted
  unfolding start add_step now
  start_emitted d request source c = elim (Bool-cases (source == automatic)) [
    | inl h ↦ rw (h, start) refl
    | inr h ↦ rw (h, start) refl
  ]

  -- What a repair has handed to the queue: nothing, or the reports of an operation.
  pub data Told (request : RepairRequest) (automated : Bool) (c : Coordinator)
      : Result → Type 0 where
    silent : {w : Result} → w.0.emitted ≡ c.emitted → w.1 ≡ none → Told request automated c w
    chain :
        {w : Result} (first last : OperationReport)
        → Opening sanitize auto_id reason_text clock ans c.emitted first request automated first
        → Said sanitize c.emitted w.0 first last
        → Told request automated c w

  considered :
      (d : Diagnostic) (request : RepairRequest) (source : RequestSource) (at : ℕ) (c : Coordinator)
      → let (c', r) = start sanitize auto_id clock ans d request source c in
        Told request (source == automatic) c (
          consider sanitize auto_id reason_text clock ans d source at
            (emit sanitize auto_id clock ans (c', r)))
  unfolding emit
  considered d request source at c =
      let (c', r) = start sanitize auto_id clock ans d request source c in
      let opening = start-Opening d request source c in
      let said : Said sanitize c.emitted (emit sanitize auto_id clock ans (c', r)).0 r r = record {
        rest = [];
        emitted = ap (λ xs. xs ++ r ∷ []) (start_emitted d request source c);
        chain = one r;
        ends =
            (ap is_set opening.unfinished
              ∙ sym (opening_open (source == automatic))
              ∙ sym (ap recovery_operation_terminal opening.state));
      } in
      let (last, chained) =
        consider-Reported sanitize auto_id reason_text clock ans c.emitted r d request source at _ r
          said opening in
      chain r last opening chained

  -- Whatever the store, the guard and the backend answer, a repair hands no report to the queue and
  -- returns none, or it hands over the reports of one operation, each of which the orchestrator
  -- decides to write after the one before it, and has an end exactly if its state is terminal. The
  -- first has one step; its state is `detected` for
  -- an automatic repair, and else `planned`, with the step and the start of the request.
  pub repair-Told :
      (d : Diagnostic) (request : RepairRequest) (source : RequestSource) (c : Coordinator)
      → Told request
          (source == automatic)
          c
          (repair sanitize auto_id reason_text clock ans d request source c)
  unfolding repair
  repair-Told d request source c = elim (Option-cases (validate_diagnostic sanitize d)) [
    | inr (e, h) ↦ rw (h, repair) (silent refl refl)
    | inl h ↦ elim (Option-cases (lookup d.id c.candidates)) [
      | inl h' ↦ rw (h, repair) (rw h' (silent refl refl))
      | inr (candidate, h') ↦
          rw (h, repair)
            (rw h' (
              both_tests told_by _ _ _ (silent refl refl) (
                both_tests told_by _ _ _ (silent (start_emitted d request source c) refl)
                  (considered d request source _ c))))
    ]
  ]
    where
      told_by : Result → Type 0
      told_by w = Told request (source == automatic) c w
