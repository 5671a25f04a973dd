-- ===== src/History/Outcomes.antt =====
-- internal/orchestrator/db/recovery.go: what the outcome of a stored operation says about its steps.
use nur_proxy.Base.{
  inr, inl, Bool-cases, ◌++◌, if◌then◌else◌, suc, ◌==◌, Bool, ◌<◌, ℕ, ◌∙◌, ◌≤◌, ◌≡◌, refl, true,
  false, none, List, [], ◌∷◌, length, arith, ap,
}
use nur_proxy.RecoveryModel.RequestSource.{RequestSource, user, request_source_eq}
use nur_proxy.RecoveryModel.OperationState.{
  OperationState, detected, planned, snapshotted, applying, validating, succeeded, rolling_back,
}
use nur_proxy.RecoveryModel.Report.{Step, OperationReport}
use nur_proxy.History.Graph.{
  ◌⟶◌, diagnose, plan, suppress, give_up, hold_back, capture, apply, abort_snapshot, check,
  abort_apply, succeed, abort_check, restore, fail,
}
use nur_proxy.History.Reports.{
  initial_state, validate_persisted_operation, recovery_operation_terminal,
}
use nur_proxy.History.Walk.{Walk, end, move, states, HasWalk, history_iff}

-- No edge leaves a terminal state.
pub edge-nonterminal : {s t : OperationState} → s ⟶ t → recovery_operation_terminal s ≡ false
unfolding recovery_operation_terminal
edge-nonterminal diagnose = refl
edge-nonterminal _ = refl

terminal_stays :
    {s u : OperationState} {ts : List OperationState}
    → Walk s ts u
    → recovery_operation_terminal s ≡ true
    → (ts ≡ []) × (s ≡ u)
terminal_stays end h = (refl, refl)
terminal_stays (move m w) h = absurd (cc (edge-nonterminal m))

-- The states on the only way from a state to success.
abbrev way_to_success : OperationState → List OperationState
way_to_success detected = planned ∷ snapshotted ∷ applying ∷ validating ∷ succeeded ∷ []
way_to_success planned = snapshotted ∷ applying ∷ validating ∷ succeeded ∷ []
way_to_success snapshotted = applying ∷ validating ∷ succeeded ∷ []
way_to_success applying = validating ∷ succeeded ∷ []
way_to_success validating = succeeded ∷ []
way_to_success _ = []

rolling_back_fails :
    {u : OperationState} {ts : List OperationState} → Walk rolling_back ts u → ¬ (u ≡ succeeded)
unfolding recovery_operation_terminal
rolling_back_fails end e = cc
rolling_back_fails (move restore w) e = cc ((terminal_stays w refl).1)
rolling_back_fails (move fail w) e = cc ((terminal_stays w refl).1)

success-Walk :
    {s u : OperationState} {ts : List OperationState}
    → Walk s ts u
    → u ≡ succeeded
    → ts ≡ way_to_success s
unfolding recovery_operation_terminal
success-Walk {s} end e = ends s e
  where
    ends : (s : OperationState) → s ≡ succeeded → [] ≡ way_to_success s
    ends succeeded e = refl
    ends _ e = cc
success-Walk (move diagnose w) e = cc ((terminal_stays w refl).1)
success-Walk (move plan w) e = ap (λ ts. planned ∷ ts) (success-Walk w e)
success-Walk (move suppress w) e = cc ((terminal_stays w refl).1)
success-Walk (move give_up w) e = cc ((terminal_stays w refl).1)
success-Walk (move hold_back w) e = cc ((terminal_stays w refl).1)
success-Walk (move capture w) e = ap (λ ts. snapshotted ∷ ts) (success-Walk w e)
success-Walk (move apply w) e = ap (λ ts. applying ∷ ts) (success-Walk w e)
success-Walk (move abort_snapshot w) e = absurd (rolling_back_fails w e)
success-Walk (move check w) e = ap (λ ts. validating ∷ ts) (success-Walk w e)
success-Walk (move abort_apply w) e = absurd (rolling_back_fails w e)
success-Walk (move succeed w) e = ap (λ ts. succeeded ∷ ts) (terminal_stays w refl).0
success-Walk (move abort_check w) e = absurd (rolling_back_fails w e)
success-Walk (move restore w) e = cc ((terminal_stays w refl).1)
success-Walk (move fail w) e = cc ((terminal_stays w refl).1)

persisted-HasWalk : (r : OperationReport) → validate_persisted_operation r ≡ none → HasWalk r
unfolding validate_persisted_operation
persisted-HasWalk r h = (history_iff r).0 (ground arith)

success_from :
    (source : RequestSource)
    → initial_state source ∷ way_to_success (initial_state source)
      ≡ (if source == user then [] else detected ∷ [])
        ++ planned ∷ snapshotted ∷ applying ∷ validating ∷ succeeded ∷ []
success_from source = elim (Bool-cases (source == user)) [
  | inl asked ↦ rw asked refl
  | inr unasked ↦ rw unasked refl
]

-- A report that may be stored as succeeded went through planned, snapshotted, applying and
-- validating, in this order and through nothing else; first through detected, unless a user asked
-- for it.
pub succeeded_steps :
    (r : OperationReport)
    → validate_persisted_operation r ≡ none
    → r.state ≡ succeeded
    → states r.steps
      ≡ (if r.source == user then [] else detected ∷ [])
        ++ planned ∷ snapshotted ∷ applying ∷ validating ∷ succeeded ∷ []
succeeded_steps r h e =
    let (rest, at, walk) = persisted-HasWalk r h in
    at ∙ ap (λ ts. initial_state r.source ∷ ts) (success-Walk walk e) ∙ success_from r.source

-- The most steps that can follow a state.
abbrev most_after : OperationState → ℕ
most_after detected = 6
most_after planned = 5
most_after snapshotted = 4
most_after applying = 3
most_after validating = 2
most_after rolling_back = 1
most_after _ = 0

most_after-lt : {s t : OperationState} → s ⟶ t → most_after t < most_after s
most_after-lt diagnose = omega arith
most_after-lt _ = omega arith

Walk-bounded :
    {s u : OperationState} {ts : List OperationState} → Walk s ts u → length ts ≤ most_after s
Walk-bounded end = omega arith
Walk-bounded (move m w) = omega (arith, most_after-lt m, Walk-bounded w)

length-states : (steps : List Step) → length (states steps) ≡ length steps
length-states [] = refl
length-states (s ∷ steps) = ap suc (length-states steps)

initial_bound : (b : Bool) → most_after (if b then planned else detected) ≤ 6
initial_bound true = omega arith
initial_bound false = omega arith

-- A report that may be stored has at most seven steps.
pub steps_bounded :
    (r : OperationReport) → validate_persisted_operation r ≡ none → length r.steps ≤ 7
steps_bounded r h =
    let (rest, at, walk) = persisted-HasWalk r h in
    omega (
      arith,
      ap length at,
      length-states r.steps,
      Walk-bounded walk,
      initial_bound (r.source == user),
    )
