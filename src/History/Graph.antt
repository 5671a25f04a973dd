-- ===== src/History/Graph.antt =====
-- internal/orchestrator/db/recovery.go and internal/agent/recovery/state.go: which state of a repair
-- operation may follow which.
use nur_proxy.Base.{
  ◌↔◌, ℕ, zero, suc, ◌≡◌, refl, Bool, true, false, ◌||◌, Option, none, some, List, [], ◌∷◌, ◌++◌,
  ◌==◌, any, if◌then◌else◌,
}
use nur_proxy.RecoveryModel.OperationState
use nur_proxy.RecoveryModel.OperationState.{
  operation_state_eq, OperationState, detected, diagnosis_only, planned, snapshotted, applying,
  validating, succeeded, rolling_back, rolled_back, rollback_failed, suppressed,
}

unfoldable pub operation_successors : OperationState → List OperationState
operation_successors detected = diagnosis_only ∷ planned ∷ suppressed ∷ []
operation_successors planned = diagnosis_only ∷ suppressed ∷ snapshotted ∷ []
operation_successors snapshotted = applying ∷ rolling_back ∷ []
operation_successors applying = validating ∷ rolling_back ∷ []
operation_successors validating = succeeded ∷ rolling_back ∷ []
operation_successors rolling_back = rolled_back ∷ rollback_failed ∷ []
operation_successors _ = []

abbrev contains : List OperationState → OperationState → Bool
contains xs x = any (λ y. y == x) xs

unfoldable pub legal_operation_transition : OperationState → OperationState → Bool
legal_operation_transition from to = contains (operation_successors from) to

-- The inner loop of `operationStateReachable` over the successors of one state. `none` is the
-- return of true; otherwise the states seen and the queue.
unfoldable pub visit :
    OperationState
    → List OperationState
    → List OperationState
    → List OperationState
    → Option (List OperationState × List OperationState)
visit target [] seen queue = some (seen, queue)
visit target (c ∷ cs) seen queue =
    let fresh = visit target cs (c ∷ seen) (queue ++ c ∷ []) in
    let old = visit target cs seen queue in
    if c == target then none else if contains seen c then old else fresh

-- The outer loop, on fuel; `none` means that the fuel ran out.
unfoldable pub search_from :
    ℕ → OperationState → List OperationState → List OperationState → Option Bool
search_from fuel target seen [] = some false
search_from zero target seen (s ∷ queue) = none
search_from (suc fuel) target seen (s ∷ queue) =
    elim (visit target (operation_successors s) seen queue) [
      | none ↦ some true
      | some (seen', queue') ↦ search_from fuel target seen' queue'
    ]

-- There are eleven constants, so at most twelve states are ever queued.
abbrev pub search_fuel : ℕ
search_fuel = 12

unfoldable pub search_states : OperationState → OperationState → Option Bool
unfolding search_from visit operation_successors
search_states from target =
    if from == target then some true else search_from search_fuel target (from ∷ []) (from ∷ [])

unfoldable pub operation_state_reachable : OperationState → OperationState → Bool
operation_state_reachable from target = elim (search_states from target) [
  | none ↦ false
  | some b ↦ b
]

-- The switch of `ValidTransition`, of the agent's snapshot store.
unfoldable pub valid_next : OperationState → OperationState → Bool
valid_next planned to = to == snapshotted
valid_next snapshotted to = to == applying || to == rolling_back
valid_next applying to = to == validating || to == rolling_back
valid_next validating to = to == succeeded || to == rolling_back
valid_next rolling_back to = to == rolled_back || to == rollback_failed
valid_next _ to = false

unfoldable pub valid_transition : OperationState → OperationState → Bool
valid_transition from to = if from == to then OperationState.valid from else valid_next from to

-- The diagram of the states.
infix 40 ◌⟶◌ ◌⟶*◌
pub data ◌⟶◌ : OperationState → OperationState → Type 0 where
  diagnose : detected ⟶ diagnosis_only
  plan : detected ⟶ planned
  suppress : detected ⟶ suppressed
  give_up : planned ⟶ diagnosis_only
  hold_back : planned ⟶ suppressed
  capture : planned ⟶ snapshotted
  apply : snapshotted ⟶ applying
  abort_snapshot : snapshotted ⟶ rolling_back
  check : applying ⟶ validating
  abort_apply : applying ⟶ rolling_back
  succeed : validating ⟶ succeeded
  abort_check : validating ⟶ rolling_back
  restore : rolling_back ⟶ rolled_back
  fail : rolling_back ⟶ rollback_failed

pub data ◌⟶*◌ : OperationState → OperationState → Type 0 where
  here : {s : OperationState} → s ⟶* s
  step : {s t u : OperationState} → s ⟶ t → t ⟶* u → s ⟶* u

pub ruleset edges = (
  diagnose, plan, suppress, give_up, hold_back, capture, apply, abort_snapshot, check, abort_apply,
  succeed, abort_check, restore, fail,
)

legal_sound : (s t : OperationState) → legal_operation_transition s t ≡ true → s ⟶ t
unfolding legal_operation_transition operation_successors
legal_sound detected diagnosis_only h = diagnose
legal_sound detected planned h = plan
legal_sound detected suppressed h = suppress
legal_sound planned diagnosis_only h = give_up
legal_sound planned suppressed h = hold_back
legal_sound planned snapshotted h = capture
legal_sound snapshotted applying h = apply
legal_sound snapshotted rolling_back h = abort_snapshot
legal_sound applying validating h = check
legal_sound applying rolling_back h = abort_apply
legal_sound validating succeeded h = succeed
legal_sound validating rolling_back h = abort_check
legal_sound rolling_back rolled_back h = restore
legal_sound rolling_back rollback_failed h = fail
legal_sound _ _ h = cc

legal_complete : {s t : OperationState} → s ⟶ t → legal_operation_transition s t ≡ true
unfolding legal_operation_transition operation_successors
legal_complete diagnose = refl
legal_complete _ = refl

-- The table of successors is the diagram.
pub legal_iff : (s t : OperationState) → (legal_operation_transition s t ≡ true) ↔ (s ⟶ t)
legal_iff s t = (legal_sound s t, legal_complete)
