-- ===== src/History/Reachable.antt =====
-- internal/orchestrator/db/recovery.go: the search of `operationStateReachable` decides the diagram.
use mathlib.Core.Path.{subst}
use nur_proxy.Base.{◌≡◌, ◌↔◌, ◌≢◌, inl, inr, refl, true, false, ◌==◌, none, arith, Bool-cases}
use nur_proxy.RecoveryModel.OperationState.{
  OperationState, detected, diagnosis_only, planned, snapshotted, applying, validating, succeeded,
  rolling_back, rolled_back, rollback_failed, suppressed, operation_state_eq,
}
use nur_proxy.History.Graph.{
  ◌⟶◌, ◌⟶*◌, here, step, diagnose, plan, suppress, give_up, hold_back, capture, apply,
  abort_snapshot, check, abort_apply, succeed, abort_check, restore, fail, search_states,
  operation_state_reachable,
}

reachable_self : (s : OperationState) → operation_state_reachable s s ≡ true
unfolding operation_state_reachable search_states
reachable_self s =
    rw ((operation_state_eq.beq_iff s s).1 refl, operation_state_reachable, search_states)

-- One edge at the end keeps what is reached: checked for each edge and each first state.
reachable_edge :
    {t u : OperationState}
    → t ⟶ u
    → (s : OperationState) → operation_state_reachable s t ≡ true
    → operation_state_reachable s u ≡ true
unfolding operation_state_reachable search_states
reachable_edge diagnose detected h = ground arith
reachable_edge plan detected h = ground arith
reachable_edge suppress detected h = ground arith
reachable_edge give_up detected h = ground arith
reachable_edge hold_back detected h = ground arith
reachable_edge capture detected h = ground arith
reachable_edge apply detected h = ground arith
reachable_edge abort_snapshot detected h = ground arith
reachable_edge check detected h = ground arith
reachable_edge abort_apply detected h = ground arith
reachable_edge succeed detected h = ground arith
reachable_edge abort_check detected h = ground arith
reachable_edge restore detected h = ground arith
reachable_edge fail detected h = ground arith
reachable_edge _ _ h = ground arith

reachable_complete :
    (s : OperationState) {t u : OperationState}
    → t ⟶* u
    → operation_state_reachable s t ≡ true
    → operation_state_reachable s u ≡ true
reachable_complete s here h = h
reachable_complete s (step e r) h = reachable_complete s r (reachable_edge e s h)

reachable_path :
    (s t : OperationState) → operation_state_reachable s t ≡ true → (s == t) ≡ false → s ⟶* t
unfolding operation_state_reachable search_states
reachable_path detected diagnosis_only h d = step diagnose here
reachable_path detected planned h d = step plan here
reachable_path detected suppressed h d = step suppress here
reachable_path detected snapshotted h d = step plan (step capture here)
reachable_path detected applying h d = step plan (step capture (step apply here))
reachable_path detected rolling_back h d = step plan (step capture (step abort_snapshot here))
reachable_path detected validating h d = step plan (step capture (step apply (step check here)))
reachable_path detected rolled_back h d =
    step plan (step capture (step abort_snapshot (step restore here)))
reachable_path detected rollback_failed h d =
    step plan (step capture (step abort_snapshot (step fail here)))
reachable_path detected succeeded h d =
    step plan (step capture (step apply (step check (step succeed here))))
reachable_path planned diagnosis_only h d = step give_up here
reachable_path planned suppressed h d = step hold_back here
reachable_path planned snapshotted h d = step capture here
reachable_path planned applying h d = step capture (step apply here)
reachable_path planned rolling_back h d = step capture (step abort_snapshot here)
reachable_path planned validating h d = step capture (step apply (step check here))
reachable_path planned rolled_back h d = step capture (step abort_snapshot (step restore here))
reachable_path planned rollback_failed h d = step capture (step abort_snapshot (step fail here))
reachable_path planned succeeded h d = step capture (step apply (step check (step succeed here)))
reachable_path snapshotted applying h d = step apply here
reachable_path snapshotted rolling_back h d = step abort_snapshot here
reachable_path snapshotted validating h d = step apply (step check here)
reachable_path snapshotted rolled_back h d = step abort_snapshot (step restore here)
reachable_path snapshotted rollback_failed h d = step abort_snapshot (step fail here)
reachable_path snapshotted succeeded h d = step apply (step check (step succeed here))
reachable_path applying validating h d = step check here
reachable_path applying rolling_back h d = step abort_apply here
reachable_path applying succeeded h d = step check (step succeed here)
reachable_path applying rolled_back h d = step abort_apply (step restore here)
reachable_path applying rollback_failed h d = step abort_apply (step fail here)
reachable_path rolling_back rolled_back h d = step restore here
reachable_path rolling_back rollback_failed h d = step fail here
reachable_path validating succeeded h d = step succeed here
reachable_path validating rolling_back h d = step abort_check here
reachable_path validating rolled_back h d = step abort_check (step restore here)
reachable_path validating rollback_failed h d = step abort_check (step fail here)
reachable_path _ _ h d = absurd (ground arith)

reachable_sound : (s t : OperationState) → operation_state_reachable s t ≡ true → s ⟶* t
reachable_sound s t h = elim (Bool-cases (s == t)) [
  | inl same ↦ subst (λ u. s ⟶* u) ((operation_state_eq.beq_iff s t).0 same) here
  | inr differ ↦ reachable_path s t h differ
]

-- `operationStateReachable` decides whether the diagram has a way from one state to the other.
pub reachable_iff : (s t : OperationState) → (operation_state_reachable s t ≡ true) ↔ (s ⟶* t)
reachable_iff s t = (reachable_sound s t, λ r. reachable_complete s r (reachable_self s))

-- The fuel is enough: the search always ends by finding the target or by an empty queue.
pub search_states-total : (s t : OperationState) → search_states s t ≢ none
unfolding search_states
search_states-total detected detected h = cc
search_states-total diagnosis_only detected h = cc
search_states-total planned detected h = cc
search_states-total snapshotted detected h = cc
search_states-total applying detected h = cc
search_states-total validating detected h = cc
search_states-total succeeded detected h = cc
search_states-total rolling_back detected h = cc
search_states-total rolled_back detected h = cc
search_states-total rollback_failed detected h = cc
search_states-total suppressed detected h = cc
search_states-total _ _ h = ground arith
