-- ===== src/History/Restart.antt =====
-- internal/agent/recovery/state.go: what the agent does with an operation that it finds at a restart.
use nur_proxy.Base.{◌≡◌, ◌≢◌, ◌↔◌, ◌⊎◌, inl, inr, refl, true, false, ◌==◌, string_eq}
use nur_proxy.RecoveryModel.OperationState.{
  OperationState, operation_state_eq, planned, snapshotted, applying, validating, rolling_back,
  succeeded, rolled_back, rollback_failed,
}
use nur_proxy.History.Graph.{
  legal_iff, ◌⟶◌, ◌⟶*◌, here, step, diagnose, plan, suppress, give_up, hold_back, capture, apply,
  abort_snapshot, check, abort_apply, succeed, abort_check, restore, fail, valid_next,
  valid_transition, legal_operation_transition,
}
use nur_proxy.History.Reports.{recovery_operation_terminal}
use nur_proxy.History.Outcomes.{edge-nonterminal}

pub data RestartDisposition : Type 0 where
  restart_none restart_begin_rollback restart_resume_validation restart_resume_rollback :
      RestartDisposition

-- `RestartDispositionFor`
unfoldable pub restart_disposition_for : OperationState → RestartDisposition
restart_disposition_for applying = restart_begin_rollback
restart_disposition_for validating = restart_resume_validation
restart_disposition_for rolling_back = restart_resume_rollback
restart_disposition_for _ = restart_none

-- The state is one that a restart acts on, or one that has ended.
abbrev Settled : OperationState → Type 0
Settled s = (restart_disposition_for s ≢ restart_none) ⊎ (recovery_operation_terminal s ≡ true)

edge-Settled : {s t : OperationState} → s ⟶ t → Settled s → Settled t
unfolding restart_disposition_for recovery_operation_terminal
edge-Settled diagnose (inl acts) = absurd (acts refl)
edge-Settled plan (inl acts) = absurd (acts refl)
edge-Settled suppress (inl acts) = absurd (acts refl)
edge-Settled give_up (inl acts) = absurd (acts refl)
edge-Settled hold_back (inl acts) = absurd (acts refl)
edge-Settled capture (inl acts) = absurd (acts refl)
edge-Settled apply (inl acts) = absurd (acts refl)
edge-Settled abort_snapshot (inl acts) = absurd (acts refl)
edge-Settled check _ = inl (λ e. cc)
edge-Settled abort_apply _ = inl (λ e. cc)
edge-Settled succeed _ = inr refl
edge-Settled abort_check _ = inl (λ e. cc)
edge-Settled restore _ = inr refl
edge-Settled fail _ = inr refl
edge-Settled e (inr ended) = absurd (cc (edge-nonterminal e))

way-Settled : {s t : OperationState} → s ⟶* t → Settled s → Settled t
way-Settled here h = h
way-Settled (step e way) h = way-Settled way (edge-Settled e h)

acting_way :
    (s : OperationState)
    → restart_disposition_for s ≢ restart_none
    → (applying ⟶* s) × (recovery_operation_terminal s ≡ false)
unfolding restart_disposition_for recovery_operation_terminal
acting_way applying h = (here, refl)
acting_way validating h = (step check here, refl)
acting_way rolling_back h = (step abort_apply here, refl)
acting_way _ h = absurd (h refl)

-- At a restart the agent acts on an operation exactly if its state lies on a way from `applying`,
-- so that something may have been changed, and is not an end.
pub restart_iff :
    (s : OperationState)
    → (restart_disposition_for s ≢ restart_none)
      ↔ ((applying ⟶* s) × (recovery_operation_terminal s ≡ false))
unfolding restart_disposition_for
restart_iff s = (acting_way s, λ (way, going). acts going (way-Settled way (inl (λ e. cc))))
  where
    acts :
        recovery_operation_terminal s ≡ false → Settled s → restart_disposition_for s ≢ restart_none
    acts going (inl a) = a
    acts going (inr ended) = absurd (cc)

next_edge : (s t : OperationState) → valid_next s t ≡ true → s ⟶ t
unfolding valid_next
next_edge planned snapshotted h = capture
next_edge snapshotted applying h = apply
next_edge snapshotted rolling_back h = abort_snapshot
next_edge applying validating h = check
next_edge applying rolling_back h = abort_apply
next_edge validating succeeded h = succeed
next_edge validating rolling_back h = abort_check
next_edge rolling_back rolled_back h = restore
next_edge rolling_back rollback_failed h = fail
next_edge _ _ h = cc

-- The agent makes no move that the orchestrator refuses: a transition that the agent takes to
-- another state is one of the orchestrator's legal transitions.
pub agent_moves_legal :
    (s t : OperationState)
    → valid_transition s t ≡ true
    → (s == t) ≡ false
    → legal_operation_transition s t ≡ true
unfolding valid_transition
agent_moves_legal s t h n = (legal_iff s t).1 (next_edge s t (rw n at h))
