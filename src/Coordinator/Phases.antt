-- ===== src/Coordinator/Phases.antt =====
-- internal/agent/recovery/coordinator.go: the order in which a repair captures, persists, executes
-- and restores.
use nur_proxy.Coordinator.{restored, executed, persisted, Coordinator, captured, Effect}
use nur_proxy.RecoveryModel.OperationState.{
  rollback_failed, rolled_back, rolling_back, succeeded, validating, applying,
}
use nur_proxy.Base.{◌≡◌, ap, ◌∙◌, ◌++◌, ◌∷◌, [], List}
use mathlib.Core.List.{append_assoc}

pub data Phase : Type 0 where
  idle taken ready ran checked undoing undone closed : Phase

-- The phases from which the captured state may be restored.
pub data Undoable : Phase → Type 0 where
  from_taken : Undoable taken
  from_ran : Undoable ran
  from_checked : Undoable checked

-- The effect that leads from one phase to the next.
pub data Does : Phase → Effect → Phase → Type 0 where
  capturing : Does idle captured taken
  preparing : Does taken (persisted applying) ready
  executing : Does ready executed ran
  checking : Does ran (persisted validating) checked
  succeeding : Does checked (persisted succeeded) closed
  undo : {p : Phase} → Undoable p → Does p (persisted rolling_back) undoing
  restoring : Does undoing restored undone
  restoring_ended : Does undone (persisted rolled_back) closed
  restoring_failed : Does undone (persisted rollback_failed) closed
  undo_failed : {p : Phase} → Undoable p → Does p (persisted rollback_failed) closed

-- The effects lead from the phase `idle` to the phase.
pub data Run : List Effect → Phase → Type 0 where
  begin : Run [] idle
  then :
      {effects : List Effect} {e : Effect} {p q : Phase}
      → Run effects p
      → Does p e q
      → Run (effects ++ e ∷ []) q

-- The coordinator has had these effects since `before`.
pub record Ran (before : List Effect) (c : Coordinator) (p : Phase) : Type 0 where
  pub more : List Effect
  pub effects : c.effects ≡ before ++ more
  pub run : Run more p

pub Ran-on :
    {before : List Effect} {c c' : Coordinator} {p q : Phase} {e : Effect}
    → Ran before c p
    → Does p e q
    → c'.effects ≡ c.effects ++ e ∷ []
    → Ran before c' q
Ran-on {before} {e = e} r d h = record {
  more = r.more ++ e ∷ [];
  effects = h ∙ ap (λ xs. xs ++ e ∷ []) r.effects ∙ append_assoc before r.more (e ∷ []);
  run = then r.run d;
}

pub Ran-still :
    {before : List Effect} {c c' : Coordinator} {p : Phase}
    → Ran before c p
    → c'.effects ≡ c.effects
    → Ran before c' p
Ran-still r h = record { more = r.more; effects = h ∙ r.effects; run = r.run }
