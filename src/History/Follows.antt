-- ===== src/History/Follows.antt =====
-- internal/orchestrator/db/recovery.go: how a later row of an operation stands to an earlier one.
use nur_proxy.Base.{
  ◌⊎◌, ℕ, ◌≡◌, refl, sym, ◌∙◌, ap, false, string_eq, List, [], ◌∷◌, ◌++◌, inl, inr,
}
use mathlib.Core.Path.{subst}
use mathlib.Core.List.{append_assoc, append-nil}
use nur_proxy.RecoveryModel.OperationState.{OperationState}
use nur_proxy.RecoveryModel.Report.{Step, OperationReport}
use nur_proxy.History.Graph.{◌⟶*◌, here, step}
use nur_proxy.History.Reports.{recovery_operation_terminal}
use nur_proxy.History.Outcomes.{edge-nonterminal}
use nur_proxy.History.Store.{Row}
use nur_proxy.History.Advance.{Transition}

-- The later row of the same operation: same owner, same identity, a state further along the diagram
-- and a history that extends the earlier one.
pub record Follows (old new : Row) : Type 0 where
  pub agent_id : new.agent_id ≡ old.agent_id
  pub fingerprint : new.fingerprint ≡ old.fingerprint
  pub created_at : new.created_at ≡ old.created_at
  pub diagnostic_id : new.report.diagnostic_id ≡ old.report.diagnostic_id
  pub action : new.report.action ≡ old.report.action
  pub source : new.report.source ≡ old.report.source
  pub started_at : new.report.started_at ≡ old.report.started_at
  pub state : old.report.state ⟶* new.report.state
  pub steps : (more : List Step) × (new.report.steps ≡ old.report.steps ++ more)
  pub change : (new ≡ old) ⊎ (recovery_operation_terminal old.report.state ≡ false)

pub Follows-refl : (row : Row) → Follows row row
Follows-refl row = record {
  agent_id = refl;
  fingerprint = refl;
  created_at = refl;
  diagnostic_id = refl;
  action = refl;
  source = refl;
  started_at = refl;
  state = here;
  steps = ([], sym (append-nil row.report.steps));
  change = inl refl;
}

way_trans : {s t u : OperationState} → s ⟶* t → t ⟶* u → s ⟶* u
way_trans here r = r
way_trans (step e q) r = step e (way_trans q r)

change_trans :
    {a b c : Row}
    → (b ≡ a) ⊎ (recovery_operation_terminal a.report.state ≡ false)
    → (c ≡ b) ⊎ (recovery_operation_terminal b.report.state ≡ false)
    → (c ≡ a) ⊎ (recovery_operation_terminal a.report.state ≡ false)
change_trans (inr moving) g = inr moving
change_trans (inl p) (inl q) = inl (q ∙ p)
change_trans (inl p) (inr moving) =
    inr (subst (λ r. recovery_operation_terminal r.report.state ≡ false) p moving)

pub Follows-trans : {a b c : Row} → Follows a b → Follows b c → Follows a c
Follows-trans {a} {b} {c} f g = record {
  agent_id = g.agent_id ∙ f.agent_id;
  fingerprint = g.fingerprint ∙ f.fingerprint;
  created_at = g.created_at ∙ f.created_at;
  diagnostic_id = g.diagnostic_id ∙ f.diagnostic_id;
  action = g.action ∙ f.action;
  source = g.source ∙ f.source;
  started_at = g.started_at ∙ f.started_at;
  state = way_trans f.state g.state;
  steps = (
    f.steps.0 ++ g.steps.0,
    g.steps.1
        ∙ ap (λ xs. xs ++ g.steps.0) f.steps.1
        ∙ append_assoc a.report.steps f.steps.0 g.steps.0,
  );
  change = change_trans f.change g.change;
}

pub Transition-Follows :
    (row : Row) (report : OperationReport) (stamp : ℕ)
    → Transition row.report report
    → Follows row (record row { report = report; received_at = stamp })
Transition-Follows row report stamp t = record {
  agent_id = refl;
  fingerprint = refl;
  created_at = refl;
  diagnostic_id = t.diagnostic_id;
  action = t.action;
  source = t.source;
  started_at = t.started_at;
  state = step t.edge here;
  steps = (t.one_step_more.0 ∷ [], t.one_step_more.1);
  change = inr (edge-nonterminal t.edge);
}
