-- ===== src/Coordinator/Told.antt =====
-- internal/agent/recovery/coordinator.go: the reports that a repair hands to the queue, one after
-- the other.
use nur_proxy.History.Advance.{Kept}
use nur_proxy.History.Decide.{Transition-decided}
use nur_proxy.Coordinator.{return_if, on_error, Coordinator}
use nur_proxy.RecoveryModel.OperationState.{OperationState}
use nur_proxy.RecoveryModel.RequestSource.{RequestSource}
use nur_proxy.RecoveryModel.Action.{Action}
use nur_proxy.RecoveryModel.Report.{OperationReport, Step}
use nur_proxy.History.Store.{decide_advance}
use mathlib.Core.Path.{subst, sym}
use mathlib.Core.List.{append_assoc}
use nur_proxy.History.Reports.{is_set, recovery_operation_terminal}
use nur_proxy.History.Outcomes.{edge-nonterminal}
use nur_proxy.History.Graph.{◌⟶◌}
use nur_proxy.Base.{
  inl, inr, true, false, Bool, some, ◌∷◌, ap, ◌∙◌, ◌++◌, ℕ, [], none, List, Option, String, ◌≡◌,
  refl,
}

-- What a report says besides its state and its outcome.
abbrev pub told : OperationReport → String × String × Action × RequestSource × ℕ × List Step
told r = (r.operation_id, r.diagnostic_id, r.action, r.source, r.started_at, r.steps)

abbrev pub told_with :
    Step → OperationReport → String × String × Action × RequestSource × ℕ × List Step
told_with s r =
    (r.operation_id, r.diagnostic_id, r.action, r.source, r.started_at, r.steps ++ s ∷ [])

abbrev pub outcomes : OperationReport → String × String × String
outcomes r = (r.snapshot_reference, r.validation_outcome, r.rollback_outcome)

-- A report has an end exactly if its state is terminal.
abbrev pub EndsRightly : OperationReport → Type 0
EndsRightly r = is_set r.finished_at ≡ recovery_operation_terminal r.state

-- The orchestrator decides to write `next` as the report after `previous` of the same operation, and
-- `next` has an end where it must.
pub record Next (sanitize : String → String) (previous next : OperationReport) : Type 0 where
  pub operation_id : next.operation_id ≡ previous.operation_id
  pub accepted : decide_advance sanitize previous next ≡ none
  pub ends : EndsRightly next

-- Each of the reports is the next one after its predecessor.
pub data Chain (sanitize : String → String)
    : OperationReport → List OperationReport → OperationReport → Type 0 where
  one : (r : OperationReport) → Chain sanitize r [] r
  also :
      {first last next : OperationReport} {rest : List OperationReport}
      → Chain sanitize first rest last
      → Next sanitize last next
      → Chain sanitize first (rest ++ next ∷ []) next

-- No outcome field that was set is changed.
pub record AllKept (r next : OperationReport) : Type 0 where
  pub snapshot_reference : Kept r.snapshot_reference next.snapshot_reference
  pub validation_outcome : Kept r.validation_outcome next.validation_outcome
  pub rollback_outcome : Kept r.rollback_outcome next.rollback_outcome

pub same_kept : (r next : OperationReport) → outcomes next ≡ outcomes r → AllKept r next
same_kept r next e = record {
  snapshot_reference = inr (ap (λ t. t.0) e);
  validation_outcome = inr (ap (λ t. t.1) e);
  rollback_outcome = inr (ap (λ t. t.2) e);
}

-- A report that sets one field which was not set.
pub captured_kept :
    (r next : OperationReport)
    → r.snapshot_reference ≡ ""
    → outcomes next ≡ (next.snapshot_reference, r.validation_outcome, r.rollback_outcome)
    → AllKept r next
captured_kept r next u e = record {
  snapshot_reference = inl u;
  validation_outcome = inr (ap (λ t. t.1) e);
  rollback_outcome = inr (ap (λ t. t.2) e);
}

pub validated_kept :
    (r next : OperationReport)
    → r.validation_outcome ≡ ""
    → outcomes next ≡ (r.snapshot_reference, next.validation_outcome, r.rollback_outcome)
    → AllKept r next
validated_kept r next u e = record {
  snapshot_reference = inr (ap (λ t. t.0) e);
  validation_outcome = inl u;
  rollback_outcome = inr (ap (λ t. t.2) e);
}

pub restored_kept :
    (r next : OperationReport)
    → r.rollback_outcome ≡ ""
    → outcomes next ≡ (r.snapshot_reference, r.validation_outcome, next.rollback_outcome)
    → AllKept r next
restored_kept r next u e = record {
  snapshot_reference = inr (ap (λ t. t.0) e);
  validation_outcome = inr (ap (λ t. t.1) e);
  rollback_outcome = inl u;
}

-- The coordinator has added to `before` the reports of an operation, of which `last` is the last.
pub record Said (sanitize : String → String) (before : List OperationReport) (c : Coordinator)
    (first last : OperationReport) : Type 0 where
  pub rest : List OperationReport
  pub emitted : c.emitted ≡ before ++ first ∷ rest
  pub chain : Chain sanitize first rest last
  pub ends : EndsRightly last

pub told_more :
    (r last : OperationReport) (s : Step) → told r ≡ told last → told_with s r ≡ told_with s last
told_more r last s e = ap (λ t. (t.0, t.1, t.2, t.3, t.4, t.5 ++ s ∷ [])) e

-- A report that is not at its end stays so in a state that is not terminal.
pub still_open :
    (r : OperationReport) {t : OperationState} (s : OperationState)
    → EndsRightly r
    → r.state ⟶ t
    → recovery_operation_terminal s ≡ false
    → is_set r.finished_at ≡ recovery_operation_terminal s
still_open r s ends edge unended = ends ∙ edge-nonterminal edge ∙ sym unended

module _ (sanitize : String → String) where
  pub Next-of :
      {r next : OperationReport} (s : Step)
      → r.state ⟶ next.state
      → told next ≡ told_with s r
      → AllKept r next
      → EndsRightly next
      → Next sanitize r next
  Next-of {r} {next} s edge e kept ends = record {
    ends = ends;
    operation_id = ap (λ t. t.0) e;
    accepted = Transition-decided sanitize r next (record {
      edge = edge;
      diagnostic_id = ap (λ t. t.1) e;
      action = ap (λ t. t.2) e;
      source = ap (λ t. t.3) e;
      started_at = ap (λ t. t.4) e;
      one_step_more = (s, ap (λ t. t.5) e);
      snapshot_reference = kept.snapshot_reference;
      validation_outcome = kept.validation_outcome;
      rollback_outcome = kept.rollback_outcome;
    });
  }

  pub Said-Next :
      {before : List OperationReport} {c c' : Coordinator} {first last next : OperationReport}
      → Said sanitize before c first last
      → Next sanitize last next
      → c'.emitted ≡ c.emitted ++ next ∷ []
      → Said sanitize before c' first next
  Said-Next {before} {first = first} {next = next} s n e = record {
    rest = s.rest ++ next ∷ [];
    emitted =
        e ∙ ap (λ xs. xs ++ next ∷ []) s.emitted ∙ append_assoc before (first ∷ s.rest) (next ∷ []);
    chain = also s.chain n;
    ends = n.ends;
  }

  pub Said-after :
      {before : List OperationReport} {c c' : Coordinator} {first last : OperationReport}
      → Said sanitize before c first last
      → c'.emitted ≡ c.emitted
      → Said sanitize before c' first last
  Said-after s e = record { rest = s.rest; emitted = e ∙ s.emitted; chain = s.chain; ends = s.ends }

-- The coordinator has added the reports of an operation that began with `first`.
abbrev pub Reported :
    (String → String) → List OperationReport → Coordinator → OperationReport → Type 0
Reported sanitize before c first = (last : OperationReport) × Said sanitize before c first last

-- What holds on both branches of an answer holds after it.
pub both_answers {ℓ κ} :
    {A : Type ℓ} (P : A → Type κ) (answer : Option String) (failed : String → A) (rest : A)
    → ((e : String) → P (failed e))
    → P rest
    → P (on_error answer failed rest)
unfolding on_error
both_answers P none failed rest f r = r
both_answers P (some e) failed rest f r = f e

pub edge_from : {a b c : OperationState} → a ≡ b → b ⟶ c → a ⟶ c
edge_from {c = c} p e = subst (λ s. s ⟶ c) (sym p) e

-- What holds on both branches of a test holds after it.
pub both_tests {ℓ κ} :
    {A : Type ℓ} (P : A → Type κ) (test : Bool) (result rest : A)
    → P result
    → P rest
    → P (return_if test result rest)
unfolding return_if
both_tests P true result rest f r = f
both_tests P false result rest f r = r

pub by_answer {ℓ κ} :
    {A : Type ℓ} (P : A → Type κ) (answer : Option String) (failed : String → A) (rest : A)
    → ((e : String) → answer ≡ some e → P (failed e))
    → P rest
    → P (on_error answer failed rest)
unfolding on_error
by_answer P none failed rest f r = r
by_answer P (some e) failed rest f r = f e refl
