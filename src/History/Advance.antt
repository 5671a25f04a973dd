-- ===== src/History/Advance.antt =====
-- internal/orchestrator/db/recovery.go: what a call of `AdvanceRepairOperation` does to the table.
use nur_proxy.Dict.{Dict, lookup}
use nur_proxy.History.Cases.{rejected, replayed, written, Advance, written_store, Advance-Advance}
use nur_proxy.Base.{
  ap, ◌≤◌, sym, ◌⊎◌, Bool-cases, inl, inr, Option-cases, ◌∙◌, ◌==◌, ◌<◌, Option, some, ℕ, ◌+◌, ◌≡◌,
  refl, true, String, string_eq, none, List, [], ◌∷◌, ◌++◌, length, arith, eq_iff,
}
use nur_proxy.RecoveryModel.Action.{action_eq}
use nur_proxy.RecoveryModel.RequestSource.{request_source_eq}
use nur_proxy.RecoveryModel.OperationState.{operation_state_eq}
use nur_proxy.RecoveryModel.Report.{Step, OperationReport}
use nur_proxy.History.Graph.{◌⟶◌, legal_iff, legal_operation_transition}
use nur_proxy.History.Reports.{unset_or_same, step_beq, steps_agree, validate_append_only_steps}
use nur_proxy.History.Store.{
  advance_repair_operation, latest, StoreError, in_unix_range, Row, next_stamp, Store, select_row,
  same_identity, fields_kept, decide_advance,
}

pub step_eq : (a b : Step) → step_beq a b ≡ true → a ≡ b
unfolding step_beq
step_eq a b h = ground (
  arith,
  eq_iff a.name b.name,
  eq_iff a.summary b.summary,
  operation_state_eq.beq_iff a.state b.state,
)

cons_eq :
    (a b s : Step) (previous next : List Step)
    → a ≡ b
    → next ≡ previous ++ s ∷ []
    → b ∷ next ≡ a ∷ previous ++ s ∷ []
cons_eq a b s previous next p q = cc

-- A history that agrees with one that is a step longer is that one without its last step.
agree_append :
    (previous next : List Step)
    → steps_agree previous next ≡ true
    → length next ≡ length previous + 1
    → (s : Step) × (next ≡ previous ++ s ∷ [])
unfolding steps_agree
agree_append [] [] h n = absurd (omega (arith, n))
agree_append [] (s ∷ []) h n = (s, refl)
agree_append [] (s ∷ t ∷ next) h n = absurd (omega (arith, n))
agree_append (a ∷ previous) [] h n = absurd (cc)
agree_append (a ∷ previous) (b ∷ next) h n =
    let (s, e) = agree_append previous next (ground arith) (omega (arith, n)) in
    (s, cons_eq a b s previous next (step_eq a b (ground arith)) e)

append_only_step :
    (previous next : List Step)
    → validate_append_only_steps previous next ≡ none
    → (s : Step) × (next ≡ previous ++ s ∷ [])
unfolding validate_append_only_steps
append_only_step previous next h = agree_append previous next (ground arith) (ground arith)

-- A field that was set is not changed.
abbrev pub Kept : String → String → Type 0
Kept before after = (before ≡ "") ⊎ (after ≡ before)

Kept-of : (before after : String) → unset_or_same before after ≡ true → Kept before after
Kept-of before after h = elim (Bool-cases (before == "")) [
  | inl unset ↦ inl (ground (arith, eq_iff before ""))
  | inr set ↦ inr (ground (arith, eq_iff before after))
]

-- A transition as it may be written.
pub record Transition (stored report : OperationReport) : Type 0 where
  pub edge : stored.state ⟶ report.state
  pub diagnostic_id : report.diagnostic_id ≡ stored.diagnostic_id
  pub action : report.action ≡ stored.action
  pub source : report.source ≡ stored.source
  pub started_at : report.started_at ≡ stored.started_at
  pub one_step_more : (s : Step) × (report.steps ≡ stored.steps ++ s ∷ [])
  pub snapshot_reference : Kept stored.snapshot_reference report.snapshot_reference
  pub validation_outcome : Kept stored.validation_outcome report.validation_outcome
  pub rollback_outcome : Kept stored.rollback_outcome report.rollback_outcome

module _ (sanitize : String → String) where
  decided_legal :
      (stored report : OperationReport)
      → decide_advance sanitize stored report ≡ none
      → legal_operation_transition stored.state report.state ≡ true
  unfolding decide_advance
  decided_legal stored report d = ground arith

  decided_same :
      (stored report : OperationReport)
      → decide_advance sanitize stored report ≡ none
      → same_identity stored report ≡ true
  unfolding decide_advance
  decided_same stored report d = ground arith

  decided_appends :
      (stored report : OperationReport)
      → decide_advance sanitize stored report ≡ none
      → validate_append_only_steps stored.steps report.steps ≡ none
  unfolding decide_advance
  decided_appends stored report d = ground arith

  decided_kept :
      (stored report : OperationReport)
      → decide_advance sanitize stored report ≡ none
      → fields_kept stored report ≡ true
  unfolding decide_advance
  decided_kept stored report d = ground arith

  pub decided-Transition :
      (stored report : OperationReport)
      → decide_advance sanitize stored report ≡ none
      → Transition stored report
  unfolding same_identity fields_kept
  decided-Transition stored report d =
      let same = decided_same stored report d in
      let kept = decided_kept stored report d in
      record {
        edge = (legal_iff stored.state report.state).0 (decided_legal stored report d);
        diagnostic_id = ground (arith, same, eq_iff stored.diagnostic_id report.diagnostic_id);
        action = ground (arith, same, action_eq.beq_iff stored.action report.action);
        source = ground (arith, same, request_source_eq.beq_iff stored.source report.source);
        started_at = ground (arith, same);
        one_step_more =
            append_only_step stored.steps report.steps (decided_appends stored report d);
        snapshot_reference =
            Kept-of stored.snapshot_reference report.snapshot_reference (ground (arith, kept));
        validation_outcome =
            Kept-of stored.validation_outcome report.validation_outcome (ground (arith, kept));
        rollback_outcome =
            Kept-of stored.rollback_outcome report.rollback_outcome (ground (arith, kept));
      }

-- `row` is the row of `agent` for the operation `id`.
abbrev pub IsRow : Store → String → String → Row → Type 0
IsRow st agent id row = (lookup id st.operations ≡ some row) × (row.agent_id ≡ agent)

selected-IsRow :
    (sanitize : String → String) (st : Store) (agent id : String) (row : Row)
    → select_row sanitize st agent id ≡ some row
    → IsRow st agent id row
unfolding select_row
selected-IsRow sanitize st agent id row h = elim (Option-cases (lookup id st.operations)) [
  | inl missing ↦ absurd (ground arith)
  | inr (found, at) ↦ elim (Bool-cases (found.agent_id == agent)) [
    | inl own ↦ row_of found at own (some_row found at own)
    | inr foreign ↦ absurd (ground arith)
  ]
]
  where
    some_row :
        (found : Row)
        → lookup id st.operations ≡ some found
        → (found.agent_id == agent) ≡ true
        → some found ≡ some row
    some_row found at own = ground arith

    row_of :
        (found : Row)
        → lookup id st.operations ≡ some found
        → (found.agent_id == agent) ≡ true
        → some found ≡ some row
        → IsRow st agent id row
    row_of found at own same = (at ∙ same, ground (arith, eq_iff found.agent_id agent))

next_stamp-later : (now newest stamp : ℕ) → next_stamp now newest ≡ some stamp → newest < stamp
unfolding next_stamp in_unix_range
next_stamp-later now newest stamp h = ground arith

latest-bounds :
    (column : Row → ℕ) (agent : String) (rows : Dict String Row) (id : String) (row : Row)
    → lookup id rows ≡ some row
    → row.agent_id ≡ agent
    → column row ≤ latest column agent rows
unfolding latest lookup
latest-bounds column agent [] id row at own = absurd (cc)
latest-bounds column agent ((k, first) ∷ rows) id row at own = elim (Bool-cases (k == id)) [
  | inl here ↦
      let q : first ≡ row = ground arith in
      ground (arith, ap column q, ap (λ r. r.agent_id) q, eq_iff first.agent_id agent)
  | inr below ↦
      let rest = latest-bounds column agent rows id row (ground arith) own in ground (arith, rest)
]

-- What a successful call did: nothing, or one transition of the operation's row.
pub data Effect (st : Store) (agent : String) (report : OperationReport) : Store → Type 0 where
  nothing : Effect st agent report st
  moved :
      (row : Row) (stamp : ℕ)
      → IsRow st agent report.operation_id row
      → Transition row.report report
      → ((id : String) (other : Row)
          → lookup id st.operations ≡ some other
          → other.agent_id ≡ agent
          → other.received_at < stamp)
      → Effect st agent report (written_store st row report stamp)

module _ (sanitize : String → String) (st : Store) (now : ℕ) (agent : String)
    (report : OperationReport) where
  Effect-of :
      {p : Store × Option StoreError}
      → Advance sanitize st now agent report p
      → p.1 ≡ none
      → Effect st agent report p.0
  Effect-of (rejected e) h = absurd cc
  Effect-of (replayed row sel d) h = nothing
  Effect-of (written row stamp sel d next) h =
      let at = selected-IsRow sanitize st agent report.operation_id row sel.selected in
      moved row stamp at (decided-Transition sanitize row.report report d) (λ id other found own.
        omega (
          arith,
          latest-bounds (λ r. r.received_at) row.agent_id st.operations id other found
              (own ∙ sym at.1),
          next_stamp-later now _ stamp next,
        ))

  -- A call of `AdvanceRepairOperation` that reports success either left the table as it was, or
  -- wrote one transition of the agent's own row: along an edge of the diagram, with one step added
  -- to the same history, the identity of the operation and every outcome field already set
  -- unchanged, and a receipt after all receipts of the agent.
  pub advance-Effect :
      (advance_repair_operation sanitize st now agent report).1 ≡ none
      → Effect st agent report (advance_repair_operation sanitize st now agent report).0
  advance-Effect h = Effect-of (Advance-Advance sanitize st now agent report) h

  error_of :
      {p : Store × Option StoreError} {e : StoreError}
      → Advance sanitize st now agent report p
      → p.1 ≡ some e
      → p.0 ≡ st
  error_of (rejected e) h = refl
  error_of (replayed row sel d) h = absurd cc
  error_of (written row stamp sel d next) h = absurd cc

  pub advance_error_unchanged :
      {e : StoreError}
      → (advance_repair_operation sanitize st now agent report).1 ≡ some e
      → (advance_repair_operation sanitize st now agent report).0 ≡ st
  advance_error_unchanged h = error_of (Advance-Advance sanitize st now agent report) h
