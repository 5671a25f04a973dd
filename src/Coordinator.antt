-- ===== src/Coordinator.antt =====
-- internal/agent/recovery/coordinator.go: one repair, from the report that opens it to its outcome.
-- What the snapshot store, the path guard and the proxy backend answer in the course of a repair is
-- the record `Answers`: for each call the text of its error, or `none` for success. The clock is a
-- function of the number of readings. The lock makes each call one step. The reports handed to the
-- queue are kept in `emitted`, and the calls that matter for safety in `effects`, in their order; the
-- queue may refuse the first report (`admits`), and the code does not ask about the others. The
-- fields that only name the agent or feed the backend are left out, as is `Prune` of the store, whose
-- answer the code ignores.
pub mod Repair
pub mod Told
pub mod Emissions
pub mod Chains
pub mod Accepted
pub mod Phases
pub mod Guarded
pub mod Resume
pub mod Resumption
pub mod Kept
pub mod Inspect
pub mod Found
mod Tests
use nur_proxy.Base.{
  ℕ, ◌+◌, Bool, true, false, String, string_eq, Option, none, some, List, [], ◌∷◌, ◌++◌, ◌==◌, ltb,
  if◌then◌else◌,
}
use nur_proxy.Dict.{Dict, insert}
use nur_proxy.RecoveryModel.Action.{Action, action_eq}
use nur_proxy.RecoveryModel.Ownership.{ownership_eq}
use nur_proxy.RecoveryModel.RequestSource.{RequestSource, automatic, request_source_eq}
use nur_proxy.RecoveryModel.OperationState
use nur_proxy.RecoveryModel.OperationState.{
  OperationState, detected, planned, rolling_back, rolled_back, rollback_failed,
}
use nur_proxy.RecoveryModel.Report.{OperationReport}
use nur_proxy.RecoveryModel.Diagnostic.{Diagnostic, DiagnosticError}
use nur_proxy.RecoveryModel.Requests.{RepairRequest, RequestError}
use nur_proxy.Breaker.{BreakerKey, Breaker, record_outcome}

-- `proxy.RecoveryCandidate`, without the identities of its paths, which only the backend reads.
pub record RecoveryCandidate : Type 0 where
  pub action : Action
  pub host : String
  pub paths : List String

pub data Effect : Type 0 where
  captured executed restored : Effect
  persisted : OperationState → Effect

pub record Coordinator : Type 0 where
  pub policy : Bool
  pub policy_known : Bool
  pub diagnostics : Dict String Diagnostic
  pub candidates : Dict String RecoveryCandidate
  pub operations : Dict String OperationReport
  pub sequence : ℕ
  pub last_now : ℕ
  pub readings : ℕ
  pub breaker : Breaker
  pub emitted : List OperationReport
  pub effects : List Effect

pub record Answers : Type 0 where
  pub admits : Bool
  pub resolves : Option String
  pub captures : Option String
  pub persists_applying : Option String
  pub executes : Option String
  pub persists_validating : Option String
  pub validates : Option String
  pub activates : Option String
  pub persists_success : Option String
  pub persists_rolling : Option String
  pub restores : Option String
  pub revalidates : Option String
  pub reactivates : Option String
  pub persists_outcome : Option String
  pub breaker_written : Bool

pub data RepairError : Type 0 where
  invalid_diagnostic : DiagnosticError → RepairError
  invalid_request : RequestError → RepairError
  no_candidate queue_full reused inactive other_action : RepairError
  unresolved not_captured not_persisted : String → RepairError
  rolled_back_after rollback_failed_after rollback_not_persisted : String → RepairError

-- A coordinator at work on a report, and what a repair returns; `none` is the empty report.
abbrev pub Work : Type 0
Work = Coordinator × OperationReport

abbrev pub Result : Type 0
Result = Coordinator × Option OperationReport × Option RepairError

-- `if test { return ... }`, then the rest.
unfoldable pub return_if {ℓ} : {A : Type ℓ} → Bool → A → A → A
return_if true result rest = result
return_if false result rest = rest

-- `if err != nil { return ... }`, then the rest.
unfoldable pub on_error {ℓ} : {A : Type ℓ} → Option String → (String → A) → A → A
on_error (some e) failed rest = failed e
on_error none failed rest = rest

-- The first error of two calls, of which the second is made if the first succeeds.
abbrev pub or_else : Option String → Option String → Option String
or_else (some e) rest = some e
or_else none rest = rest

module _ (sanitize : String → String) (auto_id : ℕ → ℕ → String) (clock : ℕ → ℕ)
    (ans : Answers) where
  -- `now`
  unfoldable pub now : Coordinator → ℕ × Coordinator
  now c =
      let at = if ltb (clock c.readings) c.last_now then c.last_now else clock c.readings in
      (at, record c { readings = c.readings + 1; last_now = at })

  -- `addStep`
  unfoldable pub add_step : OperationState → String → Work → Work
  add_step state summary (c, r) =
      let (at, c') = now c in
      (
        c',
        record r {
          steps =
              r.steps
              ++ record {
                name = OperationState.name state;
                summary = sanitize summary;
                state = state;
                at = at;
              }
                ∷ [];
        },
      )

  -- `emitOperation`
  unfoldable pub emit : Work → Work
  emit (c, r) = (record c { emitted = c.emitted ++ r ∷ [] }, r)

  unfoldable pub effect : Effect → Coordinator → Coordinator
  effect e c = record c { effects = c.effects ++ e ∷ [] }

  -- `finish`
  unfoldable pub finish : OperationState → String → Work → Work
  finish state message (c, r) =
      let (c', r') = add_step state message (c, record r { state = state }) in
      let (at, c'') = now c' in
      let done = record r' { finished_at = some at; error = sanitize message } in
      emit (record c'' { operations = insert r.operation_id done c''.operations }, done)

  -- The report that opens the operation, and its first step.
  unfoldable pub start : Diagnostic → RepairRequest → RequestSource → Coordinator → Work
  start d request source c =
      let (at, c') = now c in
      let unnamed = request.operation_id == "" in
      let c'' = record c' { sequence = if unnamed then c'.sequence + 1 else c'.sequence } in
      let r : OperationReport = record {
        operation_id = if unnamed then auto_id at c''.sequence else request.operation_id;
        diagnostic_id = d.id;
        action = d.proposed_action;
        source = source;
        state = detected;
        steps = [];
        snapshot_reference = "";
        validation_outcome = "";
        rollback_outcome = "";
        error = "";
        started_at = at;
        finished_at = none;
      } in
      if source == automatic then add_step detected "recovery condition detected" (c'', r) else (
        record c'' {
          last_now =
              if ltb c''.last_now request.started_at then request.started_at else c''.last_now;
        },
        record r {
          started_at = request.started_at;
          state = planned;
          steps = request.initial_step ∷ [];
        },
      )

  abbrev pub outcome_of : Option String → OperationState
  outcome_of none = rolled_back
  outcome_of (some e) = rollback_failed

  abbrev pub note_of : Option String → String
  note_of none = "restored and valid"
  note_of (some e) = sanitize e

  abbrev pub error_of : String → Option String → RepairError
  error_of cause none = rolled_back_after cause
  error_of cause (some e) = rollback_failed_after e

  -- The end of `rollbackLocked`: the outcome is persisted, recorded and reported.
  unfoldable pub conclude : BreakerKey → String → Option String → Work → Result
  conclude key cause failure (c, r) =
      let outcome = outcome_of failure in
      let (c', r') = add_step outcome (note_of failure) (
        c,
        record r { state = outcome; rollback_outcome = note_of failure; error = sanitize cause },
      ) in
      let (at, c'') = now c' in
      let done = record r' { finished_at = some at } in
      let kept = record (effect (persisted outcome) c'') {
        operations = insert r.operation_id done c''.operations;
      } in
      let recorded = record kept {
        breaker = (record_outcome sanitize ans.breaker_written key outcome at false kept.breaker).0;
      } in
      on_error ans.persists_outcome
        (λ (e : String). (c'', some done, some (rollback_not_persisted e)))
        (((emit (recorded, done)).0, some done, some (error_of cause failure)))

  -- What `rollbackLocked` does to restore the captured state, and its first error.
  unfoldable pub restore_state : Coordinator → Coordinator × Option String
  restore_state c =
      on_error ans.persists_rolling (λ (e : String). (c, some e))
        (
          effect restored (effect (persisted rolling_back) c),
          or_else ans.restores (or_else ans.revalidates ans.reactivates),
        )

  -- `rollbackLocked`
  unfoldable pub rollback : BreakerKey → String → Work → Result
  rollback key cause (c, r) =
      let (c', rolling) =
        add_step rolling_back "restoring captured state" (c, record r { state = rolling_back }) in
      let (at, c'') = now c' in
      let (restoring, failure) = restore_state c'' in
      conclude key cause failure (emit (restoring, rolling))
