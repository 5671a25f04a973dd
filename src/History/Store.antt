-- ===== src/History/Store.antt =====
-- internal/orchestrator/db/recovery.go: the table of repair operations, its creation and its
-- transitions. A time is a number of nanoseconds since Go's zero time. `received_at` and `created_at`
-- are Unix nanoseconds; they start at 0 or more and only grow. A transaction is one step, the clock
-- is the argument `now`, and failures of the database itself are not modelled.
use nur_proxy.Base.{
  ℕ, suc, ◌+◌, ◌-◌, Bool, true, false, not, ◌&&◌, String, string_eq, Option, none, some, List, [],
  ◌∷◌, ◌==◌, pair_eq, leb, nat_beq, if◌then◌else◌,
}
use nur_proxy.Dict.{Dict, lookup, insert}
use nur_proxy.RecoveryModel.Action.{Action, action_eq}
use nur_proxy.RecoveryModel.RequestSource.{RequestSource, request_source_eq}
use nur_proxy.RecoveryModel.OperationState.{OperationState, operation_state_eq}
use nur_proxy.RecoveryModel.Report.{OperationReport, ReportError, validate}
use nur_proxy.History.Graph.{legal_operation_transition, operation_state_reachable}
use nur_proxy.History.Reports.{
  LifecycleError, operation_reports_equal, historical_replay_compatible,
  recovery_operation_terminal, validate_append_only_steps, validate_persisted_operation,
  unset_or_same,
}

pub record Row : Type 0 where
  pub agent_id : String
  pub fingerprint : String
  pub report : OperationReport
  pub created_at : ℕ
  pub received_at : ℕ

-- The columns of a diagnostic that the operations are checked against.
pub record Diagnosed : Type 0 where
  pub resource_fingerprint : String
  pub proposed_action : Action

abbrev pub Outcome : Type 0
Outcome = Action × (OperationState × RequestSource)

-- `operations` is keyed by the operation's ID, which is the primary key; `totals` is the table
-- `recovery_operation_totals`.
pub record Store : Type 0 where
  pub operations : Dict String Row
  pub agents : List String
  pub diagnostics : Dict (String × String) Diagnosed
  pub totals : Dict Outcome ℕ

pub data StoreError : Type 0 where
  blank_identity : StoreError
  invalid_report : ReportError → StoreError
  lifecycle : LifecycleError → StoreError
  not_detected not_planned not_one_initial_step out_of_range : StoreError
  other_agent conflicting_create no_agent no_diagnostic : StoreError
  fingerprint_mismatch action_mismatch active_operation : StoreError
  chronology_exhausted corrupt_row not_found conflicting_duplicate identity_changed : StoreError
  conflicting_replay illegal_transition immutable_field : StoreError

-- The Unix epoch, and the range of times whose Unix nanoseconds an int64 holds.
abbrev pub unix_epoch : ℕ
unix_epoch = 62135596800000000000

abbrev pub max_int64 : ℕ
max_int64 = 9223372036854775807

unfoldable pub in_unix_range : ℕ → Bool
in_unix_range t = leb (unix_epoch - (max_int64 + 1)) t && leb t (unix_epoch + max_int64)

abbrev pub finish_in_range : Option ℕ → Bool
finish_in_range none = true
finish_in_range (some t) = in_unix_range t

-- `SELECT COALESCE(MAX(column), 0) FROM recovery_operations WHERE agent_id = ?`
unfoldable pub latest : (Row → ℕ) → String → Dict String Row → ℕ
latest column agent [] = 0
latest column agent ((k, row) ∷ rows) =
    let rest = latest column agent rows in
    if row.agent_id == agent && leb rest (column row) then column row else rest

-- `nextRecoveryReceivedAt` and `nextRecoveryCreatedAt`: a stamp after all stamps of the agent. A
-- clock before 1970 gives a number below 0, which is then replaced, as 0 is here.
unfoldable pub next_stamp : ℕ → ℕ → Option ℕ
next_stamp now newest =
    if not (in_unix_range now)
    then none
    else if leb (now - unix_epoch) newest
    then if nat_beq newest max_int64 then none else some (newest + 1)
    else some (now - unix_epoch)

-- `field.previous == "" || field.next == field.previous`, for each of the three fields.
unfoldable pub fields_kept : OperationReport → OperationReport → Bool
fields_kept stored report =
    unset_or_same stored.snapshot_reference report.snapshot_reference
    && unset_or_same stored.validation_outcome report.validation_outcome
    && unset_or_same stored.rollback_outcome report.rollback_outcome

-- The identity of an operation, which no transition changes.
unfoldable pub same_identity : OperationReport → OperationReport → Bool
same_identity stored report =
    stored.diagnostic_id == report.diagnostic_id
    && stored.action == report.action
    && stored.source == report.source
    && nat_beq stored.started_at report.started_at

-- `ON CONFLICT ... DO UPDATE SET count = count + 1`, where the operation has ended.
unfoldable pub count_outcome : OperationReport → Dict Outcome ℕ → Dict Outcome ℕ
count_outcome r totals =
    let key : Outcome = (r.action, (r.state, r.source)) in
    if recovery_operation_terminal r.state
    then insert key (elim (lookup key totals) [ none ↦ 1 | some n ↦ suc n ]) totals
    else totals

module _ (sanitize : String → String) where
  -- The checks of `scanRepairOperation` on a row that was read.
  unfoldable pub readable : OperationReport → Bool
  readable r = elim (validate sanitize r) [
    | some e ↦ false
    | none ↦ elim (validate_persisted_operation r) [ some e ↦ false | none ↦ true ]
  ]

  -- Both validations, in the order in which create and advance make them.
  unfoldable pub validate_both : OperationReport → Option StoreError
  validate_both r = elim (validate sanitize r) [
    | some e ↦ some (invalid_report e)
    | none ↦ elim (validate_persisted_operation r) [ some e ↦ some (lifecycle e) | none ↦ none ]
  ]

  -- What `AdvanceRepairOperation` decides about a row that was found: `inl` is the return, of an
  -- error or of success with nothing written; `inr` goes on to write.
  unfoldable pub decide_advance : OperationReport → OperationReport → Option (Option StoreError)
  decide_advance stored report =
      if stored.state == report.state
      then (if operation_reports_equal stored report
          then some none
          else some (some conflicting_duplicate))
      else if not (same_identity stored report)
      then some (some identity_changed)
      else if operation_state_reachable report.state stored.state
      then (if historical_replay_compatible report stored
          then some none
          else some (some conflicting_replay))
      else if not (legal_operation_transition stored.state report.state)
      then some (some illegal_transition)
      else elim (validate_append_only_steps stored.steps report.steps) [
        | some e ↦ some (some (lifecycle e))
        | none ↦ if fields_kept stored report then none else some (some immutable_field)
      ]

  -- The write; the transaction undoes it where a later statement or the commit fails, which is left out.
  unfoldable pub write_advance : Store → ℕ → Row → OperationReport → Store × Option StoreError
  write_advance st now row report =
      elim (next_stamp now (latest (λ r. r.received_at) row.agent_id st.operations)) [
        | none ↦ (st, some chronology_exhausted)
        | some stamp ↦ (
          record st {
            operations =
                insert report.operation_id (record row { report = report; received_at = stamp })
                  st.operations;
            totals = count_outcome report st.totals;
          },
          none,
        )
      ]

  unfoldable pub advance_row : Store → ℕ → Row → OperationReport → Store × Option StoreError
  advance_row st now row report =
      if readable row.report
      then elim (decide_advance row.report report) [
        | some result ↦ (st, result)
        | none ↦ write_advance st now row report
      ]
      else (st, some corrupt_row)

  -- The row that `WHERE agent_id = ? AND id = ?` selects.
  unfoldable pub select_row : Store → String → String → Option Row
  select_row st agent id = elim (lookup id st.operations) [
    | none ↦ none
    | some row ↦ if row.agent_id == agent then some row else none
  ]

  -- `AdvanceRepairOperation`
  unfoldable pub advance_repair_operation :
      Store → ℕ → String → OperationReport → Store × Option StoreError
  advance_repair_operation st now agent report = elim (validate_both report) [
    | some e ↦ (st, some e)
    | none ↦
        if not (in_unix_range report.started_at && finish_in_range report.finished_at)
        then (st, some out_of_range)
        else elim (select_row st agent report.operation_id) [
          | none ↦ (st, some not_found)
          | some row ↦ advance_row st now row report
        ]
  ]
