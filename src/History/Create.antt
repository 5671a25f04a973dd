-- ===== src/History/Create.antt =====
-- internal/orchestrator/db/recovery.go: `createRepairOperation`, behind `CreateRepairOperation` and
-- `CreateRepairOperationIfNoActive`.
use nur_proxy.Base.{
  ℕ, Bool, false, not, ◌&&◌, ◌||◌, String, string_eq, Option, none, some, List, [], ◌∷◌, ◌==◌,
  pair_eq, any,
}
use nur_proxy.Dict.{Dict, lookup, insert}
use nur_proxy.Text.{is_blank}
use nur_proxy.RecoveryModel.Action.{Action, action_eq}
use nur_proxy.RecoveryModel.RequestSource.{user, automatic, request_source_eq}
use nur_proxy.RecoveryModel.OperationState.{detected, planned, operation_state_eq}
use nur_proxy.RecoveryModel.Report.{Step, OperationReport, check, first}
use nur_proxy.History.Reports.{
  operation_reports_equal, historical_replay_compatible, recovery_operation_terminal,
}
use nur_proxy.History.Store.{
  Row, Store, StoreError, blank_identity, not_detected, not_planned, not_one_initial_step,
  out_of_range, other_agent, conflicting_create, no_agent, no_diagnostic, fingerprint_mismatch,
  action_mismatch, active_operation, chronology_exhausted, corrupt_row, in_unix_range,
  finish_in_range, latest, next_stamp, readable, validate_both,
}

-- `len(report.Steps) == 1 && report.Steps[0].State == report.State`
unfoldable pub has_one_step : OperationReport → List Step → Bool
has_one_step r (s ∷ []) = s.state == r.state
has_one_step r _ = false

-- An unfinished operation of the agent with the same action and fingerprint.
unfoldable pub has_active : String → Action → String → Dict String Row → Bool
has_active agent action fingerprint rows =
    any
      (λ p.
        p.1.agent_id == agent
        && p.1.report.action == action
        && p.1.fingerprint == fingerprint
        && not (recovery_operation_terminal p.1.report.state))
      rows

module _ (sanitize : String → String) where
  -- The checks before the transaction.
  unfoldable pub validate_create : String → OperationReport → String → Option StoreError
  validate_create agent r fingerprint =
      check (not (is_blank agent || is_blank fingerprint)) blank_identity (
        first (validate_both sanitize r) (
          check (not (r.source == automatic && not (r.state == detected))) not_detected (
            check (not (r.source == user && not (r.state == planned))) not_planned (
              check (has_one_step r r.steps) not_one_initial_step (
                check (in_unix_range r.started_at && finish_in_range r.finished_at) out_of_range
                  none)))))

  -- A row with the operation's ID is there already.
  unfoldable pub check_existing : String → OperationReport → String → Row → Option StoreError
  check_existing agent r fingerprint row = check (row.agent_id == agent) other_agent (
      check (readable sanitize row.report) corrupt_row (
        check
          (row.fingerprint == fingerprint
            && (operation_reports_equal row.report r || historical_replay_compatible r row.report))
          conflicting_create none))

  -- The checks of a new row against the other tables.
  unfoldable pub check_new : Store → String → OperationReport → String → Bool → Option StoreError
  check_new st agent r fingerprint reject_active =
      check (any (λ a. a == agent) st.agents) no_agent
        (elim (lookup (agent, r.diagnostic_id) st.diagnostics) [
          | none ↦ some no_diagnostic
          | some d ↦ check (d.resource_fingerprint == fingerprint) fingerprint_mismatch (
              check (d.proposed_action == r.action) action_mismatch (
                check (not (reject_active && has_active agent r.action fingerprint st.operations))
                  active_operation none))
        ])

  -- The clock is read twice, for `created_at` and for `received_at`.
  unfoldable pub insert_new :
      Store → ℕ → ℕ → String → OperationReport → String → Store × Option StoreError
  insert_new st now later agent r fingerprint =
      elim (next_stamp now (latest (λ row. row.created_at) agent st.operations)) [
        | none ↦ (st, some chronology_exhausted)
        | some created ↦
            elim (next_stamp later (latest (λ row. row.received_at) agent st.operations)) [
              | none ↦ (st, some chronology_exhausted)
              | some received ↦ (
                record st {
                  operations =
                      insert r.operation_id
                        (record {
                          agent_id = agent;
                          fingerprint = fingerprint;
                          report = r;
                          created_at = created;
                          received_at = received;
                        })
                        st.operations;
                },
                none,
              )
            ]
      ]

  unfoldable pub create_repair_operation :
      Store → ℕ → ℕ → String → OperationReport → String → Bool → Store × Option StoreError
  create_repair_operation st now later agent r fingerprint reject_active =
      elim (validate_create agent r fingerprint) [
        | some e ↦ (st, some e)
        | none ↦ elim (lookup r.operation_id st.operations) [
          | some row ↦ (st, check_existing agent r fingerprint row)
          | none ↦ elim (check_new st agent r fingerprint reject_active) [
            | some e ↦ (st, some e)
            | none ↦ insert_new st now later agent r fingerprint
          ]
        ]
      ]
