-- ===== src/History/Cases.antt =====
-- internal/orchestrator/db/recovery.go: the ways through `AdvanceRepairOperation`.
use nur_proxy.Base.{
  ℕ, ◌≡◌, true, ◌&&◌, String, string_eq, Option, none, some, Bool-cases, Option-cases, inl, inr,
}
use nur_proxy.Dict.{insert}
use nur_proxy.RecoveryModel.Report.{OperationReport}
use nur_proxy.History.Store.{
  Row, Store, StoreError, in_unix_range, finish_in_range, latest, next_stamp, count_outcome,
  readable, validate_both, decide_advance, write_advance, advance_row, select_row,
  advance_repair_operation, chronology_exhausted, corrupt_row, out_of_range, not_found,
}

abbrev pub stamp_of : ℕ → Row → Store → Option ℕ
stamp_of now row st = next_stamp now (latest (λ r. r.received_at) row.agent_id st.operations)

-- The store after a transition is written.
abbrev pub written_store : Store → Row → OperationReport → ℕ → Store
written_store st row report stamp = record st {
  operations =
      insert report.operation_id (record row { report = report; received_at = stamp })
        st.operations;
  totals = count_outcome report st.totals;
}

module _ (sanitize : String → String) where
  -- The row that a call works on, and what was checked before it was read.
  pub record Selected (st : Store) (agent : String) (report : OperationReport) (row : Row)
      : Type 0 where
    pub valid : validate_both sanitize report ≡ none
    pub in_range : in_unix_range report.started_at && finish_in_range report.finished_at ≡ true
    pub selected : select_row sanitize st agent report.operation_id ≡ some row
    pub row_readable : readable sanitize row.report ≡ true

  pub data Advance (st : Store) (now : ℕ) (agent : String) (report : OperationReport)
      : Store × Option StoreError → Type 0 where
    rejected : (e : StoreError) → Advance st now agent report (st, some e)
    replayed :
        (row : Row)
        → Selected st agent report row
        → decide_advance sanitize row.report report ≡ some none
        → Advance st now agent report (st, none)
    written :
        (row : Row) (stamp : ℕ)
        → Selected st agent report row
        → decide_advance sanitize row.report report ≡ none
        → stamp_of now row st ≡ some stamp
        → Advance st now agent report (written_store st row report stamp, none)

  module _ (st : Store) (now : ℕ) (agent : String) (report : OperationReport) where
    write-Advance :
        (row : Row)
        → Selected st agent report row
        → decide_advance sanitize row.report report ≡ none
        → Advance st now agent report (write_advance sanitize st now row report)
    unfolding write_advance
    write-Advance row sel d = elim (Option-cases (stamp_of now row st)) [
      | inl exhausted ↦ rw (exhausted, write_advance) (rejected chronology_exhausted)
      | inr (stamp, next) ↦ rw (next, write_advance) (written row stamp sel d next)
    ]

    row-Advance :
        (row : Row)
        → validate_both sanitize report ≡ none
        → in_unix_range report.started_at && finish_in_range report.finished_at ≡ true
        → select_row sanitize st agent report.operation_id ≡ some row
        → Advance st now agent report (advance_row sanitize st now row report)
    unfolding advance_row
    row-Advance row v range s = elim (Bool-cases (readable sanitize row.report)) [
      | inr corrupt ↦ rw (corrupt, advance_row) (rejected corrupt_row)
      | inl ok ↦
          let sel : Selected st agent report row = record {
            valid = v;
            in_range = range;
            selected = s;
            row_readable = ok;
          } in
          elim (Option-cases (decide_advance sanitize row.report report)) [
            | inl go_on ↦ rw (ok, advance_row) (rw go_on (write-Advance row sel go_on))
            | inr (result, stop) ↦ rw (ok, advance_row) (rw stop (decided row sel result stop))
          ]
    ]
      where
        decided :
            (row : Row)
            → Selected st agent report row
            → (result : Option StoreError) → decide_advance sanitize row.report report ≡ some result
            → Advance st now agent report (st, result)
        decided row sel none d = replayed row sel d
        decided row sel (some e) d = rejected e

    pub Advance-Advance :
        Advance st now agent report (advance_repair_operation sanitize st now agent report)
    unfolding advance_repair_operation
    Advance-Advance = elim (Option-cases (validate_both sanitize report)) [
      | inr (e, invalid) ↦ rw (invalid, advance_repair_operation) (rejected e)
      | inl v ↦
          elim (Bool-cases
            (in_unix_range report.started_at && finish_in_range report.finished_at)) [
              | inr outside ↦ rw (v, advance_repair_operation) (rw outside (rejected out_of_range))
              | inl range ↦ elim (Option-cases (select_row sanitize st agent report.operation_id)) [
                | inl missing ↦
                    rw (v, advance_repair_operation) (rw range (rw missing (rejected not_found)))
                | inr (row, found) ↦
                    rw (v, advance_repair_operation)
                      (rw range (rw found (row-Advance row v range found)))
              ]
            ]
    ]
