-- ===== src/History/Life.antt =====
-- internal/orchestrator/db/recovery.go: a stored operation under any sequence of calls.
use nur_proxy.Base.{
  ◌⊎◌, ℕ, ◌≡◌, sym, ◌∙◌, ap, Bool, true, false, String, string_eq, none, some, List, [], ◌∷◌, ◌==◌,
  arith, Bool-cases, Option-cases, inl, inr, eq_iff,
}
use mathlib.Core.Path.{subst}
use nur_proxy.Dict.{Dict, lookup}
use nur_proxy.Dict.Laws.{lookup-insert}
use nur_proxy.RecoveryModel.Report.{OperationReport}
use nur_proxy.History.Reports.{recovery_operation_terminal}
use nur_proxy.History.Store.{latest, next_stamp, Row, Store, advance_repair_operation}
use nur_proxy.History.Cases.{written_store}
use nur_proxy.History.Advance.{
  Transition, Effect, nothing, moved, advance-Effect, advance_error_unchanged,
}
use nur_proxy.History.Follows.{Follows, Follows-refl, Follows-trans, Transition-Follows}
use nur_proxy.History.Create.{create_repair_operation, check_new, insert_new, validate_create}

-- A call, with the times that it reads.
pub data Call : Type 0 where
  create : ℕ → ℕ → String → OperationReport → String → Bool → Call
  advance : ℕ → String → OperationReport → Call

-- The row of the operation `id` after a call.
abbrev pub Later : Store → String → Row → Type 0
Later st id old = (new : Row) × (lookup id st.operations ≡ some new) × Follows old new

written-Later :
    (st : Store) (report : OperationReport) (row : Row) (stamp : ℕ) (id : String) (old : Row)
    → lookup id st.operations ≡ some old
    → lookup report.operation_id st.operations ≡ some row
    → Transition row.report report
    → Later (written_store st row report stamp) id old
written-Later st report row stamp id old at found t =
    elim (Bool-cases (report.operation_id == id)) [
      | inr other ↦ (
        old,
        ground (
          arith,
          lookup-insert id report.operation_id (record row { report = report; received_at = stamp })
              st.operations,
        ),
        Follows-refl old,
      )
      | inl same ↦
          let q : row ≡ old = ground (arith, eq_iff report.operation_id id) in
          (
            record row { report = report; received_at = stamp },
            ground (
              arith,
              lookup-insert id report.operation_id
                  (record row { report = report; received_at = stamp }) st.operations,
            ),
            subst (λ r. Follows r (record row { report = report; received_at = stamp })) q
                (Transition-Follows row report stamp t),
          )
    ]

Effect-Later :
    {st : Store} (agent : String) (report : OperationReport) {st' : Store} (id : String) (old : Row)
    → lookup id st.operations ≡ some old
    → Effect st agent report st'
    → Later st' id old
Effect-Later agent report id old at nothing = (old, at, Follows-refl old)
Effect-Later {st} agent report id old at (moved row stamp (found, own) t later) =
    written-Later st report row stamp id old at found t

same-Later :
    (st : Store) (id : String) (old : Row) → lookup id st.operations ≡ some old → Later st id old
same-Later st id old at = (old, at, Follows-refl old)

insert-Later :
    (sanitize : String → String) (st : Store) (now later : ℕ) (agent : String) (r : OperationReport)
    (fingerprint : String) (id : String) (old : Row)
    → lookup id st.operations ≡ some old
    → lookup r.operation_id st.operations ≡ none
    → Later (insert_new sanitize st now later agent r fingerprint).0 id old
unfolding insert_new
insert-Later sanitize st now later agent r fingerprint id old at free =
    elim (Option-cases (next_stamp now (latest (λ row. row.created_at) agent st.operations))) [
      | inl e ↦ rw (e, insert_new) (same-Later st id old at)
      | inr (created, e) ↦
          elim (Option-cases
            (next_stamp later (latest (λ row. row.received_at) agent st.operations))) [
              | inl e' ↦ rw (e, insert_new) (rw e' (same-Later st id old at))
              | inr (received, e') ↦
                  rw (e, insert_new)
                    (rw e' (
                      old,
                      ground (
                        arith,
                        eq_iff r.operation_id id,
                        lookup-insert id r.operation_id
                            (record {
                              agent_id = agent;
                              fingerprint = fingerprint;
                              report = r;
                              created_at = created;
                              received_at = received;
                            })
                            st.operations,
                      ),
                      Follows-refl old,
                    ))
            ]
    ]

create-Later :
    (sanitize : String → String) (st : Store) (now later : ℕ) (agent : String) (r : OperationReport)
    (fingerprint : String) (reject : Bool) (id : String) (old : Row)
    → lookup id st.operations ≡ some old
    → Later (create_repair_operation sanitize st now later agent r fingerprint reject).0 id old
unfolding create_repair_operation
create-Later sanitize st now later agent r fingerprint reject id old at =
    elim (Option-cases (validate_create sanitize agent r fingerprint)) [
      | inr (e, q) ↦ rw (q, create_repair_operation) (same-Later st id old at)
      | inl q ↦ elim (Option-cases (lookup r.operation_id st.operations)) [
        | inr (row, q') ↦ rw (q, create_repair_operation) (rw q' (same-Later st id old at))
        | inl free ↦ elim (Option-cases (check_new sanitize st agent r fingerprint reject)) [
          | inr (e, q') ↦
              rw (q, create_repair_operation) (rw free (rw q' (same-Later st id old at)))
          | inl q' ↦
              rw (q, create_repair_operation)
                (rw free
                  (rw q' (insert-Later sanitize st now later agent r fingerprint id old at free)))
        ]
      ]
    ]

advance-Later :
    (sanitize : String → String) (st : Store) (now : ℕ) (agent : String) (r : OperationReport)
    (id : String) (old : Row)
    → lookup id st.operations ≡ some old
    → Later (advance_repair_operation sanitize st now agent r).0 id old
advance-Later sanitize st now agent r id old at =
    elim (Option-cases (advance_repair_operation sanitize st now agent r).1) [
      | inl ok ↦ Effect-Later agent r id old at (advance-Effect sanitize st now agent r ok)
      | inr (e, failed) ↦
          subst (λ s. Later s id old) (sym (advance_error_unchanged sanitize st now agent r failed))
            (same-Later st id old at)
    ]

-- The store after one call, and after a list of calls.
unfoldable pub run_call : (String → String) → Call → Store → Store
run_call sanitize (create now later agent r fingerprint reject) st =
    (create_repair_operation sanitize st now later agent r fingerprint reject).0
run_call sanitize (advance now agent r) st = (advance_repair_operation sanitize st now agent r).0

unfoldable pub run_calls : (String → String) → List Call → Store → Store
run_calls sanitize [] st = st
run_calls sanitize (c ∷ cs) st = run_calls sanitize cs (run_call sanitize c st)

call-Later :
    (sanitize : String → String) (c : Call) (st : Store) (id : String) (old : Row)
    → lookup id st.operations ≡ some old
    → Later (run_call sanitize c st) id old
unfolding run_call
call-Later sanitize (create now later agent r fingerprint reject) st id old at =
    create-Later sanitize st now later agent r fingerprint reject id old at
call-Later sanitize (advance now agent r) st id old at =
    advance-Later sanitize st now agent r id old at

-- After any list of calls to create or advance operations, with any arguments and times, each
-- operation that was stored is still stored, and its row follows the earlier one: the owner, the
-- identity and the time of creation are the same, the state was reached along the diagram, and the
-- steps extend the earlier steps.
pub calls_follow :
    (sanitize : String → String) (calls : List Call) (st : Store) (id : String) (old : Row)
    → lookup id st.operations ≡ some old
    → Later (run_calls sanitize calls st) id old
unfolding run_calls
calls_follow sanitize [] st id old at = same-Later st id old at
calls_follow sanitize (c ∷ calls) st id old at =
    let (mid, at', f) = call-Later sanitize c st id old at in
    let (new, at'', g) = calls_follow sanitize calls (run_call sanitize c st) id mid at' in
    (new, at'', Follows-trans f g)

-- The row of an operation that has ended is never changed again: after any list of calls it is the
-- same row.
pub ended_frozen :
    (sanitize : String → String) (calls : List Call) (st : Store) (id : String) (old : Row)
    → lookup id st.operations ≡ some old
    → recovery_operation_terminal old.report.state ≡ true
    → lookup id (run_calls sanitize calls st).operations ≡ some old
ended_frozen sanitize calls st id old at ended =
    let (new, at', f) = calls_follow sanitize calls st id old at in frozen new _ at' f.change
  where
    frozen :
        (new : Row) (rows : Dict String Row)
        → lookup id rows ≡ some new
        → (new ≡ old) ⊎ (recovery_operation_terminal old.report.state ≡ false)
        → lookup id rows ≡ some old
    frozen new rows found (inl same) = found ∙ ap some same
    frozen new rows found (inr moving) = absurd (cc)
