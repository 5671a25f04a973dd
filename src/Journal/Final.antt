-- ===== src/Journal/Final.antt =====
-- internal/agent/helper/journal.go: the records of operations that have ended.
use nur_proxy.Base.{
  ◌≡◌, refl, Bool, true, false, ◌&&◌, String, string_eq, none, some, List, [], ◌∷◌, ◌==◌, ◌⊎◌, inl,
  inr, arith, eq_iff, Bool-cases, Option-cases, sym, ◌∙◌, ap,
}
use nur_proxy.Dict.{lookup, insert}
use nur_proxy.Dict.Laws.{lookup-insert}
use nur_proxy.HelperProtocol.HelperAction.{HelperAction, helper_action_eq}
use nur_proxy.HelperProtocol.JournalState.{JournalState}
use nur_proxy.Journal.Grants.{claim-ClaimOf, ClaimOf-operations}
use nur_proxy.Journal.Calls.{
  JournalCall, begin_call, transition_call, run_call, run_calls, Moved, not_moved, moved,
  move-Moved,
}
use nur_proxy.Journal.{
  Journal, holds, OperationRecord, HelperReceipt, JournalError, claim_grant, begin_record,
  begin_operation, load_operation, new_record, same_request, not_exist,
}
use nur_proxy.HelperProtocol.Transitions.{can_transition}
use nur_proxy.HelperProtocol.HelperAction

abbrev HasRecord : String → OperationRecord → Journal → Type 0
HasRecord id r j = lookup id j.operations ≡ some (holds r)

insert_elsewhere :
    (id other : String) (r s : OperationRecord) (j : Journal)
    → HasRecord id r j
    → lookup other j.operations ≡ none
    → HasRecord id r (record j { operations = insert other (holds s) j.operations })
insert_elsewhere id other r s j h missing =
    ground (arith, eq_iff other id, lookup-insert id other (holds s) j.operations)

module _ (valid_id valid_digest : String → Bool) (valid_receipt : HelperReceipt → Bool) where
  record_keeps :
      (id : String) (r : OperationRecord) (written : Bool) (other grant digest : String)
      (action : HelperAction) (now : String) (j : Journal)
      → HasRecord id r j
      → HasRecord id r
          (begin_record valid_id valid_digest valid_receipt written other grant digest action now
            j).0
  unfolding begin_record
  record_keeps id r false other grant digest action now j h = h
  record_keeps id r true other grant digest action now j h =
      elim (Option-cases (lookup other j.operations)) [
        | inl missing ↦
            rw (missing, begin_record)
              (insert_elsewhere id other r
                (new_record valid_id valid_digest valid_receipt other grant digest action now) j h
                missing)
        | inr (f, there) ↦ rw (there, begin_record) h
      ]

  claim_keeps :
      (id : String) (r : OperationRecord) (claim_written written : Bool)
      (other grant digest : String) (action : HelperAction) (now : String) (j : Journal)
      → HasRecord id r j
      → HasRecord id r
          (elim (claim_grant valid_id valid_digest valid_receipt claim_written other grant digest
              j).1
            as (λ e. Journal × (JournalError ⊎ (OperationRecord × Bool))) [
              | some e ↦ (
                (claim_grant valid_id valid_digest valid_receipt claim_written other grant digest
                    j).0,
                inl e,
              )
              | none ↦
                  begin_record valid_id valid_digest valid_receipt written other grant digest action
                    now
                    (claim_grant valid_id valid_digest valid_receipt claim_written other grant
                      digest j).0
            ]).0
  claim_keeps id r claim_written written other grant digest action now j h =
      let k =
        claim-ClaimOf valid_id valid_digest valid_receipt claim_written other grant digest j in
      let p = claim_grant valid_id valid_digest valid_receipt claim_written other grant digest j in
      let h' : HasRecord id r p.0 = ap (lookup id) (ClaimOf-operations k) ∙ h in
      elim (Option-cases p.1) [
        | inr (e, failed) ↦ rw failed h'
        | inl ok ↦ rw ok (record_keeps id r written other grant digest action now p.0 h')
      ]

  begin_keeps :
      (id : String) (r : OperationRecord) (claim_written written : Bool)
      (other grant digest : String) (action : HelperAction) (now : String) (j : Journal)
      → HasRecord id r j
      → HasRecord id r
          (begin_operation valid_id valid_digest valid_receipt claim_written written other grant
            digest action now j).0
  unfolding begin_operation
  begin_keeps id r claim_written written other grant digest action now j h =
      elim (Bool-cases
        (valid_id other && valid_id grant && valid_digest digest && HelperAction.valid action)) [
          | inr invalid ↦ rw (invalid, begin_operation) h
          | inl valid ↦ from (load_operation valid_id valid_digest valid_receipt other j) refl valid
        ]
    where
      from :
          (l : JournalError ⊎ OperationRecord)
          → load_operation valid_id valid_digest valid_receipt other j ≡ l
          → (valid_id other && valid_id grant && valid_digest digest && HelperAction.valid action)
            ≡ true
          → HasRecord id r
              (begin_operation valid_id valid_digest valid_receipt claim_written written other grant
                digest action now j).0
      from (inr old) e valid =
          elim (Bool-cases
            (same_request valid_id valid_digest valid_receipt grant digest action old)) [
              | inl same ↦ rw (valid, begin_operation) (rw e (rw same h))
              | inr differs ↦ rw (valid, begin_operation) (rw e (rw differs h))
            ]
      from (inl not_exist) e valid =
          rw (valid, begin_operation)
            (rw e (claim_keeps id r claim_written written other grant digest action now j h))
      from (inl error) e valid = rw (valid, begin_operation) (rw e h)

  Moved-keeps :
      (id : String) (r : OperationRecord) {j : Journal}
      {p : Journal × (JournalError ⊎ OperationRecord)}
      → ((next : JournalState) → can_transition r.state next ≡ false)
      → HasRecord id r j
      → Moved valid_id valid_digest valid_receipt j p
      → HasRecord id r p.0
  Moved-keeps id r final h (not_moved e) = h
  Moved-keeps id r {j} final h (moved other s next receipt at legal) =
      elim (Bool-cases (other == id)) [
        | inl same ↦
            let q : r ≡ s = ground (arith, eq_iff other id) in
            let e : can_transition s.state next ≡ false =
              ap (λ t. can_transition t.state next) (sym q) ∙ final next in
            absurd (ground (arith, legal, e))
        | inr differs ↦ ground (
          arith,
          lookup-insert id other
              (holds (record s {
                state = next;
                receipt = some receipt;
                updated_at = receipt.updated_at;
              }))
              j.operations,
        )
      ]

  call_keeps :
      (c : JournalCall) (id : String) (r : OperationRecord) (j : Journal)
      → ((next : JournalState) → can_transition r.state next ≡ false)
      → HasRecord id r j
      → HasRecord id r (run_call valid_id valid_digest valid_receipt c j)
  unfolding run_call
  call_keeps (begin_call claim_written written other grant digest action now) id r j final h =
      begin_keeps id r claim_written written other grant digest action now j h
  call_keeps (transition_call written other next receipt) id r j final h =
      Moved-keeps id r final h
        (move-Moved valid_id valid_digest valid_receipt written other next receipt j)

  -- The record of an operation in a state that no transition leaves is never changed: after any
  -- calls that begin operations and move them on, it is the same record, its receipt included.
  pub final_record_kept :
      (calls : List JournalCall) (id : String) (r : OperationRecord) (j : Journal)
      → ((next : JournalState) → can_transition r.state next ≡ false)
      → lookup id j.operations ≡ some (holds r)
      → lookup id (run_calls valid_id valid_digest valid_receipt calls j).operations
        ≡ some (holds r)
  unfolding run_calls
  final_record_kept [] id r j final h = h
  final_record_kept (c ∷ calls) id r j final h =
      final_record_kept calls id r (run_call valid_id valid_digest valid_receipt c j) final
        (call_keeps c id r j final h)
