-- ===== src/Journal/Calls.antt =====
-- internal/agent/helper/journal.go: any sequence of calls that begin operations and move them on.
use nur_proxy.Base.{
  ◌≡◌, refl, Bool, true, ◌&&◌, String, string_eq, Option, none, some, List, [], ◌∷◌, ◌⊎◌, inl, inr,
  Bool-cases, sym, ◌∙◌, ap,
}
use nur_proxy.Dict.{lookup, insert}
use nur_proxy.HelperProtocol.HelperAction.{HelperAction, helper_action_eq}
use nur_proxy.HelperProtocol.JournalState.{JournalState}
use nur_proxy.Journal.Grants.{Claimed, Claimed-Claimed, insert-Claimed}
use nur_proxy.Journal.{
  Journal, File, corrupt, holds, OperationRecord, HelperReceipt, JournalError, begin_operation,
  load_operation, transition, binds, same_request, not_exist, invalid_transition, unbound_receipt,
  write_failed, journal_corrupt,
}
use nur_proxy.HelperProtocol.Transitions.{can_transition}
use nur_proxy.HelperProtocol.HelperAction

-- A call, with what its writes do.
pub data JournalCall : Type 0 where
  begin_call : Bool → Bool → String → String → String → HelperAction → String → JournalCall
  transition_call : Bool → String → JournalState → HelperReceipt → JournalCall

module _ (valid_id valid_digest : String → Bool) (valid_receipt : HelperReceipt → Bool) where
  begin-Claimed :
      (claim_written written : Bool) (id grant digest : String) (action : HelperAction)
      (now : String) (j : Journal)
      → Claimed j
      → Claimed
          (begin_operation valid_id valid_digest valid_receipt claim_written written id grant digest
            action now j).0
  unfolding begin_operation
  begin-Claimed claim_written written id grant digest action now j h =
      elim (Bool-cases
        (valid_id id && valid_id grant && valid_digest digest && HelperAction.valid action)) [
          | inr invalid ↦ rw (invalid, begin_operation) h
          | inl valid ↦ from (load_operation valid_id valid_digest valid_receipt id j) refl valid
        ]
    where
      from :
          (l : JournalError ⊎ OperationRecord)
          → load_operation valid_id valid_digest valid_receipt id j ≡ l
          → (valid_id id && valid_id grant && valid_digest digest && HelperAction.valid action)
            ≡ true
          → Claimed
              (begin_operation valid_id valid_digest valid_receipt claim_written written id grant
                digest action now j).0
      from (inr old) e valid =
          elim (Bool-cases
            (same_request valid_id valid_digest valid_receipt grant digest action old)) [
              | inl same ↦ rw (valid, begin_operation) (rw e (rw same h))
              | inr other ↦ rw (valid, begin_operation) (rw e (rw other h))
            ]
      from (inl not_exist) e valid =
          rw (valid, begin_operation)
            (rw e (
              Claimed-Claimed valid_id valid_digest valid_receipt claim_written written id grant
                digest action now j h))
      from (inl error) e valid = rw (valid, begin_operation) (rw e h)

  -- What `Transition` makes of a journal.
  pub data Moved (j : Journal) : Journal × (JournalError ⊎ OperationRecord) → Type 0 where
    not_moved : (e : JournalError) → Moved j (j, inl e)
    moved :
        (id : String) (r : OperationRecord) (next : JournalState) (receipt : HelperReceipt)
        → lookup id j.operations ≡ some (holds r)
        → can_transition r.state next ≡ true
        → Moved j (
          record j {
            operations =
                insert id
                  (holds (record r {
                    state = next;
                    receipt = some receipt;
                    updated_at = receipt.updated_at;
                  }))
                  j.operations;
          },
          inr (record r { state = next; receipt = some receipt; updated_at = receipt.updated_at }),
        )

  load_found :
      (id : String) (j : Journal) (r : OperationRecord)
      → load_operation valid_id valid_digest valid_receipt id j ≡ inr r
      → lookup id j.operations ≡ some (holds r)
  unfolding load_operation
  load_found id j r e = elim (Bool-cases (valid_id id)) [
    | inr invalid ↦ absurd (cc (rw invalid at e))
    | inl valid ↦ there (lookup id j.operations) refl (rw valid at e)
  ]
    where
      there :
          (f : Option (File OperationRecord))
          → lookup id j.operations ≡ f
          → elim (lookup id j.operations) as (λ x. JournalError ⊎ OperationRecord) [
            | none ↦ inl not_exist
            | some corrupt ↦ inl journal_corrupt
            | some (holds s) ↦ inr s
          ]
            ≡ inr r
          → lookup id j.operations ≡ some (holds r)
      there none at e = absurd (cc (rw at at e))
      there (some corrupt) at e = absurd (cc (rw at at e))
      there (some (holds s)) at e =
          at ∙ (let q : s ≡ r = cc (rw at at e) in ap (λ t. some (holds t)) q)

  pub move-Moved :
      (written : Bool) (id : String) (next : JournalState) (receipt : HelperReceipt) (j : Journal)
      → Moved j (transition valid_id valid_digest valid_receipt written id next receipt j)
  unfolding transition
  move-Moved written id next receipt j =
      from (load_operation valid_id valid_digest valid_receipt id j) refl
    where
      from :
          (l : JournalError ⊎ OperationRecord)
          → load_operation valid_id valid_digest valid_receipt id j ≡ l
          → Moved j (transition valid_id valid_digest valid_receipt written id next receipt j)
      from (inl e) at = rw (at, transition) (not_moved e)
      from (inr r) at = elim (Bool-cases (can_transition r.state next)) [
        | inr illegal ↦ rw (at, transition) (rw illegal (not_moved invalid_transition))
        | inl legal ↦ elim (Bool-cases (binds valid_id valid_digest valid_receipt next receipt r)) [
          | inr unbound ↦ rw (at, transition) (rw legal (rw unbound (not_moved unbound_receipt)))
          | inl bound ↦ elim (Bool-cases written) [
            | inr failed ↦
                rw (at, transition) (rw legal (rw bound (rw failed (not_moved write_failed))))
            | inl ok ↦
                rw (at, transition)
                  (rw legal
                    (rw bound (rw ok (moved id r next receipt (load_found id j r at) legal))))
          ]
        ]
      ]

  Moved-Claimed :
      {j : Journal} {p : Journal × (JournalError ⊎ OperationRecord)}
      → Moved j p
      → Claimed j
      → Claimed p.0
  Moved-Claimed (not_moved e) h = h
  Moved-Claimed {j} (moved id r next receipt at legal) h =
      let (c, found, own) = h id r at in
      insert-Claimed j id
        (record r { state = next; receipt = some receipt; updated_at = receipt.updated_at }) c found
        own h

  unfoldable pub run_call : JournalCall → Journal → Journal
  run_call (begin_call claim_written written id grant digest action now) j =
      (begin_operation valid_id valid_digest valid_receipt claim_written written id grant digest
        action now j).0
  run_call (transition_call written id next receipt) j =
      (transition valid_id valid_digest valid_receipt written id next receipt j).0

  unfoldable pub run_calls : List JournalCall → Journal → Journal
  run_calls [] j = j
  run_calls (c ∷ cs) j = run_calls cs (run_call c j)

  call-Claimed : (c : JournalCall) (j : Journal) → Claimed j → Claimed (run_call c j)
  unfolding run_call
  call-Claimed (begin_call claim_written written id grant digest action now) j h =
      begin-Claimed claim_written written id grant digest action now j h
  call-Claimed (transition_call written id next receipt) j h =
      Moved-Claimed (move-Moved written id next receipt j) h

  calls-Claimed : (calls : List JournalCall) (j : Journal) → Claimed j → Claimed (run_calls calls j)
  unfolding run_calls
  calls-Claimed [] j h = h
  calls-Claimed (c ∷ calls) j h = calls-Claimed calls (run_call c j) (call-Claimed c j h)

  -- A grant is used by one operation: after any calls that begin operations and move them on, from
  -- a journal in which each operation's grant is claimed by it, two operations with the same grant
  -- are the same operation, whichever writes fail.
  pub grant_used_once :
      (calls : List JournalCall) (j : Journal) (a b : String) (r s : OperationRecord)
      → Claimed j
      → lookup a (run_calls calls j).operations ≡ some (holds r)
      → lookup b (run_calls calls j).operations ≡ some (holds s)
      → r.grant_id ≡ s.grant_id
      → a ≡ b
  grant_used_once calls j a b r s h at at' same =
      let all = calls-Claimed calls j h in
      let (c, found, own) = all a r at in
      let (d, found', own') = all b s at' in
      let q : some (holds c) ≡ some (holds d) =
        sym found ∙ ap (λ g. lookup g (run_calls calls j).grants) same ∙ found' in
      sym own ∙ (let e : c ≡ d = cc q in ap (λ x. x.operation_id) e) ∙ own'
