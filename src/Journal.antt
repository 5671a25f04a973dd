-- ===== src/Journal.antt =====
-- internal/agent/helper/journal.go: the operations and grants of the privileged helper's journal.
-- A directory is a map from the name of a file, without its suffix, to what it holds. Whether a write
-- succeeds is an argument, and so is the text of the time that a call reads. The tests of names,
-- digests and receipts, which read texts and times, are the parameters `valid_id`, `valid_digest`
-- and `valid_receipt`, with no assumption on them. A receipt's artifacts are carried along by the code
-- and left out here. The lock makes each call one step.
mod Grants
mod Calls
mod Final
mod Tests
use nur_proxy.Base.{
  Bool, true, false, not, ◌&&◌, String, string_eq, Option, none, some, ◌==◌, ◌⊎◌, inl, inr,
  if◌then◌else◌,
}
use nur_proxy.Dict.{Dict, lookup, insert}
use nur_proxy.HelperProtocol.HelperAction
use nur_proxy.HelperProtocol.HelperAction.{HelperAction, helper_action_eq}
use nur_proxy.HelperProtocol.RollbackCoverage.{RollbackCoverage}
use nur_proxy.HelperProtocol.JournalState.{JournalState, authorized, journal_state_eq}
use nur_proxy.HelperProtocol.Transitions.{can_transition}

pub record HelperReceipt : Type 0 where
  pub operation_id : String
  pub canonical_request_digest : String
  pub helper_instance_id : String
  pub action : HelperAction
  pub state : JournalState
  pub rollback_coverage : RollbackCoverage
  pub snapshot_digest : String
  pub sanitized_result : String
  pub updated_at : String

pub record OperationRecord : Type 0 where
  pub operation_id : String
  pub grant_id : String
  pub canonical_request_digest : String
  pub action : HelperAction
  pub state : JournalState
  pub receipt : Option HelperReceipt
  pub updated_at : String

pub record GrantClaim : Type 0 where
  pub grant_id : String
  pub operation_id : String
  pub canonical_request_digest : String

-- A file that is there: one that cannot be read or decoded, or one that holds a record.
pub data File (A : Type 0) : Type 0 where
  corrupt : File A
  holds : A → File A

pub record Journal : Type 0 where
  pub operations : Dict String (File OperationRecord)
  pub grants : Dict String (File GrantClaim)

pub data JournalError : Type 0 where
  invalid_identity request_conflict grant_replay not_exist journal_corrupt : JournalError
  receipt_not_found invalid_transition unbound_receipt write_failed : JournalError

-- What `writeRecord` did with a file that must not be there before. It fails without a change here; a
-- failure of the last `syncDirectory`, with the file in place, leaves the files as `created` does.
pub data Created : Type 0 where
  created already_there failed : Created

abbrev pub create_only : {A : Type 0} → Bool → String → Dict String (File A) → Created
create_only written name files =
    if not written
    then failed
    else elim (lookup name files) [ none ↦ created | some f ↦ already_there ]

module _ (valid_id valid_digest : String → Bool) (valid_receipt : HelperReceipt → Bool) where
  -- `loadOperationLocked`
  unfoldable pub load_operation : String → Journal → JournalError ⊎ OperationRecord
  load_operation id j = if not (valid_id id) then inl not_exist else elim (lookup id j.operations) [
    | none ↦ inl not_exist
    | some corrupt ↦ inl journal_corrupt
    | some (holds r) ↦ inr r
  ]

  unfoldable pub same_request : String → String → HelperAction → OperationRecord → Bool
  same_request grant digest action r =
      r.grant_id == grant && r.canonical_request_digest == digest && r.action == action

  abbrev pub new_record : String → String → String → HelperAction → String → OperationRecord
  new_record id grant digest action now = record {
    operation_id = id;
    grant_id = grant;
    canonical_request_digest = digest;
    action = action;
    state = authorized;
    receipt = none;
    updated_at = now;
  }

  -- The end of `BeginOperation`: the operation record is written.
  unfoldable pub begin_record :
      Bool
      → String
      → String
      → String
      → HelperAction
      → String
      → Journal
      → Journal × (JournalError ⊎ (OperationRecord × Bool))
  begin_record written id grant digest action now j =
      let r = new_record id grant digest action now in
      elim (create_only written id j.operations) [
        | failed ↦ (j, inl write_failed)
        | already_there ↦ (
          j,
          elim (load_operation id j) [
            | inl e ↦ inl request_conflict
            | inr old ↦
                if same_request grant digest action old
                then inr (old, true)
                else inl request_conflict
          ],
        )
        | created ↦ (record j { operations = insert id (holds r) j.operations }, inr (r, false))
      ]

  -- The grant that an operation uses: claimed now, or before by the same operation and request.
  unfoldable pub claim_grant :
      Bool → String → String → String → Journal → Journal × Option JournalError
  claim_grant written id grant digest j = elim (create_only written grant j.grants) [
    | failed ↦ (j, some write_failed)
    | created ↦ (
      record j {
        grants =
            insert grant
              (holds
                (record { grant_id = grant; operation_id = id; canonical_request_digest = digest }))
              j.grants;
      },
      none,
    )
    | already_there ↦ (
      j,
      elim (lookup grant j.grants) [
        | none ↦ some not_exist
        | some corrupt ↦ some journal_corrupt
        | some (holds c) ↦
            if not (c.operation_id == id && c.canonical_request_digest == digest)
            then some grant_replay
            else none
      ],
    )
  ]

  -- `BeginOperation`; `claim_written` and `record_written` are whether its two writes succeed.
  unfoldable pub begin_operation :
      Bool
      → Bool
      → String
      → String
      → String
      → HelperAction
      → String
      → Journal
      → Journal × (JournalError ⊎ (OperationRecord × Bool))
  begin_operation claim_written record_written id grant digest action now j =
      if not (valid_id id && valid_id grant && valid_digest digest && HelperAction.valid action)
      then (j, inl invalid_identity)
      else elim (load_operation id j) [
        | inr old ↦
            if same_request grant digest action old
            then (j, inr (old, true))
            else (j, inl request_conflict)
        | inl not_exist ↦
            let (j', refused) = claim_grant claim_written id grant digest j in
            elim refused [
              | some e ↦ (j', inl e)
              | none ↦ begin_record record_written id grant digest action now j'
            ]
        | inl e ↦ (j, inl e)
      ]

  -- `receipt` binds to the transition of `r` to `next`.
  unfoldable pub binds : JournalState → HelperReceipt → OperationRecord → Bool
  binds next receipt r =
      valid_receipt receipt
      && receipt.operation_id == r.operation_id
      && receipt.canonical_request_digest == r.canonical_request_digest
      && receipt.action == r.action
      && receipt.state == next

  -- `Transition`
  unfoldable pub transition :
      Bool
      → String
      → JournalState
      → HelperReceipt
      → Journal
      → Journal × (JournalError ⊎ OperationRecord)
  transition written id next receipt j = elim (load_operation id j) [
    | inl e ↦ (j, inl e)
    | inr r ↦
        if not (can_transition r.state next)
        then (j, inl invalid_transition)
        else if not (binds next receipt r)
        then (j, inl unbound_receipt)
        else if not written
        then (j, inl write_failed)
        else (let r' = record r {
          state = next;
          receipt = some receipt;
          updated_at = receipt.updated_at;
        } in
            (record j { operations = insert id (holds r') j.operations }, inr r'))
  ]

  -- `GetReceipt`
  unfoldable pub get_receipt : String → String → Journal → JournalError ⊎ HelperReceipt
  get_receipt id digest j = elim (load_operation id j) [
    | inl e ↦ inl e
    | inr r ↦
        if not (r.canonical_request_digest == digest)
        then inl request_conflict
        else elim r.receipt [ none ↦ inl receipt_not_found | some receipt ↦ inr receipt ]
  ]
