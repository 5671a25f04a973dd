-- ===== src/Journal/Grants.antt =====
-- internal/agent/helper/journal.go: a grant is used by one operation.
use nur_proxy.Base.{
  ◌≡◌, refl, Bool, true, false, ◌&&◌, String, string_eq, Option, none, some, ◌==◌, ◌⊎◌, inl, inr,
  arith, eq_iff, Bool-cases, Option-cases, ◌∙◌,
}
use mathlib.Core.Path.{subst}
use nur_proxy.Dict.{lookup, insert}
use nur_proxy.Dict.Laws.{lookup-insert, lookup-insert_self}
use nur_proxy.HelperProtocol.HelperAction.{HelperAction, helper_action_eq}
use nur_proxy.Journal.{
  Journal, File, corrupt, holds, GrantClaim, OperationRecord, HelperReceipt, JournalError,
  claim_grant, begin_record, new_record, write_failed, grant_replay, journal_corrupt,
}

-- Each operation's grant is claimed by that operation.
abbrev pub Claimed : Journal → Type 0
Claimed j =
    (id : String) (r : OperationRecord)
    → lookup id j.operations ≡ some (holds r)
    → (c : GrantClaim) × (lookup r.grant_id j.grants ≡ some (holds c)) × (c.operation_id ≡ id)

abbrev fresh_claim : String → String → String → GrantClaim
fresh_claim id grant digest = record {
  grant_id = grant;
  operation_id = id;
  canonical_request_digest = digest;
}

pub data ClaimOf (j : Journal) (id grant digest : String)
    : Journal × Option JournalError → Type 0 where
  refused : (e : JournalError) → ClaimOf j id grant digest (j, some e)
  held :
      (c : GrantClaim)
      → lookup grant j.grants ≡ some (holds c)
      → c.operation_id ≡ id
      → ClaimOf j id grant digest (j, none)
  fresh :
      lookup grant j.grants ≡ none
      → ClaimOf j id grant digest
          (record j { grants = insert grant (holds (fresh_claim id grant digest)) j.grants }, none)

module _ (valid_id valid_digest : String → Bool) (valid_receipt : HelperReceipt → Bool) where
  abbrev claim : Bool → String → String → String → Journal → Journal × Option JournalError
  claim = claim_grant valid_id valid_digest valid_receipt

  found-ClaimOf :
      (id grant digest : String) (j : Journal) (f : File GrantClaim)
      → lookup grant j.grants ≡ some f
      → ClaimOf j id grant digest (claim true id grant digest j)
  unfolding claim_grant
  found-ClaimOf id grant digest j corrupt at =
      rw (at, claim_grant) (rw at (refused journal_corrupt))
  found-ClaimOf id grant digest j (holds c) at =
      elim (Bool-cases (c.operation_id == id && c.canonical_request_digest == digest)) [
        | inl same ↦
            rw (at, claim_grant)
              (rw at (rw same (held c at (ground (arith, eq_iff c.operation_id id)))))
        | inr other ↦ rw (at, claim_grant) (rw at (rw other (refused grant_replay)))
      ]

  pub claim-ClaimOf :
      (written : Bool) (id grant digest : String) (j : Journal)
      → ClaimOf j id grant digest (claim written id grant digest j)
  unfolding claim_grant
  claim-ClaimOf false id grant digest j = refused write_failed
  claim-ClaimOf true id grant digest j = elim (Option-cases (lookup grant j.grants)) [
    | inl none_there ↦ rw (none_there, claim_grant) (fresh none_there)
    | inr (f, at) ↦ found-ClaimOf id grant digest j f at
  ]

ClaimOf-Claimed :
    {j : Journal} {id grant digest : String} {p : Journal × Option JournalError}
    → ClaimOf j id grant digest p
    → Claimed j
    → Claimed p.0
ClaimOf-Claimed (refused e) h = h
ClaimOf-Claimed (held c at own) h = h
ClaimOf-Claimed {j} {id} {grant} {digest} (fresh missing) h =
    λ i r at. let (c, found, own) = h i r at in (c, kept r.grant_id c found, own)
  where
    kept :
        (g : String) (c : GrantClaim)
        → lookup g j.grants ≡ some (holds c)
        → lookup g (insert grant (holds (fresh_claim id grant digest)) j.grants) ≡ some (holds c)
    kept g c found = ground (
      arith,
      eq_iff grant g,
      lookup-insert g grant (holds (fresh_claim id grant digest)) j.grants,
    )

-- The grant is claimed for the operation, once the claim did not fail.
ClaimOf-held :
    {j : Journal} {id grant digest : String} {p : Journal × Option JournalError}
    → ClaimOf j id grant digest p
    → p.1 ≡ none
    → (c : GrantClaim) × (lookup grant p.0.grants ≡ some (holds c)) × (c.operation_id ≡ id)
ClaimOf-held (refused e) h = absurd (cc)
ClaimOf-held (held c at own) h = (c, at, own)
ClaimOf-held {j} {id} {grant} {digest} (fresh missing) h = (
  fresh_claim id grant digest,
  lookup-insert_self grant (holds (fresh_claim id grant digest)) j.grants,
  refl,
)

pub ClaimOf-operations :
    {j : Journal} {id grant digest : String} {p : Journal × Option JournalError}
    → ClaimOf j id grant digest p
    → p.0.operations ≡ j.operations
ClaimOf-operations (refused e) = refl
ClaimOf-operations (held c at own) = refl
ClaimOf-operations (fresh missing) = refl

-- Writing a record whose grant is claimed for it keeps the claims.
pub insert-Claimed :
    (j : Journal) (id : String) (r : OperationRecord) (c : GrantClaim)
    → lookup r.grant_id j.grants ≡ some (holds c)
    → c.operation_id ≡ id
    → Claimed j
    → Claimed (record j { operations = insert id (holds r) j.operations })
insert-Claimed j id r c found own h i s at = elim (Bool-cases (id == i)) [
  | inl same ↦
      let q : r ≡ s = ground (arith, lookup-insert i id (holds r) j.operations) in
      subst
        (λ t.
          (d : GrantClaim) × (lookup t.grant_id j.grants ≡ some (holds d)) × (d.operation_id ≡ i))
        q (c, found, own ∙ (eq_iff id i).0 same)
  | inr other ↦ h i s (ground (arith, lookup-insert i id (holds r) j.operations))
]

module _ (valid_id valid_digest : String → Bool) (valid_receipt : HelperReceipt → Bool) where
  record-Claimed :
      (written : Bool) (id grant digest : String) (action : HelperAction) (now : String)
      (j : Journal) (c : GrantClaim)
      → lookup grant j.grants ≡ some (holds c)
      → c.operation_id ≡ id
      → Claimed j
      → Claimed
          (begin_record valid_id valid_digest valid_receipt written id grant digest action now j).0
  unfolding begin_record
  record-Claimed false id grant digest action now j c found own h = h
  record-Claimed true id grant digest action now j c found own h =
      elim (Option-cases (lookup id j.operations)) [
        | inl missing ↦
            rw (missing, begin_record)
              (insert-Claimed j id
                (new_record valid_id valid_digest valid_receipt id grant digest action now) c found
                own h)
        | inr (f, there) ↦ rw (there, begin_record) h
      ]

  pub Claimed-Claimed :
      (claim_written written : Bool) (id grant digest : String) (action : HelperAction)
      (now : String) (j : Journal)
      → Claimed j
      → Claimed
          (elim (claim_grant valid_id valid_digest valid_receipt claim_written id grant digest j).1
            as (λ e. Journal × (JournalError ⊎ (OperationRecord × Bool))) [
              | some e ↦ (
                (claim_grant valid_id valid_digest valid_receipt claim_written id grant digest j).0,
                inl e,
              )
              | none ↦
                  begin_record valid_id valid_digest valid_receipt written id grant digest action
                    now
                    (claim_grant valid_id valid_digest valid_receipt claim_written id grant digest
                      j).0
            ]).0
  Claimed-Claimed claim_written written id grant digest action now j h =
      let k = claim-ClaimOf valid_id valid_digest valid_receipt claim_written id grant digest j in
      let p = claim_grant valid_id valid_digest valid_receipt claim_written id grant digest j in
      elim (Option-cases p.1) [
        | inr (e, failed) ↦ rw failed (ClaimOf-Claimed k h)
        | inl ok ↦
            let (c, found, own) = ClaimOf-held k ok in
            rw ok (
              record-Claimed written id grant digest action now p.0 c found own
                (ClaimOf-Claimed k h))
      ]
