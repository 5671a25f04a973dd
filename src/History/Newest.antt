-- ===== src/History/Newest.antt =====
-- internal/orchestrator/db/recovery.go: the newest of the operations that bear on the latch.
use nur_proxy.Base.{
  ◌≡◌, ◌≤◌, refl, Bool, true, false, ◌&&◌, String, string_eq, Option, none, some, List, [], ◌∷◌,
  ◌==◌, All, Any, arith, Bool-cases, inl, inr, leb, if◌then◌else◌, sym,
}
use mathlib.Core.Path.{subst}
use nur_proxy.Dict.{Dict, lookup}
use nur_proxy.RecoveryModel.Action.{Action, action_eq}
use nur_proxy.RecoveryModel.RequestSource.{request_source_eq}
use nur_proxy.RecoveryModel.OperationState.{operation_state_eq}
use nur_proxy.History.Store.{Row}
use nur_proxy.History.Status.{select_rows, put, by_receipt, bears_on_latch}

abbrev pub top : List Row → Option Row
top [] = none
top (r ∷ rows) = some r

abbrev newer : Row → Option Row → Row
newer r none = r
newer r (some s) = if leb s.received_at r.received_at then r else s

newer_first : (r s : Row) → leb s.received_at r.received_at ≡ true → newer r (some s) ≡ r
newer_first r s h = rw h refl

newer_second : (r s : Row) → leb s.received_at r.received_at ≡ false → newer r (some s) ≡ s
newer_second r s h = rw h refl

pub top-put : (r : Row) (rows : List Row) → top (put r rows) ≡ some (newer r (top rows))
unfolding put
top-put r [] = refl
top-put r (s ∷ rows) = elim (Bool-cases (leb s.received_at r.received_at)) [
  | inl h ↦ rw (h, put) refl
  | inr h ↦ rw (h, put) refl
]

-- What holds of each entry holds of the one that is found, and of one that is there.
pub all_found :
    (P : Row → Type 0) (id : String) (x : Row) (operations : Dict String Row)
    → All (λ p. P p.1) operations
    → lookup id operations ≡ some x
    → P x
unfolding lookup
all_found P id x [] a h = absurd (cc)
all_found P id x ((k, row) ∷ operations) (p, a) h = elim (Bool-cases (k == id)) [
  | inl here ↦ subst P (ground arith) p
  | inr below ↦ all_found P id x operations a (ground arith)
]

pub all_there :
    (P : Row → Type 0) (x : Row) (operations : Dict String Row)
    → All (λ p. P p.1) operations
    → Any (λ p. p.1 ≡ x) operations
    → P x
all_there P x [] a h = absurd h
all_there P x ((k, row) ∷ operations) (p, a) (inl here) = subst P here p
all_there P x ((k, row) ∷ operations) (p, a) (inr below) = all_there P x operations a below

module _ (agent : String) (action : Action) (fingerprint : String) where
  abbrev pub chosen : Row → Bool
  chosen row =
      row.agent_id == agent
      && row.report.action == action
      && row.fingerprint == fingerprint
      && bears_on_latch row

  abbrev pub newest : Dict String Row → Option Row
  newest operations =
      top (by_receipt (select_rows agent action fingerprint bears_on_latch operations))

  -- The newest of the chosen rows.
  abbrev pub IsNewest : Dict String Row → Option Row → Type 0
  IsNewest operations none = All (λ p. chosen p.1 ≡ false) operations
  IsNewest operations (some h) =
      (chosen h ≡ true)
      × Any (λ p. p.1 ≡ h) operations
      × All (λ p. chosen p.1 ≡ true → p.1.received_at ≤ h.received_at) operations

  none_later :
      (r : Row) (operations : Dict String Row)
      → All (λ p. chosen p.1 ≡ false) operations
      → All (λ p. chosen p.1 ≡ true → p.1.received_at ≤ r.received_at) operations
  none_later r [] a = tt
  none_later r (p ∷ operations) (h, a) = ((λ h'. absurd (cc)), none_later r operations a)

  later :
      (r s : Row) (operations : Dict String Row)
      → s.received_at ≤ r.received_at
      → All (λ p. chosen p.1 ≡ true → p.1.received_at ≤ s.received_at) operations
      → All (λ p. chosen p.1 ≡ true → p.1.received_at ≤ r.received_at) operations
  later r s [] n a = tt
  later r s (p ∷ operations) n (f, a) =
      ((λ h. let m = f h in omega (arith, m, n)), later r s operations n a)

  chosen-IsNewest :
      (id : String) (row : Row) (operations : Dict String Row) (o : Option Row)
      → chosen row ≡ true
      → IsNewest operations o
      → IsNewest ((id, row) ∷ operations) (some (newer row o))
  chosen-IsNewest id row operations none c n =
      (c, inl refl, ((λ h. omega arith), none_later row operations n))
  chosen-IsNewest id row operations (some s) c (c', there, a) =
      elim (Bool-cases (leb s.received_at row.received_at)) [
        | inl h ↦
            subst (λ r. IsNewest ((id, row) ∷ operations) (some r)) (sym (newer_first row s h))
              (c, inl refl, ((λ h'. omega arith), later row s operations (ground arith) a))
        | inr h ↦
            subst (λ r. IsNewest ((id, row) ∷ operations) (some r)) (sym (newer_second row s h))
              (c', inr there, ((λ h'. ground arith), a))
      ]

  passed-IsNewest :
      (id : String) (row : Row) (operations : Dict String Row) (o : Option Row)
      → chosen row ≡ false
      → IsNewest operations o
      → IsNewest ((id, row) ∷ operations) o
  passed-IsNewest id row operations none c n = (c, n)
  passed-IsNewest id row operations (some s) c (c', there, a) =
      (c', inr there, ((λ h. absurd (cc)), a))

  pub newest-IsNewest : (operations : Dict String Row) → IsNewest operations (newest operations)
  unfolding select_rows by_receipt
  newest-IsNewest [] = tt
  newest-IsNewest ((id, row) ∷ operations) = elim (Bool-cases (chosen row)) [
    | inr other ↦
        rw (other, select_rows)
          (passed-IsNewest id row operations (newest operations) other (newest-IsNewest operations))
    | inl c ↦
        rw (c, select_rows)
          (subst (IsNewest ((id, row) ∷ operations)) (sym (top-put row _))
            (chosen-IsNewest id row operations (newest operations) c (newest-IsNewest operations)))
  ]
