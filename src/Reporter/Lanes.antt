-- ===== src/Reporter/Lanes.antt =====
-- internal/agent/recovery/reporter.go: the counts of the lanes.
use nur_proxy.Reporter.Order.{quarantine_other}
use nur_proxy.Reporter.Queue.{lane_of}
use nur_proxy.Reporter.Flush.{quarantine, release_lane}
use nur_proxy.Base.{
  ℕ, suc, ◌-◌, ◌≡◌, ◌≤◌, refl, ap, true, false, String, string_eq, pair_eq, some, ◌==◌, Bool-cases,
  Option-cases, inl, inr, arith, length, eq_iff,
}
use nur_proxy.Dict.{Dict, lookup}
use nur_proxy.Dict.Laws.{lookup-insert, lookup-delete, length-insert_old, length-delete}
use nur_proxy.Reporter.{OperationLane}

-- What the lane of an operation counts.
abbrev pub pending_of : String → Dict String OperationLane → ℕ
pending_of id operations = (lane_of (lookup id operations)).pending

-- The lane of an operation that has reports is there.
pub has_lane :
    (id : String) (operations : Dict String OperationLane) (n : ℕ)
    → pending_of id operations ≡ suc n
    → (l : OperationLane) × (lookup id operations ≡ some l)
has_lane id operations n h = elim (Option-cases (lookup id operations)) [
  | inl e ↦
      (let zero_pending = ap (λ o. (lane_of o).pending) e in
        absurd (omega (arith, h, zero_pending)))
  | inr (l, e) ↦ (l, e)
]

pub release_pending :
    (id : String) (operations : Dict String OperationLane)
    → (id == "") ≡ false
    → pending_of id (release_lane id operations) ≡ pending_of id operations - 1
unfolding release_lane
release_pending id operations named =
    let same : (id == id) ≡ true = (eq_iff id id).1 refl in
    let lane = lane_of (lookup id operations) in
    ground (
      arith,
      same,
      named,
      lookup-insert id id (record lane { pending = lane.pending - 1 }) operations,
      lookup-delete id id operations,
    )

pub release_nameless :
    (id : String) (operations : Dict String OperationLane)
    → (id == "") ≡ true
    → release_lane id operations ≡ operations
unfolding release_lane
release_nameless id operations h = rw h refl

pub length-release_lane :
    (id : String) (operations : Dict String OperationLane) (n : ℕ)
    → pending_of id operations ≡ suc n
    → length (release_lane id operations) ≤ length operations
unfolding release_lane
length-release_lane id operations n h =
    let lane = lane_of (lookup id operations) in
    let (l, e) = has_lane id operations n h in
    ground (
      arith,
      length-insert_old id (record lane { pending = lane.pending - 1 }) l operations e,
      length-delete id operations,
    )

pub quarantine_pending :
    (id id' : String) (operations : Dict String OperationLane)
    → pending_of id' (quarantine id operations) ≡ pending_of id' operations
unfolding quarantine
quarantine_pending id id' operations = elim (Bool-cases (id == id')) [
  | inl h ↦
      let e = (eq_iff id id').0 h in
      ground (
        arith,
        h,
        ap (λ i. pending_of i operations) e,
        lookup-insert id' id (record (lane_of (lookup id operations)) { quarantined = true })
            operations,
      )
  | inr h ↦ ap (λ o. (lane_of o).pending) (quarantine_other id id' operations h)
]

pub quarantine_nameless :
    (id : String) (operations : Dict String OperationLane)
    → (id == "") ≡ true
    → quarantine id operations ≡ operations
unfolding quarantine
quarantine_nameless id operations h = rw h refl

pub length-quarantine :
    (id : String) (operations : Dict String OperationLane) (n : ℕ)
    → pending_of id operations ≡ suc n
    → length (quarantine id operations) ≤ length operations
unfolding quarantine
length-quarantine id operations n h =
    let (l, e) = has_lane id operations n h in
    ground (
      arith,
      length-insert_old id (record (lane_of (lookup id operations)) { quarantined = true }) l
          operations e,
    )
