-- ===== src/Reporter/Held.antt =====
-- internal/agent/recovery/reporter.go: what holds of the state of a reporter at any time.
use nur_proxy.Reporter.Queue.{lane_of}
use nur_proxy.Reporter.Order.{skip_lane, release_other, own_lane}
use nur_proxy.Reporter.Lists.{lane-append, lane}
use nur_proxy.Reporter.Flush.{quarantine, release_lane}
use nur_proxy.Base.{
  ℕ, suc, ◌*◌, ◌≡◌, ◌≤◌, ◌∙◌, refl, ap, Bool, true, false, String, string_eq, pair_eq, Option, none,
  some, List, [], ◌∷◌, ◌++◌, ◌==◌, Bool-cases, inl, inr, arith, length, eq_iff, All, All-append,
  length-append,
}
use nur_proxy.Dict.{Dict}
use nur_proxy.Reporter.{report_operation_id, ReportKey, QueuedReport, OperationLane}
use nur_proxy.Reporter.Lanes.{
  release_nameless, length-quarantine, quarantine_nameless, quarantine_pending, pending_of,
  release_pending, length-release_lane,
}

-- The key of an older snapshot, which a new one takes out.
abbrev pub is_old_snapshot : QueuedReport → Bool
is_old_snapshot q = q.key.0 == "diagnostic-snapshot:"

-- A snapshot is of no operation.
abbrev pub Keyed : QueuedReport → Type 0
Keyed q = is_old_snapshot q ≡ true → report_operation_id q.report ≡ ""

-- The item that is being sent is at the front of the queue, or it was a snapshot.
pub data Flight (queue : List QueuedReport) : Option QueuedReport → Type 0 where
  grounded : Flight queue none
  in_front :
      (item : QueuedReport) (rest : List QueuedReport)
      → queue ≡ item ∷ rest
      → Flight queue (some item)
  a_snapshot :
      (item : QueuedReport)
      → is_old_snapshot item ≡ true
      → report_operation_id item.report ≡ ""
      → Flight queue (some item)

-- Each lane counts the reports of its operation in the queue, and there are no more lanes and
-- delivered keys than the limit allows.
pub record IsHeld (bound : ℕ) (queue : List QueuedReport) (operations : Dict String OperationLane)
    (sent_order : List ReportKey) : Type 0 where
  pub counted :
      (id : String) → (id == "") ≡ false → pending_of id operations ≡ length (lane id queue)
  pub few_lanes : length operations ≤ bound
  pub few_sent : length sent_order ≤ bound * 8
  pub keyed : All Keyed queue

pub rotated-IsHeld :
    (bound : ℕ) (item : QueuedReport) (queue : List QueuedReport)
    (operations : Dict String OperationLane) (sent_order : List ReportKey)
    → IsHeld bound (item ∷ queue) operations sent_order
    → IsHeld bound (queue ++ item ∷ []) operations sent_order
rotated-IsHeld bound item queue operations sent_order h = record {
  counted = λ id named. h.counted id named ∙ length-rotated id item queue;
  few_lanes = h.few_lanes;
  few_sent = h.few_sent;
  keyed = All-append Keyed queue (item ∷ []) h.keyed.1 (h.keyed.0, tt);
}
  where
    length-rotated :
        (id : String) (item : QueuedReport) (queue : List QueuedReport)
        → length (lane id (item ∷ queue)) ≡ length (lane id (queue ++ item ∷ []))
    length-rotated id item queue = omega (
      arith,
      ap length (lane-append id (item ∷ []) queue),
      ap length (lane-append id queue (item ∷ [])),
      length-append (lane id (item ∷ [])) (lane id queue),
      length-append (lane id queue) (lane id (item ∷ [])),
    )

-- The first of the queue has a lane that counts it.
pub first_counted :
    (bound : ℕ) (item : QueuedReport) (queue : List QueuedReport)
    (operations : Dict String OperationLane) (sent_order : List ReportKey)
    → IsHeld bound (item ∷ queue) operations sent_order
    → (report_operation_id item.report == "") ≡ false
    → pending_of (report_operation_id item.report) operations
      ≡ suc (length (lane (report_operation_id item.report) queue))
first_counted bound item queue operations sent_order h named =
    let id = report_operation_id item.report in
    h.counted id named ∙ ap length (own_lane id item queue ((eq_iff id id).1 refl))

pub quarantined-IsHeld :
    (bound : ℕ) (item : QueuedReport) (queue : List QueuedReport)
    (operations : Dict String OperationLane) (sent_order : List ReportKey)
    → IsHeld bound (item ∷ queue) operations sent_order
    → IsHeld bound
        (item ∷ queue)
        (quarantine (report_operation_id item.report) operations)
        sent_order
quarantined-IsHeld bound item queue operations sent_order h = record {
  counted = λ id named.
      quarantine_pending (report_operation_id item.report) id operations ∙ h.counted id named;
  few_lanes = elim (Bool-cases (report_operation_id item.report == "")) [
    | inl nameless ↦ omega (
      arith,
      h.few_lanes,
      ap length (quarantine_nameless (report_operation_id item.report) operations nameless),
    )
    | inr named ↦ ground (
      arith,
      h.few_lanes,
      length-quarantine (report_operation_id item.report) operations _
          (first_counted bound item queue operations sent_order h named),
    )
  ];
  few_sent = h.few_sent;
  keyed = h.keyed;
}

pub released-IsHeld :
    (bound : ℕ) (item : QueuedReport) (queue : List QueuedReport)
    (operations : Dict String OperationLane) (sent_order : List ReportKey)
    → IsHeld bound (item ∷ queue) operations sent_order
    → IsHeld bound queue (release_lane (report_operation_id item.report) operations) sent_order
released-IsHeld bound item queue operations sent_order h = record {
  counted = λ id named. elim (Bool-cases (report_operation_id item.report == id)) [
    | inl same ↦
        let e = (eq_iff (report_operation_id item.report) id).0 same in
        omega (
          arith,
          h.counted id named,
          ap length (own_lane id item queue same),
          release_pending id operations named,
          ap (λ i. pending_of id (release_lane i operations)) e,
        )
    | inr differs ↦
        ap (λ o. (lane_of o).pending)
          (release_other (report_operation_id item.report) id operations differs)
        ∙ h.counted id named
        ∙ ap length (skip_lane id item queue differs)
  ];
  few_lanes = elim (Bool-cases (report_operation_id item.report == "")) [
    | inl nameless ↦ omega (
      arith,
      h.few_lanes,
      ap length (release_nameless (report_operation_id item.report) operations nameless),
    )
    | inr named ↦ ground (
      arith,
      h.few_lanes,
      length-release_lane (report_operation_id item.report) operations _
          (first_counted bound item queue operations sent_order h named),
    )
  ];
  few_sent = h.few_sent;
  keyed = h.keyed.1;
}
