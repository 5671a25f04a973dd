-- ===== src/Reporter/Entering.antt =====
-- internal/agent/recovery/reporter.go: what `Enqueue` does to the lanes and to their counts.
use nur_proxy.Reporter.Order.{skip_lane, own_lane}
use nur_proxy.Reporter.Lists.{lane-append, lane, of_operation}
use nur_proxy.Reporter.Queue.{
  lane_of, add_to_lane, is_full, make_way, forget, push, supersede, strip,
}
use nur_proxy.Base.{
  ℕ, ◌≡◌, ◌≤◌, ◌∙◌, ◌⊎◌, sym, refl, ap, true, false, not, ◌&&◌, ◌||◌, String, string_eq, pair_eq,
  Option, none, some, List, [], ◌∷◌, ◌++◌, ◌==◌, if◌then◌else◌, Bool-cases, Option-cases, inl, inr,
  arith, length, eq_iff, All, All-append, length-append, leb,
}
use mathlib.Core.Path.{subst}
use nur_proxy.Dict.{Dict, lookup, insert}
use nur_proxy.Dict.Laws.{lookup-insert, length-insert, length-insert_old}
use nur_proxy.Reporter.{
  is_snapshot, RecoveryReport, BoundedReporter, ReportKey, QueuedReport, OperationLane,
  report_operation_id,
}
use nur_proxy.Reporter.Held.{is_old_snapshot, Keyed, Flight, grounded, in_front, a_snapshot, IsHeld}
use nur_proxy.Reporter.Lanes.{pending_of}

-- The snapshots that are taken out are of no operation.
lane-strip :
    (id : String)
    → (id == "") ≡ false
    → (queue : List QueuedReport) → lane id (strip queue).0 ≡ lane id queue
unfolding strip of_operation
lane-strip id named [] = refl
lane-strip id named (q ∷ queue) = ground (
  arith,
  eq_iff (report_operation_id q.report) "",
  eq_iff (report_operation_id q.report) id,
  named,
  lane-strip id named queue,
)

strip-Keyed : (queue : List QueuedReport) → All Keyed queue → All Keyed (strip queue).0
unfolding strip
strip-Keyed [] h = tt
strip-Keyed (q ∷ queue) (k, h) =
    elim (Bool-cases ((strip queue).2 || not (report_operation_id q.report == ""))) [
      | inl e ↦ rw (e, strip) (k, strip-Keyed queue h)
      | inr e ↦ elim (Bool-cases (is_old_snapshot q)) [
        | inl old ↦ rw (e, old, strip) (strip-Keyed queue h)
        | inr new ↦ rw (e, new, strip) (k, strip-Keyed queue h)
      ]
    ]

strip-front :
    (item : QueuedReport) (queue : List QueuedReport)
    → ((rest : List QueuedReport) × ((strip (item ∷ queue)).0 ≡ item ∷ rest))
      ⊎ (is_old_snapshot item ≡ true)
unfolding strip
strip-front item queue = elim (Bool-cases (is_old_snapshot item)) [
  | inl old ↦ inr old
  | inr new ↦ inl ((strip queue).0, ground (arith, new))
]

-- What a reporter keeps that does not concern diagnostics.
abbrev pub Same : BoundedReporter → BoundedReporter → Type 0
Same r r' = (r.limit ≡ r'.limit) × (r.operations ≡ r'.operations) × (r.sent_order ≡ r'.sent_order)

forget-Same : (removed : List QueuedReport) (r : BoundedReporter) → Same (forget removed r) r
unfolding forget
forget-Same [] r = (refl, refl, refl)
forget-Same (q ∷ removed) r = forget-Same removed _

supersede-Same : (r : BoundedReporter) → Same (supersede r) r
unfolding supersede
supersede-Same r = forget-Same (strip r.queue).1 r

supersede_queue : (r : BoundedReporter) → (supersede r).queue ≡ (strip r.queue).0
unfolding supersede
supersede_queue r = refl

pub make_way-Same : (report : RecoveryReport) (r : BoundedReporter) → Same (make_way report r) r
unfolding make_way
make_way-Same report r = elim (Bool-cases (is_snapshot report)) [
  | inl h ↦ rw (h, make_way) (supersede-Same _)
  | inr h ↦ rw (h, make_way) (refl, refl, refl)
]

pub make_way_queue :
    (report : RecoveryReport) (r : BoundedReporter)
    → ((make_way report r).queue ≡ (strip r.queue).0) ⊎ ((make_way report r).queue ≡ r.queue)
unfolding make_way
make_way_queue report r = elim (Bool-cases (is_snapshot report)) [
  | inl h ↦ rw (h, make_way) (inl (supersede_queue _))
  | inr h ↦ rw (h, make_way) (inr refl)
]

pub stripped-IsHeld :
    (bound : ℕ) (queue : List QueuedReport) (operations : Dict String OperationLane)
    (sent_order : List ReportKey)
    → IsHeld bound queue operations sent_order
    → IsHeld bound (strip queue).0 operations sent_order
stripped-IsHeld bound queue operations sent_order h = record {
  counted = λ id named. h.counted id named ∙ sym (ap length (lane-strip id named queue));
  few_lanes = h.few_lanes;
  few_sent = h.few_sent;
  keyed = strip-Keyed queue h.keyed;
}

pub strip-Flight :
    (queue : List QueuedReport) (o : Option QueuedReport)
    → All Keyed queue
    → Flight queue o
    → Flight (strip queue).0 o
strip-Flight queue none k grounded = grounded
strip-Flight queue (some _) k (a_snapshot item old nameless) = a_snapshot item old nameless
strip-Flight queue (some _) k (in_front item rest q) = elim (strip-front item rest) [
  | inl (rest', e) ↦ in_front item rest' (ap (λ xs. (strip xs).0) q ∙ e)
  | inr old ↦ a_snapshot item old ((subst (All Keyed) q k).0 old)
]

-- The lanes once an item is let in.
lanes_with : QueuedReport → Dict String OperationLane → Dict String OperationLane
lanes_with item operations =
    let id = report_operation_id item.report in
    if id == ""
    then operations
    else insert id (add_to_lane item.report (lane_of (lookup id operations))) operations

with_counted :
    (item : QueuedReport) (queue : List QueuedReport) (operations : Dict String OperationLane)
    (id : String)
    → (id == "") ≡ false
    → pending_of id operations ≡ length (lane id queue)
    → pending_of id (lanes_with item operations) ≡ length (lane id (queue ++ item ∷ []))
unfolding lanes_with add_to_lane of_operation
with_counted item queue operations id named h =
    let own = report_operation_id item.report in
    let new = add_to_lane item.report (lane_of (lookup own operations)) in
    let long =
      ap length (lane-append id queue (item ∷ []))
      ∙ length-append (lane id queue) (lane id (item ∷ [])) in
    elim (Bool-cases (own == id)) [
      | inl same ↦
          let e = (eq_iff own id).0 same in
          let nameless = subst (λ i. (i == "") ≡ false) (sym e) named in
          let more = lookup-insert id own new operations in
          rw nameless (
            ground (
              arith,
              same,
              h,
              long,
              more,
              ap (λ i. pending_of i operations) e,
              ap length (own_lane id item [] same),
            ))
      | inr differs ↦ ground (
        arith,
        differs,
        h,
        long,
        lookup-insert id own new operations,
        ap length (skip_lane id item [] differs),
      )
    ]

with_few :
    (bound : ℕ) (item : QueuedReport) (r : BoundedReporter)
    → r.limit ≡ bound
    → is_full item.report r ≡ false
    → length r.operations ≤ bound
    → length (lanes_with item r.operations) ≤ bound
unfolding lanes_with is_full
with_few bound item r l room h =
    let own = report_operation_id item.report in
    let new = add_to_lane item.report (lane_of (lookup own r.operations)) in
    elim (Bool-cases (own == "")) [
      | inl nameless ↦ rw nameless h
      | inr named ↦ elim (Option-cases (lookup own r.operations)) [
        | inl e ↦
            let room' : (true && leb r.limit (length r.operations)) ≡ false =
              rw (named, e) at room in
            rw named (ground (arith, l, room', length-insert own new r.operations))
        | inr (lane', e) ↦
            rw named (ground (arith, h, length-insert_old own new lane' r.operations e))
      ]
    ]

pub pushed-IsHeld :
    (bound : ℕ) (item : QueuedReport) (r : BoundedReporter)
    → r.limit ≡ bound
    → Keyed item
    → is_full item.report r ≡ false
    → IsHeld bound r.queue r.operations r.sent_order
    → IsHeld bound (push item r).queue (push item r).operations (push item r).sent_order
unfolding push lanes_with
pushed-IsHeld bound item r l k room h = record {
  counted = λ id named. with_counted item r.queue r.operations id named (h.counted id named);
  few_lanes = with_few bound item r l room h.few_lanes;
  few_sent = h.few_sent;
  keyed = All-append Keyed r.queue (item ∷ []) h.keyed (k, tt);
}
