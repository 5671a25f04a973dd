-- ===== src/Reporter/Fifo.antt =====
-- internal/agent/recovery/reporter.go: the order of the reports of an operation, step by step.
use nur_proxy.Base.{
  ℕ, suc, ◌≡◌, sym, refl, ap, Bool, true, false, not, ◌&&◌, ◌||◌, String, string_eq, pair_eq, none,
  some, List, [], ◌∷◌, ◌++◌, ◌==◌, if◌then◌else◌, Bool-cases, inl, inr, arith, length, any, eq_iff,
  All, All-append,
}
use mathlib.Core.Path.{subst}
use mathlib.Core.List.{append_assoc}
use nur_proxy.Dict.{Dict, lookup}
use nur_proxy.Wire.{RecoveryReport}
use nur_proxy.Reporter.{QueuedReport, OperationLane, BoundedReporter, report_operation_id}
use nur_proxy.Reporter.Queue.{lane_of}
use nur_proxy.Reporter.Flush.{Flusher, pick, held_back, release_lane, quarantine, block}
use nur_proxy.Reporter.Lists.{of_operation, lane}
use nur_proxy.Reporter.Order.{waits, Plain, Turn, put_back-Turn, release_other, quarantine_other}

-- Where a flush stands, and the order of the reports there.
pub data Stage (admitted : List RecoveryReport) (f : Flusher) : Type 0 where
  resting :
      f.remaining ≡ 0
      → f.in_flight ≡ none
      → ((id : String)
          → (id == "") ≡ false
          → of_operation id admitted
            ≡ of_operation id f.accepted_reports ++ lane id f.reporter.queue)
      → Stage admitted f
  turning :
      f.in_flight ≡ none
      → (rest back : List QueuedReport) → f.reporter.queue ≡ rest ++ back
      → f.remaining ≡ length rest
      → Turn admitted f.accepted_reports f.blocked f.reporter.operations rest back
      → Stage admitted f
  sending :
      (item : QueuedReport) (rest back : List QueuedReport)
      → f.in_flight ≡ some item
      → f.reporter.queue ≡ item ∷ rest ++ back
      → f.remaining ≡ length rest
      → Turn admitted f.accepted_reports f.blocked f.reporter.operations (item ∷ rest) back
      → ((report_operation_id item.report == "") ≡ false
          → waits (report_operation_id item.report) f.blocked f.reporter.operations ≡ false)
      → Stage admitted f

pub record IsOrdered (admitted : List RecoveryReport) (f : Flusher) : Type 0 where
  pub plain : All Plain f.reporter.queue
  pub no_pending : f.reporter.diagnostic_pending ≡ []
  pub stage : Stage admitted f

held_waits :
    (r : BoundedReporter) (blocked : List String) (item : QueuedReport)
    → Plain item
    → r.diagnostic_pending ≡ []
    → held_back r blocked item ≡ (
        not (report_operation_id item.report == "")
        && waits (report_operation_id item.report) blocked r.operations)
unfolding held_back lookup
held_waits r blocked item (d, q) n = rw n (rw q (ground arith))

-- An operation that does not wait is not one that does.
not_own :
    (item id : String) (blocked : List String) (operations : Dict String OperationLane)
    → waits item blocked operations ≡ true
    → waits id blocked operations ≡ false
    → ((item == id) ≡ false) × (waits id blocked operations ≡ false)
not_own item id blocked operations h w = elim (Bool-cases (item == id)) [
  | inr differs ↦ (differs, w)
  | inl same ↦ let e = ap (λ i. waits i blocked operations) ((eq_iff item id).0 same) in absurd (cc)
]

pub picked :
    (admitted : List RecoveryReport) (f : Flusher) (rest back : List QueuedReport) (left : ℕ)
    → All Plain (rest ++ back)
    → f.reporter.diagnostic_pending ≡ []
    → f.in_flight ≡ none
    → f.reporter.queue ≡ rest ++ back
    → suc left ≡ length rest
    → Turn admitted f.accepted_reports f.blocked f.reporter.operations rest back
    → IsOrdered admitted (pick (rest ++ back) left f)
unfolding pick
picked admitted f [] back left p n o q l t = absurd (omega (arith, l))
picked admitted f (item ∷ rest) back left (pi, p) n o q l t =
    let e = held_waits f.reporter f.blocked item pi n in
    elim (Bool-cases (held_back f.reporter f.blocked item)) [
      | inl h ↦
          rw (h, pick)
            (record {
              plain = All-append Plain (rest ++ back) (item ∷ []) p (pi, tt);
              no_pending = n;
              stage =
                  turning o rest (back ++ item ∷ []) (append_assoc rest back (item ∷ []))
                    (omega (arith, l))
                    (put_back-Turn admitted f.accepted_reports f.blocked f.blocked
                      f.reporter.operations f.reporter.operations item rest back t
                      (λ id named w.
                        not_own (report_operation_id item.report) id f.blocked f.reporter.operations
                          ((ground (arith, e, h))) w));
            })
      | inr h ↦
          rw (h, pick)
            (record {
              plain = subst (All Plain) (sym q) (pi, p);
              no_pending = n;
              stage =
                  sending item rest back refl q (omega (arith, l)) t
                    (λ named. ground (arith, e, h, named));
            })
    ]

block-any :
    (item id : String) (blocked : List String)
    → (id == "") ≡ false
    → any (λ b. b == id) (block item blocked) ≡ false
    → ((item == id) ≡ false) × (any (λ b. b == id) blocked ≡ false)
block-any item id blocked named h = elim (Bool-cases (item == "")) [
  | inl e ↦ (ground (arith, eq_iff item "", eq_iff item id), rw e at h)
  | inr e ↦
      let h' : (item == id || any (λ b. b == id) blocked) ≡ false = rw e at h in ground (arith, h')
]

-- What blocks or quarantines an operation leaves the others as they were.
pub quarantined_others :
    (refused_item : Bool) (item id : String) (blocked : List String)
    (operations : Dict String OperationLane)
    → (id == "") ≡ false
    → waits id
        (block item blocked)
        (if refused_item then quarantine item operations else operations)
      ≡ false
    → ((item == id) ≡ false) × (waits id blocked operations ≡ false)
quarantined_others true item id blocked operations named w =
    let (differs, free) = block-any item id blocked named (ground (arith, w)) in
    let e = ap (λ o. (lane_of o).quarantined) (quarantine_other item id operations differs) in
    (differs, ground (arith, w, e, free))
quarantined_others false item id blocked operations named w =
    let (differs, free) = block-any item id blocked named (ground (arith, w)) in
    (differs, ground (arith, w, free))

pub released_others :
    (item id : String) (blocked : List String) (operations : Dict String OperationLane)
    → (item == id) ≡ false
    → waits id blocked (release_lane item operations) ≡ false
    → waits id blocked operations ≡ false
released_others item id blocked operations differs w =
    let e = ap (λ o. (lane_of o).quarantined) (release_other item id operations differs) in
    ground (arith, w, e)
