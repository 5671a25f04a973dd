-- ===== src/Reporter/Order.antt =====
-- internal/agent/recovery/reporter.go: the reports of an operation go out in the order in which they
-- came in.
use nur_proxy.Base.{
  ◌-◌, ◌≡◌, ◌∙◌, sym, refl, ap, Bool, true, false, ◌||◌, String, string_eq, pair_eq, List, [], ◌∷◌,
  ◌++◌, ◌==◌, Bool-cases, inl, inr, arith, any,
}
use mathlib.Core.List.{append_assoc, append-nil}
use nur_proxy.Dict.{Dict, lookup}
use nur_proxy.Dict.Laws.{lookup-insert, lookup-delete}
use nur_proxy.Wire.{RecoveryReport}
use nur_proxy.Reporter.{QueuedReport, OperationLane, is_set, report_operation_id}
use nur_proxy.Reporter.Queue.{lane_of}
use nur_proxy.Reporter.Flush.{release_lane, quarantine}
use nur_proxy.Reporter.Lists.{of_operation, lane, of_operation-append, lane-append}

-- An operation of which no report is sent in this flush any more.
abbrev pub waits : String → List String → Dict String OperationLane → Bool
waits id blocked operations =
    any (λ b. b == id) blocked || (lane_of (lookup id operations)).quarantined

-- An item that bears no diagnostics.
abbrev pub Plain : QueuedReport → Type 0
Plain q = (is_set q.report.diagnostics ≡ false) × (q.diagnostic_seq ≡ 0)

-- The queue of a flush: what it has not visited yet stands before what it has put back, and no
-- operation that may still be sent has a report that was put back.
pub record Turn (admitted accepted : List RecoveryReport) (blocked : List String)
    (operations : Dict String OperationLane) (rest back : List QueuedReport) : Type 0 where
  pub in_order :
      (id : String)
      → (id == "") ≡ false
      → of_operation id admitted ≡ of_operation id accepted ++ lane id (back ++ rest)
  pub free :
      (id : String) → (id == "") ≡ false → waits id blocked operations ≡ false → lane id back ≡ []

other_lane :
    (id : String) (item : QueuedReport)
    → (report_operation_id item.report == id) ≡ false
    → lane id (item ∷ []) ≡ []
unfolding of_operation
other_lane id item h = rw h refl

pub own_lane :
    (id : String) (item : QueuedReport) (queue : List QueuedReport)
    → (report_operation_id item.report == id) ≡ true
    → lane id (item ∷ queue) ≡ item.report ∷ lane id queue
unfolding of_operation
own_lane id item queue h = rw h refl

pub skip_lane :
    (id : String) (item : QueuedReport) (queue : List QueuedReport)
    → (report_operation_id item.report == id) ≡ false
    → lane id (item ∷ queue) ≡ lane id queue
unfolding of_operation
skip_lane id item queue h = rw h refl

-- An item whose operation has to wait, or which has none, goes to the back.
append_other :
    (id : String) (item : QueuedReport) (queue : List QueuedReport)
    → (report_operation_id item.report == id) ≡ false
    → lane id (queue ++ item ∷ []) ≡ lane id queue
append_other id item queue h =
    lane-append id queue (item ∷ [])
    ∙ ap (λ xs. lane id queue ++ xs) (other_lane id item h)
    ∙ append-nil (lane id queue)

pub put_back-Turn :
    (admitted accepted : List RecoveryReport) (blocked blocked' : List String)
    (operations operations' : Dict String OperationLane) (item : QueuedReport)
    (rest back : List QueuedReport)
    → Turn admitted accepted blocked operations (item ∷ rest) back
    → ((id : String)
        → (id == "") ≡ false
        → waits id blocked' operations' ≡ false
        → ((report_operation_id item.report == id) ≡ false) × (waits id blocked operations ≡ false))
    → Turn admitted accepted blocked' operations' rest (back ++ item ∷ [])
put_back-Turn admitted accepted blocked blocked' operations operations' item rest back t other =
    record {
      in_order = λ id named.
          t.in_order id named
          ∙ ap (λ q. of_operation id accepted ++ lane id q)
              (sym (append_assoc back (item ∷ []) rest));
      free = λ id named w.
          let (differs, still) = other id named w in
          append_other id item back differs ∙ t.free id named still;
    }

-- An item that was delivered: no other report of its operation is behind it.
pub deliver-Turn :
    (admitted accepted : List RecoveryReport) (blocked : List String)
    (operations operations' : Dict String OperationLane) (item : QueuedReport)
    (rest back : List QueuedReport)
    → Turn admitted accepted blocked operations (item ∷ rest) back
    → ((id : String)
        → (id == "") ≡ false
        → (report_operation_id item.report == id) ≡ true
        → lane id back ≡ [])
    → ((id : String)
        → (id == "") ≡ false
        → (report_operation_id item.report == id) ≡ false
        → waits id blocked operations' ≡ false
        → waits id blocked operations ≡ false)
    → Turn admitted (accepted ++ item.report ∷ []) blocked operations' rest back
unfolding of_operation
deliver-Turn admitted accepted blocked operations operations' item rest back t own other = record {
  in_order = λ id named. elim (Bool-cases (report_operation_id item.report == id)) [
    | inl h ↦
        t.in_order id named
        ∙ ap (λ xs. of_operation id accepted ++ xs) (first_out id (own id named h) h)
        ∙ taken_out id h
    | inr h ↦
        t.in_order id named
        ∙ ap (λ xs. of_operation id accepted ++ xs) (others_stay id h)
        ∙ ap (λ xs. xs ++ lane id (back ++ rest)) (sym (accepted_same id h))
  ];
  free = λ id named w. elim (Bool-cases (report_operation_id item.report == id)) [
    | inl h ↦ own id named h
    | inr h ↦ t.free id named (other id named h w)
  ];
}
  where
    first_out :
        (id : String)
        → lane id back ≡ []
        → (report_operation_id item.report == id) ≡ true
        → lane id (back ++ item ∷ rest) ≡ item.report ∷ lane id (back ++ rest)
    first_out id e h =
        lane-append id back (item ∷ rest)
        ∙ ap (λ xs. xs ++ lane id (item ∷ rest)) e
        ∙ own_lane id item rest h
        ∙ ap (λ xs. item.report ∷ xs)
            (sym (lane-append id back rest ∙ ap (λ xs. xs ++ lane id rest) e))

    others_stay :
        (id : String)
        → (report_operation_id item.report == id) ≡ false
        → lane id (back ++ item ∷ rest) ≡ lane id (back ++ rest)
    others_stay id h =
        lane-append id back (item ∷ rest)
        ∙ ap (λ xs. lane id back ++ xs) (skip_lane id item rest h)
        ∙ sym (lane-append id back rest)

    accepted_same :
        (id : String)
        → (report_operation_id item.report == id) ≡ false
        → of_operation id (accepted ++ item.report ∷ []) ≡ of_operation id accepted
    accepted_same id h =
        of_operation-append id accepted (item.report ∷ [])
        ∙ ap (λ xs. of_operation id accepted ++ xs) (other_lane id item h)
        ∙ append-nil (of_operation id accepted)

    taken_out :
        (id : String)
        → (report_operation_id item.report == id) ≡ true
        → of_operation id accepted ++ item.report ∷ lane id (back ++ rest)
          ≡ of_operation id (accepted ++ item.report ∷ []) ++ lane id (back ++ rest)
    taken_out id h =
        sym (append_assoc (of_operation id accepted) (item.report ∷ []) (lane id (back ++ rest)))
        ∙ ap (λ xs. xs ++ lane id (back ++ rest))
            (sym (
              of_operation-append id accepted (item.report ∷ [])
              ∙ ap (λ xs. of_operation id accepted ++ xs) (own_lane id item [] h)))

-- The lanes of other operations.
pub release_other :
    (id id' : String) (operations : Dict String OperationLane)
    → (id == id') ≡ false
    → lookup id' (release_lane id operations) ≡ lookup id' operations
unfolding release_lane
release_other id id' operations h = ground (
  arith,
  lookup-insert id' id
      (record (lane_of (lookup id operations)) {
        pending = (lane_of (lookup id operations)).pending - 1;
      })
      operations,
  lookup-delete id' id operations,
)

pub quarantine_other :
    (id id' : String) (operations : Dict String OperationLane)
    → (id == id') ≡ false
    → lookup id' (quarantine id operations) ≡ lookup id' operations
unfolding quarantine
quarantine_other id id' operations h = ground (
  arith,
  lookup-insert id' id (record (lane_of (lookup id operations)) { quarantined = true }) operations,
)
