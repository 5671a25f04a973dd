-- ===== src/Reporter/Admission.antt =====
-- internal/agent/recovery/reporter.go: `Enqueue` keeps the bounds.

use nur_proxy.Reporter.Entering.{
  strip-Flight, stripped-IsHeld, make_way_queue, make_way-Same, pushed-IsHeld,
}
use nur_proxy.Reporter.Bounds.{IsBounded}
use nur_proxy.Base.{
  ℕ, ◌≡◌, ◌∙◌, sym, refl, ap, Bool, true, false, String, string_eq, pair_eq, Option, none, some,
  List, [], ◌∷◌, ◌++◌, ◌==◌, Bool-cases, Option-cases, inl, inr, arith,
}
use mathlib.Core.Path.{subst}
use nur_proxy.Reporter.{
  ReportKey, BoundedReporter, QueuedReport, RecoveryReport, report_key, report_operation_id, is_nil,
  the_operation,
}
use nur_proxy.Reporter.Queue.{
  make_way, is_full, admit, verdict, push, Verdict, known, full, entered,
}
use nur_proxy.Reporter.Flush.{Flusher}
use nur_proxy.Reporter.Held.{Keyed, Flight, grounded, in_front, a_snapshot, IsHeld}
use nur_proxy.Wire.{items}
use nur_proxy.RecoveryModel.OperationState

pub made_way :
    (bound : ℕ) (report : RecoveryReport) (f : Flusher)
    → IsBounded bound f
    → IsBounded bound (record f { reporter = make_way report f.reporter })
made_way bound report f h =
    let (l, o, s) = make_way-Same report f.reporter in
    record {
      limited = l ∙ h.limited;
      held =
          subst
            (λ qs.
              IsHeld bound (make_way report f.reporter).queue qs
                (make_way report f.reporter).sent_order)
            (sym o)
            (subst (λ k. IsHeld bound (make_way report f.reporter).queue f.reporter.operations k)
              (sym s)
              (elim (make_way_queue report f.reporter) [
                | inl e ↦
                    subst (λ q. IsHeld bound q f.reporter.operations f.reporter.sent_order) (sym e)
                      (stripped-IsHeld bound f.reporter.queue f.reporter.operations
                        f.reporter.sent_order h.held)
                | inr e ↦
                    subst (λ q. IsHeld bound q f.reporter.operations f.reporter.sent_order) (sym e)
                      h.held
              ]));
      flight = elim (make_way_queue report f.reporter) [
        | inl e ↦
            subst (λ q. Flight q f.in_flight) (sym e)
              (strip-Flight f.reporter.queue f.in_flight h.held.keyed h.flight)
        | inr e ↦ subst (λ q. Flight q f.in_flight) (sym e) h.flight
      ];
    }

append-Flight :
    (item : QueuedReport) (queue : List QueuedReport) (o : Option QueuedReport)
    → Flight queue o
    → Flight (queue ++ item ∷ []) o
append-Flight item queue none grounded = grounded
append-Flight item queue (some _) (in_front i rest e) =
    in_front i (rest ++ item ∷ []) (ap (λ q. q ++ item ∷ []) e)
append-Flight item queue (some _) (a_snapshot i old e) = a_snapshot i old e

verdict-full :
    (item : QueuedReport) (r : BoundedReporter)
    → verdict item r ≡ entered
    → is_full item.report r ≡ false
unfolding verdict
verdict-full item r h = elim (Bool-cases (is_full item.report r)) [
  | inr e ↦ e
  | inl e ↦ ground (arith, e, h)
]

push_limit : (item : QueuedReport) (r : BoundedReporter) → (push item r).limit ≡ r.limit
unfolding push
push_limit item r = refl

push_queue :
    (item : QueuedReport) (r : BoundedReporter) → (push item r).queue ≡ r.queue ++ item ∷ []
unfolding push
push_queue item r = refl

pub admit-IsBounded :
    (bound : ℕ) (v : Verdict) (item : QueuedReport) (f : Flusher)
    → verdict item f.reporter ≡ v
    → Keyed item
    → IsBounded bound f
    → IsBounded bound (record f { reporter = (admit v item f.reporter).0 })
unfolding admit
admit-IsBounded bound known item f e k h = h
admit-IsBounded bound full item f e k h = h
admit-IsBounded bound entered item f e k h =
    pushed (pushed-IsHeld bound item f.reporter h.limited k (verdict-full item f.reporter e) h.held)
  where
    pushed :
        IsHeld bound
          (push item f.reporter).queue
          (push item f.reporter).operations
          (push item f.reporter).sent_order
        → IsBounded bound (record f { reporter = push item f.reporter })
    pushed h' = record {
      limited = push_limit item f.reporter ∙ h.limited;
      held = h';
      flight =
          subst (λ q. Flight q f.in_flight) (sym (push_queue item f.reporter))
            (append-Flight item f.reporter.queue f.in_flight h.flight);
    }

abbrev is_snapshot_key : Option ReportKey → Bool
is_snapshot_key none = false
is_snapshot_key (some key) = key.0 == "diagnostic-snapshot:"

-- A report of an operation has no snapshot's key.
pub keyed-operation :
    (decimal : ℕ → String) (report : RecoveryReport) (key : ReportKey)
    → report_key decimal report ≡ some key
    → (key.0 == "diagnostic-snapshot:") ≡ true
    → report_operation_id report ≡ ""
unfolding report_key report_operation_id
keyed-operation decimal report key h old = elim (Option-cases (the_operation report.operations)) [
  | inl e ↦ rw (e, report_operation_id) refl
  | inr (op, e) ↦
      let h' = (rw (e, report_key) at h) in
      elim (Bool-cases (is_nil (items report.diagnostics))) [
        | inl n ↦
            let h'' : some (("operation:", (op.operation_id, OperationState.name op.state)))
                ≡ some key =
              rw n at h' in
            (let clash : false ≡ (key.0 == "diagnostic-snapshot:") = ap is_snapshot_key h'' in
              absurd (cc))
        | inr n ↦ let h'' : none ≡ some key = rw n at h' in absurd (cc)
      ]
]
