-- ===== src/Reporter/Steady.antt =====
-- internal/agent/recovery/reporter.go: the bounds hold after any calls and flushes.
use nur_proxy.Reporter.Bounds.{settle_first-IsBounded, IsBounded}
use nur_proxy.Reporter.Order.{skip_lane}
use nur_proxy.Reporter.Delivery.{is_final}
use nur_proxy.Base.{
  ℕ, ◌≡◌, ◌∙◌, sym, refl, ap, true, false, String, string_eq, pair_eq, Option, none, some, List, [],
  ◌∷◌, ◌==◌, Bool-cases, inl, inr, arith, length, eq_iff,
}
use mathlib.Core.Path.{subst}
use nur_proxy.Reporter.{
  RecoveryReport, ReportKey, Dict, QueuedReport, OperationLane, report_operation_id,
}
use nur_proxy.Reporter.Flush.{
  settle_of, settle_first, Flusher, settle_item, Outcome, delivered, refused, failed, cancelled,
}
use nur_proxy.Reporter.Held.{Flight, grounded, in_front, a_snapshot, IsHeld}

-- A snapshot in the place of another one changes no count.
exchanged :
    (bound : ℕ) (item q : QueuedReport) (queue : List QueuedReport)
    (operations : Dict String OperationLane) (sent_order : List ReportKey)
    → report_operation_id item.report ≡ ""
    → report_operation_id q.report ≡ ""
    → IsHeld bound (q ∷ queue) operations sent_order
    → IsHeld bound (item ∷ queue) operations sent_order
exchanged bound item q queue operations sent_order e e' h = record {
  counted = λ id named.
      let other : (report_operation_id item.report == id) ≡ false =
        ground (arith, eq_iff id "", eq_iff (report_operation_id item.report) id, e, named) in
      let other' : (report_operation_id q.report == id) ≡ false =
        ground (arith, eq_iff id "", eq_iff (report_operation_id q.report) id, e', named) in
      h.counted id named
      ∙ ap length (skip_lane id q queue other' ∙ sym (skip_lane id item queue other));
  few_lanes = h.few_lanes;
  few_sent = h.few_sent;
  keyed = ((λ old. e), h.keyed.1);
}

abbrev front_of : QueuedReport → List QueuedReport → QueuedReport
front_of item [] = item
front_of item (q ∷ queue) = q

settle_final :
    (bound : ℕ) (outcome : Outcome) (item : QueuedReport) (queue : List QueuedReport) (f : Flusher)
    → is_final outcome ≡ true
    → f.reporter.limit ≡ bound
    → IsHeld bound queue f.reporter.operations f.reporter.sent_order
    → f.reporter.queue ≡ queue
    → Flight queue (some item)
    → IsBounded bound (settle_item outcome item queue f)
unfolding settle_item
settle_final bound outcome item [] f e l h q i = record {
  limited = l;
  held = subst (λ qs. IsHeld bound qs f.reporter.operations f.reporter.sent_order) (sym q) h;
  flight = grounded;
}
settle_final bound outcome item (q' ∷ queue) f e l h q i = elim (Bool-cases (q'.key == item.key)) [
  | inl same ↦
      rw (same, settle_item) (settle_first-IsBounded bound outcome item queue f e l (own i same))
  | inr differs ↦
      rw (differs, settle_item)
        (record {
          limited = l;
          held =
              subst (λ qs. IsHeld bound qs f.reporter.operations f.reporter.sent_order) (sym q) h;
          flight = grounded;
        })
]
  where
    own :
        Flight (q' ∷ queue) (some item)
        → (q'.key == item.key) ≡ true
        → IsHeld bound (item ∷ queue) f.reporter.operations f.reporter.sent_order
    own (in_front _ rest e) same =
        subst (λ qs. IsHeld bound qs f.reporter.operations f.reporter.sent_order)
          (ap (λ qs. front_of item qs ∷ queue) e) h
    own (a_snapshot _ old nameless) same =
        let k = (pair_eq.beq_iff q'.key item.key).0 same in
        exchanged bound item q' queue f.reporter.operations f.reporter.sent_order nameless
          (h.keyed.0 (ap (λ k'. k'.0 == "diagnostic-snapshot:") k ∙ old)) h

again :
    {bound left : ℕ} {f : Flusher} {reports : List RecoveryReport}
    → IsBounded bound f
    → IsBounded bound (record f { remaining = left; accepted_reports = reports })
again h = record { limited = h.limited; held = h.held; flight = h.flight }

settle_cancelled :
    (bound : ℕ) (item : QueuedReport) (queue : List QueuedReport) (f : Flusher)
    → IsBounded bound f
    → IsBounded bound (settle_item cancelled item queue f)
unfolding settle_item settle_first
settle_cancelled bound item [] f h = record {
  limited = h.limited;
  held = h.held;
  flight = grounded;
}
settle_cancelled bound item (q ∷ queue) f h = elim (Bool-cases (q.key == item.key)) [
  | inl e ↦ rw (e, settle_item) (record { limited = h.limited; held = h.held; flight = grounded })
  | inr e ↦ rw (e, settle_item) (record { limited = h.limited; held = h.held; flight = grounded })
]

pub settle-IsBounded :
    (bound : ℕ) (outcome : Outcome) (o : Option QueuedReport) (f : Flusher)
    → f.in_flight ≡ o
    → IsBounded bound f
    → IsBounded bound (settle_of outcome o f)
unfolding settle_of
settle-IsBounded bound outcome none f e h = h
settle-IsBounded bound delivered (some item) f e h = again (
    settle_final bound delivered item f.reporter.queue f refl h.limited h.held refl
      (subst (Flight f.reporter.queue) e h.flight))
settle-IsBounded bound refused (some item) f e h = again (
    settle_final bound refused item f.reporter.queue f refl h.limited h.held refl
      (subst (Flight f.reporter.queue) e h.flight))
settle-IsBounded bound failed (some item) f e h = again (
    settle_final bound failed item f.reporter.queue f refl h.limited h.held refl
      (subst (Flight f.reporter.queue) e h.flight))
settle-IsBounded bound cancelled (some item) f e h =
    again (settle_cancelled bound item f.reporter.queue f h)
