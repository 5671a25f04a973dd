-- ===== src/Reporter/Delivery.antt =====
-- internal/agent/recovery/reporter.go: what the orchestrator gets of an operation, and in which order.
use nur_proxy.Base.{
  ℕ, zero, suc, ◌≡◌, ◌∙◌, sym, refl, Bool, true, false, string_eq, pair_eq, Option, none, some,
  List, [], ◌∷◌, ◌++◌, ◌==◌, length, eq_iff, All, All-append,
}
use mathlib.Core.Path.{subst}
use mathlib.Core.List.{append_assoc}
use nur_proxy.Wire.{RecoveryReport}
use nur_proxy.Reporter.{QueuedReport, report_operation_id}
use nur_proxy.Reporter.Flush.{
  Outcome, delivered, refused, failed, cancelled, Flusher, pick, next_of, settle_of, settle_item,
  settle_first, deliver, put_back, trim_sent, taken, left_after, release_lane,
}
use nur_proxy.Reporter.Order.{waits, Plain, Turn, put_back-Turn, deliver-Turn}
use nur_proxy.Reporter.Fifo.{
  resting, turning, sending, IsOrdered, picked, quarantined_others, released_others,
}

-- An outcome that does not break the flush off.
abbrev pub is_final : Outcome → Bool
is_final cancelled = false
is_final _ = true

settled_first :
    (admitted : List RecoveryReport) (f : Flusher) (outcome : Outcome) (item : QueuedReport)
    (rest back : List QueuedReport)
    → is_final outcome ≡ true
    → All Plain (item ∷ rest ++ back)
    → f.reporter.diagnostic_pending ≡ []
    → f.remaining ≡ length rest
    → Turn admitted f.accepted_reports f.blocked f.reporter.operations (item ∷ rest) back
    → ((report_operation_id item.report == "") ≡ false
        → waits (report_operation_id item.report) f.blocked f.reporter.operations ≡ false)
    → IsOrdered admitted (record (settle_first outcome item (rest ++ back) f) {
      remaining = left_after outcome f.remaining;
      accepted_reports = taken outcome item f.accepted_reports;
    })
unfolding settle_first deliver put_back trim_sent
settled_first admitted f delivered item rest back final (pi, p) n l t calm_item = record {
  plain = p;
  no_pending = rw pi.0 n;
  stage = turning refl rest back refl l (
      deliver-Turn admitted f.accepted_reports f.blocked f.reporter.operations
        (release_lane (report_operation_id item.report) f.reporter.operations) item rest back t
        (λ id named same.
          let e = (eq_iff (report_operation_id item.report) id).0 same in
          t.free id named (
            subst (λ i. (i == "") ≡ false → waits i f.blocked f.reporter.operations ≡ false) e
              calm_item named))
        (λ id named differs w.
          released_others (report_operation_id item.report) id f.blocked f.reporter.operations
            differs w));
}
settled_first admitted f refused item rest back final (pi, p) n l t calm_item = record {
  plain = All-append Plain (rest ++ back) (item ∷ []) p (pi, tt);
  no_pending = n;
  stage = turning refl rest (back ++ item ∷ []) (append_assoc rest back (item ∷ [])) l (
      put_back-Turn admitted f.accepted_reports f.blocked _ f.reporter.operations _ item rest back t
        (λ id named w.
          quarantined_others true (report_operation_id item.report) id f.blocked
            f.reporter.operations named w));
}
settled_first admitted f failed item rest back final (pi, p) n l t calm_item = record {
  plain = All-append Plain (rest ++ back) (item ∷ []) p (pi, tt);
  no_pending = n;
  stage = turning refl rest (back ++ item ∷ []) (append_assoc rest back (item ∷ [])) l (
      put_back-Turn admitted f.accepted_reports f.blocked _ f.reporter.operations _ item rest back t
        (λ id named w.
          quarantined_others false (report_operation_id item.report) id f.blocked
            f.reporter.operations named w));
}
settled_first admitted f cancelled item rest back final p n l t calm_item = absurd (cc)

settled_item :
    (admitted : List RecoveryReport) (f : Flusher) (outcome : Outcome) (item : QueuedReport)
    (rest back : List QueuedReport)
    → is_final outcome ≡ true
    → IsOrdered admitted f
    → f.reporter.queue ≡ item ∷ rest ++ back
    → f.remaining ≡ length rest
    → Turn admitted f.accepted_reports f.blocked f.reporter.operations (item ∷ rest) back
    → ((report_operation_id item.report == "") ≡ false
        → waits (report_operation_id item.report) f.blocked f.reporter.operations ≡ false)
    → IsOrdered admitted (settle_of outcome (some item) f)
unfolding settle_of settle_item
settled_item admitted f outcome item rest back final o q l t calm_item =
    let same : (item.key == item.key) ≡ true = (pair_eq.beq_iff item.key item.key).1 refl in
    let first =
      settled_first admitted f outcome item rest back final (subst (All Plain) q o.plain)
        o.no_pending l t calm_item in
    subst
      (λ qs. IsOrdered admitted (record (settle_item outcome item qs f) {
        remaining = left_after outcome f.remaining;
        accepted_reports = taken outcome item f.accepted_reports;
      }))
      (sym q) (rw same first)

pub settle-IsOrdered :
    (admitted : List RecoveryReport) (outcome : Outcome) (o : Option QueuedReport) (f : Flusher)
    → f.in_flight ≡ o
    → is_final outcome ≡ true
    → IsOrdered admitted f
    → IsOrdered admitted (settle_of outcome o f)
unfolding settle_of
settle-IsOrdered admitted outcome none f h final o = o
settle-IsOrdered admitted outcome (some item) f h final o = elim o.stage [
  | resting z e order ↦ absurd (cc)
  | turning e rest back q l t ↦ absurd (cc)
  | sending item' rest back e q l t c ↦
      subst (λ i. IsOrdered admitted (settle_of outcome (some i) f))
        ((let both : some item' ≡ some item = sym e ∙ h in cc))
        (settled_item admitted f outcome item' rest back final o q l t c)
]

pub next-IsOrdered :
    (admitted : List RecoveryReport) (o : Option QueuedReport) (left : ℕ) (f : Flusher)
    → f.in_flight ≡ o
    → f.remaining ≡ left
    → IsOrdered admitted f
    → IsOrdered admitted (next_of o left f)
unfolding next_of
next-IsOrdered admitted (some item) left f h k o = o
next-IsOrdered admitted none zero f h k o = o
next-IsOrdered admitted none (suc left) f h k o = elim o.stage [
  | resting z e order ↦ absurd (cc)
  | sending item rest back e q l t c ↦ absurd (cc)
  | turning e rest back q l t ↦
      subst (λ qs. IsOrdered admitted (pick qs left f)) (sym q)
        (picked admitted f rest back left (subst (All Plain) q o.plain) o.no_pending e q (sym k ∙ l)
          t)
]
