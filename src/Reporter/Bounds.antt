-- ===== src/Reporter/Bounds.antt =====
-- internal/agent/recovery/reporter.go: the counts and the bounds of a reporter in any run.
use nur_proxy.Reporter.Delivery.{is_final}
use nur_proxy.Base.{
  ℕ, zero, suc, ◌+◌, ◌*◌, ◌≡◌, ◌≤◌, sym, true, string_eq, pair_eq, Option, none, some, List, [],
  ◌∷◌, ◌++◌, if◌then◌else◌, Bool-cases, inl, inr, arith, length, length-append, ltb,
}
use mathlib.Core.Path.{subst}
use nur_proxy.Reporter.{ReportKey, BoundedReporter, QueuedReport}
use nur_proxy.Reporter.Flush.{
  held_back, pick, put_back, deliver, next_of, trim_sent, drop_first, settle_first, Flusher, begin,
  Outcome, delivered, refused, failed, cancelled,
}
use nur_proxy.Reporter.Run.{idle}
use nur_proxy.Reporter.Held.{
  quarantined-IsHeld, rotated-IsHeld, released-IsHeld, Flight, grounded, in_front, IsHeld,
}

pub record IsBounded (bound : ℕ) (f : Flusher) : Type 0 where
  pub limited : f.reporter.limit ≡ bound
  pub held : IsHeld bound f.reporter.queue f.reporter.operations f.reporter.sent_order
  pub flight : Flight f.reporter.queue f.in_flight

pub begin-IsBounded : (bound : ℕ) (f : Flusher) → IsBounded bound f → IsBounded bound (begin f)
unfolding begin
begin-IsBounded bound f h = elim (Bool-cases (idle f)) [
  | inl e ↦ rw (e, begin) (record { limited = h.limited; held = h.held; flight = h.flight })
  | inr e ↦ rw (e, begin) h
]

pub next-IsBounded :
    (bound : ℕ) (o : Option QueuedReport) (left : ℕ) (queue : List QueuedReport) (f : Flusher)
    → f.in_flight ≡ o
    → f.reporter.queue ≡ queue
    → IsBounded bound f
    → IsBounded bound (next_of o left f)
unfolding next_of pick
next-IsBounded bound (some item) left queue f e q h = h
next-IsBounded bound none zero queue f e q h = h
next-IsBounded bound none (suc left) [] f e q h =
    subst (λ qs. IsBounded bound (pick qs left f)) (sym q)
      (record { limited = h.limited; held = h.held; flight = h.flight })
next-IsBounded bound none (suc left) (item ∷ queue) f e q h =
    let front =
      subst (λ qs. IsHeld bound qs f.reporter.operations f.reporter.sent_order) q h.held in
    subst (λ qs. IsBounded bound (pick qs left f)) (sym q)
      (elim (Bool-cases (held_back f.reporter f.blocked item)) [
        | inl b ↦
            rw (b, pick)
              (record {
                limited = h.limited;
                held =
                    rotated-IsHeld bound item queue f.reporter.operations f.reporter.sent_order
                      front;
                flight = subst (Flight (queue ++ item ∷ [])) (sym e) grounded;
              })
        | inr b ↦
            rw (b, pick)
              (record { limited = h.limited; held = h.held; flight = in_front item queue q })
      ])

few_trimmed :
    {A : Type 0} (bound : ℕ) (keys : List A)
    → length keys ≤ bound * 8 + 1
    → length (if ltb (bound * 8) (length keys) then drop_first keys else keys) ≤ bound * 8
few_trimmed bound [] h = ground (arith, h)
few_trimmed bound (k ∷ keys) h = ground (arith, h)

trimmed :
    (bound : ℕ) (r : BoundedReporter) (sent_order : List ReportKey)
    → r.limit ≡ bound
    → IsHeld bound r.queue r.operations sent_order
    → length r.sent_order ≤ length sent_order + 1
    → IsHeld bound (trim_sent r).queue (trim_sent r).operations (trim_sent r).sent_order
unfolding trim_sent
trimmed bound r sent_order l h longer = record {
  counted = h.counted;
  few_lanes = h.few_lanes;
  few_sent =
      let longer' : length r.sent_order ≤ bound * 8 + 1 = omega (arith, longer, h.few_sent) in
      subst
        (λ n.
          length
            (if ltb (n * 8) (length r.sent_order) then drop_first r.sent_order else r.sent_order)
          ≤ bound * 8)
        (sym l) (few_trimmed bound r.sent_order longer');
  keyed = h.keyed;
}

delivered-IsHeld :
    (bound : ℕ) (item : QueuedReport) (queue : List QueuedReport) (r : BoundedReporter)
    → r.limit ≡ bound
    → IsHeld bound (item ∷ queue) r.operations r.sent_order
    → IsHeld bound
        (deliver item queue r).queue
        (deliver item queue r).operations
        (deliver item queue r).sent_order
unfolding deliver
delivered-IsHeld bound item queue r l h =
    trimmed bound _ r.sent_order l (released-IsHeld bound item queue r.operations r.sent_order h)
      (ground (arith, length-append r.sent_order (item.key ∷ [])))

pub settle_first-IsBounded :
    (bound : ℕ) (outcome : Outcome) (item : QueuedReport) (queue : List QueuedReport) (f : Flusher)
    → is_final outcome ≡ true
    → f.reporter.limit ≡ bound
    → IsHeld bound (item ∷ queue) f.reporter.operations f.reporter.sent_order
    → IsBounded bound (settle_first outcome item queue f)
unfolding settle_first deliver trim_sent put_back
settle_first-IsBounded bound delivered item queue f e l h = record {
  limited = l;
  held = delivered-IsHeld bound item queue f.reporter l h;
  flight = grounded;
}
settle_first-IsBounded bound refused item queue f e l h = record {
  limited = l;
  held =
      rotated-IsHeld bound item queue _ f.reporter.sent_order
        (quarantined-IsHeld bound item queue f.reporter.operations f.reporter.sent_order h);
  flight = grounded;
}
settle_first-IsBounded bound failed item queue f e l h = record {
  limited = l;
  held = rotated-IsHeld bound item queue f.reporter.operations f.reporter.sent_order h;
  flight = grounded;
}
settle_first-IsBounded bound cancelled item queue f e l h = absurd (cc)
