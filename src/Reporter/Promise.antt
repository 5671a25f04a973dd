-- ===== src/Reporter/Promise.antt =====
-- internal/agent/recovery/reporter.go: what a reporter promises of each operation.
use nur_proxy.Reporter.Fifo.{sending, turning, resting, IsOrdered}
use nur_proxy.Reporter.Lists.{lane-append, lane, of_operation}
use nur_proxy.Reporter.Flush.{Flusher}
use nur_proxy.Reporter.Run.{run, idle, calm, Event, Work}
use nur_proxy.Wire.{RecoveryReport}
use nur_proxy.Reporter.{QueuedReport, new_bounded_reporter}
use nur_proxy.Base.{
  ℕ, ◌≡◌, ◌∙◌, sym, refl, ap, Bool, true, false, String, string_eq, none, List, [], ◌∷◌, ◌++◌, ◌==◌,
}
use mathlib.Core.Path.{subst}
use mathlib.Core.List.{perm_append_comm, Perm}
use mathlib.Core.List.Perm
use nur_proxy.Reporter.Calm.{rested, at_rest, run-IsOrdered}

-- A new reporter, of which nothing is known.
abbrev pub at_first : ℕ → Bool → Work
at_first limit has_sender = (
  record {
    reporter = new_bounded_reporter limit has_sender;
    remaining = 0;
    blocked = [];
    in_flight = none;
    accepted_reports = [];
  },
  [],
)

first-IsOrdered : (limit : ℕ) (has_sender : Bool) → IsOrdered [] (at_first limit has_sender).0
unfolding new_bounded_reporter of_operation
first-IsOrdered limit has_sender = record {
  plain = tt;
  no_pending = refl;
  stage = resting refl refl (λ id named. refl);
}

-- The reports of the operation that were let in and not taken by the sender are in the queue.
waiting :
    (admitted : List RecoveryReport) (f : Flusher)
    → IsOrdered admitted f
    → (id : String) → (id == "") ≡ false
    → (rest : List RecoveryReport) × (of_operation id admitted
        ≡ of_operation id f.accepted_reports ++ rest)
      × Perm rest (lane id f.reporter.queue)
waiting admitted f o id named = elim o.stage [
  | resting z n order ↦
      (lane id f.reporter.queue, order id named, Perm.refl (lane id f.reporter.queue))
  | turning e rest back q l t ↦
      (lane id (back ++ rest), t.in_order id named, moved id rest back f.reporter.queue q)
  | sending item rest back e q l t c ↦ (
    lane id (back ++ item ∷ rest),
    t.in_order id named,
    moved id (item ∷ rest) back f.reporter.queue q,
  )
]
  where
    moved :
        (id : String) (rest back queue : List QueuedReport)
        → queue ≡ rest ++ back
        → Perm (lane id (back ++ rest)) (lane id queue)
    moved id rest back queue q =
        subst (λ xs. Perm (lane id (back ++ rest)) xs)
          (sym (ap (lane id) q ∙ lane-append id rest back))
          (subst (λ xs. Perm xs (lane id rest ++ lane id back)) (sym (lane-append id back rest))
            (perm_append_comm (lane id back) (lane id rest)))

module _ (sanitize : String → String) (decimal : ℕ → String) where
  -- After any calls of `Enqueue` with reports that bear no diagnostics, made between the flushes, and
  -- any flushes that are not broken off, whatever the sender answers, the sender has taken the reports
  -- of each operation in the order in which they entered the queue, each once and without a gap; and
  -- those that it has not taken are in the queue, each once. A flush may be in progress.
  pub run_prefix :
      (limit : ℕ) (has_sender : Bool) (events : List Event)
      → calm sanitize decimal events (at_first limit has_sender) ≡ true
      → (id : String) → (id == "") ≡ false
      → let w = run sanitize decimal events (at_first limit has_sender) in
        (rest : List RecoveryReport) × (of_operation id w.1
          ≡ of_operation id w.0.accepted_reports ++ rest)
        × Perm rest (lane id w.0.reporter.queue)
  run_prefix limit has_sender events c id named =
      let w = run sanitize decimal events (at_first limit has_sender) in
      waiting w.1 w.0
        (run-IsOrdered sanitize decimal events (at_first limit has_sender).0 [] c
          (first-IsOrdered limit has_sender))
        id named

  -- Between two flushes of such a run, the reports of each operation that entered the queue are those
  -- that the sender has taken, then those that are in the queue, in the order in which they entered.
  pub run_order :
      (limit : ℕ) (has_sender : Bool) (events : List Event)
      → calm sanitize decimal events (at_first limit has_sender) ≡ true
      → idle (run sanitize decimal events (at_first limit has_sender)).0 ≡ true
      → (id : String) → (id == "") ≡ false
      → let w = run sanitize decimal events (at_first limit has_sender) in
        of_operation id w.1 ≡ of_operation id w.0.accepted_reports ++ lane id w.0.reporter.queue
  run_order limit has_sender events c i id named =
      let w = run sanitize decimal events (at_first limit has_sender) in
      let (z, n) = rested w.0.remaining w.0.in_flight i in
      at_rest w.1 w.0 z n
        (run-IsOrdered sanitize decimal events (at_first limit has_sender).0 [] c
          (first-IsOrdered limit has_sender))
        id named
