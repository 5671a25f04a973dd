-- ===== src/Reporter/Calm.antt =====
-- internal/agent/recovery/reporter.go: runs of the reporter in which nothing enters during a flush.
use nur_proxy.Reporter.Delivery.{settle-IsOrdered, next-IsOrdered}
use nur_proxy.Reporter.Lists.{lane-append, lane, of_operation-append, of_operation}
use nur_proxy.Reporter.Order.{Plain}
use nur_proxy.Reporter.Fifo.{turning, sending, resting, IsOrdered}
use nur_proxy.Reporter.Flush.{delivered, refused, failed, cancelled, settle, next, begin, Flusher}
use nur_proxy.Reporter.Run.{
  begins, picks, idle, settles, enqueues, gentle, entrant, Event, calm, entrants, run, step,
}
use nur_proxy.Wire.{RecoveryReport}
use nur_proxy.Reporter.{ReportKey, BoundedReporter, QueuedReport}
use nur_proxy.Reporter.Queue.{key_of, verdict, item_of, enqueue, make_way, enqueue_as, admit, push}
use nur_proxy.Base.{
  ℕ, zero, suc, ◌≡◌, ◌∙◌, sym, refl, ap, true, false, not, ◌&&◌, String, string_eq, pair_eq, Option,
  none, some, List, [], ◌∷◌, ◌++◌, ◌==◌, Bool-cases, inl, inr, arith, length, nat_beq, All-append,
}
use mathlib.Core.Path.{subst}
use nur_proxy.Reporter.{is_set}
use nur_proxy.Reporter.Queue.{Verdict, known, full, entered}
use mathlib.Core.List.{append_assoc, append-nil}

length-nil : {A : Type 0} → (xs : List A) → length xs ≡ 0 → xs ≡ []
length-nil [] h = refl
length-nil (x ∷ xs) h = absurd (omega (arith, h))

-- The order of an operation's reports between two flushes.
pub at_rest :
    (admitted : List RecoveryReport) (f : Flusher)
    → f.remaining ≡ 0
    → f.in_flight ≡ none
    → IsOrdered admitted f
    → (id : String) → (id == "") ≡ false
    → of_operation id admitted ≡ of_operation id f.accepted_reports ++ lane id f.reporter.queue
at_rest admitted f z n o id named = elim o.stage [
  | resting z' n' order ↦ order id named
  | sending item rest back e q l t c ↦ absurd (cc)
  | turning e rest back q l t ↦
      let nil = length-nil rest (sym l ∙ z) in
      t.in_order id named
      ∙ ap (λ xs. of_operation id f.accepted_reports ++ lane id xs)
          (ap (λ r. back ++ r) nil ∙ append-nil back ∙ sym (q ∙ ap (λ r. r ++ back) nil))
]

pub rested :
    (left : ℕ) (o : Option QueuedReport)
    → (nat_beq left 0 && not (is_set o)) ≡ true
    → (left ≡ 0) × (o ≡ none)
rested zero none h = (refl, refl)
rested zero (some item) h = absurd (cc)
rested (suc left) o h = absurd (ground (arith, h))

begin-IsOrdered :
    (admitted : List RecoveryReport) (f : Flusher)
    → IsOrdered admitted f
    → IsOrdered admitted (begin f)
unfolding begin of_operation
begin-IsOrdered admitted f o = elim (Bool-cases (idle f)) [
  | inr h ↦ rw (h, begin) o
  | inl h ↦
      let (z, n) = rested f.remaining f.in_flight h in
      rw (h, begin)
        (record {
          plain = o.plain;
          no_pending = o.no_pending;
          stage = turning n f.reporter.queue [] (sym (append-nil f.reporter.queue)) refl (record {
            in_order = λ id named. at_rest admitted f z n o id named;
            free = λ id named w. refl;
          });
        })
]

-- A report without diagnostics makes nobody give way.
make_way_plain :
    (report : RecoveryReport) (r : BoundedReporter)
    → is_set report.diagnostics ≡ false
    → make_way report r ≡ r
unfolding make_way
make_way_plain report r h = rw h refl

entered-IsOrdered :
    (admitted : List RecoveryReport) (f : Flusher) (item : QueuedReport)
    → Plain item
    → f.remaining ≡ 0
    → f.in_flight ≡ none
    → IsOrdered admitted f
    → IsOrdered (admitted ++ item.report ∷ []) (record f { reporter = push item f.reporter })
unfolding push
entered-IsOrdered admitted f item (d, s) z n o = record {
  plain = All-append Plain f.reporter.queue (item ∷ []) o.plain ((d, s), tt);
  no_pending = rw d (ground (arith, o.no_pending));
  stage = resting z n (λ id named.
      of_operation-append id admitted (item.report ∷ [])
      ∙ ap (λ xs. xs ++ of_operation id (item.report ∷ [])) (at_rest admitted f z n o id named)
      ∙ append_assoc (of_operation id f.accepted_reports) (lane id f.reporter.queue)
          (lane id (item ∷ []))
      ∙ ap (λ xs. of_operation id f.accepted_reports ++ xs)
          (sym (lane-append id f.reporter.queue (item ∷ []))));
}

admit-IsOrdered :
    (admitted : List RecoveryReport) (f : Flusher) (v : Verdict) (item : QueuedReport)
    → Plain item
    → f.remaining ≡ 0
    → f.in_flight ≡ none
    → IsOrdered admitted f
    → IsOrdered
        (admitted ++ entrant v item.report)
        (record f { reporter = (admit v item f.reporter).0 })
unfolding admit
admit-IsOrdered admitted f known item p z n o =
    subst (λ a. IsOrdered a f) (sym (append-nil admitted)) o
admit-IsOrdered admitted f full item p z n o =
    subst (λ a. IsOrdered a f) (sym (append-nil admitted)) o
admit-IsOrdered admitted f entered item p z n o = entered-IsOrdered admitted f item p z n o

enqueue_as-IsOrdered :
    (admitted : List RecoveryReport) (f : Flusher) (key : Option ReportKey)
    (report : RecoveryReport)
    → is_set report.diagnostics ≡ false
    → f.remaining ≡ 0
    → f.in_flight ≡ none
    → IsOrdered admitted f
    → IsOrdered
        (admitted ++ entrants key report f.reporter)
        (record f { reporter = (enqueue_as key report f.reporter).0 })
unfolding enqueue_as entrants
enqueue_as-IsOrdered admitted f none report d z n o =
    subst (λ a. IsOrdered a f) (sym (append-nil admitted)) o
enqueue_as-IsOrdered admitted f (some key) report d z n o =
    let item = item_of report key f.reporter in
    subst
      (λ r.
        IsOrdered (admitted ++ entrant (verdict item r) report)
          (record f { reporter = (admit (verdict item r) item r).0 }))
      (sym (make_way_plain report f.reporter d))
      (admit-IsOrdered admitted f (verdict item f.reporter) item (d, ground (arith, d)) z n o)

module _ (sanitize : String → String) (decimal : ℕ → String) where
  step-IsOrdered :
      (e : Event) (f : Flusher) (admitted : List RecoveryReport)
      → gentle sanitize decimal e (f, admitted) ≡ true
      → IsOrdered admitted f
      → IsOrdered
          (step sanitize decimal e (f, admitted)).1
          (step sanitize decimal e (f, admitted)).0
  unfolding step enqueue begin next settle
  step-IsOrdered (enqueues report) f admitted g o =
      let (z, n) = rested f.remaining f.in_flight (ground (arith, g)) in
      enqueue_as-IsOrdered admitted f (key_of sanitize decimal report f.reporter) report
        (ground (arith, g)) z n o
  step-IsOrdered begins f admitted g o = begin-IsOrdered admitted f o
  step-IsOrdered picks f admitted g o =
      next-IsOrdered admitted f.in_flight f.remaining f refl refl o
  step-IsOrdered (settles delivered) f admitted g o =
      settle-IsOrdered admitted delivered f.in_flight f refl refl o
  step-IsOrdered (settles refused) f admitted g o =
      settle-IsOrdered admitted refused f.in_flight f refl refl o
  step-IsOrdered (settles failed) f admitted g o =
      settle-IsOrdered admitted failed f.in_flight f refl refl o
  step-IsOrdered (settles cancelled) f admitted g o = absurd (cc)

  pub run-IsOrdered :
      (events : List Event) (f : Flusher) (admitted : List RecoveryReport)
      → calm sanitize decimal events (f, admitted) ≡ true
      → IsOrdered admitted f
      → IsOrdered
          (run sanitize decimal events (f, admitted)).1
          (run sanitize decimal events (f, admitted)).0
  unfolding run calm
  run-IsOrdered [] f admitted c o = o
  run-IsOrdered (e ∷ events) f admitted c o =
      let w = step sanitize decimal e (f, admitted) in
      run-IsOrdered events w.0 w.1 (ground (arith, c))
        (step-IsOrdered e f admitted (ground (arith, c)) o)
