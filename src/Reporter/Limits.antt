-- ===== src/Reporter/Limits.antt =====
-- internal/agent/recovery/reporter.go: the bounds that the calls of `Enqueue` and the flushes keep.
use nur_proxy.Reporter.Steady.{settle-IsBounded}
use nur_proxy.Reporter.Admission.{made_way, admit-IsBounded, keyed-operation}
use nur_proxy.Reporter.Lanes.{pending_of}
use nur_proxy.Reporter.Lists.{lane, of_operation}
use nur_proxy.Reporter.Promise.{at_first}
use nur_proxy.Reporter.Bounds.{next-IsBounded, begin-IsBounded, IsBounded}
use nur_proxy.Base.{
  ℕ, ◌*◌, ◌≡◌, ◌≤◌, refl, Bool, true, false, not, ◌||◌, String, string_eq, pair_eq, Option, none,
  some, List, [], ◌∷◌, ◌==◌, if◌then◌else◌, Bool-cases, inl, inr, arith, length, ltb,
}
use mathlib.Core.Path.{subst}
use nur_proxy.Reporter.{
  new_bounded_reporter, ReportKey, BoundedReporter, RecoveryReport, report_key, is_set,
  report_operation_id,
}
use nur_proxy.Reporter.Queue.{enqueue, item_of, enqueue_as, key_of, make_way, verdict}
use nur_proxy.Reporter.Flush.{next, Flusher, settle}
use nur_proxy.Reporter.Run.{step, run, Event, begins, picks, enqueues, settles}
use nur_proxy.Reporter.Remembered.{RemembersOf, run-Remembers, few_remembered}
use nur_proxy.Reporter.Held.{grounded}
use nur_proxy.Dict.{lookup}
use nur_proxy.Wire.{validate_envelope}

enqueue_as-IsBounded :
    (bound : ℕ) (key : Option ReportKey) (report : RecoveryReport) (f : Flusher)
    → ((k : ReportKey)
        → key ≡ some k
        → (k.0 == "diagnostic-snapshot:") ≡ true
        → report_operation_id report ≡ "")
    → IsBounded bound f
    → IsBounded bound (record f { reporter = (enqueue_as key report f.reporter).0 })
unfolding enqueue_as
enqueue_as-IsBounded bound none report f k h = h
enqueue_as-IsBounded bound (some key) report f k h =
    let item = item_of report key f.reporter in
    let r' = make_way report f.reporter in
    admit-IsBounded bound (verdict item r') item (record f { reporter = r' }) refl (k key refl)
      (made_way bound report f h)

module _ (sanitize : String → String) (decimal : ℕ → String) where
  key_of_lem :
      (report : RecoveryReport) (r : BoundedReporter) (key : ReportKey)
      → key_of sanitize decimal report r ≡ some key
      → report_key decimal report ≡ some key
  unfolding key_of
  key_of_lem report r key h =
      elim (Bool-cases (not r.has_sender || is_set (validate_envelope sanitize report))) [
        | inl e ↦ (let h' : none ≡ some key = rw (e, key_of) at h in absurd (cc))
        | inr e ↦ rw (e, key_of) at h
      ]

  step-IsBounded :
      (bound : ℕ) (e : Event) (f : Flusher) (admitted : List RecoveryReport)
      → IsBounded bound f
      → IsBounded bound (step sanitize decimal e (f, admitted)).0
  unfolding step enqueue next settle
  step-IsBounded bound (enqueues report) f admitted h =
      enqueue_as-IsBounded bound (key_of sanitize decimal report f.reporter) report f
        (λ k e. keyed-operation decimal report k (key_of_lem report f.reporter k e)) h
  step-IsBounded bound begins f admitted h = begin-IsBounded bound f h
  step-IsBounded bound picks f admitted h =
      next-IsBounded bound f.in_flight f.remaining f.reporter.queue f refl refl h
  step-IsBounded bound (settles outcome) f admitted h =
      settle-IsBounded bound outcome f.in_flight f refl h

  run-IsBounded :
      (bound : ℕ) (events : List Event) (f : Flusher) (admitted : List RecoveryReport)
      → IsBounded bound f
      → IsBounded bound (run sanitize decimal events (f, admitted)).0
  unfolding run
  run-IsBounded bound [] f admitted h = h
  run-IsBounded bound (e ∷ events) f admitted h =
      let w = step sanitize decimal e (f, admitted) in
      run-IsBounded bound events w.0 w.1 (step-IsBounded bound e f admitted h)

  first-IsBounded :
      (limit : ℕ) (has_sender : Bool)
      → IsBounded (if ltb limit 1 then 1 else limit) (at_first limit has_sender).0
  unfolding new_bounded_reporter of_operation lookup
  first-IsBounded limit has_sender = record {
    limited = refl;
    held = record {
      counted = λ id named. refl;
      few_lanes = omega arith;
      few_sent = omega arith;
      keyed = tt;
    };
    flight = grounded;
  }

  first-Remembers :
      (limit : ℕ) (has_sender : Bool) → RemembersOf (at_first limit has_sender).0.reporter
  unfolding new_bounded_reporter lookup
  first-Remembers limit has_sender = record { distinct = tt; covered = λ j h. refl }

  -- After any calls of `Enqueue` and any steps of flushes, whatever the sender answers, a reporter that
  -- was made for `limit` operations, which is at least 1, has at most as many lanes, remembers at most
  -- eight times as many delivered keys, in the set as in the order of delivery, and the lane of each
  -- operation counts exactly its reports in the queue.
  pub run_bounds :
      (limit : ℕ) (has_sender : Bool) (events : List Event) (id : String)
      → 1 ≤ limit
      → (id == "") ≡ false
      → let r = (run sanitize decimal events (at_first limit has_sender)).0.reporter in
        (length r.operations ≤ limit)
        × (length r.sent ≤ limit * 8)
        × (length r.sent_order ≤ limit * 8)
        × (pending_of id r.operations ≡ length (lane id r.queue))
  run_bounds limit has_sender events id positive named =
      let same : (if ltb limit 1 then 1 else limit) ≡ limit = ground (arith, positive) in
      let b = run-IsBounded limit events (at_first limit has_sender).0 [] (
        subst (λ n. IsBounded n (at_first limit has_sender).0) same
          (first-IsBounded limit has_sender)) in
      let remembered =
        few_remembered (run sanitize decimal events (at_first limit has_sender)).0.reporter (
          run-Remembers sanitize decimal events (at_first limit has_sender).0 []
            (first-Remembers limit has_sender)) in
      (
        b.held.few_lanes,
        omega (arith, remembered, b.held.few_sent),
        b.held.few_sent,
        b.held.counted id named,
      )
