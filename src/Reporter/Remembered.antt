-- ===== src/Reporter/Remembered.antt =====
-- internal/agent/recovery/reporter.go: the delivered keys that a reporter remembers.
use nur_proxy.Base.{
  ℕ, zero, suc, ◌*◌, ◌≤◌, String, string_eq, pair_eq, Option, none, some, List, [], ◌∷◌, ◌==◌,
  Bool-cases, inl, inr, length, ltb,
}
use nur_proxy.Dict.{Dict, Distinct}
use nur_proxy.Dict.Laws.{insert-Distinct, delete-Distinct}
use nur_proxy.Dict.Covers.{Covers, insert-Covers, delete-Covers, length-Covers}
use nur_proxy.Reporter.{
  ReportKey, BoundedReporter, QueuedReport, RecoveryReport, is_set, is_snapshot,
}
use nur_proxy.Reporter.Queue.{
  strip, make_way, enqueue, enqueue_as, admit, verdict, Verdict, known, full, entered, item_of,
  key_of, push, supersede, forget,
}
use nur_proxy.Reporter.Flush.{
  Outcome, Flusher, delivered, refused, failed, cancelled, trim_sent, deliver, settle, settle_of,
  settle_item, settle_first, begin, next, next_of, pick, put_back, held_back, delete_first,
  drop_first,
}
use nur_proxy.Reporter.Run.{idle, Event, enqueues, begins, picks, settles, step, run}

-- The set of the delivered keys has none twice, and none that the list of them has not.
pub record Remembers (sent : Dict ReportKey Unit) (order : List ReportKey) : Type 0 where
  pub distinct : Distinct sent
  pub covered : Covers order sent

abbrev pub RemembersOf : BoundedReporter → Type 0
RemembersOf r = Remembers r.sent r.sent_order

trim_sent-Remembers : (r : BoundedReporter) → RemembersOf r → RemembersOf (trim_sent r)
unfolding trim_sent
trim_sent-Remembers r h = elim (Bool-cases (ltb (r.limit * 8) (length r.sent_order))) [
  | inr fits ↦ rw (fits, trim_sent) (record { distinct = h.distinct; covered = h.covered })
  | inl over ↦ rw (over, trim_sent) (trimmed r.sent_order h)
]
  where
    trimmed :
        (order : List ReportKey)
        → Remembers r.sent order
        → Remembers (delete_first order r.sent) (drop_first order)
    trimmed [] h = h
    trimmed (k ∷ order) h = record {
      distinct = delete-Distinct k r.sent h.distinct;
      covered = delete-Covers k order r.sent h.covered;
    }

deliver-Remembers :
    (item : QueuedReport) (queue : List QueuedReport) (r : BoundedReporter)
    → RemembersOf r
    → RemembersOf (deliver item queue r)
unfolding deliver
deliver-Remembers item queue r h = elim (Bool-cases (is_set item.report.diagnostics)) [
  | inl kept ↦
      trim_sent-Remembers _ (rw kept (record { distinct = h.distinct; covered = h.covered }))
  | inr counted ↦ trim_sent-Remembers _ (
      rw counted (record {
        distinct = insert-Distinct item.key tt r.sent h.distinct;
        covered = insert-Covers item.key tt r.sent_order r.sent h.covered;
      }))
]

settle_item-Remembers :
    (outcome : Outcome) (item : QueuedReport) (queue : List QueuedReport) (f : Flusher)
    → RemembersOf f.reporter
    → RemembersOf (settle_item outcome item queue f).reporter
unfolding settle_item settle_first put_back
settle_item-Remembers outcome item [] f h = h
settle_item-Remembers outcome item (q ∷ queue) f h = elim (Bool-cases (q.key == item.key)) [
  | inr other ↦ rw (other, settle_item) h
  | inl same ↦ rw (same, settle_item) (first outcome)
]
  where
    first : (outcome : Outcome) → RemembersOf (settle_first outcome item queue f).reporter
    first delivered = deliver-Remembers item queue f.reporter h
    first refused = h
    first failed = h
    first cancelled = h

settle-Remembers :
    (outcome : Outcome) (f : Flusher)
    → RemembersOf f.reporter
    → RemembersOf (settle outcome f).reporter
unfolding settle settle_of
settle-Remembers outcome f h = settled f.in_flight
  where
    settled : (o : Option QueuedReport) → RemembersOf (settle_of outcome o f).reporter
    settled none = h
    settled (some item) = settle_item-Remembers outcome item f.reporter.queue f h

forget-Remembers :
    (removed : List QueuedReport) (r : BoundedReporter)
    → RemembersOf r
    → RemembersOf (forget removed r)
unfolding forget
forget-Remembers [] r h = h
forget-Remembers (q ∷ removed) r h =
    forget-Remembers removed _ (record { distinct = h.distinct; covered = h.covered })

supersede-Remembers : (r : BoundedReporter) → RemembersOf r → RemembersOf (supersede r)
unfolding supersede
supersede-Remembers r h =
    let f = forget-Remembers (strip r.queue).1 r h in
    record { distinct = f.distinct; covered = f.covered }

make_way-Remembers :
    (report : RecoveryReport) (r : BoundedReporter)
    → RemembersOf r
    → RemembersOf (make_way report r)
unfolding make_way
make_way-Remembers report r h = elim (Bool-cases (is_snapshot report)) [
  | inl old ↦
      rw (old, make_way)
        (supersede-Remembers _ (record { distinct = h.distinct; covered = h.covered }))
  | inr plain ↦ rw (plain, make_way) (record { distinct = h.distinct; covered = h.covered })
]

admitted :
    (item : QueuedReport) (r : BoundedReporter) (v : Verdict)
    → RemembersOf r
    → RemembersOf (admit v item r).0
unfolding admit push
admitted item r known h = h
admitted item r full h = h
admitted item r entered h = record { distinct = h.distinct; covered = h.covered }

enqueue_as-Remembers :
    (key : Option ReportKey) (report : RecoveryReport) (r : BoundedReporter)
    → RemembersOf r
    → RemembersOf (enqueue_as key report r).0
unfolding enqueue_as
enqueue_as-Remembers none report r h = h
enqueue_as-Remembers (some key) report r h =
    admitted (item_of report key r) (make_way report r)
      (verdict (item_of report key r) (make_way report r)) (make_way-Remembers report r h)

pick-Remembers :
    (queue : List QueuedReport) (left : ℕ) (f : Flusher)
    → RemembersOf f.reporter
    → RemembersOf (pick queue left f).reporter
unfolding pick
pick-Remembers [] left f h = h
pick-Remembers (item ∷ queue) left f h = elim (Bool-cases (held_back f.reporter f.blocked item)) [
  | inl b ↦ rw (b, pick) h
  | inr b ↦ rw (b, pick) h
]

next-Remembers :
    (o : Option QueuedReport) (left : ℕ) (f : Flusher)
    → RemembersOf f.reporter
    → RemembersOf (next_of o left f).reporter
unfolding next_of
next-Remembers (some item) left f h = h
next-Remembers none zero f h = h
next-Remembers none (suc left) f h = pick-Remembers f.reporter.queue left f h

begin-Remembers : (f : Flusher) → RemembersOf f.reporter → RemembersOf (begin f).reporter
unfolding begin
begin-Remembers f h = elim (Bool-cases (idle f)) [
  | inl e ↦ rw (e, begin) h
  | inr e ↦ rw (e, begin) h
]

module _ (sanitize : String → String) (decimal : ℕ → String) where
  step-Remembers :
      (e : Event) (f : Flusher) (admitted : List RecoveryReport)
      → RemembersOf f.reporter
      → RemembersOf (step sanitize decimal e (f, admitted)).0.reporter
  unfolding step enqueue next
  step-Remembers (enqueues report) f admitted h =
      enqueue_as-Remembers (key_of sanitize decimal report f.reporter) report f.reporter h
  step-Remembers begins f admitted h = begin-Remembers f h
  step-Remembers picks f admitted h = next-Remembers f.in_flight f.remaining f h
  step-Remembers (settles outcome) f admitted h = settle-Remembers outcome f h

  pub run-Remembers :
      (events : List Event) (f : Flusher) (admitted : List RecoveryReport)
      → RemembersOf f.reporter
      → RemembersOf (run sanitize decimal events (f, admitted)).0.reporter
  unfolding run
  run-Remembers [] f admitted h = h
  run-Remembers (e ∷ events) f admitted h =
      let w = step sanitize decimal e (f, admitted) in
      run-Remembers events w.0 w.1 (step-Remembers e f admitted h)

pub few_remembered : (r : BoundedReporter) → RemembersOf r → length r.sent ≤ length r.sent_order
few_remembered r h = length-Covers r.sent_order r.sent h.distinct h.covered
