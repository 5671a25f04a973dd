-- ===== src/Reporter/Flush.antt =====
-- internal/agent/recovery/reporter.go: `Flush`, in the steps that it makes under the lock.
use nur_proxy.Base.{
  ℕ, zero, suc, ◌+◌, ◌-◌, ◌*◌, Bool, true, false, not, ◌&&◌, ◌||◌, String, string_eq, pair_eq,
  Option, none, some, List, [], ◌∷◌, ◌++◌, ◌==◌, ltb, leb, nat_beq, if◌then◌else◌, length, any,
}
use nur_proxy.Dict.{Dict, lookup, insert, delete}
use nur_proxy.RecoveryModel.Report.{OperationReport}
use nur_proxy.Wire.{RecoveryReport, items}
use nur_proxy.Reporter.{
  ReportKey, QueuedReport, OperationLane, BoundedReporter, is_set, report_operation_id,
}
use nur_proxy.Reporter.Queue.{lane_of, count_of, release_pending_diagnostics}

-- What one call of the sender returns: a status for `ReportHTTPError`.
pub data Answer : Type 0 where
  accepted broken : Answer
  status : ℕ → Answer

-- `Retryable`
abbrev pub retryable : ℕ → Bool
retryable code = nat_beq code 408 || nat_beq code 429 || leb 500 code

-- How the attempts to send an item end.
pub data Outcome : Type 0 where
  delivered refused failed cancelled : Outcome

-- The loop over the attempts, of which `left` are left: the answer of each, and whether the context
-- is done before the next.
unfoldable pub attempts : ℕ → (ℕ → Answer) → (ℕ → Bool) → ℕ → Outcome
attempts zero answer done n = failed
attempts (suc left) answer done n =
    let again = attempts left answer done (n + 1) in
    let next = if nat_beq left 0 then failed else if done n then cancelled else again in
    elim (answer n) [
      | accepted ↦ delivered
      | broken ↦ next
      | status code ↦ if retryable code then next else refused
    ]

abbrev pub max_attempts : ℕ
max_attempts = 5

-- The variables of a flush. `in_flight` is the item that is being sent, without the lock;
-- `accepted_reports` has what the sender has taken, in order.
pub record Flusher : Type 0 where
  pub reporter : BoundedReporter
  pub remaining : ℕ
  pub blocked : List String
  pub in_flight : Option QueuedReport
  pub accepted_reports : List RecoveryReport

-- `earliestDiagnosticSequence`
unfoldable pub earliest_from : ℕ → List QueuedReport → ℕ
earliest_from earliest [] = earliest
earliest_from earliest (q ∷ queue) =
    earliest_from
      (if not (nat_beq q.diagnostic_seq 0) && (nat_beq earliest 0 || ltb q.diagnostic_seq earliest)
        then q.diagnostic_seq
        else earliest)
      queue

abbrev pub earliest_diagnostic_sequence : List QueuedReport → ℕ
earliest_diagnostic_sequence queue = earliest_from 0 queue

abbrev pub diagnostic_id_of : List OperationReport → String
diagnostic_id_of [] = ""
diagnostic_id_of (op ∷ ops) = op.diagnostic_id

-- The item has to wait for another round.
unfoldable pub held_back : BoundedReporter → List String → QueuedReport → Bool
held_back r blocked item =
    let id = report_operation_id item.report in
    (not (id == "")
      && (any (λ b. b == id) blocked
          || (lane_of (lookup id r.operations)).quarantined
          || ltb 0
              (count_of (lookup (diagnostic_id_of item.report.operations) r.diagnostic_pending))))
    || (not (nat_beq item.diagnostic_seq 0)
        && not (nat_beq item.diagnostic_seq (earliest_diagnostic_sequence r.queue)))

-- The start of `Flush`.
unfoldable pub begin : Flusher → Flusher
begin f =
    if nat_beq f.remaining 0 && not (is_set f.in_flight)
    then record f { remaining = length f.reporter.queue; blocked = [] }
    else f

-- A round of the loop, up to the call of the sender.
unfoldable pub pick : List QueuedReport → ℕ → Flusher → Flusher
pick [] left f = record f { remaining = 0 }
pick (item ∷ queue) left f =
    if held_back f.reporter f.blocked item
    then record f { remaining = left; reporter = record f.reporter { queue = queue ++ item ∷ [] } }
    else record f { remaining = left; in_flight = some item }

unfoldable pub next_of : Option QueuedReport → ℕ → Flusher → Flusher
next_of (some item) left f = f
next_of none zero f = f
next_of none (suc left) f = pick f.reporter.queue left f

unfoldable pub next : Flusher → Flusher
next f = next_of f.in_flight f.remaining f

-- The lane of an operation of which a report was delivered.
unfoldable pub release_lane : String → Dict String OperationLane → Dict String OperationLane
release_lane id operations =
    let lane = lane_of (lookup id operations) in
    let lane' = record lane { pending = lane.pending - 1 } in
    if id == ""
    then operations
    else if nat_beq lane'.pending 0 && lane.terminal
    then delete id operations
    else insert id lane' operations

abbrev pub drop_first {ℓ} : {A : Type ℓ} → List A → List A
drop_first [] = []
drop_first (x ∷ xs) = xs

abbrev pub delete_first : List ReportKey → Dict ReportKey Unit → Dict ReportKey Unit
delete_first [] sent = sent
delete_first (k ∷ keys) sent = delete k sent

-- The oldest delivered key is forgotten when there are too many.
unfoldable pub trim_sent : BoundedReporter → BoundedReporter
trim_sent r =
    let over = ltb (r.limit * 8) (length r.sent_order) in
    record r {
      sent = if over then delete_first r.sent_order r.sent else r.sent;
      sent_order = if over then drop_first r.sent_order else r.sent_order;
    }

unfoldable pub deliver : QueuedReport → List QueuedReport → BoundedReporter → BoundedReporter
deliver item queue r =
    let kept = is_set item.report.diagnostics in
    trim_sent (record r {
      queue = queue;
      keys = delete item.key r.keys;
      sent = if kept then r.sent else insert item.key tt r.sent;
      sent_order = if kept then r.sent_order else r.sent_order ++ item.key ∷ [];
      diagnostic_pending =
          if kept
          then release_pending_diagnostics (items item.report.diagnostics) r.diagnostic_pending
          else r.diagnostic_pending;
      operations = release_lane (report_operation_id item.report) r.operations;
    })

unfoldable pub quarantine : String → Dict String OperationLane → Dict String OperationLane
quarantine id operations =
    if id == ""
    then operations
    else insert id (record (lane_of (lookup id operations)) { quarantined = true }) operations

-- The item goes to the back; `refused_item` tells that its operation is quarantined.
unfoldable pub put_back :
    Bool → QueuedReport → List QueuedReport → BoundedReporter → BoundedReporter
put_back refused_item item queue r = record r {
  queue = queue ++ item ∷ [];
  operations =
      if refused_item
      then quarantine (report_operation_id item.report) r.operations
      else r.operations;
}

abbrev pub block : String → List String → List String
block id blocked = if id == "" then blocked else id ∷ blocked

-- The rest of a round, where the first of the queue is still the item.
unfoldable pub settle_first : Outcome → QueuedReport → List QueuedReport → Flusher → Flusher
settle_first delivered item queue f = record f {
  in_flight = none;
  reporter = deliver item queue f.reporter;
}
settle_first refused item queue f = record f {
  in_flight = none;
  reporter = put_back true item queue f.reporter;
  blocked = block (report_operation_id item.report) f.blocked;
}
settle_first failed item queue f = record f {
  in_flight = none;
  reporter = put_back false item queue f.reporter;
  blocked = block (report_operation_id item.report) f.blocked;
}
settle_first cancelled item queue f = record f { in_flight = none }

-- The rest of a round, where another item may have come to the front.
unfoldable pub settle_item : Outcome → QueuedReport → List QueuedReport → Flusher → Flusher
settle_item outcome item [] f = record f { in_flight = none }
settle_item outcome item (q ∷ queue) f =
    if q.key == item.key then settle_first outcome item queue f else record f { in_flight = none }

-- What the sender has taken stays taken, whatever stands in the queue.
abbrev pub taken : Outcome → QueuedReport → List RecoveryReport → List RecoveryReport
taken delivered item reports = reports ++ item.report ∷ []
taken _ item reports = reports

abbrev pub left_after : Outcome → ℕ → ℕ
left_after cancelled left = 0
left_after _ left = left

unfoldable pub settle_of : Outcome → Option QueuedReport → Flusher → Flusher
settle_of outcome none f = f
settle_of outcome (some item) f = record (settle_item outcome item f.reporter.queue f) {
  remaining = left_after outcome f.remaining;
  accepted_reports = taken outcome item f.accepted_reports;
}

unfoldable pub settle : Outcome → Flusher → Flusher
settle outcome f = settle_of outcome f.in_flight f
