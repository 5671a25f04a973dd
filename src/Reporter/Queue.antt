-- ===== src/Reporter/Queue.antt =====
-- internal/agent/recovery/reporter.go: `Enqueue`.
use Prim.Native.Nat.{◌%◌}
use nur_proxy.Base.{
  ℕ, ◌+◌, ◌-◌, Bool, true, false, not, ◌&&◌, ◌||◌, String, string_eq, pair_eq, Option, none, some,
  List, [], ◌∷◌, ◌++◌, ◌==◌, leb, nat_beq, if◌then◌else◌, length,
}
use nur_proxy.Dict.{Dict, lookup, insert, delete}
use nur_proxy.RecoveryModel.Diagnostic.{Diagnostic}
use nur_proxy.Wire.{RecoveryReport, items, validate_envelope}
use nur_proxy.Reporter.{
  ReportKey, QueuedReport, OperationLane, BoundedReporter, is_set, is_snapshot, report_operation_id,
  terminal_operation_report, report_key,
}

-- The count that a map holds, which is 0 for a key that it does not.
abbrev pub count_of : Option ℕ → ℕ
count_of none = 0
count_of (some n) = n

-- `addPendingDiagnostics`
unfoldable pub add_pending_diagnostics : List Diagnostic → Dict String ℕ → Dict String ℕ
add_pending_diagnostics [] pending = pending
add_pending_diagnostics (d ∷ ds) pending =
    add_pending_diagnostics ds (insert d.id (count_of (lookup d.id pending) + 1) pending)

-- `releasePendingDiagnostics`
unfoldable pub release_pending_diagnostics : List Diagnostic → Dict String ℕ → Dict String ℕ
release_pending_diagnostics [] pending = pending
release_pending_diagnostics (d ∷ ds) pending =
    let left = count_of (lookup d.id pending) - 1 in
    release_pending_diagnostics ds
      (if nat_beq left 0 then delete d.id pending else insert d.id left pending)

-- The loop that takes out older snapshots, from the back to the last operation: what stays, what is
-- taken out, the last first, and whether an operation was met.
unfoldable pub strip : List QueuedReport → List QueuedReport × List QueuedReport × Bool
strip [] = ([], [], false)
strip (q ∷ queue) =
    let (kept, removed, met) = strip queue in
    if met || not (report_operation_id q.report == "")
    then (q ∷ kept, removed, true)
    else if q.key.0 == "diagnostic-snapshot:"
    then (kept, removed ++ q ∷ [], false)
    else (q ∷ kept, removed, false)

unfoldable pub forget : List QueuedReport → BoundedReporter → BoundedReporter
forget [] r = r
forget (q ∷ removed) r = forget removed (record r {
  diagnostic_pending =
      release_pending_diagnostics (items q.report.diagnostics) r.diagnostic_pending;
  keys = delete q.key r.keys;
})

unfoldable pub supersede : BoundedReporter → BoundedReporter
supersede r = let (kept, removed, met) = strip r.queue in record (forget removed r) { queue = kept }

abbrev pub no_lane : OperationLane
no_lane = record { pending = 0; terminal = false; quarantined = false }

abbrev pub lane_of : Option OperationLane → OperationLane
lane_of none = no_lane
lane_of (some lane) = lane

unfoldable pub add_to_lane : RecoveryReport → OperationLane → OperationLane
add_to_lane report lane = record lane {
  pending = lane.pending + 1;
  terminal = lane.terminal || terminal_operation_report report;
}

-- The end of `Enqueue`, of an item that is admitted.
unfoldable pub push : QueuedReport → BoundedReporter → BoundedReporter
push item r =
    let id = report_operation_id item.report in
    record r {
      queue = r.queue ++ item ∷ [];
      keys = insert item.key tt r.keys;
      operations =
          if id == ""
          then r.operations
          else insert id (add_to_lane item.report (lane_of (lookup id r.operations))) r.operations;
      diagnostic_pending =
          if id == "" && is_set item.report.diagnostics
          then add_pending_diagnostics (items item.report.diagnostics) r.diagnostic_pending
          else r.diagnostic_pending;
    }

-- Whether there is no room for a report that is not in the queue.
unfoldable pub is_full : RecoveryReport → BoundedReporter → Bool
is_full report r =
    let id = report_operation_id report in
    if id == ""
    then not (is_set report.diagnostics)
      && not (is_set report.capability)
      && leb r.limit (length r.queue)
    else not (is_set (lookup id r.operations)) && leb r.limit (length r.operations)

-- What becomes of an item: it is there or was delivered, there is no room for it, or it enters.
pub data Verdict : Type 0 where
  known full entered : Verdict

unfoldable pub verdict : QueuedReport → BoundedReporter → Verdict
verdict item r =
    if is_set (lookup item.key r.keys)
    then known
    else if is_set (lookup item.key r.sent) && not (is_set item.report.diagnostics)
    then known
    else if is_full item.report r
    then full
    else entered

-- `Enqueue` from the check of the keys on.
unfoldable pub admit : Verdict → QueuedReport → BoundedReporter → BoundedReporter × Bool
admit known item r = (r, true)
admit full item r = (r, false)
admit entered item r = (push item r, true)

-- `r.nextDiagnosticSeq++`, of a uint64.
abbrev pub next_seq : ℕ → ℕ
next_seq n = (n + 1) % 18446744073709551616

-- The number of the next snapshot, and older snapshots out of the way.
unfoldable pub make_way : RecoveryReport → BoundedReporter → BoundedReporter
make_way report r =
    let numbered = record r {
      next_diagnostic_seq =
          if is_set report.diagnostics
          then next_seq r.next_diagnostic_seq
          else r.next_diagnostic_seq;
    } in
    if is_snapshot report then supersede numbered else numbered

abbrev pub seq_of : RecoveryReport → BoundedReporter → ℕ
seq_of report r = if is_set report.diagnostics then next_seq r.next_diagnostic_seq else 0

-- The item that is made of a report with a key.
abbrev pub item_of : RecoveryReport → ReportKey → BoundedReporter → QueuedReport
item_of report key r = record { key = key; report = report; diagnostic_seq = seq_of report r }

-- `Enqueue`, once the report has its key.
unfoldable pub enqueue_as :
    Option ReportKey → RecoveryReport → BoundedReporter → BoundedReporter × Bool
enqueue_as none report r = (r, false)
enqueue_as (some key) report r =
    let item = item_of report key r in let r' = make_way report r in admit (verdict item r') item r'

module _ (sanitize : String → String) (decimal : ℕ → String) where
  -- The key of a report that is taken at all.
  unfoldable pub key_of : RecoveryReport → BoundedReporter → Option ReportKey
  key_of report r =
      if not r.has_sender || is_set (validate_envelope sanitize report)
      then none
      else report_key decimal report

  -- `Enqueue`
  unfoldable pub enqueue : RecoveryReport → BoundedReporter → BoundedReporter × Bool
  enqueue report r = enqueue_as (key_of report r) report r
