-- ===== src/History/Status.antt =====
-- internal/orchestrator/db/recovery.go: the status of the orchestrator's repair circuit breaker.
-- A receipt is a number of nanoseconds since 1970, as the column has it; `now` counts from Go's zero
-- time, so the tests against a time before it are written with the epoch added to the receipt. A
-- success that is not there, `math.MinInt64` in the source, is `none`. An int64 of nanoseconds always
-- makes the round trip of `recoveryTimeFromUnixNano`, so its error is left out, as are SQL's.
use nur_proxy.Base.{
  ℕ, zero, suc, ◌+◌, ◌-◌, ◌*◌, Bool, true, false, not, ◌&&◌, ◌||◌, String, string_eq, Option, none,
  some, List, [], ◌∷◌, ◌==◌, ltb, leb, nat_beq, if◌then◌else◌,
}
use nur_proxy.Dict.{Dict}
use nur_proxy.Text.{is_blank}
use nur_proxy.RecoveryModel.Action
use nur_proxy.RecoveryModel.Action.{Action, action_eq}
use nur_proxy.RecoveryModel.RequestSource.{user, request_source_eq}
use nur_proxy.RecoveryModel.OperationState.{
  succeeded, rolled_back, rollback_failed, operation_state_eq,
}
use nur_proxy.History.Store.{Row, Store, unix_epoch, in_unix_range}

abbrev pub failure_window : ℕ
failure_window = 15 * 60 * 1000000000

abbrev pub open_duration : ℕ
open_duration = 60 * 60 * 1000000000

abbrev pub receipt_limit : ℕ
receipt_limit = 256

-- The columns `Open`, `Reason` and `ExpiresAt`; `open` until a time says why.
pub data RepairBreakerStatus : Type 0 where
  shut rollback_failed_latched : RepairBreakerStatus
  failure_threshold : ℕ → RepairBreakerStatus

pub data StatusError : Type 0 where
  missing_argument unencodable_time : StatusError

-- `receipt > subtractRecoveryDuration(now, duration)`
abbrev pub within : ℕ → ℕ → ℕ → Bool
within now duration receipt = ltb now (receipt + unix_epoch + duration)

abbrev pub after_success : Option ℕ → ℕ → Bool
after_success none receipt = true
after_success (some success) receipt = ltb success receipt

-- The rows of `WHERE agent_id = ? AND action = ? AND resource_fingerprint = ?` and a test.
unfoldable pub select_rows : String → Action → String → (Row → Bool) → Dict String Row → List Row
select_rows agent action fingerprint test [] = []
select_rows agent action fingerprint test ((id, row) ∷ rows) =
    let rest = select_rows agent action fingerprint test rows in
    if row.agent_id == agent
      && row.report.action == action
      && row.fingerprint == fingerprint
      && test row
    then row ∷ rest
    else rest

-- `ORDER BY received_at DESC`
unfoldable pub put : Row → List Row → List Row
put r [] = r ∷ []
put r (s ∷ rows) =
    let rest = put r rows in if leb s.received_at r.received_at then r ∷ s ∷ rows else s ∷ rest

unfoldable pub by_receipt : List Row → List Row
by_receipt [] = []
by_receipt (r ∷ rows) = put r (by_receipt rows)

-- `LIMIT`
unfoldable pub limit : ℕ → List Row → List Row
limit n [] = []
limit zero (r ∷ rows) = []
limit (suc n) (r ∷ rows) = r ∷ limit n rows

unfoldable pub receipts : List Row → List ℕ
receipts [] = []
receipts (r ∷ rows) = r.received_at ∷ receipts rows

-- The test of the query of `repairRollbackFailedLatched`.
abbrev pub bears_on_latch : Row → Bool
bears_on_latch row =
    row.report.state == rollback_failed
    || (row.report.state == succeeded && row.report.source == user)

abbrev pub latch_of : List Row → Bool
latch_of [] = false
latch_of (r ∷ rows) = r.report.state == rollback_failed

-- `repairRollbackFailedLatched`, after the test of its arguments.
unfoldable pub repair_rollback_failed_latched : Store → String → Action → String → Bool
repair_rollback_failed_latched st agent action fingerprint =
    latch_of (by_receipt (select_rows agent action fingerprint bears_on_latch st.operations))

abbrev pub newest_receipt : List Row → Option ℕ
newest_receipt [] = none
newest_receipt (r ∷ rows) = some r.received_at

unfoldable pub after_all : Option ℕ → List ℕ → List ℕ
after_all success [] = []
after_all success (r ∷ rs) =
    let rest = after_all success rs in if after_success success r then r ∷ rest else rest

-- The loop of `repairBreakerStatusFromHistory`: each receipt with the second after it.
unfoldable pub find_opening : ℕ → List ℕ → Option ℕ
find_opening now [] = none
find_opening now (a ∷ []) = none
find_opening now (a ∷ b ∷ []) = none
find_opening now (a ∷ b ∷ c ∷ rs) =
    let rest = find_opening now (b ∷ c ∷ rs) in
    if within now open_duration a && leb (a - c) failure_window then some a else rest

-- `repairBreakerStatusFromHistory`; the time of expiry is a Unix time.
unfoldable pub repair_breaker_status_from_history :
    Bool → Option ℕ → List ℕ → ℕ → RepairBreakerStatus
repair_breaker_status_from_history latched success receipts_desc now =
    if latched
    then rollback_failed_latched
    else elim (find_opening now (after_all success receipts_desc)) [
      | none ↦ shut
      | some opened ↦ failure_threshold (opened + open_duration)
    ]

-- The receipt of the last success, of the query of `repairBreakerStatus`.
unfoldable pub latest_success : Store → String → Action → String → Option ℕ
latest_success st agent action fingerprint = newest_receipt (
    by_receipt
      (select_rows agent action fingerprint (λ row. row.report.state == succeeded) st.operations))

abbrev pub recent_failure : Option ℕ → ℕ → Row → Bool
recent_failure success now row =
    (row.report.state == rolled_back || row.report.state == rollback_failed)
    && within now (failure_window + open_duration) row.received_at
    && after_success success row.received_at

-- The receipts of its query of the failures.
unfoldable pub recent_failures : Store → String → Action → String → ℕ → List ℕ
recent_failures st agent action fingerprint now = receipts (
    limit receipt_limit (
      by_receipt (
        select_rows agent action fingerprint
          (recent_failure (latest_success st agent action fingerprint) now) st.operations)))

-- `repairBreakerStatus`
unfoldable pub repair_breaker_status :
    Store → String → Action → String → ℕ → RepairBreakerStatus × Option StatusError
repair_breaker_status st agent action fingerprint now =
    if is_blank agent || not (Action.valid action) || is_blank fingerprint || nat_beq now 0
    then (shut, some missing_argument)
    else if not (in_unix_range now)
    then (shut, some unencodable_time)
    else if repair_rollback_failed_latched st agent action fingerprint
    then (rollback_failed_latched, none)
    else (
      repair_breaker_status_from_history false (latest_success st agent action fingerprint)
          (recent_failures st agent action fingerprint now) now,
      none,
    )
