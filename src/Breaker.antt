-- ===== src/Breaker.antt =====
-- internal/agent/recovery/breaker.go: the circuit breaker of the recovery agent. A time is a number
-- of nanoseconds, with 0 for Go's zero time. The lock makes each call one step. Writing the file is
-- a parameter of the calls that do it: whether `atomicWriteAt` succeeds. The file is the list of its
-- entries, in the order of the map: the code sorts them, and no operation reads their order.
mod Cases
mod Invariant
mod Latch
mod Reload
mod Tests
mod Threshold
use Prim.Native.String.{len}
use nur_proxy.Base.{
  ℕ, ◌+◌, ◌-◌, ◌*◌, Bool, true, false, not, ◌&&◌, ◌||◌, String, string_eq, Option, none, some, List,
  [], ◌∷◌, ◌++◌, ◌==◌, pair_eq, ltb, leb, nat_beq, if◌then◌else◌, length,
}
use nur_proxy.Dict.{Dict, lookup, insert, delete}
use nur_proxy.RecoveryModel.Action
use nur_proxy.RecoveryModel.Action.{Action, action_eq}
use nur_proxy.RecoveryModel.RequestSource
use nur_proxy.RecoveryModel.RequestSource.{RequestSource, user, automatic, request_source_eq}
use nur_proxy.RecoveryModel.OperationState.{
  OperationState, succeeded, rolled_back, rollback_failed, operation_state_eq,
}

abbrev pub breaker_window : ℕ
breaker_window = 15 * 60 * 1000000000

abbrev pub breaker_open_time : ℕ
breaker_open_time = 60 * 60 * 1000000000

abbrev pub breaker_failures : ℕ
breaker_failures = 3

abbrev pub BreakerKey : Type 0
BreakerKey = Action × String

pub record BreakerState : Type 0 where
  pub failures : List ℕ
  pub opened_at : ℕ
  pub rollback_failed : Bool

-- `closed` and `dir` (whether the directory is open) as in the source. `file` is what the file
-- holds, if it is there.
pub record Breaker : Type 0 where
  pub states : Dict BreakerKey BreakerState
  pub dir : Bool
  pub persistent : Bool
  pub closed : Bool
  pub file : Option (Dict BreakerKey BreakerState)

pub data Reason : Type 0 where
  no_reason invalid_input breaker_closed manual_validation_required : Reason
  needs_manual_validation circuit_open : Reason

pub record BreakerDecision : Type 0 where
  pub allowed : Bool
  pub retry_at : ℕ
  pub reason : Reason

pub data BreakerError : Type 0 where
  invalid_breaker_input closed_breaker closed_directory write_failed : BreakerError
  bad_version invalid_entry invalid_history invalid_open : BreakerError

abbrev pub no_state : BreakerState
no_state = record { failures = []; opened_at = 0; rollback_failed = false }

-- `!failure.Before(now - window) && !failure.After(now)`
abbrev pub in_window : ℕ → ℕ → Bool
in_window now failure = leb (now - breaker_window) failure && leb failure now

unfoldable pub kept_failures : ℕ → List ℕ → List ℕ
kept_failures now [] = []
kept_failures now (f ∷ fs) =
    let rest = kept_failures now fs in if in_window now f then f ∷ rest else rest

-- `compact`
unfoldable pub compact : ℕ → BreakerState → BreakerState
compact now s = record s { failures = kept_failures now s.failures }

-- `failures[len(failures)-n:]`, where there are more than `n`.
unfoldable pub newest : ℕ → List ℕ → List ℕ
newest n [] = []
newest n (f ∷ fs) = if ltb n (length (f ∷ fs)) then newest n fs else f ∷ fs

-- `Allow` on the state of the key, for a source that is known.
unfoldable pub allow_state : RequestSource → ℕ → BreakerState → BreakerState × BreakerDecision
allow_state source now s =
    let c = compact now s in
    let retry = c.opened_at + breaker_open_time in
    let yes : BreakerDecision = record { allowed = true; retry_at = 0; reason = no_reason } in
    if c.rollback_failed
    then (if source == user
        then (c, record { allowed = true; retry_at = 0; reason = manual_validation_required })
        else (c, record { allowed = false; retry_at = 0; reason = needs_manual_validation }))
    else if nat_beq c.opened_at 0
    then (c, yes)
    else if ltb now retry
    then (if source == automatic
        then (c, record { allowed = false; retry_at = retry; reason = circuit_open })
        else (c, yes))
    else (record c { opened_at = 0; failures = [] }, yes)

-- The state of the key after a failed repair.
unfoldable pub fail_state : OperationState → ℕ → BreakerState → BreakerState
fail_state outcome at s =
    let failures = newest breaker_failures ((compact at s).failures ++ at ∷ []) in
    record {
      failures = failures;
      opened_at = if leb breaker_failures (length failures) then at else s.opened_at;
      rollback_failed = if outcome == rollback_failed then true else s.rollback_failed;
    }

unfoldable pub find_state : BreakerKey → Dict BreakerKey BreakerState → BreakerState
find_state key states = elim (lookup key states) [ none ↦ no_state | some s ↦ s ]

-- `persistOrRestore`, where `b` holds the changed states. The file is its last part: a write that
-- replaced it before it failed leaves the file of a success, with the answer of a failure.
unfoldable pub persist_or_restore :
    Bool → Dict BreakerKey BreakerState → Breaker → Breaker × Option BreakerError
persist_or_restore written before b =
    if not b.persistent
    then (b, none)
    else if not b.dir
    then (record b { states = before }, some closed_directory)
    else if written
    then (record b { file = some b.states }, none)
    else (record b { states = before }, some write_failed)

-- `Close`; an error of closing the directory is not modelled.
unfoldable pub close : Breaker → Breaker
close b = if b.closed then b else record b { closed = true; dir = false }

module _ (sanitize : String → String) where
  -- `validOpaqueID`
  unfoldable pub valid_opaque_id : String → Bool
  valid_opaque_id value = not (value == "") && leb (len value) 256 && sanitize value == value

  unfoldable pub valid_key : BreakerKey → Bool
  valid_key (action, fingerprint) = Action.valid action && valid_opaque_id fingerprint

  unfoldable pub allow : BreakerKey → RequestSource → ℕ → Breaker → Breaker × BreakerDecision
  allow key source now b =
      if not (valid_key key && RequestSource.valid source && not (nat_beq now 0))
      then (b, record { allowed = false; retry_at = 0; reason = invalid_input })
      else if b.closed
      then (b, record { allowed = false; retry_at = 0; reason = breaker_closed })
      else elim (lookup key b.states) [
        | none ↦ (b, record { allowed = true; retry_at = 0; reason = no_reason })
        | some s ↦
            let (s', decision) = allow_state source now s in
            (record b { states = insert key s' b.states }, decision)
      ]

  -- `Record`; `written` is whether the write of the file, if it comes to that, succeeds, and
  -- `validated` is `successfulManualValidation`.
  unfoldable pub record_outcome :
      Bool → BreakerKey → OperationState → ℕ → Bool → Breaker → Breaker × Option BreakerError
  record_outcome written key outcome at validated b =
      if not (valid_key key && not (nat_beq at 0))
      then (b, some invalid_breaker_input)
      else if b.closed
      then (b, some closed_breaker)
      else (let s = find_state key b.states in
          let added = insert key s b.states in
          if outcome == succeeded
          then persist_or_restore written b.states (record b {
            states = if not s.rollback_failed || validated then delete key added else added;
          })
          else if not (outcome == rolled_back) && not (outcome == rollback_failed)
          then (record b { states = added }, none)
          else persist_or_restore written b.states
              (record b { states = insert key (fail_state outcome at s) b.states }))

  -- The checks of `NewPersistentBreaker` on the failures of an entry.
  unfoldable pub valid_failures : ℕ → List ℕ → Bool
  valid_failures previous [] = true
  valid_failures previous (f ∷ fs) =
      not (nat_beq f 0) && not (ltb f previous) && valid_failures f fs

  -- The loop of `NewPersistentBreaker` over the entries that were decoded.
  unfoldable pub load_entries :
      Dict BreakerKey BreakerState
      → Dict BreakerKey BreakerState
      → Option BreakerError × Dict BreakerKey BreakerState
  load_entries states [] = (none, states)
  load_entries states ((key, s) ∷ entries) =
      let rest = load_entries (insert key s states) entries in
      if not (valid_key key) || ltb breaker_failures (length s.failures)
      then (some invalid_entry, states)
      else elim (lookup key states) [
        | some old ↦ (some invalid_entry, states)
        | none ↦
            if not (valid_failures 0 s.failures)
            then (some invalid_history, states)
            else if not (nat_beq s.opened_at 0) && ltb (length s.failures) breaker_failures
            then (some invalid_open, states)
            else rest
      ]

  -- `NewPersistentBreaker` from the decoded file on: its version and its entries.
  unfoldable pub load :
      ℕ → Dict BreakerKey BreakerState → Option BreakerError × Dict BreakerKey BreakerState
  load version entries =
      if not (nat_beq version 1) || ltb 10000 (length entries)
      then (some bad_version, [])
      else load_entries [] entries
