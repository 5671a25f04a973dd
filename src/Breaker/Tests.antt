-- ===== src/Breaker/Tests.antt =====
-- internal/agent/recovery/breaker.go: runs at concrete inputs, and instances of the theorems.
use nur_proxy.Breaker.{rollback_failed, load, valid_failures, compact}
use nur_proxy.Breaker.{newest}
use nur_proxy.Breaker.{fail_state}
use nur_proxy.Breaker.{valid_failures}
use nur_proxy.Breaker.Latch.{clears}
use nur_proxy.Breaker.{persist_or_restore}
use nur_proxy.Breaker.{kept_failures}
use nur_proxy.Base.{
  length, ◌≤◌, ℕ, ◌≡◌, ◌↔◌, ◌*◌, refl, true, false, String, string_eq, none, some, [], ◌∷◌, arith,
  pair_eq,
}
use nur_proxy.Dict.{Dict, lookup, insert}
use nur_proxy.RecoveryModel.Action
use nur_proxy.RecoveryModel.Action.{prune_managed_orphan, action_eq}
use nur_proxy.RecoveryModel.RequestSource.{automatic, request_source_eq}
use nur_proxy.RecoveryModel.OperationState.{succeeded, rolled_back, operation_state_eq}
use nur_proxy.Breaker.{
  Breaker, BreakerKey, BreakerState, allow, record_outcome, load_entries, find_state, valid_key,
  valid_opaque_id, invalid_open,
}
use nur_proxy.Breaker.Invariant.{AllStates, record_call, close_call, run_calls, run_calls-AllStates}
use nur_proxy.Breaker.Latch.{latch_holds}
use nur_proxy.Breaker.Reload.{AllReloadable, reload_iff, reload_same}
use nur_proxy.Breaker.Threshold.{third_failure_opens}

abbrev id_sanitize : String → String
id_sanitize s = s

abbrev key : BreakerKey
key = (prune_managed_orphan, "fp")

abbrev minute : ℕ
minute = 60000000000

abbrev fresh : Breaker
fresh = record { states = []; dir = true; persistent = true; closed = false; file = none }

abbrev twice : Breaker
twice = record fresh {
  states =
      (
        key,
        record {
          failures = 100 * minute ∷ 101 * minute ∷ [];
          opened_at = 0;
          rollback_failed = false;
        },
      )
      ∷ [];
}

abbrev opened : BreakerState
opened = record {
  failures = 100 * minute ∷ 101 * minute ∷ 102 * minute ∷ [];
  opened_at = 102 * minute;
  rollback_failed = false;
}

valid : valid_key id_sanitize key ≡ true
unfolding valid_key valid_opaque_id Action.valid
valid = refl

abbrev opened_states : Dict BreakerKey BreakerState
opened_states = (key, opened) ∷ []

twice-AllStates : AllStates twice.states
twice-AllStates = (
  record {
    few = omega arith;
    last = 101 * 60000000000;
    ordered = (omega arith, omega arith, (omega arith, omega arith, tt));
  },
  tt,
)

opened-AllStates : AllStates ((key, opened) ∷ [])
opened-AllStates = (
  record {
    few = omega arith;
    last = 102 * 60000000000;
    ordered =
        (omega arith, omega arith, (omega arith, omega arith, (omega arith, omega arith, tt)));
  },
  tt,
)

third_failure_opens_example :
    (allow id_sanitize key automatic
      (103 * minute)
      (record_outcome id_sanitize true key rolled_back (102 * minute) false twice).0).1.allowed
    ≡ false
unfolding record_outcome find_state lookup kept_failures valid_key Action.valid valid_opaque_id
    persist_or_restore
third_failure_opens_example =
    third_failure_opens id_sanitize true false key (102 * minute) twice (103 * minute) valid
      (omega arith) (omega arith) refl refl (omega arith) refl

latch_holds_example :
    (allow id_sanitize key automatic (900 * minute) (
      run_calls id_sanitize
        (record_call true key succeeded (200 * minute) false
          ∷ record_call false key rolled_back (201 * minute) false
          ∷ [])
        (record_outcome id_sanitize true key rollback_failed
          (102 * minute)
          false
          twice).0)).1.allowed
    ≡ false
unfolding record_outcome find_state lookup kept_failures valid_key Action.valid valid_opaque_id
    persist_or_restore clears
latch_holds_example =
    latch_holds id_sanitize true false key (102 * minute) twice
      (record_call true key succeeded (200 * minute) false
        ∷ record_call false key rolled_back (201 * minute) false
        ∷ [])
      automatic (900 * minute) valid (omega arith) refl refl refl refl

run_calls-AllStates_example :
    AllStates
      (run_calls id_sanitize
        (record_call true key rolled_back (102 * minute) false ∷ close_call ∷ [])
        twice).states
run_calls-AllStates_example =
    run_calls-AllStates id_sanitize
      (record_call true key rolled_back (102 * minute) false ∷ close_call ∷ []) twice
      twice-AllStates

reload_iff_example :
    ((load id_sanitize 1 opened_states).0 ≡ none)
    ↔ ((length opened_states ≤ 10000) × AllReloadable id_sanitize opened_states)
unfolding lookup
reload_iff_example = reload_iff id_sanitize opened_states opened-AllStates (refl, tt)

reload_same_example : lookup key (load id_sanitize 1 opened_states).1 ≡ some opened
unfolding lookup load load_entries valid_key Action.valid valid_opaque_id valid_failures
reload_same_example = reload_same id_sanitize opened_states key opened-AllStates (refl, tt) refl

-- An hour's opening outlives the failures, which leave the window after fifteen minutes: a rollback
-- at minute 130 writes a file that is refused when the breaker is started again.
abbrev later_rollback : Breaker
later_rollback =
    (record_outcome id_sanitize true key rolled_back (130 * minute) false
      (record fresh { states = (key, opened) ∷ [] })).0

reopen_refused :
    later_rollback.file
    ≡ some (
        (
          key,
          record {
            failures = 130 * minute ∷ [];
            opened_at = 102 * minute;
            rollback_failed = false;
          },
        )
        ∷ [])
unfolding record_outcome valid_key Action.valid valid_opaque_id persist_or_restore insert fail_state
    newest find_state compact lookup kept_failures
reopen_refused = refl

reopen_refused_load :
    (load id_sanitize 1 (
      (
        key,
        record { failures = 130 * minute ∷ []; opened_at = 102 * minute; rollback_failed = false },
      )
      ∷ [])).0
    ≡ some invalid_open
unfolding load load_entries valid_key Action.valid valid_opaque_id lookup valid_failures
reopen_refused_load = refl
