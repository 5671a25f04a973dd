-- ===== src/Breaker/Threshold.antt =====
-- internal/agent/recovery/breaker.go: the failure that opens the breaker.
use nur_proxy.Breaker.Cases.{persist-cases}
use nur_proxy.Base.{
  ℕ, ◌+◌, ◌≤◌, ◌≡◌, refl, true, false, String, Bool, Option, none, some, List, [], ◌∷◌, ◌++◌, inl,
  inr, length, arith, Bool-cases, pair_eq, string_eq, nat_beq, sym, not, ◌&&◌, leb,
}
use nur_proxy.Dict.{lookup, insert}
use nur_proxy.RecoveryModel.Action.{action_eq}
use nur_proxy.RecoveryModel.RequestSource.{RequestSource, automatic, request_source_eq}
use nur_proxy.RecoveryModel.OperationState.{OperationState, operation_state_eq}
use nur_proxy.Base.{ap, ◌∙◌}
use nur_proxy.RecoveryModel.RequestSource
use nur_proxy.RecoveryModel.OperationState.{rolled_back}
use nur_proxy.Dict.Laws.{lookup-insert_self}
use nur_proxy.Breaker.{
  allow, breaker_open_time, valid_key, find_state, compact, persist_or_restore, kept_failures,
  allow_state, BreakerError, record_outcome, fail_state, newest, Breaker, BreakerState, BreakerKey,
}

length-snoc : (fs : List ℕ) (f : ℕ) → length (fs ++ f ∷ []) ≡ length fs + 1
length-snoc [] f = refl
length-snoc (g ∷ fs) f = omega (arith, length-snoc fs f)

newest-full : (n : ℕ) (fs : List ℕ) → n ≤ length fs → length (newest n fs) ≡ n
unfolding newest
newest-full n [] h = omega arith
newest-full n (f ∷ fs) h = ground (arith, newest-full n fs)

abbrev pub recent : ℕ → BreakerKey → Breaker → ℕ
recent at key b = length (kept_failures at (find_state key b.states).failures)

-- The third failure in the window opens the state.
fail_state-opens :
    (outcome : OperationState) (at : ℕ) (s : BreakerState)
    → 2 ≤ length (kept_failures at s.failures)
    → (fail_state outcome at s).opened_at ≡ at
unfolding fail_state compact
fail_state-opens outcome at s h = ground (
  arith,
  newest-full 3 (kept_failures at s.failures ++ at ∷ []),
  length-snoc (kept_failures at s.failures) at,
)

fail_state-clear :
    (at : ℕ) (s : BreakerState)
    → s.rollback_failed ≡ false
    → (fail_state rolled_back at s).rollback_failed ≡ false
unfolding fail_state
fail_state-clear at s h = h

opened_decision :
    (now at : ℕ) (s : BreakerState)
    → s.opened_at ≡ at
    → 1 ≤ at
    → s.rollback_failed ≡ false
    → (allow_state automatic now s).1.allowed ≡ leb (at + breaker_open_time) now
unfolding allow_state compact
opened_decision now at s o one clear = ground arith

module _ (sanitize : String → String) (written validated : Bool) (key : BreakerKey) (at : ℕ)
    (b : Breaker) where
  abbrev after : Breaker × Option BreakerError
  after = record_outcome sanitize written key rolled_back at validated b

  abbrev changed : Breaker
  changed = record b {
    states = insert key (fail_state rolled_back at (find_state key b.states)) b.states;
  }

  guard :
      valid_key sanitize key ≡ true → 1 ≤ at → (valid_key sanitize key && not (nat_beq at 0)) ≡ true
  guard ok one = ground arith

  goes_on :
      valid_key sanitize key ≡ true
      → 1 ≤ at
      → b.closed ≡ false
      → after ≡ persist_or_restore written b.states changed
  unfolding record_outcome
  goes_on ok one opened = rw (guard ok one, record_outcome) (rw opened refl)

  goes_on_closed : (persist_or_restore written b.states changed).0.closed ≡ b.closed
  unfolding persist_or_restore
  goes_on_closed = elim (Bool-cases b.persistent) [
    | inr memory ↦ rw (memory, persist_or_restore) refl
    | inl disk ↦ elim (Bool-cases b.dir) [
      | inr shut ↦ rw (disk, persist_or_restore) (rw shut refl)
      | inl opened ↦ elim (Bool-cases written) [
        | inl ok ↦ rw (disk, persist_or_restore) (rw opened (rw ok refl))
        | inr failed ↦ rw (disk, persist_or_restore) (rw opened (rw failed refl))
      ]
    ]
  ]

  failed_states :
      after ≡ persist_or_restore written b.states changed
      → after.1 ≡ none
      → after.0.states ≡ changed.states
  failed_states p done = elim (persist-cases written b.states changed) [
    | inl (ok, same) ↦ ap (λ r. r.0.states) p ∙ same
    | inr (failed, same) ↦ absurd (failed (sym (ap (λ r. r.1) p) ∙ done))
  ]

allow_opened :
    (sanitize : String → String) (key : BreakerKey) (now : ℕ) (b : Breaker) (s : BreakerState)
    → valid_key sanitize key ≡ true
    → 1 ≤ now
    → b.closed ≡ false
    → lookup key b.states ≡ some s
    → (allow sanitize key automatic now b).1.allowed ≡ (allow_state automatic now s).1.allowed
unfolding allow RequestSource.valid
allow_opened sanitize key now b s ok one opened found =
    rw (guard_now sanitize key now ok one, allow) (rw opened (rw found refl))
  where
    guard_now :
        (sanitize : String → String) (key : BreakerKey) (now : ℕ)
        → valid_key sanitize key ≡ true
        → 1 ≤ now
        → (valid_key sanitize key && RequestSource.valid automatic && not (nat_beq now 0)) ≡ true
    guard_now sanitize key now ok one = ground arith

-- When a repair is rolled back at `at`, after two failures of the key in the fifteen minutes before,
-- and the call reports no error, an automatic request of the key is refused until an hour after
-- `at`, and allowed from then on. The key is valid, its latch is not set, and the breaker is in use.
pub third_failure_opens :
    (sanitize : String → String) (written validated : Bool) (key : BreakerKey) (at : ℕ)
    (b : Breaker) (now : ℕ)
    → valid_key sanitize key ≡ true
    → 1 ≤ at
    → 1 ≤ now
    → b.closed ≡ false
    → (find_state key b.states).rollback_failed ≡ false
    → 2 ≤ recent at key b
    → (record_outcome sanitize written key rolled_back at validated b).1 ≡ none
    → (allow sanitize key automatic now
        (record_outcome sanitize written key rolled_back at validated b).0).1.allowed
      ≡ leb (at + breaker_open_time) now
third_failure_opens sanitize written validated key at b now ok one one' opened clear twice done =
    let p = goes_on sanitize written validated key at b ok one opened in
    let after = record_outcome sanitize written key rolled_back at validated b in
    let s = fail_state rolled_back at (find_state key b.states) in
    let in_use : after.0.closed ≡ false =
      ap (λ r. r.0.closed) p ∙ goes_on_closed sanitize written validated key at b ∙ opened in
    let found : lookup key after.0.states ≡ some s =
      ap (lookup key) (failed_states sanitize written validated key at b p done)
      ∙ lookup-insert_self key s b.states in
    allow_opened sanitize key now after.0 s ok one' in_use found
    ∙ opened_decision now at s (fail_state-opens rolled_back at (find_state key b.states) twice) one
        (fail_state-clear at (find_state key b.states) clear)
