-- ===== src/Breaker/Latch.antt =====
-- internal/agent/recovery/breaker.go: the latch that a failed rollback sets.
use nur_proxy.Base.{
  ℕ, ◌≡◌, refl, true, false, String, Bool, none, some, List, [], ◌∷◌, inl, inr, arith, Bool-cases,
  Option-cases, ◌==◌, pair_eq, string_eq, nat_beq, sym, if◌then◌else◌, not, ◌&&◌, ◌||◌, ◌≤◌,
}
use nur_proxy.Dict.{Dict, lookup, insert, delete}
use nur_proxy.RecoveryModel.Action.{action_eq}
use nur_proxy.RecoveryModel.RequestSource.{RequestSource, user, request_source_eq}
use nur_proxy.RecoveryModel.OperationState.{OperationState, operation_state_eq}
use nur_proxy.Base.{ap, ◌∙◌, any}
use nur_proxy.RecoveryModel.RequestSource
use nur_proxy.RecoveryModel.OperationState.{succeeded, rollback_failed}
use nur_proxy.Dict.Laws.{lookup-insert, lookup-delete, lookup-insert_self}
use nur_proxy.Breaker.{
  persist_or_restore, record_outcome, valid_key, find_state, fail_state, allow_state, allow,
  compact, close, Breaker, BreakerState, BreakerKey,
}
use nur_proxy.Breaker.Cases.{
  persist-cases, record-Recorded, allow-Allowed, Recorded, unchanged, touched, cleared, counted,
  Allowed, as_before, looked_at,
}
use nur_proxy.Breaker.Invariant.{
  allow_state-cases, BreakerCall, allow_call, record_call, close_call, run_call, run_calls,
}

-- The key's state has the latch set.
abbrev pub Latched : BreakerKey → Dict BreakerKey BreakerState → Type 0
Latched key m = (find_state key m).rollback_failed ≡ true

find_state-insert :
    (key other : BreakerKey) (s : BreakerState) (m : Dict BreakerKey BreakerState)
    → find_state key (insert other s m) ≡ (if other == key then s else find_state key m)
unfolding find_state
find_state-insert key other s m = elim (Bool-cases (other == key)) [
  | inl same ↦ ground (arith, lookup-insert key other s m)
  | inr differs ↦ ground (arith, lookup-insert key other s m)
]

insert-Latched :
    (key other : BreakerKey) (s : BreakerState) (m : Dict BreakerKey BreakerState)
    → ((other == key) ≡ true → s.rollback_failed ≡ true)
    → Latched key m
    → Latched key (insert other s m)
insert-Latched key other s m h l = elim (Bool-cases (other == key)) [
  | inl same ↦ let q = h same in ground (arith, find_state-insert key other s m)
  | inr differs ↦ ground (arith, find_state-insert key other s m)
]

find_state-same :
    (key other : BreakerKey) (m : Dict BreakerKey BreakerState)
    → (other == key) ≡ true
    → find_state other m ≡ find_state key m
find_state-same key other m same = ap (λ k. find_state k m) ((pair_eq.beq_iff other key).0 same)

-- The one way to clear the latch: a success of the key that was validated by hand.
unfoldable pub clears : BreakerKey → BreakerCall → Bool
clears key (record_call written other outcome at validated) =
    other == key && outcome == succeeded && validated
clears key _ = false

find_state-delete :
    (key other : BreakerKey) (m : Dict BreakerKey BreakerState)
    → (other == key) ≡ false
    → find_state key (delete other m) ≡ find_state key m
unfolding find_state
find_state-delete key other m differs = ground (arith, lookup-delete key other m)

fail_state-latched :
    (outcome : OperationState) (at : ℕ) (s : BreakerState)
    → s.rollback_failed ≡ true
    → (fail_state outcome at s).rollback_failed ≡ true
unfolding fail_state
fail_state-latched outcome at s l = ground arith

cleared_other :
    (a b c : Bool) (s : BreakerState)
    → a && b && c ≡ false
    → b ≡ true
    → not s.rollback_failed || c ≡ true
    → s.rollback_failed ≡ true
    → a ≡ false
cleared_other a b c s n won ok l = ground arith

missing_clear :
    (key : BreakerKey) (m : Dict BreakerKey BreakerState)
    → lookup key m ≡ none
    → (find_state key m).rollback_failed ≡ false
unfolding find_state
missing_clear key m h = ground arith

Recorded-Latched :
    (key : BreakerKey) {m : Dict BreakerKey BreakerState} {other : BreakerKey}
    {outcome : OperationState} {at : ℕ} {validated : Bool} {m' : Dict BreakerKey BreakerState}
    → (other == key && outcome == succeeded && validated) ≡ false
    → Latched key m
    → Recorded m other outcome at validated m'
    → Latched key m'
Recorded-Latched key n l unchanged = l
Recorded-Latched key {m} {other} n l touched =
    insert-Latched key other (find_state other m) m
      (λ same. ap (λ s. s.rollback_failed) (find_state-same key other m same) ∙ l) l
Recorded-Latched key {m} {other} {outcome} {at} {validated} n l (cleared won ok) =
    elim (Bool-cases (other == key)) [
      | inl same ↦ absurd (
          cc (
            cleared_other (other == key) (outcome == succeeded) validated (find_state other m) n won
              ok (ap (λ s. s.rollback_failed) (find_state-same key other m same) ∙ l)))
      | inr differs ↦
          ap (λ s. s.rollback_failed)
            (find_state-delete key other (insert other (find_state other m) m) differs)
          ∙ insert-Latched key other (find_state other m) m (λ same. absurd (cc)) l
    ]
Recorded-Latched key {m} {other} {outcome} {at} n l (counted past) =
    insert-Latched key other (fail_state outcome at (find_state other m)) m
      (λ same.
        fail_state-latched outcome at (find_state other m)
          (ap (λ s. s.rollback_failed) (find_state-same key other m same) ∙ l))
      l

found_state :
    (key : BreakerKey) (s : BreakerState) (m : Dict BreakerKey BreakerState)
    → lookup key m ≡ some s
    → find_state key m ≡ s
unfolding find_state
found_state key s m h = ground arith

allow_state-latched :
    (source : RequestSource) (now : ℕ) (s : BreakerState)
    → s.rollback_failed ≡ true
    → (allow_state source now s).0.rollback_failed ≡ true
unfolding compact
allow_state-latched source now s l = elim (allow_state-cases source now s) [
  | inl p ↦ ap (λ s. s.rollback_failed) p ∙ l
  | inr (clear, late, p) ↦ absurd (cc)
]

Allowed-Latched :
    (key : BreakerKey) {m : Dict BreakerKey BreakerState} {other : BreakerKey}
    {source : RequestSource} {now : ℕ} {m' : Dict BreakerKey BreakerState}
    → Latched key m
    → Allowed m other source now m'
    → Latched key m'
Allowed-Latched key l as_before = l
Allowed-Latched key {m} {other} {source} {now} l (looked_at s found) =
    insert-Latched key other (allow_state source now s).0 m
      (λ same. allow_state-latched source now s (
        ap (λ s. s.rollback_failed)
          (sym (found_state other s m found) ∙ find_state-same key other m same)
        ∙ l))
      l

module _ (sanitize : String → String) where
  call-Latched :
      (key : BreakerKey) (c : BreakerCall) (b : Breaker)
      → clears key c ≡ false
      → Latched key b.states
      → Latched key (run_call sanitize c b).states
  unfolding run_call close clears
  call-Latched key (allow_call other source now) b n l =
      Allowed-Latched key l (allow-Allowed sanitize other source now b)
  call-Latched key (record_call written other outcome at validated) b n l =
      Recorded-Latched key n l (record-Recorded written b other outcome at validated sanitize)
  call-Latched key close_call b n l = elim (Bool-cases b.closed) [
    | inl shut ↦ rw shut l
    | inr opened ↦ rw opened l
  ]

  calls-Latched :
      (key : BreakerKey) (calls : List BreakerCall) (b : Breaker)
      → any (clears key) calls ≡ false
      → Latched key b.states
      → Latched key (run_calls sanitize calls b).states
  unfolding run_calls
  calls-Latched key [] b n l = l
  calls-Latched key (c ∷ calls) b n l =
      calls-Latched key calls (run_call sanitize c b) (ground arith)
        (call-Latched key c b (ground arith) l)

  state_denied :
      (source : RequestSource) (now : ℕ) (s : BreakerState)
      → (source == user) ≡ false
      → s.rollback_failed ≡ true
      → (allow_state source now s).1.allowed ≡ false
  unfolding allow_state compact
  state_denied source now s other l = rw l (rw other refl)

  Latched-denied :
      (key : BreakerKey) (source : RequestSource) (now : ℕ) (b : Breaker)
      → (source == user) ≡ false
      → Latched key b.states
      → (allow sanitize key source now b).1.allowed ≡ false
  unfolding allow
  Latched-denied key source now b other l =
      elim (Bool-cases
        (valid_key sanitize key && RequestSource.valid source && not (nat_beq now 0))) [
          | inr invalid ↦ rw (invalid, allow) refl
          | inl valid ↦ elim (Bool-cases b.closed) [
            | inl shut ↦ rw (valid, allow) (rw shut refl)
            | inr opened ↦ elim (Option-cases (lookup key b.states)) [
              | inl missing ↦ absurd (cc (missing_clear key b.states missing))
              | inr (s, found) ↦
                  rw (valid, allow)
                    (rw opened (
                      rw found (
                        state_denied source now s other (
                          ap (λ s. s.rollback_failed) (sym (found_state key s b.states found))
                          ∙ l))))
            ]
          ]
        ]

  failed_rollback-persists :
      (written validated : Bool) (key : BreakerKey) (at : ℕ) (b : Breaker)
      → (valid_key sanitize key && not (nat_beq at 0)) ≡ true
      → b.closed ≡ false
      → record_outcome sanitize written key rollback_failed at validated b
        ≡ persist_or_restore written b.states (record b {
          states = insert key (fail_state rollback_failed at (find_state key b.states)) b.states;
        })
  unfolding record_outcome
  failed_rollback-persists written validated key at b valid opened =
      rw (valid, record_outcome) (rw opened refl)

  failed_rollback-Latched :
      (written validated : Bool) (key : BreakerKey) (at : ℕ) (b : Breaker)
      → (valid_key sanitize key && not (nat_beq at 0)) ≡ true
      → b.closed ≡ false
      → (record_outcome sanitize written key rollback_failed at validated b).1 ≡ none
      → Latched key (record_outcome sanitize written key rollback_failed at validated b).0.states
  unfolding fail_state
  failed_rollback-Latched written validated key at b valid opened done =
      let changed = record b {
        states = insert key (fail_state rollback_failed at (find_state key b.states)) b.states;
      } in
      let p = failed_rollback-persists written validated key at b valid opened in
      elim (persist-cases written b.states changed) [
        | inl (ok, same) ↦
            ap (λ m. (find_state key m).rollback_failed) (ap (λ w. w.0.states) p ∙ same)
            ∙ ap (λ s. s.rollback_failed) (found_state key _ _ (lookup-insert_self key _ b.states))
        | inr (failed, same) ↦ absurd (failed (sym (ap (λ w. w.1) p) ∙ done))
      ]

  -- After a rollback has failed for a valid key and the breaker has recorded it without an error,
  -- every request for the key that is not a user's is refused, after any calls of which none is a
  -- success of the key that was validated by hand: neither time, nor other outcomes, nor failed
  -- writes of the file lift the latch.
  pub latch_holds :
      (written validated : Bool) (key : BreakerKey) (at : ℕ) (b : Breaker)
      (calls : List BreakerCall) (source : RequestSource) (now : ℕ)
      → valid_key sanitize key ≡ true
      → 1 ≤ at
      → b.closed ≡ false
      → (record_outcome sanitize written key rollback_failed at validated b).1 ≡ none
      → any (clears key) calls ≡ false
      → (source == user) ≡ false
      → let recorded = (record_outcome sanitize written key rollback_failed at validated b).0 in
        (allow sanitize key source now (run_calls sanitize calls recorded)).1.allowed ≡ false
  latch_holds written validated key at b calls source now ok one opened done n other =
      let recorded = (record_outcome sanitize written key rollback_failed at validated b).0 in
      Latched-denied key source now (run_calls sanitize calls recorded) other (
        calls-Latched key calls recorded n (
          failed_rollback-Latched written validated key at b (ground (arith, ok, one)) opened done))
