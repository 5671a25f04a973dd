-- ===== src/Breaker/Invariant.antt =====
-- internal/agent/recovery/breaker.go: what the states of the breaker satisfy after any calls.
use nur_proxy.Base.{
  ℕ, ◌+◌, ◌≤◌, ◌≡◌, ◌⊎◌, refl, false, String, Bool, List, [], ◌∷◌, ◌++◌, inl, inr, ltb, length,
  arith, Bool-cases, Option-cases, ◌==◌, pair_eq, string_eq, nat_beq, sym,
}
use mathlib.Core.Path.{subst}
use nur_proxy.Dict.{Dict, lookup}
use nur_proxy.Dict.Laws.{AllEntries, lookup-AllEntries, insert-AllEntries, delete-AllEntries}
use nur_proxy.RecoveryModel.Action.{action_eq}
use nur_proxy.RecoveryModel.RequestSource.{RequestSource, user, automatic, request_source_eq}
use nur_proxy.RecoveryModel.OperationState.{OperationState, operation_state_eq}
use nur_proxy.Breaker.{
  breaker_open_time, record_outcome, in_window, kept_failures, breaker_failures, find_state, newest,
  close, allow, allow_state, fail_state, compact, no_state, BreakerState, Breaker, BreakerKey,
}
use nur_proxy.Breaker.Cases.{
  record-Recorded, allow-Allowed, Recorded, unchanged, touched, cleared, counted, Allowed,
  as_before, looked_at,
}

-- The failures are in order, after `low` and not after `high`.
abbrev pub Between : ℕ → ℕ → List ℕ → Type 0
Between low high [] = Unit
Between low high (f ∷ fs) = (low ≤ f) × (f ≤ high) × Between f high fs

Between-low :
    (low low' high : ℕ) (fs : List ℕ) → low' ≤ low → Between low high fs → Between low' high fs
Between-low low low' high [] h b = tt
Between-low low low' high (f ∷ fs) h (p, q, b) = (omega arith, q, b)

kept-Between :
    (now low high : ℕ) (fs : List ℕ) → Between low high fs → Between low now (kept_failures now fs)
unfolding kept_failures
kept-Between now low high [] b = tt
kept-Between now low high (f ∷ fs) (p, q, b) = elim (Bool-cases (in_window now f)) [
  | inl kept ↦ rw kept (p, ground arith, kept-Between now f high fs b)
  | inr dropped ↦ rw dropped (Between-low f low now _ p (kept-Between now f high fs b))
]

length-kept : (now : ℕ) (fs : List ℕ) → length (kept_failures now fs) ≤ length fs
unfolding kept_failures
length-kept now [] = omega arith
length-kept now (f ∷ fs) = ground (arith, length-kept now fs)

snoc-Between :
    (low at : ℕ) (fs : List ℕ) → Between low at fs → low ≤ at → Between low at (fs ++ at ∷ [])
snoc-Between low at [] b h = (h, omega arith, tt)
snoc-Between low at (f ∷ fs) (p, q, b) h = (p, q, snoc-Between f at fs b q)

newest-Between :
    (n low high : ℕ) (fs : List ℕ) → Between low high fs → Between low high (newest n fs)
unfolding newest
newest-Between n low high [] b = tt
newest-Between n low high (f ∷ fs) (p, q, b) = elim (Bool-cases (ltb n (length (f ∷ fs)))) [
  | inl long ↦ rw long (newest-Between n low high fs (Between-low f low high fs p b))
  | inr short ↦ rw short (p, q, b)
]

length-newest : (n : ℕ) (fs : List ℕ) → length (newest n fs) ≤ n
unfolding newest
length-newest n [] = omega arith
length-newest n (f ∷ fs) = ground (arith, length-newest n fs)

-- What holds of the state of every key: at most three failures, which are real times in order.
pub record IsState (s : BreakerState) : Type 0 where
  pub few : length s.failures ≤ breaker_failures
  pub last : ℕ
  pub ordered : Between 1 last s.failures

-- What `Allow` leaves of the state of the key.
pub allow_state-cases :
    (source : RequestSource) (now : ℕ) (s : BreakerState)
    → ((allow_state source now s).0 ≡ compact now s)
      ⊎ ((s.rollback_failed ≡ false)
          × (s.opened_at + breaker_open_time ≤ now)
          × ((allow_state source now s).0 ≡ no_state))
unfolding allow_state compact
allow_state-cases source now s = elim (Bool-cases s.rollback_failed) [
  | inl latched ↦ elim (Bool-cases (source == user)) [
    | inl manual ↦ inl (rw latched (rw manual refl))
    | inr other ↦ inl (rw latched (rw other refl))
  ]
  | inr clear ↦ elim (Bool-cases (nat_beq s.opened_at 0)) [
    | inl shut ↦ inl (rw clear (rw shut refl))
    | inr opened ↦ elim (Bool-cases (ltb now (s.opened_at + breaker_open_time))) [
      | inl early ↦ elim (Bool-cases (source == automatic)) [
        | inl auto ↦ inl (rw clear (rw opened (rw early (rw auto refl))))
        | inr other ↦ inl (rw clear (rw opened (rw early (rw other refl))))
      ]
      | inr late ↦ inr (clear, ground arith, rw clear (rw opened (rw late refl)))
    ]
  ]
]

no_state-IsState : IsState no_state
no_state-IsState = record { few = omega arith; last = 1; ordered = tt }

compact-IsState : (now : ℕ) (s : BreakerState) → IsState s → IsState (compact now s)
unfolding compact
compact-IsState now s w = record {
  few = omega (arith, w.few, length-kept now s.failures);
  last = now;
  ordered = kept-Between now 1 w.last s.failures w.ordered;
}

allow_state-IsState :
    (source : RequestSource) (now : ℕ) (s : BreakerState)
    → IsState s
    → IsState (allow_state source now s).0
allow_state-IsState source now s w = elim (allow_state-cases source now s) [
  | inl p ↦ subst IsState (sym p) (compact-IsState now s w)
  | inr (clear, late, p) ↦ subst IsState (sym p) no_state-IsState
]

fail_state-IsState :
    (outcome : OperationState) (at : ℕ) (s : BreakerState)
    → 1 ≤ at
    → IsState s
    → IsState (fail_state outcome at s)
unfolding fail_state compact
fail_state-IsState outcome at s h w = record {
  few = length-newest 3 _;
  last = at;
  ordered =
      newest-Between 3 1 at _
        (snoc-Between 1 at _ (kept-Between at 1 w.last s.failures w.ordered) h);
}

abbrev pub AllStates : Dict BreakerKey BreakerState → Type 0
AllStates = AllEntries (λ k s. IsState s)

find_state-IsState :
    (key : BreakerKey) (states : Dict BreakerKey BreakerState)
    → AllStates states
    → IsState (find_state key states)
unfolding find_state
find_state-IsState key states h = elim (Option-cases (lookup key states)) [
  | inl missing ↦ rw (missing, find_state) no_state-IsState
  | inr (s, found) ↦
      rw (found, find_state) (lookup-AllEntries (λ k s. IsState s) key s states h found)
]

Recorded-AllStates :
    {m : Dict BreakerKey BreakerState} {key : BreakerKey} {outcome : OperationState} {at : ℕ}
    {validated : Bool} {m' : Dict BreakerKey BreakerState}
    → AllStates m
    → Recorded m key outcome at validated m'
    → AllStates m'
Recorded-AllStates h unchanged = h
Recorded-AllStates {m} {key} h touched =
    insert-AllEntries (λ k s. IsState s) key _ m h (find_state-IsState key m h)
Recorded-AllStates {m} {key} h (cleared won ok) =
    delete-AllEntries (λ k s. IsState s) key _
      (insert-AllEntries (λ k s. IsState s) key _ m h (find_state-IsState key m h))
Recorded-AllStates {m} {key} {outcome} {at} h (counted past) =
    insert-AllEntries (λ k s. IsState s) key _ m h
      (fail_state-IsState outcome at (find_state key m) past (find_state-IsState key m h))

Allowed-AllStates :
    {m : Dict BreakerKey BreakerState} {key : BreakerKey} {source : RequestSource} {now : ℕ}
    {m' : Dict BreakerKey BreakerState}
    → AllStates m
    → Allowed m key source now m'
    → AllStates m'
Allowed-AllStates h as_before = h
Allowed-AllStates {m} {key} {source} {now} h (looked_at s found) =
    insert-AllEntries (λ k s. IsState s) key _ m h
      (allow_state-IsState source now s (lookup-AllEntries (λ k s. IsState s) key s m h found))

-- A call of the breaker, with what it is given.
pub data BreakerCall : Type 0 where
  allow_call : BreakerKey → RequestSource → ℕ → BreakerCall
  record_call : Bool → BreakerKey → OperationState → ℕ → Bool → BreakerCall
  close_call : BreakerCall

module _ (sanitize : String → String) where
  unfoldable pub run_call : BreakerCall → Breaker → Breaker
  run_call (allow_call key source now) b = (allow sanitize key source now b).0
  run_call (record_call written key outcome at validated) b =
      (record_outcome sanitize written key outcome at validated b).0
  run_call close_call b = close b

  unfoldable pub run_calls : List BreakerCall → Breaker → Breaker
  run_calls [] b = b
  run_calls (c ∷ cs) b = run_calls cs (run_call c b)

  call-AllStates :
      (c : BreakerCall) (b : Breaker) → AllStates b.states → AllStates (run_call c b).states
  unfolding run_call close
  call-AllStates (allow_call key source now) b h =
      Allowed-AllStates h (allow-Allowed sanitize key source now b)
  call-AllStates (record_call written key outcome at validated) b h =
      Recorded-AllStates h (record-Recorded written b key outcome at validated sanitize)
  call-AllStates close_call b h = elim (Bool-cases b.closed) [
    | inl shut ↦ rw shut h
    | inr opened ↦ rw opened h
  ]

  -- After any calls on a breaker whose states hold at most three failures each, real times in
  -- order, every state does, whichever writes of the file fail.
  pub run_calls-AllStates :
      (calls : List BreakerCall) (b : Breaker)
      → AllStates b.states
      → AllStates (run_calls calls b).states
  unfolding run_calls
  run_calls-AllStates [] b h = h
  run_calls-AllStates (c ∷ calls) b h =
      run_calls-AllStates calls (run_call c b) (call-AllStates c b h)
