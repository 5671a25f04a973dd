-- ===== src/Breaker/Cases.antt =====
-- internal/agent/recovery/breaker.go: the ways through `persistOrRestore`, `Record` and `Allow`.
use nur_proxy.Base.{
  ℕ, ◌≤◌, ◌≡◌, ◌⊎◌, refl, true, String, Bool, none, some, inl, inr, arith, Bool-cases, Option-cases,
  ◌==◌, pair_eq, string_eq, nat_beq, sym, if◌then◌else◌, not, ◌&&◌, ◌||◌,
}
use mathlib.Core.Path.{subst}
use nur_proxy.Dict.{Dict, lookup, insert, delete}
use nur_proxy.RecoveryModel.Action.{action_eq}
use nur_proxy.RecoveryModel.RequestSource.{RequestSource, request_source_eq}
use nur_proxy.RecoveryModel.OperationState.{OperationState, operation_state_eq}
use nur_proxy.Base.{◌≢◌}
use nur_proxy.RecoveryModel.RequestSource
use nur_proxy.RecoveryModel.OperationState.{succeeded, rolled_back, rollback_failed}
use nur_proxy.Breaker.{
  fail_state, valid_key, record_outcome, persist_or_restore, allow, allow_state, find_state,
  Breaker, BreakerState, BreakerKey,
}

-- The states after a change was to be written: those of the change, without an error, or else those
-- before it.
pub persist-cases :
    (written : Bool) (before : Dict BreakerKey BreakerState) (b : Breaker)
    → (((persist_or_restore written before b).1 ≡ none)
        × ((persist_or_restore written before b).0.states ≡ b.states))
      ⊎ (((persist_or_restore written before b).1 ≢ none)
          × ((persist_or_restore written before b).0.states ≡ before))
unfolding persist_or_restore
persist-cases written before b = elim (Bool-cases b.persistent) [
  | inr memory ↦ inl (rw memory (refl, refl))
  | inl disk ↦ elim (Bool-cases b.dir) [
    | inr shut ↦ inr (rw disk (rw shut ((λ e. cc), refl)))
    | inl opened ↦ elim (Bool-cases written) [
      | inl ok ↦ inl (rw disk (rw opened (rw ok (refl, refl))))
      | inr failed ↦ inr (rw disk (rw opened (rw failed ((λ e. cc), refl))))
    ]
  ]
]

-- What `Record` may make of the states `m`.
pub data Recorded (m : Dict BreakerKey BreakerState) (key : BreakerKey) (outcome : OperationState)
    (at : ℕ) (validated : Bool) : Dict BreakerKey BreakerState → Type 0 where
  unchanged : Recorded m key outcome at validated m
  touched : Recorded m key outcome at validated (insert key (find_state key m) m)
  cleared :
      (outcome == succeeded) ≡ true
      → not (find_state key m).rollback_failed || validated ≡ true
      → Recorded m key outcome at validated (delete key (insert key (find_state key m) m))
  counted :
      1 ≤ at
      → Recorded m key outcome at validated
          (insert key (fail_state outcome at (find_state key m)) m)

module _ (written : Bool) (b : Breaker) (key : BreakerKey) (outcome : OperationState) (at : ℕ)
    (validated : Bool) where
  persist-Recorded :
      (changed : Breaker)
      → Recorded b.states key outcome at validated changed.states
      → Recorded b.states key outcome at validated
          (persist_or_restore written b.states changed).0.states
  persist-Recorded changed r = elim (persist-cases written b.states changed) [
    | inl (ok, p) ↦ subst (Recorded b.states key outcome at validated) (sym p) r
    | inr (failed, p) ↦ subst (Recorded b.states key outcome at validated) (sym p) unchanged
  ]

  succeed-Recorded :
      (outcome == succeeded) ≡ true
      → Recorded b.states key outcome at validated (
          if not (find_state key b.states).rollback_failed || validated
          then delete key (insert key (find_state key b.states) b.states)
          else insert key (find_state key b.states) b.states)
  succeed-Recorded won =
      elim (Bool-cases (not (find_state key b.states).rollback_failed || validated)) [
        | inl ok ↦ rw ok (cleared won ok)
        | inr latched ↦ rw latched touched
      ]

  pub record-Recorded :
      (sanitize : String → String)
      → Recorded b.states key outcome at validated
          (record_outcome sanitize written key outcome at validated b).0.states
  unfolding record_outcome
  record-Recorded sanitize = elim (Bool-cases (valid_key sanitize key && not (nat_beq at 0))) [
    | inr invalid ↦ rw (invalid, record_outcome) unchanged
    | inl valid ↦ elim (Bool-cases b.closed) [
      | inl shut ↦ rw (valid, record_outcome) (rw shut unchanged)
      | inr opened ↦ elim (Bool-cases (outcome == succeeded)) [
        | inl won ↦
            rw (valid, record_outcome)
              (rw opened (rw won (persist-Recorded _ (succeed-Recorded won))))
        | inr lost ↦
            elim (Bool-cases (not (outcome == rolled_back) && not (outcome == rollback_failed))) [
              | inl neither ↦ rw (valid, record_outcome) (rw opened (rw lost (rw neither touched)))
              | inr failed ↦
                  rw (valid, record_outcome)
                    (rw opened (rw lost (rw failed (persist-Recorded _ (counted (ground arith))))))
            ]
      ]
    ]
  ]

-- What `Allow` may make of the states `m`.
pub data Allowed (m : Dict BreakerKey BreakerState) (key : BreakerKey) (source : RequestSource)
    (now : ℕ) : Dict BreakerKey BreakerState → Type 0 where
  as_before : Allowed m key source now m
  looked_at :
      (s : BreakerState)
      → lookup key m ≡ some s
      → Allowed m key source now (insert key (allow_state source now s).0 m)

pub allow-Allowed :
    (sanitize : String → String) (key : BreakerKey) (source : RequestSource) (now : ℕ) (b : Breaker)
    → Allowed b.states key source now (allow sanitize key source now b).0.states
unfolding allow
allow-Allowed sanitize key source now b =
    elim (Bool-cases
      (valid_key sanitize key && RequestSource.valid source && not (nat_beq now 0))) [
        | inr invalid ↦ rw (invalid, allow) as_before
        | inl valid ↦ elim (Bool-cases b.closed) [
          | inl shut ↦ rw (valid, allow) (rw shut as_before)
          | inr opened ↦ elim (Option-cases (lookup key b.states)) [
            | inl missing ↦ rw (valid, allow) (rw opened (rw missing as_before))
            | inr (s, found) ↦ rw (valid, allow) (rw opened (rw found (looked_at s found)))
          ]
        ]
      ]
