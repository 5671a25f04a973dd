-- ===== src/History/Latching.antt =====
-- internal/orchestrator/db/recovery.go: the latch of the orchestrator's repair circuit breaker, as
-- the stored operations set it.
use nur_proxy.Base.{
  ◌||◌, ℕ, ◌≡◌, ◌≢◌, ◌≤◌, ◌<◌, refl, Bool, true, false, not, ◌&&◌, String, string_eq, Option, none,
  some, List, [], ◌∷◌, ◌==◌, All, arith, Bool-cases, Option-cases, ◌+◌, inl, inr, eq_iff,
  if◌then◌else◌, ◌∙◌,
}
use nur_proxy.Dict.{Dict, lookup}
use nur_proxy.RecoveryModel.Action.{Action, action_eq}
use nur_proxy.RecoveryModel.RequestSource.{user, request_source_eq}
use nur_proxy.RecoveryModel.OperationState.{succeeded, rollback_failed, operation_state_eq}
use nur_proxy.History.Store.{Row, Store, in_unix_range}
use nur_proxy.History.Status.{
  RepairBreakerStatus, StatusError, missing_argument, unencodable_time, shut, failure_threshold,
  rollback_failed_latched, select_rows, by_receipt, bears_on_latch, latch_of,
  repair_rollback_failed_latched, repair_breaker_status, repair_breaker_status_from_history,
  find_opening, open_duration, after_all, latest_success, recent_failures,
}
use nur_proxy.History.Newest.{top, all_found, all_there, chosen, newest, IsNewest, newest-IsNewest}

-- An operation of the agent on the resource, with this action.
pub record IsOf (agent : String) (action : Action) (fingerprint : String) (row : Row) : Type 0 where
  pub agent_id : row.agent_id ≡ agent
  pub same_action : row.report.action ≡ action
  pub same_fingerprint : row.fingerprint ≡ fingerprint

-- A repair that a user asked for has succeeded.
pub record IsUserSuccess (row : Row) : Type 0 where
  pub state : row.report.state ≡ succeeded
  pub source : row.report.source ≡ user

abbrev latched_row : Option Row → Bool
latched_row none = false
latched_row (some r) = r.report.state == rollback_failed

latch_of-top : (rows : List Row) → latch_of rows ≡ latched_row (top rows)
latch_of-top [] = refl
latch_of-top (r ∷ rows) = refl

four_true :
    (a b c d : Bool) → (a && b && c && d) ≡ true → (a ≡ true) × (b ≡ true) × (c ≡ true) × (d ≡ true)
four_true true true true true h = (refl, refl, refl, refl)
four_true false b c d h = absurd (cc)
four_true true false c d h = absurd (cc)
four_true true true false d h = absurd (cc)
four_true true true true false h = absurd (cc)

true_four : {a b c d : Bool} → a ≡ true → b ≡ true → c ≡ true → d ≡ true → (a && b && c && d) ≡ true
true_four p q r s = rw p (rw q (rw r s))

bears_other : (f s u : Bool) → (f || s && u) ≡ true → f ≡ false → (s ≡ true) × (u ≡ true)
bears_other f s u h n = (ground arith, ground arith)

bears_failed : {f : Bool} (s u : Bool) → f ≡ true → (f || s && u) ≡ true
bears_failed s u p = rw p refl

bears_success : (f : Bool) {s u : Bool} → s ≡ true → u ≡ true → (f || s && u) ≡ true
bears_success f p q = rw p (rw q (or_true f))
  where
    or_true : (f : Bool) → (f || true) ≡ true
    or_true true = refl
    or_true false = refl

module _ (agent : String) (action : Action) (fingerprint : String) where
  failed-chosen :
      (x : Row)
      → IsOf agent action fingerprint x
      → x.report.state ≡ rollback_failed
      → chosen agent action fingerprint x ≡ true
  failed-chosen x k s =
      true_four ((eq_iff x.agent_id agent).1 k.agent_id)
        ((action_eq.beq_iff x.report.action action).1 k.same_action)
        ((eq_iff x.fingerprint fingerprint).1 k.same_fingerprint)
        (bears_failed (x.report.state == succeeded) (x.report.source == user)
          ((operation_state_eq.beq_iff x.report.state rollback_failed).1 s))

  chosen-IsOf :
      (x : Row) → chosen agent action fingerprint x ≡ true → IsOf agent action fingerprint x
  chosen-IsOf x c =
      let (a, b, f, d) =
        four_true (x.agent_id == agent) (x.report.action == action) (x.fingerprint == fingerprint)
          (bears_on_latch x) c in
      record {
        agent_id = (eq_iff x.agent_id agent).0 a;
        same_action = (action_eq.beq_iff x.report.action action).0 b;
        same_fingerprint = (eq_iff x.fingerprint fingerprint).0 f;
      }

  chosen_success :
      (x : Row)
      → chosen agent action fingerprint x ≡ true
      → (x.report.state == rollback_failed) ≡ false
      → IsUserSuccess x
  chosen_success x c other =
      let (a, b, f, d) =
        four_true (x.agent_id == agent) (x.report.action == action) (x.fingerprint == fingerprint)
          (bears_on_latch x) c in
      let (s, u) =
        bears_other (x.report.state == rollback_failed) (x.report.state == succeeded)
          (x.report.source == user) d other in
      record {
        state = (operation_state_eq.beq_iff x.report.state succeeded).0 s;
        source = (request_source_eq.beq_iff x.report.source user).0 u;
      }

  -- A failed rollback after every success for a user.
  newest_latched :
      (operations : Dict String Row) (id : String) (x : Row) (o : Option Row)
      → IsNewest agent action fingerprint operations o
      → lookup id operations ≡ some x
      → chosen agent action fingerprint x ≡ true
      → All
          (λ p.
            IsOf agent action fingerprint p.1 → IsUserSuccess p.1 → p.1.received_at < x.received_at)
          operations
      → latched_row o ≡ true
  newest_latched operations id x none n at c before =
      absurd (cc (all_found (λ r. chosen agent action fingerprint r ≡ false) id x operations n at))
  newest_latched operations id x (some h) (c', there, a) at c before =
      elim (Bool-cases (h.report.state == rollback_failed)) [
        | inl failed ↦ failed
        | inr other ↦
            let first =
              all_there
                (λ r.
                  IsOf agent action fingerprint r → IsUserSuccess r → r.received_at < x.received_at)
                h operations before there (chosen-IsOf h c') (chosen_success h c' other) in
            let last =
              all_found
                (λ r. chosen agent action fingerprint r ≡ true → r.received_at ≤ h.received_at) id x
                operations a at c in
            absurd (omega (arith, first, last))
      ]

  success-chosen :
      (x : Row)
      → IsOf agent action fingerprint x
      → IsUserSuccess x
      → chosen agent action fingerprint x ≡ true
  success-chosen x k s =
      true_four ((eq_iff x.agent_id agent).1 k.agent_id)
        ((action_eq.beq_iff x.report.action action).1 k.same_action)
        ((eq_iff x.fingerprint fingerprint).1 k.same_fingerprint)
        (bears_success (x.report.state == rollback_failed)
          ((operation_state_eq.beq_iff x.report.state succeeded).1 s.state)
          ((request_source_eq.beq_iff x.report.source user).1 s.source))

  -- A success for a user after every failed rollback.
  newest_unlatched :
      (operations : Dict String Row) (id : String) (x : Row) (o : Option Row)
      → IsNewest agent action fingerprint operations o
      → lookup id operations ≡ some x
      → chosen agent action fingerprint x ≡ true
      → All
          (λ p.
            IsOf agent action fingerprint p.1
            → p.1.report.state ≡ rollback_failed
            → p.1.received_at < x.received_at)
          operations
      → latched_row o ≡ false
  newest_unlatched operations id x none n at c before = refl
  newest_unlatched operations id x (some h) (c', there, a) at c before =
      elim (Bool-cases (h.report.state == rollback_failed)) [
        | inr other ↦ other
        | inl failed ↦
            let first =
              all_there
                (λ r.
                  IsOf agent action fingerprint r
                  → r.report.state ≡ rollback_failed
                  → r.received_at < x.received_at)
                h operations before there (chosen-IsOf h c')
                ((operation_state_eq.beq_iff h.report.state rollback_failed).0 failed) in
            let last =
              all_found
                (λ r. chosen agent action fingerprint r ≡ true → r.received_at ≤ h.received_at) id x
                operations a at c in
            absurd (omega (arith, first, last))
      ]

-- The tests before the latch is read.
latched_gate :
    (bad in_range latched : Bool) (rest : RepairBreakerStatus × Option StatusError)
    (x y : StatusError)
    → latched ≡ true
    → let w : RepairBreakerStatus × Option StatusError =
        if bad
        then (shut, some x)
        else if not in_range
        then (shut, some y)
        else if latched
        then (rollback_failed_latched, none)
        else rest in
      w.1 ≡ none → w.0 ≡ rollback_failed_latched
latched_gate true in_range latched rest x y l h = absurd (cc)
latched_gate false false latched rest x y l h = absurd (cc)
latched_gate false true true rest x y l h = refl
latched_gate false true false rest x y l h = absurd (cc)

-- A status that is read without an error is that of a failed rollback, where an operation of the key
-- is stored whose rollback failed, and every stored success of the key that a user asked for was
-- received before it.
pub failed_rollback_latches :
    (st : Store) (agent : String) (action : Action) (fingerprint : String) (now : ℕ) (id : String)
    (x : Row)
    → lookup id st.operations ≡ some x
    → IsOf agent action fingerprint x
    → x.report.state ≡ rollback_failed
    → All
        (λ p.
          IsOf agent action fingerprint p.1 → IsUserSuccess p.1 → p.1.received_at < x.received_at)
        st.operations
    → (repair_breaker_status st agent action fingerprint now).1 ≡ none
    → (repair_breaker_status st agent action fingerprint now).0 ≡ rollback_failed_latched
unfolding repair_breaker_status repair_rollback_failed_latched
failed_rollback_latches st agent action fingerprint now id x at k s before =
    latched_gate _ (in_unix_range now) _ _ missing_argument unencodable_time (
      latch_of-top (by_receipt (select_rows agent action fingerprint bears_on_latch st.operations))
      ∙ newest_latched agent action fingerprint st.operations id x
          (newest agent action fingerprint st.operations)
          (newest-IsNewest agent action fingerprint st.operations) at
          (failed-chosen agent action fingerprint x k s) before)

unlatched_gate :
    (bad in_range latched : Bool) (s : RepairBreakerStatus) (x y : StatusError)
    → latched ≡ false
    → s ≢ rollback_failed_latched
    → let w : RepairBreakerStatus × Option StatusError =
        if bad
        then (shut, some x)
        else if not in_range
        then (shut, some y)
        else if latched
        then (rollback_failed_latched, none)
        else (s, none) in
      w.0 ≢ rollback_failed_latched
unlatched_gate true in_range latched s x y l n = λ e. cc
unlatched_gate false false latched s x y l n = λ e. cc
unlatched_gate false true true s x y l n = absurd (cc)
unlatched_gate false true false s x y l n = n

history_unlatched :
    (success : Option ℕ) (receipts : List ℕ) (now : ℕ)
    → repair_breaker_status_from_history false success receipts now ≢ rollback_failed_latched
unfolding repair_breaker_status_from_history
history_unlatched success receipts now e =
    elim (Option-cases (find_opening now (after_all success receipts))) [
      | inl h ↦ (let e' : shut ≡ rollback_failed_latched = rw h at e in cc)
      | inr (opened, h) ↦
          (let e' : failure_threshold (opened + open_duration) ≡ rollback_failed_latched =
              rw h at e in
            cc)
    ]

-- The status is not that of a failed rollback, where a success of the key that a user asked for is
-- stored, and every stored operation of the key whose rollback failed was received before it.
pub user_success_unlatches :
    (st : Store) (agent : String) (action : Action) (fingerprint : String) (now : ℕ) (id : String)
    (x : Row)
    → lookup id st.operations ≡ some x
    → IsOf agent action fingerprint x
    → IsUserSuccess x
    → All
        (λ p.
          IsOf agent action fingerprint p.1
          → p.1.report.state ≡ rollback_failed
          → p.1.received_at < x.received_at)
        st.operations
    → (repair_breaker_status st agent action fingerprint now).0 ≢ rollback_failed_latched
unfolding repair_breaker_status repair_rollback_failed_latched
user_success_unlatches st agent action fingerprint now id x at k s before =
    unlatched_gate _ (in_unix_range now) _ _ missing_argument unencodable_time
      (latch_of-top (by_receipt (select_rows agent action fingerprint bears_on_latch st.operations))
        ∙ newest_unlatched agent action fingerprint st.operations id x
            (newest agent action fingerprint st.operations)
            (newest-IsNewest agent action fingerprint st.operations) at
            (success-chosen agent action fingerprint x k s) before)
      (history_unlatched (latest_success st agent action fingerprint)
        (recent_failures st agent action fingerprint now) now)
