-- ===== src/Coordinator/Found.antt =====
-- internal/agent/recovery/coordinator.go: which diagnostics are active after an inspection.
use nur_proxy.Base.{
  Any, Option, ◌⊎◌, ◌↔◌, ℕ, Bool, true, false, ◌&&◌, ◌||◌, ◌≡◌, ◌∙◌, refl, ap, none, String,
  string_eq, some, List, [], ◌∷◌, ◌==◌, any, Bool-cases, inl, inr, arith, eq_iff,
}
use nur_proxy.Dict.{Dict, lookup, keep}
use nur_proxy.Dict.Laws.{lookup-insert}
use nur_proxy.RecoveryModel.Diagnostic.{Diagnostic}
use nur_proxy.RecoveryModel.Report.{OperationReport}
use nur_proxy.RecoveryModel.OperationState.{rollback_failed, operation_state_eq}
use nur_proxy.Wire.{items}
use nur_proxy.Coordinator.{Coordinator, RecoveryCandidate, Answers, now}
use nur_proxy.Coordinator.Inspect.{
  is_known, record_diagnostic, inspect_all, inspect, forget_unseen, rollback_failed_diagnostic,
  diagnose,
}

keep_known :
    {V : Type 0} (p : String → Bool) (id : String) (m : Dict String V)
    → is_known (lookup id (keep (λ k v. p k) m)) ≡ (p id && is_known (lookup id m))
unfolding lookup keep
keep_known p id [] = ground arith
keep_known p id ((k, v) ∷ m) = ground (arith, eq_iff k id, ap p, keep_known p id m)

record_known :
    (id : String) (d : Diagnostic) (k : RecoveryCandidate) (c : Coordinator)
    → is_known (lookup id (record_diagnostic d k c).diagnostics)
      ≡ (d.id == id || is_known (lookup id c.diagnostics))
unfolding record_diagnostic
record_known id d k c = elim (Bool-cases (d.id == id)) [
  | inl h ↦ rw (lookup-insert id d.id _ c.diagnostics, h) refl
  | inr h ↦ rw (lookup-insert id d.id _ c.diagnostics, h) refl
]

record_operations :
    (d : Diagnostic) (k : RecoveryCandidate) (c : Coordinator)
    → (record_diagnostic d k c).operations ≡ c.operations
unfolding record_diagnostic
record_operations d k c = refl

-- A diagnostic with this identity is kept.
abbrev pub IsActive : String → Coordinator → Type 0
IsActive id c = (d : Diagnostic) × (lookup id c.diagnostics ≡ some d)

-- A kept operation of this diagnostic whose rollback failed.
abbrev pub IsFailedRollback : String → String × OperationReport → Type 0
IsFailedRollback id x = (x.1.diagnostic_id ≡ id) × (x.1.state ≡ rollback_failed)

known_iff : {V : Type 0} (o : Option V) → (is_known o ≡ true) ↔ ((v : V) × (o ≡ some v))
known_iff none = (λ h. absurd (cc), λ (v, h). absurd (cc))
known_iff (some v) = (λ h. (v, refl), λ h. refl)

any_iff :
    (id : String) (ds : List Diagnostic)
    → (any (λ d. d.id == id) ds ≡ true) ↔ Any (λ d. d.id ≡ id) ds
any_iff id [] = (λ h. absurd (cc), λ a. absurd a)
any_iff id (d ∷ ds) =
    let rest = any_iff id ds in
    (
      λ h. elim (Bool-cases (d.id == id)) [
        | inl here ↦ inl ((string_eq.beq_iff d.id id).0 here)
        | inr other ↦ inr (rest.0 (ground arith))
      ],
      λ a. elim a [
        | inl here ↦ ground (arith, eq_iff d.id id)
        | inr below ↦ let h = rest.1 below in ground arith
      ],
    )

rollback_failed_iff :
    (id : String) (operations : Dict String OperationReport)
    → (rollback_failed_diagnostic id operations ≡ true) ↔ Any (IsFailedRollback id) operations
unfolding rollback_failed_diagnostic
rollback_failed_iff id [] = (λ h. absurd (cc), λ a. absurd a)
rollback_failed_iff id ((k, r) ∷ operations) =
    let rest = rollback_failed_iff id operations in
    (
      λ h. elim (Bool-cases (r.diagnostic_id == id && r.state == rollback_failed)) [
        | inl here ↦ inl (
          ground (arith, eq_iff r.diagnostic_id id),
          (operation_state_eq.beq_iff r.state rollback_failed).0 (ground arith),
        )
        | inr other ↦ inr (rest.0 (ground arith))
      ],
      λ a. elim a [
        | inl here ↦
            let d = (string_eq.beq_iff r.diagnostic_id id).1 here.0 in
            let s = (operation_state_eq.beq_iff r.state rollback_failed).1 here.1 in ground arith
        | inr below ↦ let h = rest.1 below in ground arith
      ],
    )

either_way :
    {x a b c : Bool} {X A B C : Type 0}
    → x ≡ (a || b && c)
    → (x ≡ true) ↔ X
    → (b ≡ true) ↔ B
    → (a ≡ true) ↔ A
    → (c ≡ true) ↔ C
    → X ↔ (A ⊎ (B × C))
either_way {x} {a} {b} {c} e xs bs zs cs = (
  λ h.
      let h' = xs.1 h in
      elim (Bool-cases a) [
        | inl hit ↦ inl (zs.0 hit)
        | inr miss ↦ inr (bs.0 (ground arith), cs.0 (ground arith))
      ],
  λ h. elim h [
    | inl hit ↦ let y = zs.1 hit in xs.0 (ground arith)
    | inr (l, r) ↦ let y = bs.1 l in let z = cs.1 r in xs.0 (ground arith)
  ],
)

module _ (sanitize : String → String) (auto_id : ℕ → ℕ → String) (clock : ℕ → ℕ) (ans : Answers)
    (digest : String → String) (framed_digest : List String → String) (bundle_ready : String → Bool)
    (agent : String) where
  all_known :
      (id : String) (candidates : List (RecoveryCandidate × Bool)) (c : Coordinator)
      → let w =
          inspect_all sanitize auto_id clock ans digest framed_digest bundle_ready agent candidates
            c in
        (is_known (lookup id w.1.diagnostics)
          ≡ (any (λ d. d.id == id) w.0 || is_known (lookup id c.diagnostics)))
        × (w.1.operations ≡ c.operations)
  unfolding inspect_all now
  all_known id [] c = (refl, refl)
  all_known id ((candidate, false) ∷ candidates) c = all_known id candidates c
  all_known id ((candidate, true) ∷ candidates) c =
      let (at, c') = now sanitize auto_id clock ans c in
      let d =
        diagnose sanitize auto_id clock ans digest framed_digest bundle_ready agent candidate at in
      let (found, same) = all_known id candidates (record_diagnostic d candidate c') in
      let one = record_known id d candidate c' in
      (ground (arith, found, one), same ∙ record_operations d candidate c')

  inspect-is_known :
      (id : String) (candidates : List (RecoveryCandidate × Bool)) (c : Coordinator)
      → let w =
          inspect sanitize auto_id clock ans digest framed_digest bundle_ready agent
            (some candidates)
            c in
        is_known (lookup id w.1.diagnostics) ≡ (
          any (λ d. d.id == id) (items w.0)
          || is_known (lookup id c.diagnostics) && rollback_failed_diagnostic id c.operations)
  unfolding inspect forget_unseen
  inspect-is_known id candidates c =
      let w =
        inspect_all sanitize auto_id clock ans digest framed_digest bundle_ready agent candidates
          c in
      let (known, same) = all_known id candidates c in
      let failed = ap (rollback_failed_diagnostic id) same in
      ground (
        arith,
        known,
        failed,
        keep_known (λ i. any (λ d. d.id == i) w.0 || rollback_failed_diagnostic i w.1.operations) id
            w.1.diagnostics,
      )

  -- After an inspection exactly those diagnostics are active that it found, and those that were active
  -- before of which an operation is kept whose rollback failed.
  pub inspect_known :
      (id : String) (candidates : List (RecoveryCandidate × Bool)) (c : Coordinator)
      → let w =
          inspect sanitize auto_id clock ans digest framed_digest bundle_ready agent
            (some candidates)
            c in
        IsActive id w.1 ↔ (
          Any (λ d. d.id ≡ id) (items w.0)
          ⊎ (IsActive id c × Any (IsFailedRollback id) c.operations))
  inspect_known id candidates c =
      let w =
        inspect sanitize auto_id clock ans digest framed_digest bundle_ready agent (some candidates)
          c in
      either_way (inspect-is_known id candidates c) (known_iff (lookup id w.1.diagnostics))
        (known_iff (lookup id c.diagnostics)) (any_iff id (items w.0))
        (rollback_failed_iff id c.operations)
