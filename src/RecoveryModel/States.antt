-- ===== src/RecoveryModel/States.antt =====
-- internal/shared/recoverymodel/model.go: which texts are read as a state of a repair operation.
use nur_proxy.Base.{◌≡◌, ◌↔◌, refl, true, false, String, some, inl, inr, ◌⊎◌}
use mathlib.Core.Path.{subst}
use nur_proxy.Dict.{lookup}
use nur_proxy.Names.{unmarshal_sound, unmarshal, unmarshal_closed_string, of_name}
use nur_proxy.RecoveryModel.OperationState.{
  OperationState, detected, diagnosis_only, planned, snapshotted, applying, validating, succeeded,
  rolling_back, rolled_back, rollback_failed, suppressed, other, name, names, valid, unmarshal_json,
}

-- The states with their texts in JSON.
pub data Spells : String → OperationState → Type 0 where
  spells_detected : Spells "detected" detected
  spells_diagnosis_only : Spells "diagnosis_only" diagnosis_only
  spells_planned : Spells "planned" planned
  spells_snapshotted : Spells "snapshotted" snapshotted
  spells_applying : Spells "applying" applying
  spells_validating : Spells "validating" validating
  spells_succeeded : Spells "succeeded" succeeded
  spells_rolling_back : Spells "rolling_back" rolling_back
  spells_rolled_back : Spells "rolled_back" rolled_back
  spells_rollback_failed : Spells "rollback_failed" rollback_failed
  spells_suppressed : Spells "suppressed" suppressed

valid_spelled : (s : OperationState) → valid s ≡ true → Spells (name s) s
unfolding valid
valid_spelled detected h = spells_detected
valid_spelled diagnosis_only h = spells_diagnosis_only
valid_spelled planned h = spells_planned
valid_spelled snapshotted h = spells_snapshotted
valid_spelled applying h = spells_applying
valid_spelled validating h = spells_validating
valid_spelled succeeded h = spells_succeeded
valid_spelled rolling_back h = spells_rolling_back
valid_spelled rolled_back h = spells_rolled_back
valid_spelled rollback_failed h = spells_rollback_failed
valid_spelled suppressed h = spells_suppressed
valid_spelled (other s) h = absurd (cc)

read_spelled :
    (text : String) (s : OperationState)
    → (name s ≡ text) × ((valid s ≡ true) ⊎ ((text ≡ "") × (false ≡ true)))
    → Spells text s
read_spelled text s (named, inl ok) = subst (λ t. Spells t s) named (valid_spelled s ok)
read_spelled text s (named, inr (unset, never)) = absurd (cc)

spelled_read : {text : String} {s : OperationState} → Spells text s → unmarshal_json text ≡ some s
unfolding unmarshal_json unmarshal unmarshal_closed_string of_name lookup valid
spelled_read spells_detected = refl
spelled_read spells_diagnosis_only = refl
spelled_read spells_planned = refl
spelled_read spells_snapshotted = refl
spelled_read spells_applying = refl
spelled_read spells_validating = refl
spelled_read spells_succeeded = refl
spelled_read spells_rolling_back = refl
spelled_read spells_rolled_back = refl
spelled_read spells_rollback_failed = refl
spelled_read spells_suppressed = refl

-- A text is read as a state of a repair operation exactly if it is the text of that state in the
-- protocol; every other text, the empty one too, is refused.
pub unmarshal_json_iff :
    (text : String) (s : OperationState) → (unmarshal_json text ≡ some s) ↔ Spells text s
unfolding unmarshal_json
unmarshal_json_iff text s =
    (λ h. read_spelled text s (unmarshal_sound names false valid text s h), λ p. spelled_read p)
