-- ===== src/RecoveryModel/OperationState.antt =====
-- internal/shared/recoverymodel/model.go: the states of a repair operation.
use nur_proxy.Base.{refl, Bool, true, false, String, string_eq, [], ◌∷◌, Eq, ◌≡◌, some}
use nur_proxy.Dict.{Dict, lookup}
use nur_proxy.Names.{Names, names_eq, unmarshal}
use nur_proxy.Base.{Option}

pub data OperationState : Type 0 where
  detected diagnosis_only planned snapshotted applying validating succeeded rolling_back rolled_back
        rollback_failed suppressed :
      OperationState
  other : String → OperationState

abbrev pub name : OperationState → String
name detected = "detected"
name diagnosis_only = "diagnosis_only"
name planned = "planned"
name snapshotted = "snapshotted"
name applying = "applying"
name validating = "validating"
name succeeded = "succeeded"
name rolling_back = "rolling_back"
name rolled_back = "rolled_back"
name rollback_failed = "rollback_failed"
name suppressed = "suppressed"
name (other s) = s

-- `Valid`
unfoldable pub valid : OperationState → Bool
valid (other s) = false
valid _ = true

abbrev is_constant : OperationState → Bool
is_constant (other s) = false
is_constant _ = true

abbrev constants : Dict String OperationState
constants =
    ("detected", detected)
    ∷ ("diagnosis_only", diagnosis_only)
    ∷ ("planned", planned)
    ∷ ("snapshotted", snapshotted)
    ∷ ("applying", applying)
    ∷ ("validating", validating)
    ∷ ("succeeded", succeeded)
    ∷ ("rolling_back", rolling_back)
    ∷ ("rolled_back", rolled_back)
    ∷ ("rollback_failed", rollback_failed)
    ∷ ("suppressed", suppressed)
    ∷ []

pub constant : (a : OperationState) → is_constant a ≡ true → lookup (name a) constants ≡ some a
unfolding lookup
constant (other s) h = cc
constant _ h = refl

pub not_constant : (a : OperationState) → is_constant a ≡ false → a ≡ other (name a)
not_constant (other s) h = refl
not_constant _ h = cc

abbrev pub names : Names OperationState
names = record {
  name = name;
  is_constant = is_constant;
  constants = constants;
  other = other;
  name-other = λ s. refl;
  constant = constant;
  not_constant = not_constant;
  constants_named =
      (refl, (refl, (refl, (refl, (refl, (refl, (refl, (refl, (refl, (refl, (refl, tt)))))))))));
  constants_constant =
      (refl, (refl, (refl, (refl, (refl, (refl, (refl, (refl, (refl, (refl, (refl, tt)))))))))));
}

instance abbrev pub operation_state_eq : Eq OperationState
operation_state_eq = names_eq names

-- `UnmarshalJSON`, after the JSON string is decoded.
unfoldable pub unmarshal_json : String → Option OperationState
unmarshal_json = unmarshal names false valid
