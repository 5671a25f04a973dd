-- ===== src/RecoveryModel/ResolutionReason.antt =====
-- internal/shared/recoverymodel/model.go: why a diagnostic was resolved.
use nur_proxy.Base.{refl, Bool, true, false, String, string_eq, [], ◌∷◌, Eq, ◌≡◌, some}
use nur_proxy.Dict.{Dict, lookup}
use nur_proxy.Names.{Names, names_eq, unmarshal}
use nur_proxy.Base.{Option}

pub data ResolutionReason : Type 0 where
  repaired resource_disappeared desired_state_changed operator_resolved superseded
        condition_no_longer_observed :
      ResolutionReason
  other : String → ResolutionReason

abbrev pub name : ResolutionReason → String
name repaired = "repaired"
name resource_disappeared = "resource_disappeared"
name desired_state_changed = "desired_state_changed"
name operator_resolved = "operator_resolved"
name superseded = "superseded"
name condition_no_longer_observed = "condition_no_longer_observed"
name (other s) = s

-- `Valid`
unfoldable pub valid : ResolutionReason → Bool
valid (other s) = false
valid _ = true

abbrev is_constant : ResolutionReason → Bool
is_constant (other s) = false
is_constant _ = true

abbrev constants : Dict String ResolutionReason
constants =
    ("repaired", repaired)
    ∷ ("resource_disappeared", resource_disappeared)
    ∷ ("desired_state_changed", desired_state_changed)
    ∷ ("operator_resolved", operator_resolved)
    ∷ ("superseded", superseded)
    ∷ ("condition_no_longer_observed", condition_no_longer_observed)
    ∷ []

pub constant : (a : ResolutionReason) → is_constant a ≡ true → lookup (name a) constants ≡ some a
unfolding lookup
constant (other s) h = cc
constant _ h = refl

pub not_constant : (a : ResolutionReason) → is_constant a ≡ false → a ≡ other (name a)
not_constant (other s) h = refl
not_constant _ h = cc

abbrev pub names : Names ResolutionReason
names = record {
  name = name;
  is_constant = is_constant;
  constants = constants;
  other = other;
  name-other = λ s. refl;
  constant = constant;
  not_constant = not_constant;
  constants_named = (refl, (refl, (refl, (refl, (refl, (refl, tt))))));
  constants_constant = (refl, (refl, (refl, (refl, (refl, (refl, tt))))));
}

instance abbrev pub resolution_reason_eq : Eq ResolutionReason
resolution_reason_eq = names_eq names

-- `UnmarshalJSON`, after the JSON string is decoded.
unfoldable pub unmarshal_json : String → Option ResolutionReason
unmarshal_json = unmarshal names false valid
