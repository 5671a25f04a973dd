-- ===== src/RecoveryModel/OwnershipConfidence.antt =====
-- internal/shared/recoverymodel/model.go: how certain an ownership is.
use nur_proxy.Base.{refl, Bool, true, false, String, string_eq, [], ◌∷◌, Eq, ◌≡◌, some}
use nur_proxy.Dict.{Dict, lookup}
use nur_proxy.Names.{Names, names_eq, unmarshal}
use nur_proxy.Base.{Option}

pub data OwnershipConfidence : Type 0 where
  certain inferred unknown : OwnershipConfidence
  other : String → OwnershipConfidence

abbrev pub name : OwnershipConfidence → String
name certain = "certain"
name inferred = "inferred"
name unknown = "unknown"
name (other s) = s

-- `Valid`
unfoldable pub valid : OwnershipConfidence → Bool
valid (other s) = false
valid _ = true

abbrev is_constant : OwnershipConfidence → Bool
is_constant (other s) = false
is_constant _ = true

abbrev constants : Dict String OwnershipConfidence
constants = ("certain", certain) ∷ ("inferred", inferred) ∷ ("unknown", unknown) ∷ []

pub constant : (a : OwnershipConfidence) → is_constant a ≡ true → lookup (name a) constants ≡ some a
unfolding lookup
constant (other s) h = cc
constant _ h = refl

pub not_constant : (a : OwnershipConfidence) → is_constant a ≡ false → a ≡ other (name a)
not_constant (other s) h = refl
not_constant _ h = cc

abbrev pub names : Names OwnershipConfidence
names = record {
  name = name;
  is_constant = is_constant;
  constants = constants;
  other = other;
  name-other = λ s. refl;
  constant = constant;
  not_constant = not_constant;
  constants_named = (refl, (refl, (refl, tt)));
  constants_constant = (refl, (refl, (refl, tt)));
}

instance abbrev pub ownership_confidence_eq : Eq OwnershipConfidence
ownership_confidence_eq = names_eq names

-- `UnmarshalJSON`, after the JSON string is decoded.
unfoldable pub unmarshal_json : String → Option OwnershipConfidence
unmarshal_json = unmarshal names false valid
