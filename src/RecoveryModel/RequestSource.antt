-- ===== src/RecoveryModel/RequestSource.antt =====
-- internal/shared/recoverymodel/model.go: who asked for a repair.
use nur_proxy.Base.{refl, Bool, true, false, String, string_eq, [], ◌∷◌, Eq, ◌≡◌, some}
use nur_proxy.Dict.{Dict, lookup}
use nur_proxy.Names.{Names, names_eq, unmarshal}
use nur_proxy.Base.{Option}

pub data RequestSource : Type 0 where
  automatic user : RequestSource
  other : String → RequestSource

abbrev pub name : RequestSource → String
name automatic = "automatic"
name user = "user"
name (other s) = s

-- `Valid`
unfoldable pub valid : RequestSource → Bool
valid (other s) = false
valid _ = true

abbrev is_constant : RequestSource → Bool
is_constant (other s) = false
is_constant _ = true

abbrev constants : Dict String RequestSource
constants = ("automatic", automatic) ∷ ("user", user) ∷ []

pub constant : (a : RequestSource) → is_constant a ≡ true → lookup (name a) constants ≡ some a
unfolding lookup
constant (other s) h = cc
constant _ h = refl

pub not_constant : (a : RequestSource) → is_constant a ≡ false → a ≡ other (name a)
not_constant (other s) h = refl
not_constant _ h = cc

abbrev pub names : Names RequestSource
names = record {
  name = name;
  is_constant = is_constant;
  constants = constants;
  other = other;
  name-other = λ s. refl;
  constant = constant;
  not_constant = not_constant;
  constants_named = (refl, (refl, tt));
  constants_constant = (refl, (refl, tt));
}

instance abbrev pub request_source_eq : Eq RequestSource
request_source_eq = names_eq names

-- `UnmarshalJSON`, after the JSON string is decoded.
unfoldable pub unmarshal_json : String → Option RequestSource
unmarshal_json = unmarshal names false valid
