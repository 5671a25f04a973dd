-- ===== src/RecoveryModel/Ownership.antt =====
-- internal/shared/recoverymodel/model.go: who owns a diagnosed resource.
use nur_proxy.Base.{refl, Bool, true, false, String, string_eq, [], ◌∷◌, Eq, ◌≡◌, some}
use nur_proxy.Dict.{Dict, lookup}
use nur_proxy.Names.{Names, names_eq, unmarshal}
use nur_proxy.Base.{Option}

pub data Ownership : Type 0 where
  nurproxy operator system unknown : Ownership
  other : String → Ownership

abbrev pub name : Ownership → String
name nurproxy = "nurproxy"
name operator = "operator"
name system = "system"
name unknown = "unknown"
name (other s) = s

-- `Valid`
unfoldable pub valid : Ownership → Bool
valid (other s) = false
valid _ = true

abbrev is_constant : Ownership → Bool
is_constant (other s) = false
is_constant _ = true

abbrev constants : Dict String Ownership
constants =
    ("nurproxy", nurproxy) ∷ ("operator", operator) ∷ ("system", system) ∷ ("unknown", unknown) ∷ []

pub constant : (a : Ownership) → is_constant a ≡ true → lookup (name a) constants ≡ some a
unfolding lookup
constant (other s) h = cc
constant _ h = refl

pub not_constant : (a : Ownership) → is_constant a ≡ false → a ≡ other (name a)
not_constant (other s) h = refl
not_constant _ h = cc

abbrev pub names : Names Ownership
names = record {
  name = name;
  is_constant = is_constant;
  constants = constants;
  other = other;
  name-other = λ s. refl;
  constant = constant;
  not_constant = not_constant;
  constants_named = (refl, (refl, (refl, (refl, tt))));
  constants_constant = (refl, (refl, (refl, (refl, tt))));
}

instance abbrev pub ownership_eq : Eq Ownership
ownership_eq = names_eq names

-- `UnmarshalJSON`, after the JSON string is decoded.
unfoldable pub unmarshal_json : String → Option Ownership
unmarshal_json = unmarshal names false valid
