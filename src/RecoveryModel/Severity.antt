-- ===== src/RecoveryModel/Severity.antt =====
-- internal/shared/recoverymodel/model.go: the severities of diagnostics.
use nur_proxy.Base.{refl, Bool, true, false, String, string_eq, [], ◌∷◌, Eq, ◌≡◌, some}
use nur_proxy.Dict.{Dict, lookup}
use nur_proxy.Names.{Names, names_eq, unmarshal}
use nur_proxy.Base.{Option}

pub data Severity : Type 0 where
  info warning error critical : Severity
  other : String → Severity

abbrev pub name : Severity → String
name info = "info"
name warning = "warning"
name error = "error"
name critical = "critical"
name (other s) = s

-- `Valid`
unfoldable pub valid : Severity → Bool
valid (other s) = false
valid _ = true

abbrev is_constant : Severity → Bool
is_constant (other s) = false
is_constant _ = true

abbrev constants : Dict String Severity
constants = ("info", info) ∷ ("warning", warning) ∷ ("error", error) ∷ ("critical", critical) ∷ []

pub constant : (a : Severity) → is_constant a ≡ true → lookup (name a) constants ≡ some a
unfolding lookup
constant (other s) h = cc
constant _ h = refl

pub not_constant : (a : Severity) → is_constant a ≡ false → a ≡ other (name a)
not_constant (other s) h = refl
not_constant _ h = cc

abbrev pub names : Names Severity
names = record {
  name = name;
  is_constant = is_constant;
  constants = constants;
  other = other;
  name-other = λ s. refl;
  constant = constant;
  not_constant = not_constant;
  constants_named = (refl, (refl, (refl, (refl, tt))));
  constants_constant = (refl, (refl, (refl, (refl, tt))));
}

instance abbrev pub severity_eq : Eq Severity
severity_eq = names_eq names

-- `UnmarshalJSON`, after the JSON string is decoded.
unfoldable pub unmarshal_json : String → Option Severity
unmarshal_json = unmarshal names false valid
