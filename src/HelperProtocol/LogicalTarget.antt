-- ===== src/HelperProtocol/LogicalTarget.antt =====
-- internal/shared/helperprotocol/types.go: what a privileged action works on.
use nur_proxy.Base.{refl, Bool, true, false, String, string_eq, [], ◌∷◌, Eq, ◌≡◌, some}
use nur_proxy.Dict.{Dict, lookup}
use nur_proxy.Names.{Names, names_eq}

pub data LogicalTarget : Type 0 where
  agent_unit detected_proxy managed_path proxy_package local_firewall managed_state : LogicalTarget
  other : String → LogicalTarget

abbrev pub name : LogicalTarget → String
name agent_unit = "installed_agent_unit"
name detected_proxy = "detected_proxy"
name managed_path = "managed_path"
name proxy_package = "supported_proxy_package"
name local_firewall = "local_proxy_firewall"
name managed_state = "managed_proxy_state"
name (other s) = s

-- `Valid`
unfoldable pub valid : LogicalTarget → Bool
valid (other s) = false
valid _ = true

abbrev is_constant : LogicalTarget → Bool
is_constant (other s) = false
is_constant _ = true

abbrev constants : Dict String LogicalTarget
constants =
    ("installed_agent_unit", agent_unit)
    ∷ ("detected_proxy", detected_proxy)
    ∷ ("managed_path", managed_path)
    ∷ ("supported_proxy_package", proxy_package)
    ∷ ("local_proxy_firewall", local_firewall)
    ∷ ("managed_proxy_state", managed_state)
    ∷ []

pub constant : (a : LogicalTarget) → is_constant a ≡ true → lookup (name a) constants ≡ some a
unfolding lookup
constant (other s) h = cc
constant _ h = refl

pub not_constant : (a : LogicalTarget) → is_constant a ≡ false → a ≡ other (name a)
not_constant (other s) h = refl
not_constant _ h = cc

abbrev pub names : Names LogicalTarget
names = record {
  name = name;
  is_constant = is_constant;
  constants = constants;
  other = other;
  name-other = λ s. refl;
  constant = constant;
  not_constant = not_constant;
  constants_named = (refl, (refl, (refl, (refl, (refl, (refl, tt))))));
  constants_constant = (refl, (refl, (refl, (refl, (refl, (refl, tt))))));
}

instance abbrev pub logical_target_eq : Eq LogicalTarget
logical_target_eq = names_eq names
