-- ===== src/HelperProtocol/HelperAction.antt =====
-- internal/shared/helperprotocol/types.go: the privileged actions of the helper.
use nur_proxy.Base.{refl, Bool, true, false, String, string_eq, [], ◌∷◌, Eq, ◌≡◌, some}
use nur_proxy.Dict.{Dict, lookup}
use nur_proxy.Names.{Names, names_eq}

pub data HelperAction : Type 0 where
  repair_agent_sandbox_paths repair_managed_path_access validate_reload_proxy start_proxy
        restart_proxy install_supported_package open_proxy_firewall_ports
        apply_managed_proxy_state :
      HelperAction
  other : String → HelperAction

abbrev pub name : HelperAction → String
name repair_agent_sandbox_paths = "repair_agent_sandbox_paths"
name repair_managed_path_access = "repair_managed_path_access"
name validate_reload_proxy = "validate_reload_proxy"
name start_proxy = "start_proxy"
name restart_proxy = "restart_proxy"
name install_supported_package = "install_supported_proxy_package"
name open_proxy_firewall_ports = "open_proxy_firewall_ports"
name apply_managed_proxy_state = "apply_managed_proxy_state"
name (other s) = s

-- `Valid`
unfoldable pub valid : HelperAction → Bool
valid (other s) = false
valid _ = true

abbrev is_constant : HelperAction → Bool
is_constant (other s) = false
is_constant _ = true

abbrev constants : Dict String HelperAction
constants =
    ("repair_agent_sandbox_paths", repair_agent_sandbox_paths)
    ∷ ("repair_managed_path_access", repair_managed_path_access)
    ∷ ("validate_reload_proxy", validate_reload_proxy)
    ∷ ("start_proxy", start_proxy)
    ∷ ("restart_proxy", restart_proxy)
    ∷ ("install_supported_proxy_package", install_supported_package)
    ∷ ("open_proxy_firewall_ports", open_proxy_firewall_ports)
    ∷ ("apply_managed_proxy_state", apply_managed_proxy_state)
    ∷ []

pub constant : (a : HelperAction) → is_constant a ≡ true → lookup (name a) constants ≡ some a
unfolding lookup
constant (other s) h = cc
constant _ h = refl

pub not_constant : (a : HelperAction) → is_constant a ≡ false → a ≡ other (name a)
not_constant (other s) h = refl
not_constant _ h = cc

abbrev pub names : Names HelperAction
names = record {
  name = name;
  is_constant = is_constant;
  constants = constants;
  other = other;
  name-other = λ s. refl;
  constant = constant;
  not_constant = not_constant;
  constants_named = (refl, (refl, (refl, (refl, (refl, (refl, (refl, (refl, tt))))))));
  constants_constant = (refl, (refl, (refl, (refl, (refl, (refl, (refl, (refl, tt))))))));
}

instance abbrev pub helper_action_eq : Eq HelperAction
helper_action_eq = names_eq names
