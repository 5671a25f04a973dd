-- ===== src/RecoveryModel/RepairScope.antt =====
-- internal/shared/recoverymodel/model.go: what a repair may touch.
use nur_proxy.Base.{refl, Bool, true, false, String, string_eq, [], ◌∷◌, Eq, ◌≡◌, some}
use nur_proxy.Dict.{Dict, lookup}
use nur_proxy.Names.{Names, names_eq, unmarshal}
use nur_proxy.Base.{Option}

pub data RepairScope : Type 0 where
  exact_provenanced_file exclusive_managed_directory shared_backend_namespace agent_sandbox
        detected_proxy_service supported_package local_firewall outside_managed_roots ambiguous
        unsupported_environment :
      RepairScope
  other : String → RepairScope

abbrev pub name : RepairScope → String
name exact_provenanced_file = "exact_provenanced_file"
name exclusive_managed_directory = "exclusive_managed_directory"
name shared_backend_namespace = "shared_backend_namespace"
name agent_sandbox = "agent_sandbox"
name detected_proxy_service = "detected_proxy_service"
name supported_package = "supported_package"
name local_firewall = "local_firewall"
name outside_managed_roots = "outside_managed_roots"
name ambiguous = "ambiguous"
name unsupported_environment = "unsupported_environment"
name (other s) = s

-- `Valid`
unfoldable pub valid : RepairScope → Bool
valid (other s) = false
valid _ = true

abbrev is_constant : RepairScope → Bool
is_constant (other s) = false
is_constant _ = true

abbrev constants : Dict String RepairScope
constants =
    ("exact_provenanced_file", exact_provenanced_file)
    ∷ ("exclusive_managed_directory", exclusive_managed_directory)
    ∷ ("shared_backend_namespace", shared_backend_namespace)
    ∷ ("agent_sandbox", agent_sandbox)
    ∷ ("detected_proxy_service", detected_proxy_service)
    ∷ ("supported_package", supported_package)
    ∷ ("local_firewall", local_firewall)
    ∷ ("outside_managed_roots", outside_managed_roots)
    ∷ ("ambiguous", ambiguous)
    ∷ ("unsupported_environment", unsupported_environment)
    ∷ []

pub constant : (a : RepairScope) → is_constant a ≡ true → lookup (name a) constants ≡ some a
unfolding lookup
constant (other s) h = cc
constant _ h = refl

pub not_constant : (a : RepairScope) → is_constant a ≡ false → a ≡ other (name a)
not_constant (other s) h = refl
not_constant _ h = cc

abbrev pub names : Names RepairScope
names = record {
  name = name;
  is_constant = is_constant;
  constants = constants;
  other = other;
  name-other = λ s. refl;
  constant = constant;
  not_constant = not_constant;
  constants_named =
      (refl, (refl, (refl, (refl, (refl, (refl, (refl, (refl, (refl, (refl, tt))))))))));
  constants_constant =
      (refl, (refl, (refl, (refl, (refl, (refl, (refl, (refl, (refl, (refl, tt))))))))));
}

instance abbrev pub repair_scope_eq : Eq RepairScope
repair_scope_eq = names_eq names

-- `UnmarshalJSON`, after the JSON string is decoded.
unfoldable pub unmarshal_json : String → Option RepairScope
unmarshal_json = unmarshal names false valid
