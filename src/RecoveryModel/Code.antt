-- ===== src/RecoveryModel/Code.antt =====
-- internal/shared/recoverymodel/model.go: the codes of diagnostics.
use nur_proxy.Base.{refl, Bool, true, false, String, string_eq, [], ◌∷◌, Eq, ◌≡◌, some}
use nur_proxy.Dict.{Dict, lookup}
use nur_proxy.Names.{Names, names_eq, unmarshal}
use nur_proxy.Base.{Option}

pub data Code : Type 0 where
  managed_orphan_config managed_stale_temp managed_cert_file_missing managed_runtime_key_missing
        managed_runtime_key_mismatch generated_config_invalid operator_config_invalid
        permission_denied systemd_sandbox_denied proxy_reload_failed proxy_not_running port_conflict
        proxy_binary_missing unknown_proxy_error :
      Code
  other : String → Code

abbrev pub name : Code → String
name managed_orphan_config = "managed_orphan_config"
name managed_stale_temp = "managed_stale_temp"
name managed_cert_file_missing = "managed_cert_file_missing"
name managed_runtime_key_missing = "managed_runtime_key_missing"
name managed_runtime_key_mismatch = "managed_runtime_key_mismatch"
name generated_config_invalid = "generated_config_invalid"
name operator_config_invalid = "operator_config_invalid"
name permission_denied = "permission_denied"
name systemd_sandbox_denied = "systemd_sandbox_denied"
name proxy_reload_failed = "proxy_reload_failed"
name proxy_not_running = "proxy_not_running"
name port_conflict = "port_conflict"
name proxy_binary_missing = "proxy_binary_missing"
name unknown_proxy_error = "unknown_proxy_error"
name (other s) = s

-- `Valid`
unfoldable pub valid : Code → Bool
valid (other s) = false
valid _ = true

abbrev is_constant : Code → Bool
is_constant (other s) = false
is_constant _ = true

abbrev constants : Dict String Code
constants =
    ("managed_orphan_config", managed_orphan_config)
    ∷ ("managed_stale_temp", managed_stale_temp)
    ∷ ("managed_cert_file_missing", managed_cert_file_missing)
    ∷ ("managed_runtime_key_missing", managed_runtime_key_missing)
    ∷ ("managed_runtime_key_mismatch", managed_runtime_key_mismatch)
    ∷ ("generated_config_invalid", generated_config_invalid)
    ∷ ("operator_config_invalid", operator_config_invalid)
    ∷ ("permission_denied", permission_denied)
    ∷ ("systemd_sandbox_denied", systemd_sandbox_denied)
    ∷ ("proxy_reload_failed", proxy_reload_failed)
    ∷ ("proxy_not_running", proxy_not_running)
    ∷ ("port_conflict", port_conflict)
    ∷ ("proxy_binary_missing", proxy_binary_missing)
    ∷ ("unknown_proxy_error", unknown_proxy_error)
    ∷ []

pub constant : (a : Code) → is_constant a ≡ true → lookup (name a) constants ≡ some a
unfolding lookup
constant (other s) h = cc
constant _ h = refl

pub not_constant : (a : Code) → is_constant a ≡ false → a ≡ other (name a)
not_constant (other s) h = refl
not_constant _ h = cc

abbrev pub names : Names Code
names = record {
  name = name;
  is_constant = is_constant;
  constants = constants;
  other = other;
  name-other = λ s. refl;
  constant = constant;
  not_constant = not_constant;
  constants_named = (
    refl,
    (
      refl,
      (
        refl,
        (refl, (refl, (refl, (refl, (refl, (refl, (refl, (refl, (refl, (refl, (refl, tt))))))))))),
      ),
    ),
  );
  constants_constant = (
    refl,
    (
      refl,
      (
        refl,
        (refl, (refl, (refl, (refl, (refl, (refl, (refl, (refl, (refl, (refl, (refl, tt))))))))))),
      ),
    ),
  );
}

instance abbrev pub code_eq : Eq Code
code_eq = names_eq names

-- `UnmarshalJSON`, after the JSON string is decoded.
unfoldable pub unmarshal_json : String → Option Code
unmarshal_json = unmarshal names false valid
