-- ===== src/HelperProtocol/ErrorCode.antt =====
-- internal/shared/helperprotocol/types.go: the codes of the error responses.
use nur_proxy.Base.{refl, Bool, true, false, String, string_eq, [], ◌∷◌, Eq, ◌≡◌, some}
use nur_proxy.Dict.{Dict, lookup}
use nur_proxy.Names.{Names, names_eq}

pub data ErrorCode : Type 0 where
  execution_grant_invalid execution_grant_expired helper_plan_not_found display_plan_mismatch
        helper_instance_mismatch root_config_untrusted ambiguous_local_target outcome_indeterminate
        helper_journal_corrupt unsafe_package_transaction firewall_scope_ambiguous build_idmismatch
        peer_credentials_invalid request_conflict stale_plan :
      ErrorCode
  other : String → ErrorCode

abbrev pub name : ErrorCode → String
name execution_grant_invalid = "EXECUTION_GRANT_INVALID"
name execution_grant_expired = "EXECUTION_GRANT_EXPIRED"
name helper_plan_not_found = "HELPER_PLAN_NOT_FOUND"
name display_plan_mismatch = "DISPLAY_PLAN_MISMATCH"
name helper_instance_mismatch = "HELPER_INSTANCE_MISMATCH"
name root_config_untrusted = "ROOT_CONFIG_UNTRUSTED"
name ambiguous_local_target = "AMBIGUOUS_LOCAL_TARGET"
name outcome_indeterminate = "OUTCOME_INDETERMINATE"
name helper_journal_corrupt = "HELPER_JOURNAL_CORRUPT"
name unsafe_package_transaction = "UNSAFE_PACKAGE_TRANSACTION"
name firewall_scope_ambiguous = "FIREWALL_SCOPE_AMBIGUOUS"
name build_idmismatch = "BUILD_ID_MISMATCH"
name peer_credentials_invalid = "PEER_CREDENTIALS_INVALID"
name request_conflict = "REQUEST_CONFLICT"
name stale_plan = "STALE_PLAN"
name (other s) = s

-- `Valid`
unfoldable pub valid : ErrorCode → Bool
valid (other s) = false
valid _ = true

abbrev is_constant : ErrorCode → Bool
is_constant (other s) = false
is_constant _ = true

abbrev constants : Dict String ErrorCode
constants =
    ("EXECUTION_GRANT_INVALID", execution_grant_invalid)
    ∷ ("EXECUTION_GRANT_EXPIRED", execution_grant_expired)
    ∷ ("HELPER_PLAN_NOT_FOUND", helper_plan_not_found)
    ∷ ("DISPLAY_PLAN_MISMATCH", display_plan_mismatch)
    ∷ ("HELPER_INSTANCE_MISMATCH", helper_instance_mismatch)
    ∷ ("ROOT_CONFIG_UNTRUSTED", root_config_untrusted)
    ∷ ("AMBIGUOUS_LOCAL_TARGET", ambiguous_local_target)
    ∷ ("OUTCOME_INDETERMINATE", outcome_indeterminate)
    ∷ ("HELPER_JOURNAL_CORRUPT", helper_journal_corrupt)
    ∷ ("UNSAFE_PACKAGE_TRANSACTION", unsafe_package_transaction)
    ∷ ("FIREWALL_SCOPE_AMBIGUOUS", firewall_scope_ambiguous)
    ∷ ("BUILD_ID_MISMATCH", build_idmismatch)
    ∷ ("PEER_CREDENTIALS_INVALID", peer_credentials_invalid)
    ∷ ("REQUEST_CONFLICT", request_conflict)
    ∷ ("STALE_PLAN", stale_plan)
    ∷ []

pub constant : (a : ErrorCode) → is_constant a ≡ true → lookup (name a) constants ≡ some a
unfolding lookup
constant (other s) h = cc
constant _ h = refl

pub not_constant : (a : ErrorCode) → is_constant a ≡ false → a ≡ other (name a)
not_constant (other s) h = refl
not_constant _ h = cc

abbrev pub names : Names ErrorCode
names = record {
  name = name;
  is_constant = is_constant;
  constants = constants;
  other = other;
  name-other = λ s. refl;
  constant = constant;
  not_constant = not_constant;
  constants_named = (
    refl,
    (
      refl,
      (
        refl,
        (
          refl,
          (
            refl,
            (refl, (refl, (refl, (refl, (refl, (refl, (refl, (refl, (refl, (refl, tt)))))))))),
          ),
        ),
      ),
    ),
  );
  constants_constant = (
    refl,
    (
      refl,
      (
        refl,
        (
          refl,
          (
            refl,
            (refl, (refl, (refl, (refl, (refl, (refl, (refl, (refl, (refl, (refl, tt)))))))))),
          ),
        ),
      ),
    ),
  );
}

instance abbrev pub error_code_eq : Eq ErrorCode
error_code_eq = names_eq names
