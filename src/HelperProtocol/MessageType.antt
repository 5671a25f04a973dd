-- ===== src/HelperProtocol/MessageType.antt =====
-- internal/shared/helperprotocol/types.go: the types of the messages.
use nur_proxy.Base.{refl, Bool, true, false, String, string_eq, [], ◌∷◌, Eq, ◌≡◌, some}
use nur_proxy.Dict.{Dict, lookup}
use nur_proxy.Names.{Names, names_eq}

pub data MessageType : Type 0 where
  plan_action_request execute_action_request plan_managed_apply_request
        execute_managed_apply_request get_receipt_request cancel_operation_request execution_grant
        apply_intent apply_grant cancellation_grant helper_plan managed_apply_plan helper_receipt
        helper_hello_request helper_hello error_response :
      MessageType
  other : String → MessageType

abbrev pub name : MessageType → String
name plan_action_request = "plan_action_request"
name execute_action_request = "execute_action_request"
name plan_managed_apply_request = "plan_managed_apply_request"
name execute_managed_apply_request = "execute_managed_apply_request"
name get_receipt_request = "get_receipt_request"
name cancel_operation_request = "cancel_operation_request"
name execution_grant = "execution_grant"
name apply_intent = "apply_intent"
name apply_grant = "apply_grant"
name cancellation_grant = "cancellation_grant"
name helper_plan = "helper_plan"
name managed_apply_plan = "managed_apply_plan"
name helper_receipt = "helper_receipt"
name helper_hello_request = "helper_hello_request"
name helper_hello = "helper_hello"
name error_response = "error_response"
name (other s) = s

-- `Valid`
unfoldable pub valid : MessageType → Bool
valid (other s) = false
valid _ = true

abbrev is_constant : MessageType → Bool
is_constant (other s) = false
is_constant _ = true

abbrev constants : Dict String MessageType
constants =
    ("plan_action_request", plan_action_request)
    ∷ ("execute_action_request", execute_action_request)
    ∷ ("plan_managed_apply_request", plan_managed_apply_request)
    ∷ ("execute_managed_apply_request", execute_managed_apply_request)
    ∷ ("get_receipt_request", get_receipt_request)
    ∷ ("cancel_operation_request", cancel_operation_request)
    ∷ ("execution_grant", execution_grant)
    ∷ ("apply_intent", apply_intent)
    ∷ ("apply_grant", apply_grant)
    ∷ ("cancellation_grant", cancellation_grant)
    ∷ ("helper_plan", helper_plan)
    ∷ ("managed_apply_plan", managed_apply_plan)
    ∷ ("helper_receipt", helper_receipt)
    ∷ ("helper_hello_request", helper_hello_request)
    ∷ ("helper_hello", helper_hello)
    ∷ ("error_response", error_response)
    ∷ []

pub constant : (a : MessageType) → is_constant a ≡ true → lookup (name a) constants ≡ some a
unfolding lookup
constant (other s) h = cc
constant _ h = refl

pub not_constant : (a : MessageType) → is_constant a ≡ false → a ≡ other (name a)
not_constant (other s) h = refl
not_constant _ h = cc

abbrev pub names : Names MessageType
names = record {
  name = name;
  is_constant = is_constant;
  constants = constants;
  other = other;
  name-other = λ s. refl;
  constant = constant;
  not_constant = not_constant;
  constants_named = (
    refl,
    (
      refl,
      (
        refl,
        (
          refl,
          (
            refl,
            (
              refl,
              (refl, (refl, (refl, (refl, (refl, (refl, (refl, (refl, (refl, (refl, tt)))))))))),
            ),
          ),
        ),
      ),
    ),
  );
  constants_constant = (
    refl,
    (
      refl,
      (
        refl,
        (
          refl,
          (
            refl,
            (
              refl,
              (refl, (refl, (refl, (refl, (refl, (refl, (refl, (refl, (refl, (refl, tt)))))))))),
            ),
          ),
        ),
      ),
    ),
  );
}

instance abbrev pub message_type_eq : Eq MessageType
message_type_eq = names_eq names
