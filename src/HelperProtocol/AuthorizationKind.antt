-- ===== src/HelperProtocol/AuthorizationKind.antt =====
-- internal/shared/helperprotocol/types.go: what authorises a privileged action.
use nur_proxy.Base.{refl, Bool, true, false, String, string_eq, [], ◌∷◌, Eq, ◌≡◌, some}
use nur_proxy.Dict.{Dict, lookup}
use nur_proxy.Names.{Names, names_eq}

pub data AuthorizationKind : Type 0 where
  authenticated_desired_state stored_convergence stage1_automatic_policy : AuthorizationKind
  other : String → AuthorizationKind

abbrev pub name : AuthorizationKind → String
name authenticated_desired_state = "authenticated_desired_state"
name stored_convergence = "stored_convergence"
name stage1_automatic_policy = "stage1_automatic_policy"
name (other s) = s

-- `Valid`
unfoldable pub valid : AuthorizationKind → Bool
valid (other s) = false
valid _ = true

abbrev is_constant : AuthorizationKind → Bool
is_constant (other s) = false
is_constant _ = true

abbrev constants : Dict String AuthorizationKind
constants =
    ("authenticated_desired_state", authenticated_desired_state)
    ∷ ("stored_convergence", stored_convergence)
    ∷ ("stage1_automatic_policy", stage1_automatic_policy)
    ∷ []

pub constant : (a : AuthorizationKind) → is_constant a ≡ true → lookup (name a) constants ≡ some a
unfolding lookup
constant (other s) h = cc
constant _ h = refl

pub not_constant : (a : AuthorizationKind) → is_constant a ≡ false → a ≡ other (name a)
not_constant (other s) h = refl
not_constant _ h = cc

abbrev pub names : Names AuthorizationKind
names = record {
  name = name;
  is_constant = is_constant;
  constants = constants;
  other = other;
  name-other = λ s. refl;
  constant = constant;
  not_constant = not_constant;
  constants_named = (refl, (refl, (refl, tt)));
  constants_constant = (refl, (refl, (refl, tt)));
}

instance abbrev pub authorization_kind_eq : Eq AuthorizationKind
authorization_kind_eq = names_eq names
