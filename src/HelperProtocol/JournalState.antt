-- ===== src/HelperProtocol/JournalState.antt =====
-- internal/shared/helperprotocol/types.go: the states of a journalled operation.
use nur_proxy.Base.{refl, Bool, true, false, String, string_eq, [], ◌∷◌, Eq, ◌≡◌, some}
use nur_proxy.Dict.{Dict, lookup}
use nur_proxy.Names.{Names, names_eq}

pub data JournalState : Type 0 where
  planned authorized running mutated validated succeeded failed_before_mutation rollback_running
        rolled_back rollback_failed outcome_indeterminate :
      JournalState
  other : String → JournalState

abbrev pub name : JournalState → String
name planned = "planned"
name authorized = "authorized"
name running = "running"
name mutated = "mutated"
name validated = "validated"
name succeeded = "succeeded"
name failed_before_mutation = "failed_before_mutation"
name rollback_running = "rollback_running"
name rolled_back = "rolled_back"
name rollback_failed = "rollback_failed"
name outcome_indeterminate = "outcome_indeterminate"
name (other s) = s

-- `Valid`
unfoldable pub valid : JournalState → Bool
valid (other s) = false
valid _ = true

abbrev is_constant : JournalState → Bool
is_constant (other s) = false
is_constant _ = true

abbrev constants : Dict String JournalState
constants =
    ("planned", planned)
    ∷ ("authorized", authorized)
    ∷ ("running", running)
    ∷ ("mutated", mutated)
    ∷ ("validated", validated)
    ∷ ("succeeded", succeeded)
    ∷ ("failed_before_mutation", failed_before_mutation)
    ∷ ("rollback_running", rollback_running)
    ∷ ("rolled_back", rolled_back)
    ∷ ("rollback_failed", rollback_failed)
    ∷ ("outcome_indeterminate", outcome_indeterminate)
    ∷ []

pub constant : (a : JournalState) → is_constant a ≡ true → lookup (name a) constants ≡ some a
unfolding lookup
constant (other s) h = cc
constant _ h = refl

pub not_constant : (a : JournalState) → is_constant a ≡ false → a ≡ other (name a)
not_constant (other s) h = refl
not_constant _ h = cc

abbrev pub names : Names JournalState
names = record {
  name = name;
  is_constant = is_constant;
  constants = constants;
  other = other;
  name-other = λ s. refl;
  constant = constant;
  not_constant = not_constant;
  constants_named =
      (refl, (refl, (refl, (refl, (refl, (refl, (refl, (refl, (refl, (refl, (refl, tt)))))))))));
  constants_constant =
      (refl, (refl, (refl, (refl, (refl, (refl, (refl, (refl, (refl, (refl, (refl, tt)))))))))));
}

instance abbrev pub journal_state_eq : Eq JournalState
journal_state_eq = names_eq names
