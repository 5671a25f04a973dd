-- ===== src/RecoveryModel/Action.antt =====
-- internal/shared/recoverymodel/model.go: the safe repair actions.
use nur_proxy.Base.{refl, Bool, true, false, String, string_eq, [], ◌∷◌, Eq, ◌≡◌, some}
use nur_proxy.Dict.{Dict, lookup}
use nur_proxy.Names.{Names, names_eq, unmarshal}
use nur_proxy.Base.{Option}

pub data Action : Type 0 where
  prune_managed_orphan remove_managed_temp rematerialize_cert_bundle rematerialize_runtime_key
        restore_last_live_artifact :
      Action
  other : String → Action

abbrev pub name : Action → String
name prune_managed_orphan = "prune_managed_orphan"
name remove_managed_temp = "remove_managed_temp"
name rematerialize_cert_bundle = "rematerialize_cert_bundle"
name rematerialize_runtime_key = "rematerialize_runtime_key"
name restore_last_live_artifact = "restore_last_live_artifact"
name (other s) = s

-- `Valid`
unfoldable pub valid : Action → Bool
valid (other s) = false
valid _ = true

abbrev is_constant : Action → Bool
is_constant (other s) = false
is_constant _ = true

abbrev constants : Dict String Action
constants =
    ("prune_managed_orphan", prune_managed_orphan)
    ∷ ("remove_managed_temp", remove_managed_temp)
    ∷ ("rematerialize_cert_bundle", rematerialize_cert_bundle)
    ∷ ("rematerialize_runtime_key", rematerialize_runtime_key)
    ∷ ("restore_last_live_artifact", restore_last_live_artifact)
    ∷ []

pub constant : (a : Action) → is_constant a ≡ true → lookup (name a) constants ≡ some a
unfolding lookup
constant (other s) h = cc
constant _ h = refl

pub not_constant : (a : Action) → is_constant a ≡ false → a ≡ other (name a)
not_constant (other s) h = refl
not_constant _ h = cc

abbrev pub names : Names Action
names = record {
  name = name;
  is_constant = is_constant;
  constants = constants;
  other = other;
  name-other = λ s. refl;
  constant = constant;
  not_constant = not_constant;
  constants_named = (refl, (refl, (refl, (refl, (refl, tt)))));
  constants_constant = (refl, (refl, (refl, (refl, (refl, tt)))));
}

instance abbrev pub action_eq : Eq Action
action_eq = names_eq names

-- `UnmarshalJSON`, after the JSON string is decoded.
unfoldable pub unmarshal_json : String → Option Action
unmarshal_json = unmarshal names true valid
