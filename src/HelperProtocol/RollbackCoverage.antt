-- ===== src/HelperProtocol/RollbackCoverage.antt =====
-- internal/shared/helperprotocol/types.go: how far a receipt can be rolled back.
use nur_proxy.Base.{refl, Bool, true, false, String, string_eq, [], ◌∷◌, Eq, ◌≡◌, some}
use nur_proxy.Dict.{Dict, lookup}
use nur_proxy.Names.{Names, names_eq}

pub data RollbackCoverage : Type 0 where
  full partial none : RollbackCoverage
  other : String → RollbackCoverage

abbrev pub name : RollbackCoverage → String
name full = "full"
name partial = "partial"
name none = "none"
name (other s) = s

-- `Valid`
unfoldable pub valid : RollbackCoverage → Bool
valid (other s) = false
valid _ = true

abbrev is_constant : RollbackCoverage → Bool
is_constant (other s) = false
is_constant _ = true

abbrev constants : Dict String RollbackCoverage
constants = ("full", full) ∷ ("partial", partial) ∷ ("none", none) ∷ []

pub constant : (a : RollbackCoverage) → is_constant a ≡ true → lookup (name a) constants ≡ some a
unfolding lookup
constant (other s) h = cc
constant _ h = refl

pub not_constant : (a : RollbackCoverage) → is_constant a ≡ false → a ≡ other (name a)
not_constant (other s) h = refl
not_constant _ h = cc

abbrev pub names : Names RollbackCoverage
names = record {
  name = name;
  is_constant = is_constant;
  constants = constants;
  other = other;
  name-other = λ s. refl;
  constant = constant;
  not_constant = not_constant;
  constants_named = (refl, (refl, (refl, tt)));
  constants_constant = (refl, (refl, (refl, tt)));
}

instance abbrev pub rollback_coverage_eq : Eq RollbackCoverage
rollback_coverage_eq = names_eq names
