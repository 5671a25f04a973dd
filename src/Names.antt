-- ===== src/Names.antt =====
-- Go's string types with named constants. Such a type is modelled by a data type with a constructor
-- for each constant and a constructor `other s` for a string `s` that is none of them; two values
-- are equal in Go if their strings are, which `name` gives.
use nur_proxy.Base.{
  if◌then◌else◌, ◌⊎◌, Option, Option-cases, ◌≡◌, sym, ◌∙◌, ap, ◌↔◌, Bool, true, false, ◌&&◌, String,
  string_eq, none, some, [], ◌∷◌, Eq, ◌==◌, All, arith, Bool-cases, inl, inr, eq_iff,
}
use nur_proxy.Dict.{Dict, lookup}
use mathlib.Core.Path.{subst}

abbrev bool_beq : Bool → Bool → Bool
bool_beq true b = b
bool_beq false true = false
bool_beq false false = true

pub record Names (A : Type 0) : Type 0 where
  pub name : A → String
  pub is_constant : A → Bool
  pub constants : Dict String A
  pub other : String → A
  pub name-other : (s : String) → name (other s) ≡ s
  pub constant : (a : A) → is_constant a ≡ true → lookup (name a) constants ≡ some a
  pub not_constant : (a : A) → is_constant a ≡ false → a ≡ other (name a)
  pub constants_named : All (λ p. name p.1 ≡ p.0) constants
  pub constants_constant : All (λ p. is_constant p.1 ≡ true) constants

module _ {A : Type 0} (n : Names A) where
  -- The conversion `T(s)` of a string.
  unfoldable pub of_name : String → A
  of_name s = elim (lookup s n.constants) [ none ↦ n.other s | some a ↦ a ]

  abbrev pub names_beq : A → A → Bool
  names_beq a b = bool_beq (n.is_constant a) (n.is_constant b) && n.name a == n.name b

  same_kind : (a b : A) → names_beq a b ≡ true → n.is_constant a ≡ n.is_constant b
  same_kind a b h = ground arith

  same_name : (a b : A) → names_beq a b ≡ true → n.name a ≡ n.name b
  same_name a b h = ground (arith, eq_iff (n.name a) (n.name b))

  eq_of_parts : (a b : A) → n.is_constant a ≡ n.is_constant b → n.name a ≡ n.name b → a ≡ b
  eq_of_parts a b k e = elim (Bool-cases (n.is_constant a)) [
    | inl is ↦ cc (n.constant a is, n.constant b (sym k ∙ is), ap (λ s. lookup s n.constants) e)
    | inr not ↦ n.not_constant a not ∙ ap n.other e ∙ sym (n.not_constant b (sym k ∙ not))
  ]

  beq_self : (a : A) → names_beq a a ≡ true
  beq_self a = ground (arith, eq_iff (n.name a) (n.name a))

  pub names_beq_iff : (a b : A) → (names_beq a b ≡ true) ↔ (a ≡ b)
  names_beq_iff a b =
      (λ h. eq_of_parts a b (same_kind a b h) (same_name a b h), λ e. rw e (beq_self b))

abbrev pub names_eq : {A : Type 0} → Names A → Eq A
names_eq n = record { beq = names_beq n; beq_iff = names_beq_iff n }

pair_eq : {A : Type 0} {s t : String} {a b : A} → s ≡ t → a ≡ b → ◌≡◌ {A = String × A} (s, a) (t, b)
pair_eq p q = λ i. (p i, q i)

module _ {A : Type 0} where
  found_holds :
      (P : String × A → Type 0) (s : String) (a : A) (m : Dict String A)
      → All P m
      → lookup s m ≡ some a
      → P (s, a)
  unfolding lookup
  found_holds P s a [] h e = cc
  found_holds P s a ((t, b) ∷ m) (p, h) e = elim (Bool-cases (t == s)) [
    | inl same ↦ subst P (pair_eq ((eq_iff t s).0 same) (ground arith)) p
    | inr differs ↦ found_holds P s a m h (ground arith)
  ]

module _ {A : Type 0} (n : Names A) where
  -- The conversion keeps the string, whatever it is.
  pub name-of_name : (s : String) → n.name (of_name n s) ≡ s
  unfolding of_name
  name-of_name s = elim (Option-cases (lookup s n.constants)) [
    | inl none_found ↦ rw (none_found, of_name) (n.name-other s)
    | inr (a, found) ↦
        rw (found, of_name)
          (found_holds (λ p. n.name p.1 ≡ p.0) s a n.constants n.constants_named found)
  ]

-- `unmarshalClosedString`, after the JSON string is decoded: `none` is its error.
unfoldable pub unmarshal_closed_string : Bool → (String → Bool) → String → Option String
unmarshal_closed_string allow_empty valid raw =
    if raw == "" && allow_empty then some "" else if valid raw then some raw else none

-- An `UnmarshalJSON` method: the strings that pass the test become values.
unfoldable pub unmarshal : {A : Type 0} → Names A → Bool → (A → Bool) → String → Option A
unmarshal n allow_empty valid raw =
    elim (unmarshal_closed_string allow_empty (λ s. valid (of_name n s)) raw) [
      | none ↦ none
      | some s ↦ some (of_name n s)
    ]

module _ {A : Type 0} (n : Names A) (allow_empty : Bool) (valid : A → Bool) where
  pub unmarshal_sound :
      (raw : String) (a : A)
      → unmarshal n allow_empty valid raw ≡ some a
      → (n.name a ≡ raw) × ((valid a ≡ true) ⊎ ((raw ≡ "") × (allow_empty ≡ true)))
  unfolding unmarshal unmarshal_closed_string
  unmarshal_sound raw a h = ground (arith, name-of_name n raw, eq_iff raw "")
