-- ===== src/Dict/Laws.antt =====
-- The laws of the association lists that stand for Go's maps.
use nur_proxy.Base.{
  ◌+◌, ◌≤◌, ◌<◌, ◌≡◌, refl, Bool, true, false, none, some, [], ◌∷◌, Eq, ◌==◌, if◌then◌else◌, arith,
  length, Bool-cases, inl, inr,
}
use mathlib.Core.Path.{subst, subst₂}
use nur_proxy.Dict.{Dict, keep, lookup, insert, delete, Distinct}

module _ {K V : Type 0} ⦃e : Eq K⦄ where
  pub lookup-insert :
      (j k : K) (v : V) (m : Dict K V)
      → lookup j (insert k v m) ≡ (if k == j then some v else lookup j m)
  unfolding lookup insert
  lookup-insert j k v [] = refl
  lookup-insert j k v ((i, w) ∷ m) =
      ground (arith, e.beq_iff k j, e.beq_iff i k, e.beq_iff i j, lookup-insert j k v m)

  pub lookup-insert_self : (k : K) (v : V) (m : Dict K V) → lookup k (insert k v m) ≡ some v
  lookup-insert_self k v m = ground (arith, e.beq_iff k k, lookup-insert k k v m)

  pub lookup-insert_ne :
      (j k : K) (v : V) (m : Dict K V) → (k == j) ≡ false → lookup j (insert k v m) ≡ lookup j m
  lookup-insert_ne j k v m h = ground (arith, lookup-insert j k v m)

  pub lookup-delete :
      (j k : K) (m : Dict K V) → lookup j (delete k m) ≡ (if k == j then none else lookup j m)
  unfolding lookup delete
  lookup-delete j k [] = ground arith
  lookup-delete j k ((i, w) ∷ m) =
      ground (arith, e.beq_iff k j, e.beq_iff i k, e.beq_iff i j, lookup-delete j k m)

  pub length-insert : (k : K) (v : V) (m : Dict K V) → length (insert k v m) ≤ length m + 1
  unfolding insert
  length-insert k v [] = omega arith
  length-insert k v ((i, w) ∷ m) = ground (arith, length-insert k v m)

  pub length-insert_old :
      (k : K) (v w : V) (m : Dict K V) → lookup k m ≡ some w → length (insert k v m) ≡ length m
  unfolding insert lookup
  length-insert_old k v w [] h = cc
  length-insert_old k v w ((i, u) ∷ m) h = ground (arith, length-insert_old k v w m)

  pub length-delete : (k : K) (m : Dict K V) → length (delete k m) ≤ length m
  unfolding delete
  length-delete k [] = omega arith
  length-delete k ((i, w) ∷ m) = ground (arith, length-delete k m)

  pub length-delete_old :
      (k : K) (w : V) (m : Dict K V) → lookup k m ≡ some w → length (delete k m) < length m
  unfolding delete lookup
  length-delete_old k w [] h = cc
  length-delete_old k w ((i, u) ∷ m) h = ground (arith, length-delete k m, length-delete_old k w m)

  pub insert-Distinct : (k : K) (v : V) (m : Dict K V) → Distinct m → Distinct (insert k v m)
  unfolding insert lookup
  insert-Distinct k v [] h = (refl, tt)
  insert-Distinct k v ((i, w) ∷ m) h = elim (Bool-cases (i == k)) [
    | inl same ↦ rw same (ground (arith, e.beq_iff i k), h.1)
    | inr other ↦ rw other (
      ground (arith, lookup-insert i k v m, e.beq_iff i k, e.beq_iff k i),
      insert-Distinct k v m h.1,
    )
  ]

  pub delete-Distinct : (k : K) (m : Dict K V) → Distinct m → Distinct (delete k m)
  unfolding delete
  delete-Distinct k [] h = tt
  delete-Distinct k ((i, w) ∷ m) h = elim (Bool-cases (i == k)) [
    | inl same ↦ rw same (delete-Distinct k m h.1)
    | inr other ↦ rw other (ground (arith, lookup-delete i k m), delete-Distinct k m h.1)
  ]

  pub lookup-keep-none :
      (p : K → V → Bool) (j : K) (m : Dict K V) → lookup j m ≡ none → lookup j (keep p m) ≡ none
  unfolding lookup keep
  lookup-keep-none p j [] h = refl
  lookup-keep-none p j ((i, w) ∷ m) h = ground (arith, lookup-keep-none p j m)

  -- What the test keeps is found as before.
  pub lookup-keep :
      (p : K → V → Bool) (j : K) (w : V) (m : Dict K V)
      → p j w ≡ true
      → lookup j m ≡ some w
      → lookup j (keep p m) ≡ some w
  unfolding lookup keep
  lookup-keep p j w [] ok h = cc
  lookup-keep p j w ((i, u) ∷ m) ok h = elim (Bool-cases (i == j)) [
    | inl same ↦ ground (arith, e.beq_iff i j)
    | inr other ↦ ground (arith, lookup-keep p j w m)
  ]

  pub keep-Distinct : (p : K → V → Bool) (m : Dict K V) → Distinct m → Distinct (keep p m)
  unfolding keep
  keep-Distinct p [] h = tt
  keep-Distinct p ((i, w) ∷ m) h = elim (Bool-cases (p i w)) [
    | inl kept ↦ rw kept (lookup-keep-none p i m h.0, keep-Distinct p m h.1)
    | inr dropped ↦ rw dropped (keep-Distinct p m h.1)
  ]

  pub length-keep : (p : K → V → Bool) (m : Dict K V) → length (keep p m) ≤ length m
  unfolding keep
  length-keep p [] = omega arith
  length-keep p ((i, w) ∷ m) = ground (arith, length-keep p m)

-- What holds of every entry, and of what is found.
module _ {K V : Type 0} ⦃e : Eq K⦄ (P : K → V → Type 0) where
  abbrev pub AllEntries : Dict K V → Type 0
  AllEntries [] = Unit
  AllEntries ((k, v) ∷ m) = P k v × AllEntries m

  pub lookup-AllEntries :
      (k : K) (v : V) (m : Dict K V) → AllEntries m → lookup k m ≡ some v → P k v
  unfolding lookup
  lookup-AllEntries k v [] h f = cc
  lookup-AllEntries k v ((i, w) ∷ m) (p, h) f = elim (Bool-cases (i == k)) [
    | inl same ↦ let q : w ≡ v = ground arith in subst₂ P ((e.beq_iff i k).0 same) q p
    | inr other ↦ lookup-AllEntries k v m h (rw (other, lookup) at f)
  ]

  pub insert-AllEntries :
      (k : K) (v : V) (m : Dict K V) → AllEntries m → P k v → AllEntries (insert k v m)
  unfolding insert
  insert-AllEntries k v [] h p = (p, tt)
  insert-AllEntries k v ((i, w) ∷ m) (q, h) p = elim (Bool-cases (i == k)) [
    | inl same ↦ rw (same, insert) (p, h)
    | inr other ↦ rw (other, insert) (q, insert-AllEntries k v m h p)
  ]

  pub delete-AllEntries : (k : K) (m : Dict K V) → AllEntries m → AllEntries (delete k m)
  unfolding delete
  delete-AllEntries k [] h = tt
  delete-AllEntries k ((i, w) ∷ m) (q, h) = elim (Bool-cases (i == k)) [
    | inl same ↦ rw (same, delete) (delete-AllEntries k m h)
    | inr other ↦ rw (other, delete) (q, delete-AllEntries k m h)
  ]

module _ {K V : Type 0} ⦃e : Eq K⦄ where
  -- A key that is in neither of two maps is not in the first after another key is inserted, which
  -- the second does not hold.
  pub lookup-insert_absent :
      (j k : K) (v w : V) (m rest : Dict K V)
      → lookup k ((j, w) ∷ rest) ≡ none
      → lookup j m ≡ none
      → lookup j (insert k v m) ≡ none
  unfolding lookup
  lookup-insert_absent j k v w m rest absent h =
      ground (arith, lookup-insert j k v m, e.beq_iff k j, e.beq_iff j k)

  -- Moving an entry from the front of one map into another does not change what the first, and then
  -- the second, hold.
  pub lookup-shift :
      (j k : K) (v : V) (m rest : Dict K V)
      → lookup k rest ≡ none
      → elim (lookup j rest) [ some t ↦ some t | none ↦ lookup j (insert k v m) ]
        ≡ elim (lookup j ((k, v) ∷ rest)) [ some t ↦ some t | none ↦ lookup j m ]
  unfolding lookup
  lookup-shift j k v m rest absent = elim (Bool-cases (k == j)) [
    | inl same ↦
        let gone = subst (λ i. lookup i rest ≡ none) ((e.beq_iff k j).0 same) absent in
        ground (arith, lookup-insert j k v m)
    | inr differs ↦ ground (arith, lookup-insert j k v m)
  ]
