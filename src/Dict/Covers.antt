-- ===== src/Dict/Covers.antt =====
-- Go's maps: a list that has every key of a map is at least as long as the map.
use nur_proxy.Base.{
  ◌+◌, ◌≤◌, ◌≡◌, false, none, List, [], ◌∷◌, ◌++◌, Eq, ◌==◌, arith, refl, length, any, Bool-cases,
  inl, inr,
}
use nur_proxy.Dict.{Dict, lookup, insert, delete, Distinct}
use nur_proxy.Dict.Laws.{lookup-insert, lookup-delete, delete-Distinct}

any-snoc :
    {K : Type 0} ⦃e : Eq K⦄ (j k : K) (keys : List K)
    → any (λ x. x == j) (keys ++ k ∷ []) ≡ false
    → (any (λ x. x == j) keys ≡ false) × ((k == j) ≡ false)
any-snoc j k [] h = ground arith
any-snoc j k (x ∷ keys) h = ground (arith, any-snoc j k keys)

module _ {K V : Type 0} ⦃e : Eq K⦄ where
  -- A key that the list does not have is not in the map.
  abbrev pub Covers : List K → Dict K V → Type 0
  Covers keys m = (j : K) → any (λ k. k == j) keys ≡ false → lookup j m ≡ none

  pub insert-Covers :
      (k : K) (v : V) (keys : List K) (m : Dict K V)
      → Covers keys m
      → Covers (keys ++ k ∷ []) (insert k v m)
  insert-Covers k v keys m c j h =
      let (before, other) = any-snoc j k keys h in
      let absent = c j before in ground (arith, lookup-insert j k v m)

  pub delete-Covers :
      (k : K) (keys : List K) (m : Dict K V) → Covers (k ∷ keys) m → Covers keys (delete k m)
  delete-Covers k keys m c j h = elim (Bool-cases (k == j)) [
    | inl same ↦ ground (arith, lookup-delete j k m)
    | inr other ↦ let absent = c j (ground arith) in ground (arith, lookup-delete j k m)
  ]

  delete_missing : (k : K) (m : Dict K V) → lookup k m ≡ none → length (delete k m) ≡ length m
  unfolding lookup delete
  delete_missing k [] h = omega arith
  delete_missing k ((i, v) ∷ m) h = ground (arith, delete_missing k m)

  length-delete_one : (k : K) (m : Dict K V) → Distinct m → length m ≤ length (delete k m) + 1
  unfolding delete
  length-delete_one k [] d = omega arith
  length-delete_one k ((i, v) ∷ m) (fresh, d) = elim (Bool-cases (i == k)) [
    | inl same ↦
        let same' = (e.beq_iff i k).0 same in
        ground (arith, delete_missing i m fresh, delete_missing k m)
    | inr other ↦ let rest = length-delete_one k m d in ground arith
  ]

  pub length-Covers :
      (keys : List K) (m : Dict K V) → Distinct m → Covers keys m → length m ≤ length keys
  unfolding lookup
  length-Covers [] [] d c = omega arith
  length-Covers [] ((i, v) ∷ m) d c =
      let absent = c i refl in let same = (e.beq_iff i i).1 refl in absurd (ground arith)
  length-Covers (k ∷ keys) m d c =
      let rest =
        length-Covers keys (delete k m) (delete-Distinct k m d) (delete-Covers k keys m c) in
      omega (arith, rest, length-delete_one k m d)
