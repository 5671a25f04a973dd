-- ===== src/Limiter/Oldest.antt =====
-- internal/shared/ratelimit/ratelimit.go: what the search of `evictOldestUnlockedLocked` finds.
use nur_proxy.Base.{
  ℕ, ◌≤◌, ◌≡◌, ◌≢◌, true, false, String, string_eq, eq_iff, Option, none, some, [], ◌∷◌, ltb, All,
  arith, Bool-cases, inl, inr,
}
use nur_proxy.Dict.{Dict, lookup, Distinct}
use nur_proxy.Limiter.{Entry, after, older, oldest_unlocked}

-- Every item of the list is what a search for its key finds in `m`.
abbrev pub Found : Dict String Entry → String × Entry → Type 0
Found m x = lookup x.0 m ≡ some x.1

Found-cons :
    (k : String) (w : Entry) (m xs : Dict String Entry)
    → lookup k m ≡ none
    → All (Found m) xs
    → All (Found ((k, w) ∷ m)) xs
unfolding lookup
Found-cons k w m [] h a = tt
Found-cons k w m ((j, u) ∷ xs) h (f, a) = (ground (arith, eq_iff k j), Found-cons k w m xs h a)

pub Distinct-Found : (m : Dict String Entry) → Distinct m → All (Found m) m
Distinct-Found [] d = tt
Distinct-Found ((k, w) ∷ m) (h, d) = (head_found, Found-cons k w m m h (Distinct-Found m d))
  where
    head_found : lookup k ((k, w) ∷ m) ≡ some w
    head_found = unfold lookup in ground (arith, eq_iff k k)

-- The result so far is an unlocked entry of `m`, at most as old as the entries seen.
pub record IsOldest (now : ℕ) (m : Dict String Entry) (x : String × Entry) : Type 0 where
  pub found : lookup x.0 m ≡ some x.1
  pub unlocked : after x.1.locked_until now ≡ false

abbrev IsGood : ℕ → Dict String Entry → Option (String × Entry) → Type 0
IsGood now m none = Unit
IsGood now m (some x) = IsOldest now m x

older-IsGood :
    (now : ℕ) (m : Dict String Entry) (o : Option (String × Entry)) (x : String × Entry)
    → IsGood now m o
    → Found m x
    → IsGood now m (older now o x)
unfolding older
older-IsGood now m none (k, e) g f = elim (Bool-cases (after e.locked_until now)) [
  | inl locked ↦ rw locked tt
  | inr free ↦ rw free (record { found = f; unlocked = free })
]
older-IsGood now m (some (j, o)) (k, e) g f = elim (Bool-cases (after e.locked_until now)) [
  | inl locked ↦ rw locked g
  | inr free ↦ elim (Bool-cases (ltb e.window_start o.window_start)) [
    | inl earlier ↦ rw (free, earlier) (record { found = f; unlocked = free })
    | inr later ↦ rw (free, later) g
  ]
]

search-IsGood :
    (now : ℕ) (m : Dict String Entry) (o : Option (String × Entry)) (xs : Dict String Entry)
    → IsGood now m o
    → All (Found m) xs
    → IsGood now m (oldest_unlocked now o xs)
unfolding oldest_unlocked
search-IsGood now m o [] g a = g
search-IsGood now m o (x ∷ xs) g (f, a) =
    search-IsGood now m (older now o x) xs (older-IsGood now m o x g f) a

pub oldest_unlocked-IsOldest :
    (now : ℕ) (m : Dict String Entry) (x : String × Entry)
    → Distinct m
    → oldest_unlocked now none m ≡ some x
    → IsOldest now m x
oldest_unlocked-IsOldest now m x d h = rw h at (search-IsGood now m none m tt (Distinct-Found m d))

-- No unlocked entry of the list is older than the result.
abbrev pub NotOlder : ℕ → ℕ → String × Entry → Type 0
NotOlder now start x = after x.1.locked_until now ≡ false → start ≤ x.1.window_start

pub search-NotOlder :
    (now : ℕ) (o y : String × Entry) (xs : Dict String Entry)
    → oldest_unlocked now (some o) xs ≡ some y
    → (y.1.window_start ≤ o.1.window_start) × All (NotOlder now y.1.window_start) xs
unfolding oldest_unlocked older
search-NotOlder now o y [] h = (ground arith, tt)
search-NotOlder now o y ((k, e) ∷ xs) h = elim (Bool-cases (after e.locked_until now)) [
  | inl locked ↦
      let r = search-NotOlder now o y xs (ground arith) in (r.0, (λ u. ground arith, r.1))
  | inr free ↦ elim (Bool-cases (ltb e.window_start o.1.window_start)) [
    | inl earlier ↦
        let r = search-NotOlder now (k, e) y xs (ground arith) in (ground arith, (λ u. r.0, r.1))
    | inr later ↦
        let r = search-NotOlder now o y xs (ground arith) in (r.0, (λ u. ground arith, r.1))
  ]
]

pub oldest_unlocked-NotOlder :
    (now : ℕ) (m : Dict String Entry) (y : String × Entry)
    → oldest_unlocked now none m ≡ some y
    → All (NotOlder now y.1.window_start) m
unfolding oldest_unlocked older
oldest_unlocked-NotOlder now [] y h = tt
oldest_unlocked-NotOlder now ((k, e) ∷ m) y h = elim (Bool-cases (after e.locked_until now)) [
  | inl locked ↦ (λ u. ground arith, oldest_unlocked-NotOlder now m y (ground arith))
  | inr free ↦ let r = search-NotOlder now (k, e) y m (ground arith) in (λ u. r.0, r.1)
]

all_locked :
    (now : ℕ) (o : String × Entry) (xs : Dict String Entry) → oldest_unlocked now (some o) xs ≢ none
unfolding oldest_unlocked older
all_locked now o [] h = cc
all_locked now (j, o) ((k, e) ∷ xs) h =
    ground (arith, all_locked now (j, o) xs, all_locked now (k, e) xs)

-- Nothing is found exactly when every entry is locked.
pub oldest_unlocked-none :
    (now : ℕ) (m : Dict String Entry)
    → oldest_unlocked now none m ≡ none
    → All (λ x. after x.1.locked_until now ≡ true) m
unfolding oldest_unlocked older
oldest_unlocked-none now [] h = tt
oldest_unlocked-none now ((k, e) ∷ m) h = elim (Bool-cases (after e.locked_until now)) [
  | inl locked ↦ (locked, oldest_unlocked-none now m (ground arith))
  | inr free ↦ absurd (all_locked now (k, e) m (ground arith))
]
