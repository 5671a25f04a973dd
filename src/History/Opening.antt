-- ===== src/History/Opening.antt =====
-- internal/orchestrator/db/recovery.go: when the orchestrator's repair circuit breaker is open.
use nur_proxy.History.Status.{
  shut, repair_breaker_status_from_history, after_all, failure_window, open_duration, find_opening,
  after_success, within,
}
use nur_proxy.Base.{
  ◌<◌, length, ℕ, ◌+◌, ◌-◌, ◌≡◌, ◌≢◌, ◌↔◌, ◌≤◌, refl, Bool, true, false, ◌&&◌, Option, some, List,
  [], ◌∷◌, leb, arith, Bool-cases, Option-cases, inl, inr, if◌then◌else◌,
}

-- The first list is the second one without some of its elements.
pub data Picked : List ℕ → List ℕ → Type 0 where
  no_more : {xs : List ℕ} → Picked [] xs
  pick : {ys xs : List ℕ} (x : ℕ) → Picked ys xs → Picked (x ∷ ys) (x ∷ xs)
  pass : {ys xs : List ℕ} (x : ℕ) → Picked ys xs → Picked ys (x ∷ xs)

-- The newest first, as `ORDER BY received_at DESC` leaves them.
pub data Descending : List ℕ → Type 0 where
  empty : Descending []
  below :
      {x : ℕ} {xs : List ℕ}
      → ((y : ℕ) → Picked (y ∷ []) xs → y ≤ x)
      → Descending xs
      → Descending (x ∷ xs)

-- Three failures after the last success, no further apart than the window, of which the newest is
-- still within the hour; a receipt counts from 1970, which is that long after Go's zero time.
pub record Threshold (success : Option ℕ) (now : ℕ) (receipts : List ℕ) : Type 0 where
  pub newest : ℕ
  pub second : ℕ
  pub oldest : ℕ
  pub picked : Picked (newest ∷ second ∷ oldest ∷ []) receipts
  pub fresh : (t : ℕ) → success ≡ some t → t < oldest
  pub recent : now < newest + 62135596800000000000 + 3600000000000
  pub close : newest ≤ oldest + 900000000000

abbrev Trio : ℕ → List ℕ → Type 0
Trio now xs =
    (a : ℕ) × (b : ℕ) × (c : ℕ) × Picked (a ∷ b ∷ c ∷ []) xs
    × (within now open_duration a ≡ true)
    × (a ≤ c + failure_window)

pass-Trio : (now x : ℕ) (xs : List ℕ) → Trio now xs → Trio now (x ∷ xs)
pass-Trio now x xs (a, b, c, p, r, k) = (a, b, c, pass x p, r, k)

found-Trio : (now : ℕ) (xs : List ℕ) (opened : ℕ) → find_opening now xs ≡ some opened → Trio now xs
unfolding find_opening
found-Trio now [] opened h = absurd (cc)
found-Trio now (a ∷ []) opened h = absurd (cc)
found-Trio now (a ∷ b ∷ []) opened h = absurd (cc)
found-Trio now (a ∷ b ∷ c ∷ rs) opened h =
    elim (Bool-cases (within now open_duration a && leb (a - c) failure_window)) [
      | inl t ↦ (a, b, c, pick a (pick b (pick c no_more)), ground arith, ground arith)
      | inr f ↦ pass-Trio now a (b ∷ c ∷ rs) (found-Trio now (b ∷ c ∷ rs) opened (ground arith))
    ]

first_of : {c : ℕ} {ys xs : List ℕ} → Picked (c ∷ ys) xs → Picked (c ∷ []) xs
first_of (pick x p) = pick x no_more
first_of (pass x p) = pass x (first_of p)

rest_of : {c : ℕ} {ys xs : List ℕ} → Picked (c ∷ ys) xs → Picked ys xs
rest_of (pick x p) = pass x p
rest_of (pass x p) = pass x (rest_of p)

Picked-length : {ys xs : List ℕ} → Picked ys xs → length ys ≤ length xs
Picked-length no_more = omega arith
Picked-length (pick x p) = let n = Picked-length p in omega (arith, n)
Picked-length (pass x p) = let n = Picked-length p in omega (arith, n)

head_least : {x c : ℕ} {xs ys : List ℕ} → Descending (x ∷ xs) → Picked (c ∷ ys) (x ∷ xs) → c ≤ x
head_least (below f d) (pick x p) = omega arith
head_least (below f d) (pass x p) = f _ (first_of p)

second_least :
    {x y b c : ℕ} {xs : List ℕ} → Descending (x ∷ y ∷ xs) → Picked (b ∷ c ∷ []) (x ∷ y ∷ xs) → c ≤ y
second_least (below f d) (pick x p) = head_least d p
second_least (below f d) (pass x p) = head_least d (rest_of p)

short : {A : Type 0} {a b c : ℕ} (xs : List ℕ) → length xs < 3 → Picked (a ∷ b ∷ c ∷ []) xs → A
short xs n p = absurd (omega (arith, n, Picked-length p))

Trio-found :
    (now : ℕ) (xs : List ℕ)
    → Descending xs
    → Trio now xs
    → (opened : ℕ) × (find_opening now xs ≡ some opened)
unfolding find_opening
Trio-found now [] d (a, b, c, p, r, k) = short [] (omega arith) p
Trio-found now (x ∷ []) d (a, b, c, p, r, k) = short (x ∷ []) (omega arith) p
Trio-found now (x ∷ y ∷ []) d (a, b, c, p, r, k) = short (x ∷ y ∷ []) (omega arith) p
Trio-found now (x ∷ y ∷ z ∷ rs) (below f d) (a, b, c, pick _ p, r, k) =
    (x, ground (arith, second_least d p))
Trio-found now (x ∷ y ∷ z ∷ rs) (below f d) (a, b, c, pass _ p, r, k) =
    let (opened, e) = Trio-found now (y ∷ z ∷ rs) d (a, b, c, p, r, k) in
    elim (Bool-cases (within now open_duration x && leb (x - z) failure_window)) [
      | inl t ↦ (x, ground arith)
      | inr f ↦ (opened, ground (arith, e))
    ]

-- Lists with an element that a test may leave out.
shrunk_if :
    (keep : Bool) (x : ℕ) (rest xs ys : List ℕ)
    → ((zs : List ℕ) → Picked zs rest → Picked zs xs)
    → Picked ys (if keep then x ∷ rest else rest)
    → Picked ys (x ∷ xs)
shrunk_if true x rest xs _ f no_more = no_more
shrunk_if true x rest xs (_ ∷ ys) f (pick _ p) = pick x (f ys p)
shrunk_if true x rest xs ys f (pass _ p) = pass x (f ys p)
shrunk_if false x rest xs ys f p = pass x (f ys p)

kept_if :
    (Q : ℕ → Type 0) (keep : Bool) (x c : ℕ) (rest : List ℕ)
    → (keep ≡ true → Q x)
    → (Picked (c ∷ []) rest → Q c)
    → Picked (c ∷ []) (if keep then x ∷ rest else rest)
    → Q c
kept_if Q true x c rest q f (pick _ p) = q refl
kept_if Q true x c rest q f (pass _ p) = f p
kept_if Q false x c rest q f p = f p

pass_if :
    (keep : Bool) (x : ℕ) {rest ys : List ℕ}
    → Picked ys rest
    → Picked ys (if keep then x ∷ rest else rest)
pass_if true x p = pass x p
pass_if false x p = p

below_if :
    (keep : Bool) (x : ℕ) {rest : List ℕ}
    → ((y : ℕ) → Picked (y ∷ []) rest → y ≤ x)
    → Descending rest
    → Descending (if keep then x ∷ rest else rest)
below_if true x f d = below f d
below_if false x f d = d

recent_within :
    (now a : ℕ) → now < a + 62135596800000000000 + 3600000000000 → within now open_duration a ≡ true
recent_within now a h = ground arith

within_recent :
    (now a : ℕ) → within now open_duration a ≡ true → now < a + 62135596800000000000 + 3600000000000
within_recent now a h = ground arith

module _ (success : Option ℕ) where
  shrunk : (xs ys : List ℕ) → Picked ys (after_all success xs) → Picked ys xs
  unfolding after_all
  shrunk [] ys p = p
  shrunk (x ∷ xs) ys p =
      shrunk_if (after_success success x) x (after_all success xs) xs ys (shrunk xs) p

  kept :
      (xs : List ℕ) (c : ℕ)
      → Picked (c ∷ []) (after_all success xs)
      → after_success success c ≡ true
  unfolding after_all
  kept [] c p = elim p [ ]
  kept (x ∷ xs) c p =
      kept_if (λ y. after_success success y ≡ true) (after_success success x) x c
        (after_all success xs) (λ h. h) (kept xs c) p

  grown :
      {ys xs : List ℕ}
      → ((y : ℕ) → Picked (y ∷ []) ys → after_success success y ≡ true)
      → Picked ys xs
      → Picked ys (after_all success xs)
  unfolding after_all
  grown f no_more = no_more
  grown f (pick x p) = rw (f x (pick x no_more)) (pick x (grown (λ y q. f y (pass x q)) p))
  grown f (pass x p) = pass_if (after_success success x) x (grown f p)

  after_all-Descending : (xs : List ℕ) → Descending xs → Descending (after_all success xs)
  unfolding after_all
  after_all-Descending [] d = d
  after_all-Descending (x ∷ xs) (below f d) =
      below_if (after_success success x) x (λ y p. f y (shrunk xs (y ∷ []) p))
        (after_all-Descending xs d)

  after_later : (c a : ℕ) → after_success success c ≡ true → c ≤ a → after_success success a ≡ true
  after_later c a h n = elim (Option-cases success) [
    | inl e ↦ rw e refl
    | inr (s, e) ↦ ground (arith, h, e, n)
  ]

  fresh_after : (c : ℕ) → ((t : ℕ) → success ≡ some t → t < c) → after_success success c ≡ true
  fresh_after c f = elim (Option-cases success) [
    | inl e ↦ rw e refl
    | inr (s, e) ↦ let n = f s e in ground (arith, e)
  ]

  after_fresh : (c : ℕ) → after_success success c ≡ true → (t : ℕ) → success ≡ some t → t < c
  after_fresh c h t e = ground (arith, h, e)

  newer :
      {a c : ℕ} {xs ys : List ℕ} → Descending xs → Picked (a ∷ ys) xs → Picked (c ∷ []) ys → c ≤ a
  newer (below f d) (pick x p) q = f _ (through q p)
    where
      through : {c : ℕ} {ys xs : List ℕ} → Picked (c ∷ []) ys → Picked ys xs → Picked (c ∷ []) xs
      through (pick x q) p = first_of p
      through (pass x q) p = through q (rest_of p)
  newer (below f d) (pass x p) q = newer d p q
  newer empty p q = elim p [ ]

  Threshold-Trio :
      (now : ℕ) (xs : List ℕ)
      → Descending xs
      → Threshold success now xs
      → Trio now (after_all success xs)
  Threshold-Trio now xs d t = (
    t.newest,
    t.second,
    t.oldest,
    grown each t.picked,
    recent_within now t.newest t.recent,
    t.close,
  )
    where
      old : (y : ℕ) → t.oldest ≤ y → after_success success y ≡ true
      old y n = after_later t.oldest y (fresh_after t.oldest t.fresh) n

      each :
          (y : ℕ)
          → Picked (y ∷ []) (t.newest ∷ t.second ∷ t.oldest ∷ [])
          → after_success success y ≡ true
      each _ (pick _ p) = old t.newest (newer d t.picked (pass _ (pick _ no_more)))
      each _ (pass _ (pick _ p)) = old t.second (newer d (rest_of t.picked) (pick _ no_more))
      each _ (pass _ (pass _ (pick _ p))) = fresh_after t.oldest t.fresh
      each y (pass _ (pass _ (pass _ p))) = elim p [ ]

  Trio-Threshold :
      (now : ℕ) (xs : List ℕ) → Trio now (after_all success xs) → Threshold success now xs
  Trio-Threshold now xs (a, b, c, p, r, k) = record {
    newest = a;
    second = b;
    oldest = c;
    picked = shrunk xs _ p;
    fresh = after_fresh c (kept xs c (rest_of (rest_of p)));
    recent = within_recent now a r;
    close = k;
  }

  -- For the receipts of failures, newest first, and no latch, the breaker is open exactly if three
  -- failures after the last success lie within fifteen minutes, the newest of them within the last
  -- hour.
  pub status_iff :
      (now : ℕ) (xs : List ℕ)
      → Descending xs
      → (repair_breaker_status_from_history false success xs now ≢ shut) ↔ Threshold success now xs
  unfolding repair_breaker_status_from_history
  status_iff now xs d = (open_of, of_open)
    where
      found : List ℕ → Option ℕ
      found ys = find_opening now (after_all success ys)

      open_of :
          repair_breaker_status_from_history false success xs now ≢ shut → Threshold success now xs
      open_of h = elim (Option-cases (found xs)) [
        | inl e ↦ absurd (h (rw e refl))
        | inr (opened, e) ↦ Trio-Threshold now xs (found-Trio now (after_all success xs) opened e)
      ]

      of_open :
          Threshold success now xs → repair_breaker_status_from_history false success xs now ≢ shut
      of_open t h =
          let (opened, e) =
            Trio-found now (after_all success xs) (after_all-Descending xs d)
              (Threshold-Trio now xs d t) in
          absurd (ground (arith, e, h))
