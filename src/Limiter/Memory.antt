-- ===== src/Limiter/Memory.antt =====
-- internal/shared/ratelimit/ratelimit.go: the bound on the table, what is evicted from a full one,
-- and what a failure does when no entry can be evicted.
use nur_proxy.Base.{
  ◌∷◌, Bool-cases, ℕ, ◌+◌, ◌<◌, ◌≡◌, Bool, true, false, String, string_eq, none, some, [], ◌∷◌,
  List, ◌⊎◌, All, arith, refl, length, leb, ltb, ◌≤◌, ◌-◌, Option-cases, inl, inr,
}
use nur_proxy.Dict.{Dict, lookup, delete}
use nur_proxy.Dict.Laws.{lookup-insert_self}
use nur_proxy.Limiter.{
  make_room, blank, admit, Entry, Limiter, new, after, allow, oldest_unlocked,
  evict_oldest_unlocked_locked, evict_if_full, prune_if_full, prune_locked, count_failure, count_on,
  fail,
}
use nur_proxy.Limiter.Oldest.{
  NotOlder, oldest_unlocked-IsOldest, oldest_unlocked-NotOlder, oldest_unlocked-none,
}
use nur_proxy.Limiter.Invariant.{
  make_room-SameSettings, admit_settings, Call, perform_all, IsValid, new-IsValid,
  perform_all-IsValid,
}

-- From a new limiter, any sequence of calls leaves a table in which no key stands twice and which
-- holds at most `max_keys` keys.
pub new-perform_all-IsValid :
    (max window lockout : ℕ) (cs : List Call) → IsValid (perform_all (new max window lockout) cs)
new-perform_all-IsValid max window lockout cs =
    perform_all-IsValid (new max window lockout) cs (new-IsValid max window lockout)

-- What one eviction did, or why there was none.
pub data Evicted (l : Limiter) (now : ℕ) : Limiter × Bool → Type 0 where
  nothing_free : All (λ x. after x.1.locked_until now ≡ true) l.entries → Evicted l now (l, false)
  evicted :
      (key : String) (e : Entry)
      → lookup key l.entries ≡ some e
      → after e.locked_until now ≡ false
      → All (NotOlder now e.window_start) l.entries
      → Evicted l now (record l { entries = delete key l.entries }, true)

-- In a table in which no key stands twice, an eviction removes one key that is not locked out and
-- whose window started no later than that of any other such key; it removes nothing and reports
-- failure only if every key is locked out.
pub evict-Evicted :
    (l : Limiter) (now : ℕ) → IsValid l → Evicted l now (evict_oldest_unlocked_locked l now)
unfolding evict_oldest_unlocked_locked
evict-Evicted l now v = elim (Option-cases (oldest_unlocked now none l.entries)) [
  | inl none_free ↦
      rw (none_free, evict_oldest_unlocked_locked)
        (nothing_free (oldest_unlocked-none now l.entries none_free))
  | inr (x, found) ↦
      let o = oldest_unlocked-IsOldest now l.entries x v.distinct found in
      rw (found, evict_oldest_unlocked_locked)
        (evicted x.0 x.1 o.found o.unlocked (oldest_unlocked-NotOlder now l.entries x found))
]

-- What stands for the key when it fails: its entry, if it has one, which begins anew when its window
-- is over.
pub data Standing (l : Limiter) (key : String) (now : ℕ) : Entry → Type 0 where
  unknown :
      lookup key l.entries ≡ none
      → Standing l key now (record { failures = 0; window_start = now; locked_until = 0 })
  inside :
      (e : Entry)
      → lookup key l.entries ≡ some e
      → now - e.window_start ≤ l.window
      → Standing l key now e
  over :
      (e : Entry)
      → lookup key l.entries ≡ some e
      → l.window < now - e.window_start
      → Standing l key now
          (record { failures = 0; window_start = now; locked_until = e.locked_until })

-- An entry with one failure more, which is a lockout if that reaches the limit.
abbrev pub OneMore : Limiter → ℕ → Entry → Entry → Type 0
OneMore l now e e' =
    ((e.failures + 1 < l.max) × (e' ≡ record e { failures = e.failures + 1 }))
    ⊎ ((l.max ≤ e.failures + 1)
        × (e' ≡ record { failures = 0; window_start = now; locked_until = now + l.lockout }))

-- The failure is counted on the key's entry.
abbrev pub IsCounted : String → ℕ → Limiter → Limiter → Type 0
IsCounted key now l l' =
    (e : Entry) × (e' : Entry) × Standing l key now e
    × OneMore l now e e'
    × (lookup key l'.entries ≡ some e')

-- Every key that has no entry is denied before `t`.
abbrev pub DeniesUnknown : ℕ → Limiter → Type 0
DeniesUnknown t l =
    (key : String) (now : ℕ) → lookup key l.entries ≡ none → now < t → (allow l key now).0 ≡ false

-- The table has no room for the key: as many other keys as it may hold are locked out.
abbrev pub IsFull : String → ℕ → Limiter → Limiter → Type 0
IsFull key now l l' =
    (lookup key l.entries ≡ none)
    × (l.max_keys ≤ length l'.entries)
    × All (λ x. now < x.1.locked_until) l'.entries

count_failure-inside :
    (l : Limiter) (e : Entry) (now : ℕ)
    → now - e.window_start ≤ l.window
    → OneMore l now e (count_failure l e now)
unfolding count_failure
count_failure-inside l e now within =
    let stays : ltb l.window (now - e.window_start) ≡ false = ground arith in
    elim (Bool-cases (leb l.max (e.failures + 1))) [
      | inl full ↦ inr (ground arith, rw (stays, count_failure) (rw full refl))
      | inr free ↦ inl (ground arith, rw (stays, count_failure) (rw free refl))
    ]

count_failure-over :
    (l : Limiter) (e : Entry) (now : ℕ)
    → l.window < now - e.window_start
    → OneMore l now
        (record { failures = 0; window_start = now; locked_until = e.locked_until })
        (count_failure l e now)
unfolding count_failure
count_failure-over l e now past =
    let fresh : ltb l.window (now - e.window_start) ≡ true = ground arith in
    elim (Bool-cases (leb l.max 1)) [
      | inl full ↦ inr (ground arith, rw (fresh, count_failure) (rw full refl))
      | inr free ↦ inl (ground arith, rw (fresh, count_failure) (rw free refl))
    ]

count_on-stored :
    (l : Limiter) (key : String) (now : ℕ) (e : Entry)
    → lookup key l.entries ≡ some e
    → lookup key (count_on l key now).entries ≡ some (count_failure l e now)
unfolding count_on
count_on-stored l key now e known =
    rw (known, count_on) (lookup-insert_self key (count_failure l e now) l.entries)

known-IsCounted :
    (l : Limiter) (key : String) (now : ℕ) (e : Entry)
    → lookup key l.entries ≡ some e
    → IsCounted key now l (count_on l key now)
known-IsCounted l key now e known =
    let stored = count_on-stored l key now e known in
    elim (Bool-cases (ltb l.window (now - e.window_start))) [
      | inl past ↦ (
        record { failures = 0; window_start = now; locked_until = e.locked_until },
        count_failure l e now,
        over e known (ground arith),
        count_failure-over l e now (ground arith),
        stored,
      )
      | inr within ↦ (
        e,
        count_failure l e now,
        inside e known (ground arith),
        count_failure-inside l e now (ground arith),
        stored,
      )
    ]

same-OneMore :
    (l q : Limiter) (now : ℕ) (e e' : Entry)
    → q.max ≡ l.max
    → q.lockout ≡ l.lockout
    → OneMore q now e e'
    → OneMore l now e e'
same-OneMore l q now e e' m k (inl (below, p)) = inl (omega (arith, m, below), p)
same-OneMore l q now e e' m k (inr (above, p)) = inr (omega (arith, m, above), rw k at p)

admitted-IsCounted :
    (l q : Limiter) (key : String) (now : ℕ)
    → lookup key l.entries ≡ none
    → lookup key q.entries ≡ some (blank now)
    → q.max ≡ l.max
    → q.lockout ≡ l.lockout
    → IsCounted key now l (count_on q key now)
admitted-IsCounted l q key now missing entered m k = (
  blank now,
  count_failure q (blank now) now,
  unknown missing,
  same-OneMore l q now (blank now) _ m k (count_failure-inside q (blank now) now (omega arith)),
  count_on-stored q key now (blank now) entered,
)

locked_later :
    (now : ℕ) (m : Dict String Entry)
    → All (λ x. after x.1.locked_until now ≡ true) m
    → All (λ x. now < x.1.locked_until) m
locked_later now [] h = tt
locked_later now (x ∷ m) (h, rest) = (ground arith, locked_later now m rest)

make_room-IsFull :
    (l : Limiter) (key : String) (now : ℕ)
    → lookup key l.entries ≡ none
    → (make_room l now).1 ≡ false
    → IsFull key now l (make_room l now).0
unfolding make_room evict_if_full evict_oldest_unlocked_locked
make_room-IsFull l key now missing h =
    let p = prune_if_full l now in
    let same : p.max_keys ≡ l.max_keys = unfold prune_if_full prune_locked in ground arith in
    elim (Bool-cases (leb p.max_keys (length p.entries))) [
      | inr free ↦ absurd (ground arith)
      | inl full ↦ elim (Option-cases (oldest_unlocked now none p.entries)) [
        | inr (x, found) ↦ absurd (ground arith)
        | inl none_free ↦
            rw (full, evict_if_full)
              (rw (none_free, evict_oldest_unlocked_locked)
                (
                  missing,
                  ground (arith, same),
                  locked_later now p.entries (oldest_unlocked-none now p.entries none_free),
                ))
      ]
    ]

saturated-DeniesUnknown : (l : Limiter) → DeniesUnknown l.saturated_until l
unfolding allow
saturated-DeniesUnknown l key now absent early = rw (absent, allow) (ground arith)

admit-IsFull :
    (l : Limiter) (key : String) (now : ℕ)
    → lookup key l.entries ≡ none
    → (admit l key now).1 ≡ false
    → IsFull key now l (admit l key now).0
unfolding admit
admit-IsFull l key now missing h = elim (Bool-cases (make_room l now).1) [
  | inl freed ↦ absurd (ground arith)
  | inr stuck ↦ rw (stuck, admit) (make_room-IsFull l key now missing stuck)
]

-- A key that was not entered leaves the table saturated.
admit_refused :
    (l : Limiter) (key : String) (now : ℕ)
    → (admit l key now).1 ≡ false
    → (admit l key now).0.saturated_until ≡ now + l.lockout
unfolding admit
admit_refused l key now h = ground (arith, (make_room-SameSettings l now).lockout)

admit_entered :
    (l : Limiter) (key : String) (now : ℕ)
    → (admit l key now).1 ≡ true
    → lookup key (admit l key now).0.entries ≡ some (blank now)
unfolding admit
admit_entered l key now h =
    ground (arith, lookup-insert_self key (blank now) (make_room l now).0.entries)

-- A failure is never lost. Either it is counted: one more than stands for the key, whose count
-- begins anew when its window is over, or the lockout when that reaches the limit. Or the key had no
-- entry and as many others as the table may hold are locked out; then every key without an entry is
-- denied for the length of a lockout.
pub fail_closed :
    (l : Limiter) (key : String) (now : ℕ)
    → IsCounted key now l (fail l key now)
      ⊎ (IsFull key now l (fail l key now) × DeniesUnknown (now + l.lockout) (fail l key now))
unfolding fail
fail_closed l key now = elim (Option-cases (lookup key l.entries)) [
  | inr (e, known) ↦ rw (known, fail) (inl (known-IsCounted l key now e known))
  | inl missing ↦ elim (Bool-cases (admit l key now).1) [
    | inl admitted ↦
        let s = admit_settings l key now in
        rw (missing, fail)
          (rw admitted (
            inl (
              admitted-IsCounted l (admit l key now).0 key now missing
                (admit_entered l key now admitted) s.max s.lockout)))
    | inr refused ↦
        rw (missing, fail)
          (rw refused (
            inr (
              (let full = admit-IsFull l key now missing refused in (refl, full.1, full.2)),
              rw (admit_refused l key now refused) at (saturated-DeniesUnknown (admit l key now).0),
            )))
  ]
]
