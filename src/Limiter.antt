-- ===== src/Limiter.antt =====
-- internal/shared/ratelimit/ratelimit.go: the failed-attempt limiter with lockout.
-- A time is the number of nanoseconds since Go's zero time, so the zero time is 0 and `After` is
-- the strict order; a duration is a number of nanoseconds. The clock `l.now` is the argument `now`.
-- `x.Sub(y)` is only compared with a duration that is not negative, or is asked for where y is
-- before x, so truncated subtraction agrees with it. The mutex makes each method one step.
pub mod Lockout
pub mod Invariant
pub mod Memory
pub mod Oldest
pub mod Threshold
mod Tests
use nur_proxy.Base.{
  ℕ, ◌+◌, ◌-◌, Bool, true, false, ◌||◌, String, string_eq, Option, none, some, [], ◌∷◌, ltb, leb,
  if◌then◌else◌, length,
}
use nur_proxy.Dict.{Dict, keep, lookup, insert, delete}

pub record Entry : Type 0 where
  pub failures : ℕ
  pub window_start : ℕ
  pub locked_until : ℕ

pub record Limiter : Type 0 where
  pub entries : Dict String Entry
  pub max : ℕ
  pub window : ℕ
  pub lockout : ℕ
  pub max_keys : ℕ
  pub saturated_until : ℕ

unfoldable pub new : ℕ → ℕ → ℕ → Limiter
new max window lockout = record {
  entries = [];
  max = max;
  window = window;
  lockout = lockout;
  max_keys = 10000;
  saturated_until = 0;
}

-- `t.After(now)`
abbrev pub after : ℕ → ℕ → Bool
after t now = ltb now t

-- `Allow` changes nothing; the second part is the time left.
unfoldable pub allow : Limiter → String → ℕ → Bool × ℕ
allow l key now = elim (lookup key l.entries) [
  | none ↦ if after l.saturated_until now then (false, l.saturated_until - now) else (true, 0)
  | some e ↦ if after e.locked_until now then (false, e.locked_until - now) else (true, 0)
]

-- The entries that `pruneLocked` leaves: locked, or within an active window.
abbrev pub is_active : ℕ → ℕ → String → Entry → Bool
is_active window now k e = after e.locked_until now || leb (now - e.window_start) window

unfoldable pub prune_locked : Limiter → ℕ → Limiter
prune_locked l now = record l { entries = keep (is_active l.window now) l.entries }

-- One round of the search for the oldest unlocked entry.
unfoldable pub older : ℕ → Option (String × Entry) → String × Entry → Option (String × Entry)
older now none (k, e) = if after e.locked_until now then none else some (k, e)
older now (some (j, o)) (k, e) =
    if after e.locked_until now
    then some (j, o)
    else if ltb e.window_start o.window_start
    then some (k, e)
    else some (j, o)

unfoldable pub oldest_unlocked :
    ℕ → Option (String × Entry) → Dict String Entry → Option (String × Entry)
oldest_unlocked now found [] = found
oldest_unlocked now found (x ∷ m) = oldest_unlocked now (older now found x) m

-- The state after, and whether an entry was evicted.
unfoldable pub evict_oldest_unlocked_locked : Limiter → ℕ → Limiter × Bool
evict_oldest_unlocked_locked l now = elim (oldest_unlocked now none l.entries) [
  | none ↦ (l, false)
  | some (k, e) ↦ (record l { entries = delete k l.entries }, true)
]

-- The part of `Fail` that makes room for an unknown key: prune a full table, then evict from one
-- that is still full; `false` if no entry can be evicted.
unfoldable pub prune_if_full : Limiter → ℕ → Limiter
prune_if_full l now = if leb l.max_keys (length l.entries) then prune_locked l now else l

unfoldable pub evict_if_full : Limiter → ℕ → Limiter × Bool
evict_if_full l now =
    if leb l.max_keys (length l.entries) then evict_oldest_unlocked_locked l now else (l, true)

unfoldable pub make_room : Limiter → ℕ → Limiter × Bool
make_room l now = evict_if_full (prune_if_full l now) now

abbrev pub blank : ℕ → Entry
blank now = record { failures = 0; window_start = now; locked_until = 0 }

-- The part of `Fail` that adds an entry for an unknown key; `false` is the early return of a
-- saturated table.
unfoldable pub admit : Limiter → String → ℕ → Limiter × Bool
admit l key now =
    let (q, freed) = make_room l now in
    if freed
    then (record q { entries = insert key (blank now) q.entries }, true)
    else (record q { saturated_until = now + q.lockout }, false)

-- The part of `Fail` that counts the failure on the key's entry.
unfoldable pub count_failure : Limiter → Entry → ℕ → Entry
count_failure l e now =
    let fresh = ltb l.window (now - e.window_start) in
    let failures = (if fresh then 0 else e.failures) + 1 in
    if leb l.max failures
    then record { failures = 0; window_start = now; locked_until = now + l.lockout }
    else record {
      failures = failures;
      window_start = if fresh then now else e.window_start;
      locked_until = e.locked_until;
    }

unfoldable pub count_on : Limiter → String → ℕ → Limiter
count_on l key now = elim (lookup key l.entries) [
  | none ↦ l
  | some e ↦ record l { entries = insert key (count_failure l e now) l.entries }
]

unfoldable pub fail : Limiter → String → ℕ → Limiter
fail l key now = elim (lookup key l.entries) [
  | some e ↦ count_on l key now
  | none ↦ let (q, admitted) = admit l key now in if admitted then count_on q key now else q
]

unfoldable pub reset : Limiter → String → Limiter
reset l key = record l { entries = delete key l.entries }
