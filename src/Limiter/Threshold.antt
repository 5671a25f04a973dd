-- ===== src/Limiter/Threshold.antt =====
-- internal/shared/ratelimit/ratelimit.go: a lockout is armed by the `max`-th failure of a window.
use nur_proxy.Limiter.Invariant.{fail_settings}
use native.Mathlib.Nat.{add-zero}
use nur_proxy.Base.{
  Bool, ap, leb, false, true, suc, All, ◌∙◌, refl, ℕ, ◌+◌, ◌-◌, ◌≤◌, ◌<◌, ◌≡◌, String, string_eq,
  none, some, List, [], ◌∷◌, length, arith,
}
use nur_proxy.Dict.{lookup}
use nur_proxy.Dict.Laws.{lookup-insert_self}
use nur_proxy.Limiter.{
  allow, Limiter, prune_if_full, evict_if_full, make_room, blank, admit, count_failure, count_on,
  fail,
}

-- Failures of one key, one after the other.
unfoldable pub fail_each : Limiter → String → List ℕ → Limiter
fail_each l key [] = l
fail_each l key (now ∷ times) = fail_each (fail l key now) key times

-- The failures counted on the key's unlocked entry.
abbrev pub HasCount : String → ℕ → ℕ → Limiter → Type 0
HasCount key n start l =
    lookup key l.entries ≡ some (record { failures = n; window_start = start; locked_until = 0 })

abbrev pub InWindow : Limiter → ℕ → ℕ → Type 0
InWindow l start now = now - start ≤ l.window

fail-HasCount :
    (l : Limiter) (key : String) (n start now : ℕ)
    → HasCount key n start l
    → InWindow l start now
    → n + 1 < l.max
    → HasCount key (n + 1) start (fail l key now)
unfolding fail count_on count_failure
fail-HasCount l key n start now known inside below =
    rw (known, fail) (rw (known, count_on) (rw lookup-insert_self (ground arith)))

make_room_free :
    (l : Limiter) (now : ℕ) → length l.entries < l.max_keys → make_room l now ≡ (l, true)
unfolding make_room prune_if_full evict_if_full
make_room_free l now room =
    let not_full : leb l.max_keys (length l.entries) ≡ false = ground arith in
    rw (not_full, make_room, prune_if_full) (rw (not_full, evict_if_full))

add_one_assoc : (n m : ℕ) → n + 1 + m ≡ n + suc m
add_one_assoc n m = omega arith

-- The first failure of an unknown key, where the table has room.
first-HasCount :
    (l : Limiter) (key : String) (now : ℕ)
    → lookup key l.entries ≡ none
    → length l.entries < l.max_keys
    → 1 < l.max
    → HasCount key 1 now (fail l key now)
unfolding fail admit count_on count_failure
first-HasCount l key now unknown room many =
    rw (unknown, fail)
      (rw (make_room_free l now room, admit)
        (rw (lookup-insert_self key (blank now) l.entries, count_on)
          (rw lookup-insert_self (ground arith))))

fail_each-HasCount :
    (l : Limiter) (key : String) (n start : ℕ) (times : List ℕ)
    → HasCount key n start l
    → All (InWindow l start) times
    → n + length times < l.max
    → HasCount key (n + length times) start (fail_each l key times)
unfolding fail_each
fail_each-HasCount l key n start [] known inside below = rw add-zero known
fail_each-HasCount l key n start (now ∷ times) known (here, later) below =
    let s = fail_settings l key now in
    rw (← add_one_assoc n (length times)) (
      fail_each-HasCount (fail l key now) key (n + 1) start times
        (fail-HasCount l key n start now known here (omega arith)) (rw s.window later)
        (omega (arith, s.max)))

counted_allowed :
    (l : Limiter) (key : String) (n start now : ℕ)
    → HasCount key n start l
    → (allow l key now).0 ≡ true
unfolding allow
counted_allowed l key n start now known = rw (known, allow) (ground arith)

fail_each_settings :
    (l : Limiter) (key : String) (times : List ℕ)
    → ((fail_each l key times).max ≡ l.max)
      × ((fail_each l key times).window ≡ l.window)
      × ((fail_each l key times).lockout ≡ l.lockout)
unfolding fail_each
fail_each_settings l key [] = (refl, refl, refl)
fail_each_settings l key (now ∷ times) =
    let s = fail_settings l key now in
    let r = fail_each_settings (fail l key now) key times in
    (r.0 ∙ s.max, r.1 ∙ s.window, r.2 ∙ s.lockout)

last-IsLocked :
    (l : Limiter) (key : String) (n start last now : ℕ)
    → HasCount key n start l
    → InWindow l start last
    → n + 1 ≡ l.max
    → now < last + l.lockout
    → allow (fail l key last) key now ≡ (false, last + l.lockout - now)
unfolding fail count_on count_failure allow
last-IsLocked l key n start last now known inside many early =
    rw (known, fail)
      (rw (known, count_on)
        (rw (lookup-insert_self key (count_failure l _ last) l.entries, allow) (ground arith)))

-- A key without an entry, in a table with room and with `max` at least 2, fails at `first` and then
-- at further times within the window of `first`. While there are fewer than `max` failures it is
-- still allowed; the `max`-th, at `last`, locks it out until `last + lockout`, and `Allow` returns
-- the time that is left.
pub locks_at_max :
    (l : Limiter) (key : String) (first last now : ℕ) (times : List ℕ)
    → lookup key l.entries ≡ none
    → length l.entries < l.max_keys
    → All (InWindow l first) times
    → InWindow l first last
    → length times + 2 ≡ l.max
    → let before = fail_each l key (first ∷ times) in
      ((allow before key now).0 ≡ true)
      × (now < last + l.lockout
          → allow (fail before key last) key now ≡ (false, last + l.lockout - now))
unfolding fail_each
locks_at_max l key first last now times unknown room inside inside_last many =
    let one = fail l key first in
    let before = fail_each one key times in
    let s = fail_settings l key first in
    let r = fail_each_settings one key times in
    let counted : HasCount key (1 + length times) first before =
      fail_each-HasCount one key 1 first times
        (first-HasCount l key first unknown room (omega arith)) (rw s.window inside)
        (omega (arith, s.max)) in
    (
      counted_allowed before key (1 + length times) first now counted,
      λ early.
          last-IsLocked before key (1 + length times) first last now counted
            (omega (arith, r.1, s.window)) (omega (arith, r.0, s.max))
            (omega (arith, r.2, s.lockout))
          ∙ ap {B = Bool × ℕ} (λ d. (false, last + d - now)) (r.2 ∙ s.lockout),
    )
