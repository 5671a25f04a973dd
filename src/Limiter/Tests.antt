-- ===== src/Limiter/Tests.antt =====
-- internal/shared/ratelimit/ratelimit.go: runs at concrete inputs, and instances of the theorems.
use nur_proxy.Base.{arith, ◌<◌, ◌≡◌, refl, true, false, [], ◌∷◌, ◌⊎◌}
use nur_proxy.Dict.{lookup, insert, delete, keep}
use nur_proxy.Limiter.{
  admit, make_room, evict_if_full, prune_if_full, prune_locked, oldest_unlocked, older, count_on,
  count_failure,
}
use nur_proxy.Limiter.{lookup, Limiter, new, allow, fail, evict_oldest_unlocked_locked}
use nur_proxy.Limiter.Invariant.{failed, succeeded, perform_all, IsValid}
use nur_proxy.Limiter.Lockout.{flood_keeps_lockout}
use nur_proxy.Limiter.Memory.{
  IsFull, new-perform_all-IsValid, Evicted, evict-Evicted, IsCounted, DeniesUnknown, fail_closed,
}
use nur_proxy.Limiter.Threshold.{fail_each, locks_at_max}

-- Two keys at most; "a" is locked out until 30, and "b" has one failure.
abbrev small : Limiter
small = record {
  entries =
      ("a", record { failures = 0; window_start = 20; locked_until = 30 })
      ∷ ("b", record { failures = 1; window_start = 21; locked_until = 0 })
      ∷ [];
  max = 3;
  window = 5;
  lockout = 10;
  max_keys = 2;
  saturated_until = 0;
}

small-IsValid : IsValid small
unfolding lookup
small-IsValid = record { distinct = (refl, (refl, tt)); bounded = omega arith }

-- "c" takes the place of "b", the only key that is not locked out.
small_eviction : (allow (fail small "c" 22) "a" 23).0 ≡ false
unfolding allow fail lookup insert delete keep admit make_room evict_if_full prune_if_full
    prune_locked evict_oldest_unlocked_locked oldest_unlocked older count_on count_failure
small_eviction = refl

flood_keeps_lockout_example :
    (allow (perform_all small (failed "c" 22 ∷ failed "d" 23 ∷ succeeded "c" ∷ [])) "a" 29).0
    ≡ false
unfolding lookup
flood_keeps_lockout_example =
    flood_keeps_lockout "a" 30 29 small (failed "c" 22 ∷ failed "d" 23 ∷ succeeded "c" ∷ [])
      small-IsValid
      (record { failures = 0; window_start = 20; locked_until = 30 }, refl, omega arith)
      ((omega arith, λ e. omega arith), ((omega arith, λ e. omega arith), (refl, tt))) (omega arith)

new-perform_all-IsValid_example :
    IsValid (perform_all (new 3 5 10) (failed "a" 1 ∷ succeeded "a" ∷ failed "b" 2 ∷ []))
new-perform_all-IsValid_example =
    new-perform_all-IsValid 3 5 10 (failed "a" 1 ∷ succeeded "a" ∷ failed "b" 2 ∷ [])

evict-Evicted_example : Evicted small 22 (evict_oldest_unlocked_locked small 22)
evict-Evicted_example = evict-Evicted small 22 small-IsValid

fail_closed_example :
    IsCounted "c" 22 small (fail small "c" 22)
    ⊎ (IsFull "c" 22 small (fail small "c" 22) × DeniesUnknown 32 (fail small "c" 22))
fail_closed_example = fail_closed small "c" 22

locks_at_max_example :
    let before = fail_each (new 3 5 10) "a" (100 ∷ 102 ∷ []) in
    ((allow before "a" 105).0 ≡ true)
    × (105 < 114 → allow (fail before "a" 104) "a" 105 ≡ (false, 9))
unfolding new lookup
locks_at_max_example =
    locks_at_max (new 3 5 10) "a" 100 104 105 (102 ∷ []) refl (omega arith) (omega arith, tt)
      (omega arith) refl
