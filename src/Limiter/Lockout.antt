-- ===== src/Limiter/Lockout.antt =====
-- internal/shared/ratelimit/ratelimit.go: an active lockout, under any calls for other keys.
use nur_proxy.Base.{
  ℕ, ◌+◌, ◌≤◌, ◌<◌, ◌≡◌, false, String, string_eq, eq_iff, none, some, List, [], ◌∷◌, ◌==◌, leb,
  length, All, arith, Bool-cases, Option-cases, inl, inr,
}
use nur_proxy.Dict.{lookup}
use nur_proxy.Dict.Laws.{lookup-insert, lookup-delete, lookup-keep}
use nur_proxy.Limiter.{
  Entry, Limiter, allow, is_active, prune_locked, oldest_unlocked, prune_if_full, evict_if_full,
  make_room, blank, evict_oldest_unlocked_locked, admit, count_failure, count_on, fail, reset,
}
use nur_proxy.Limiter.Oldest.{oldest_unlocked-IsOldest}
use nur_proxy.Limiter.Invariant.{
  Call, failed, succeeded, perform, perform_all, IsValid, perform-IsValid, prune_if_full-IsValid,
  perform-lockout,
}

-- The key is locked out until `t` at least.
abbrev pub IsLocked : String → ℕ → Limiter → Type 0
IsLocked key t l = (e : Entry) × (lookup key l.entries ≡ some e) × (t ≤ e.locked_until)

pub allow-IsLocked :
    (key : String) (t now : ℕ) (l : Limiter)
    → IsLocked key t l
    → now < t
    → (allow l key now).0 ≡ false
unfolding allow
allow-IsLocked key t now l (e, known, until) h = rw (known, allow) (ground arith)

module _ (key : String) (t now : ℕ) (early : now < t) where
  prune_if_full-IsLocked : (l : Limiter) → IsLocked key t l → IsLocked key t (prune_if_full l now)
  unfolding prune_if_full prune_locked
  prune_if_full-IsLocked l (e, known, until) =
      elim (Bool-cases (leb l.max_keys (length l.entries))) [
        | inr free ↦ rw (free, prune_if_full) (e, known, until)
        | inl full ↦
            rw (full, prune_if_full)
              (e, lookup-keep (is_active l.window now) key e l.entries (ground arith) known, until)
      ]

  evict-IsLocked :
      (l : Limiter)
      → IsValid l
      → IsLocked key t l
      → IsLocked key t (evict_oldest_unlocked_locked l now).0
  unfolding evict_oldest_unlocked_locked
  evict-IsLocked l v (e, known, until) = elim (Option-cases (oldest_unlocked now none l.entries)) [
    | inl all_locked ↦ rw (all_locked, evict_oldest_unlocked_locked) (e, known, until)
    | inr (x, found) ↦
        let o = oldest_unlocked-IsOldest now l.entries x v.distinct found in
        rw (found, evict_oldest_unlocked_locked)
          (
            e,
            ground (
              arith,
              lookup-delete key x.0 l.entries,
              eq_iff x.0 key,
              o.found,
              o.unlocked,
              known,
            ),
            until,
          )
  ]

  make_room-IsLocked :
      (l : Limiter) → IsValid l → IsLocked key t l → IsLocked key t (make_room l now).0
  unfolding make_room evict_if_full
  make_room-IsLocked l v k =
      let p = prune_if_full l now in
      let kp = prune_if_full-IsLocked l k in
      elim (Bool-cases (leb p.max_keys (length p.entries))) [
        | inr free ↦ rw (free, make_room, evict_if_full) kp
        | inl full ↦
            rw (full, make_room, evict_if_full)
              (evict-IsLocked p (prune_if_full-IsValid l now v) kp)
      ]

  admit-IsLocked :
      (l : Limiter) (k : String)
      → IsValid l
      → (k == key) ≡ false
      → IsLocked key t l
      → IsLocked key t (admit l k now).0
  unfolding admit
  admit-IsLocked l k v other locked =
      let (q, freed) = make_room l now in
      let (e, known, until) = make_room-IsLocked l v locked in
      elim (Bool-cases freed) [
        | inr refused ↦ rw (refused, admit) (e, known, until)
        | inl room ↦
            rw (room, admit) (e, ground (arith, lookup-insert key k (blank now) q.entries), until)
      ]

  count_on-IsLocked_ne :
      (l : Limiter) (k : String)
      → (k == key) ≡ false
      → IsLocked key t l
      → IsLocked key t (count_on l k now)
  unfolding count_on
  count_on-IsLocked_ne l k other (e, known, until) = elim (Option-cases (lookup k l.entries)) [
    | inl unknown ↦ rw (unknown, count_on) (e, known, until)
    | inr (w, found) ↦
        rw (found, count_on)
          (e, ground (arith, lookup-insert key k (count_failure l w now) l.entries), until)
  ]

  -- A failure of another key.
  fail-IsLocked_ne :
      (l : Limiter) (k : String)
      → IsValid l
      → (k == key) ≡ false
      → IsLocked key t l
      → IsLocked key t (fail l k now)
  unfolding fail
  fail-IsLocked_ne l k v other locked = elim (Option-cases (lookup k l.entries)) [
    | inr (w, found) ↦ rw (found, fail) (count_on-IsLocked_ne l k other locked)
    | inl unknown ↦
        let admitted_locked = admit-IsLocked l k v other locked in
        elim (Bool-cases (admit l k now).1) [
          | inl admitted ↦
              rw (unknown, fail) (rw admitted (count_on-IsLocked_ne _ k other admitted_locked))
          | inr refused ↦ rw (unknown, fail) (rw refused admitted_locked)
        ]
  ]

  -- A further failure of the key itself.
  fail-IsLocked_self :
      (l : Limiter) → t ≤ now + l.lockout → IsLocked key t l → IsLocked key t (fail l key now)
  unfolding fail count_on count_failure
  fail-IsLocked_self l longer (e, known, until) =
      rw (known, fail)
        (rw (known, count_on)
          (
            count_failure l e now,
            ground (arith, lookup-insert key key (count_failure l e now) l.entries, eq_iff key key),
            ground arith,
          ))

-- A call at a time before `t` that is not the key's own success. A failure of the key itself
-- comes at a time from which a new lockout lasts to `t`.
abbrev pub Spares : String → ℕ → ℕ → Call → Type 0
Spares key t lockout (failed k now) = (now < t) × (k ≡ key → t ≤ now + lockout)
Spares key t lockout (succeeded k) = (k == key) ≡ false

perform-IsLocked :
    (key : String) (t : ℕ) (l : Limiter) (c : Call)
    → IsValid l
    → Spares key t l.lockout c
    → IsLocked key t l
    → IsLocked key t (perform l c)
unfolding perform reset
perform-IsLocked key t l (failed k now) v (early, own) locked = elim (Bool-cases (k == key)) [
  | inr other ↦ fail-IsLocked_ne key t now early l k v other locked
  | inl same ↦
      let e = (eq_iff k key).0 same in rw e (fail-IsLocked_self key t now early l (own e) locked)
]
perform-IsLocked key t l (succeeded k) v other (e, known, until) =
    (e, ground (arith, lookup-delete key k l.entries), until)

pub perform_all-IsLocked :
    (key : String) (t : ℕ) (l : Limiter) (cs : List Call)
    → IsValid l
    → All (Spares key t l.lockout) cs
    → IsLocked key t l
    → IsLocked key t (perform_all l cs)
unfolding perform_all
perform_all-IsLocked key t l [] v spares locked = locked
perform_all-IsLocked key t l (c ∷ cs) v (here, later) locked =
    perform_all-IsLocked key t (perform l c) cs (perform-IsValid l c v)
      (rw (perform-lockout l c) later) (perform-IsLocked key t l c v here locked)

-- From a valid table, a key that is locked out until t is denied at every time before t, whatever
-- failures and successes of other keys come in between, in any number and in any order, at times
-- before t; its own failures may come too, at times from which a new lockout lasts to t.
pub flood_keeps_lockout :
    (key : String) (t now : ℕ) (l : Limiter) (cs : List Call)
    → IsValid l
    → IsLocked key t l
    → All (Spares key t l.lockout) cs
    → now < t
    → (allow (perform_all l cs) key now).0 ≡ false
flood_keeps_lockout key t now l cs v locked spares early =
    allow-IsLocked key t now (perform_all l cs) (perform_all-IsLocked key t l cs v spares locked)
      early
