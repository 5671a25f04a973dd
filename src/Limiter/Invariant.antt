-- ===== src/Limiter/Invariant.antt =====
-- internal/shared/ratelimit/ratelimit.go: sequences of calls, and what each call does to the table.
use nur_proxy.Base.{
  refl, Bool-cases, ℕ, ◌≤◌, ◌<◌, ◌≡◌, true, String, string_eq, none, List, [], ◌∷◌, leb, length,
  arith, Option-cases, inl, inr,
}
use nur_proxy.Dict.{lookup, Distinct}
use nur_proxy.Dict.Laws.{
  length-insert, length-insert_old, insert-Distinct, length-delete, length-delete_old, length-keep,
  delete-Distinct, keep-Distinct,
}
use nur_proxy.Limiter.{
  admit, count_on, count_failure, make_room, prune_if_full, evict_if_full, blank, Limiter, new,
  is_active, prune_locked, oldest_unlocked, evict_oldest_unlocked_locked, fail, reset,
}
use nur_proxy.Limiter.Oldest.{oldest_unlocked-IsOldest}

-- A call that changes the limiter, with the time that it reads.
pub data Call : Type 0 where
  failed : String → ℕ → Call
  succeeded : String → Call

unfoldable pub perform : Limiter → Call → Limiter
perform l (failed k now) = fail l k now
perform l (succeeded k) = reset l k

unfoldable pub perform_all : Limiter → List Call → Limiter
perform_all l [] = l
perform_all l (c ∷ cs) = perform_all (perform l c) cs

pub record IsValid (l : Limiter) : Type 0 where
  pub distinct : Distinct l.entries
  pub bounded : length l.entries ≤ l.max_keys

pub new-IsValid : (max window lockout : ℕ) → IsValid (new max window lockout)
unfolding new
new-IsValid max window lockout = record { distinct = tt; bounded = omega arith }

pub prune_locked-IsValid : (l : Limiter) (now : ℕ) → IsValid l → IsValid (prune_locked l now)
unfolding prune_locked
prune_locked-IsValid l now v = record {
  distinct = keep-Distinct (is_active l.window now) l.entries v.distinct;
  bounded = omega (arith, length-keep (is_active l.window now) l.entries, v.bounded);
}

-- After an eviction a slot is free.
pub evict-IsValid :
    (l : Limiter) (now : ℕ) → IsValid l → IsValid (evict_oldest_unlocked_locked l now).0
unfolding evict_oldest_unlocked_locked
evict-IsValid l now v = elim (Option-cases (oldest_unlocked now none l.entries)) [
  | inl all_locked ↦ rw (all_locked, evict_oldest_unlocked_locked) v
  | inr (x, found) ↦
      rw (found, evict_oldest_unlocked_locked)
        (record {
          distinct = delete-Distinct x.0 l.entries v.distinct;
          bounded = omega (arith, length-delete x.0 l.entries, v.bounded);
        })
]

pub evict_room :
    (l : Limiter) (now : ℕ)
    → IsValid l
    → (evict_oldest_unlocked_locked l now).1 ≡ true
    → length (evict_oldest_unlocked_locked l now).0.entries < l.max_keys
unfolding evict_oldest_unlocked_locked
evict_room l now v e = elim (Option-cases (oldest_unlocked now none l.entries)) [
  | inl all_locked ↦ absurd (ground arith)
  | inr (x, found) ↦
      let o = oldest_unlocked-IsOldest now l.entries x v.distinct found in
      ground (arith, length-delete_old x.0 x.1 l.entries o.found, v.bounded)
]

-- The settings and the saturation mark are the same.
pub record SameSettings (l q : Limiter) : Type 0 where
  pub max : q.max ≡ l.max
  pub window : q.window ≡ l.window
  pub lockout : q.lockout ≡ l.lockout
  pub max_keys : q.max_keys ≡ l.max_keys

pub make_room-SameSettings : (l : Limiter) (now : ℕ) → SameSettings l (make_room l now).0
unfolding make_room prune_if_full evict_if_full prune_locked evict_oldest_unlocked_locked
make_room-SameSettings l now = record {
  max = ground arith;
  window = ground arith;
  lockout = ground arith;
  max_keys = ground arith;
}

pub prune_if_full-IsValid : (l : Limiter) (now : ℕ) → IsValid l → IsValid (prune_if_full l now)
unfolding prune_if_full
prune_if_full-IsValid l now v = elim (Bool-cases (leb l.max_keys (length l.entries))) [
  | inl full ↦ rw (full, prune_if_full) (prune_locked-IsValid l now v)
  | inr free ↦ rw (free, prune_if_full) v
]

evict_if_full-IsValid : (l : Limiter) (now : ℕ) → IsValid l → IsValid (evict_if_full l now).0
unfolding evict_if_full
evict_if_full-IsValid l now v = elim (Bool-cases (leb l.max_keys (length l.entries))) [
  | inl full ↦ rw (full, evict_if_full) (evict-IsValid l now v)
  | inr free ↦ rw (free, evict_if_full) v
]

evict_if_full_room :
    (l : Limiter) (now : ℕ)
    → IsValid l
    → (evict_if_full l now).1 ≡ true
    → length (evict_if_full l now).0.entries < l.max_keys
unfolding evict_if_full
evict_if_full_room l now v h = ground (arith, evict_room l now v)

pub make_room-IsValid : (l : Limiter) (now : ℕ) → IsValid l → IsValid (make_room l now).0
unfolding make_room
make_room-IsValid l now v = evict_if_full-IsValid _ now (prune_if_full-IsValid l now v)

pub make_room_room :
    (l : Limiter) (now : ℕ)
    → IsValid l
    → (make_room l now).1 ≡ true
    → length (make_room l now).0.entries < (make_room l now).0.max_keys
unfolding make_room
make_room_room l now v h =
    let p = prune_if_full l now in
    let same = make_room-SameSettings l now in
    let same_p : p.max_keys ≡ l.max_keys = unfold prune_if_full prune_locked in ground arith in
    ground
      (arith, evict_if_full_room p now (prune_if_full-IsValid l now v) h, same.max_keys, same_p)

pub admit-IsValid : (l : Limiter) (key : String) (now : ℕ) → IsValid l → IsValid (admit l key now).0
unfolding admit
admit-IsValid l key now v =
    let (q, freed) = make_room l now in
    let w = make_room-IsValid l now v in
    elim (Bool-cases freed) [
      | inl room ↦
          rw (room, admit)
            (record {
              distinct = insert-Distinct key (blank now) q.entries w.distinct;
              bounded =
                  omega
                    (arith, length-insert key (blank now) q.entries, make_room_room l now v room);
            })
      | inr none_free ↦
          rw (none_free, admit) (record { distinct = w.distinct; bounded = w.bounded })
    ]

pub count_on-IsValid :
    (l : Limiter) (key : String) (now : ℕ) → IsValid l → IsValid (count_on l key now)
unfolding count_on
count_on-IsValid l key now v = elim (Option-cases (lookup key l.entries)) [
  | inl unknown ↦ rw (unknown, count_on) v
  | inr (e, known) ↦
      rw (known, count_on)
        (record {
          distinct = insert-Distinct key (count_failure l e now) l.entries v.distinct;
          bounded =
              omega
                (arith, length-insert_old key (count_failure l e now) e l.entries known, v.bounded);
        })
]

pub fail-IsValid : (l : Limiter) (key : String) (now : ℕ) → IsValid l → IsValid (fail l key now)
unfolding fail
fail-IsValid l key now v = elim (Option-cases (lookup key l.entries)) [
  | inr (e, known) ↦ rw (known, fail) (count_on-IsValid l key now v)
  | inl unknown ↦
      let w = admit-IsValid l key now v in
      elim (Bool-cases (admit l key now).1) [
        | inl admitted ↦ rw (unknown, fail) (rw admitted (count_on-IsValid _ key now w))
        | inr refused ↦ rw (unknown, fail) (rw refused w)
      ]
]

pub perform-IsValid : (l : Limiter) (c : Call) → IsValid l → IsValid (perform l c)
unfolding perform reset
perform-IsValid l (failed k now) v = fail-IsValid l k now v
perform-IsValid l (succeeded k) v = record {
  distinct = delete-Distinct k l.entries v.distinct;
  bounded = omega (arith, length-delete k l.entries, v.bounded);
}

pub perform_all-IsValid : (l : Limiter) (cs : List Call) → IsValid l → IsValid (perform_all l cs)
unfolding perform_all
perform_all-IsValid l [] v = v
perform_all-IsValid l (c ∷ cs) v = perform_all-IsValid (perform l c) cs (perform-IsValid l c v)

count_on_settings : (l : Limiter) (key : String) (now : ℕ) → SameSettings l (count_on l key now)
unfolding count_on
count_on_settings l key now = record {
  max = ground arith;
  window = ground arith;
  lockout = ground arith;
  max_keys = ground arith;
}

pub admit_settings : (l : Limiter) (key : String) (now : ℕ) → SameSettings l (admit l key now).0
unfolding admit
admit_settings l key now =
    let s = make_room-SameSettings l now in
    record {
      max = ground (arith, s.max);
      window = ground (arith, s.window);
      lockout = ground (arith, s.lockout);
      max_keys = ground (arith, s.max_keys);
    }

pub fail_settings : (l : Limiter) (key : String) (now : ℕ) → SameSettings l (fail l key now)
unfolding fail
fail_settings l key now =
    let s = admit_settings l key now in
    let c = count_on_settings (admit l key now).0 key now in
    let d = count_on_settings l key now in
    record {
      max = ground (arith, s.max, c.max, d.max);
      window = ground (arith, s.window, c.window, d.window);
      lockout = ground (arith, s.lockout, c.lockout, d.lockout);
      max_keys = ground (arith, s.max_keys, c.max_keys, d.max_keys);
    }

pub perform-lockout : (l : Limiter) (c : Call) → (perform l c).lockout ≡ l.lockout
unfolding perform reset
perform-lockout l (failed k now) = (fail_settings l k now).lockout
perform-lockout l (succeeded k) = refl
