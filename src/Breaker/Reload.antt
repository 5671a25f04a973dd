-- ===== src/Breaker/Reload.antt =====
-- internal/agent/recovery/breaker.go: reading back what was written.
use nur_proxy.Base.{
  ℕ, ◌≤◌, ◌≡◌, ◌⊎◌, refl, true, String, none, some, List, [], ◌∷◌, inl, inr, length, arith,
  Bool-cases, Option-cases, pair_eq, string_eq, nat_beq, sym,
}
use nur_proxy.Dict.{Dict, lookup, insert}
use nur_proxy.Dict.Laws.{AllEntries}
use nur_proxy.RecoveryModel.Action.{action_eq}
use nur_proxy.RecoveryModel.RequestSource.{request_source_eq}
use nur_proxy.RecoveryModel.OperationState.{operation_state_eq}
use nur_proxy.Base.{ap, ◌∙◌, ◌↔◌}
use nur_proxy.Dict.{Distinct}
use nur_proxy.Dict.Laws.{lookup-insert_absent, lookup-shift}
use nur_proxy.Breaker.{
  load, breaker_failures, load_entries, valid_failures, valid_key, BreakerState, BreakerKey,
}
use nur_proxy.Breaker.Invariant.{Between, IsState, AllStates}

-- What the checks of `NewPersistentBreaker` ask of an entry.
abbrev pub Reloadable : (String → String) → BreakerKey → BreakerState → Type 0
Reloadable sanitize key s =
    (valid_key sanitize key ≡ true) × ((s.opened_at ≡ 0) ⊎ (length s.failures ≡ breaker_failures))

Between-valid :
    (low high : ℕ) (sanitize : String → String) (fs : List ℕ)
    → Between low high fs
    → (previous : ℕ) → previous ≤ low
    → 1 ≤ low
    → valid_failures sanitize previous fs ≡ true
unfolding valid_failures
Between-valid low high sanitize [] b previous h one = refl
Between-valid low high sanitize (f ∷ fs) (p, q, b) previous h one =
    ground (arith, Between-valid f high sanitize fs b f (omega arith) (omega arith))

module _ (sanitize : String → String) where
  abbrev pub AllReloadable : Dict BreakerKey BreakerState → Type 0
  AllReloadable = AllEntries (Reloadable sanitize)

  -- One entry that is accepted.
  entry_accepted :
      (states : Dict BreakerKey BreakerState) (key : BreakerKey) (s : BreakerState)
      (entries : Dict BreakerKey BreakerState)
      → IsState s
      → lookup key states ≡ none
      → Reloadable sanitize key s
      → load_entries sanitize states ((key, s) ∷ entries)
        ≡ load_entries sanitize (insert key s states) entries
  unfolding load_entries
  entry_accepted states key s entries w new (ok, open_full) =
      let few = w.few in
      let ordered =
        Between-valid 1 w.last sanitize s.failures w.ordered 0 (omega arith) (omega arith) in
      ground (arith, open_full)

  entry_refused :
      (states : Dict BreakerKey BreakerState) (key : BreakerKey) (s : BreakerState)
      (entries : Dict BreakerKey BreakerState)
      → IsState s
      → (load_entries sanitize states ((key, s) ∷ entries)).0 ≡ none
      → Reloadable sanitize key s
  unfolding load_entries
  entry_refused states key s entries w h =
      let few = w.few in
      let ordered =
        Between-valid 1 w.last sanitize s.failures w.ordered 0 (omega arith) (omega arith) in
      (
        ground arith,
        elim (Bool-cases (nat_beq s.opened_at 0)) [
          | inl shut ↦ inl (ground arith)
          | inr opened ↦ inr (ground arith)
        ],
      )

  rest_accepted :
      (states : Dict BreakerKey BreakerState) (key : BreakerKey) (s : BreakerState)
      (entries : Dict BreakerKey BreakerState)
      → IsState s
      → lookup key states ≡ none
      → (load_entries sanitize states ((key, s) ∷ entries)).0 ≡ none
      → (load_entries sanitize (insert key s states) entries).0 ≡ none
  rest_accepted states key s entries w new h =
      ap (λ r. r.0)
        (sym (entry_accepted states key s entries w new (entry_refused states key s entries w h)))
      ∙ h

  -- No key of the entries is among the states already loaded.
  abbrev Fresh : Dict BreakerKey BreakerState → Dict BreakerKey BreakerState → Type 0
  Fresh states = AllEntries (λ k s. lookup k states ≡ none)

  insert-Fresh :
      (key : BreakerKey) (s : BreakerState) (states m : Dict BreakerKey BreakerState)
      → lookup key m ≡ none
      → Fresh states m
      → Fresh (insert key s states) m
  unfolding lookup
  insert-Fresh key s states [] absent f = tt
  insert-Fresh key s states ((k, v) ∷ m) absent (p, f) = (
    lookup-insert_absent k key s v states m absent p,
    insert-Fresh key s states m (ground arith) f,
  )

  load-none :
      (m states : Dict BreakerKey BreakerState)
      → AllStates m
      → Distinct m
      → Fresh states m
      → (load_entries sanitize states m).0 ≡ none
      → AllReloadable m
  load-none [] states w d f h = tt
  load-none ((k, s) ∷ m) states (w, ws) (absent, d) (new, f) h = (
    entry_refused states k s m w h,
    load-none m (insert k s states) ws d (insert-Fresh k s states m absent f)
        (rest_accepted states k s m w new h),
  )

  none-load :
      (m states : Dict BreakerKey BreakerState)
      → AllStates m
      → Distinct m
      → Fresh states m
      → AllReloadable m
      → (load_entries sanitize states m).0 ≡ none
  unfolding load_entries
  none-load [] states w d f h = refl
  none-load ((k, s) ∷ m) states (w, ws) (absent, d) (new, f) (r, rs) =
      ap (λ r. r.0) (entry_accepted states k s m w new r)
      ∙ none-load m (insert k s states) ws d (insert-Fresh k s states m absent f) rs

  lookup-load :
      (key : BreakerKey) (m states : Dict BreakerKey BreakerState)
      → AllStates m
      → Distinct m
      → Fresh states m
      → AllReloadable m
      → lookup key (load_entries sanitize states m).1
        ≡ elim (lookup key m) [ some s ↦ some s | none ↦ lookup key states ]
  unfolding load_entries lookup
  lookup-load key [] states w d f h = refl
  lookup-load key ((k, s) ∷ m) states (w, ws) (absent, d) (new, f) (r, rs) =
      let here = ap (λ r. lookup key r.1) (entry_accepted states k s m w new r) in
      let rest =
        lookup-load key m (insert k s states) ws d (insert-Fresh k s states m absent f) rs in
      here ∙ rest ∙ lookup-shift key k s states m absent

  Fresh-nothing : (m : Dict BreakerKey BreakerState) → Fresh [] m
  unfolding lookup
  Fresh-nothing [] = tt
  Fresh-nothing ((k, s) ∷ m) = (refl, Fresh-nothing m)

  load_here :
      (m : Dict BreakerKey BreakerState)
      → length m ≤ 10000
      → load sanitize 1 m ≡ load_entries sanitize [] m
  unfolding load
  load_here m few = ground arith

  load_few : (m : Dict BreakerKey BreakerState) → (load sanitize 1 m).0 ≡ none → length m ≤ 10000
  unfolding load
  load_few m h = ground arith

  -- The file that holds the states of a breaker, of keys that differ and with at most three failures
  -- in order, is accepted when the breaker is started again exactly if there are at most ten
  -- thousand, every key is valid, and every state with an opening time holds three failures.
  pub reload_iff :
      (m : Dict BreakerKey BreakerState)
      → AllStates m
      → Distinct m
      → ((load sanitize 1 m).0 ≡ none) ↔ ((length m ≤ 10000) × AllReloadable m)
  reload_iff m w d = (
    λ h.
        let few = load_few m h in
        (few, load-none m [] w d (Fresh-nothing m) (ap (λ r. r.0) (sym (load_here m few)) ∙ h)),
    λ (few, r). ap (λ r. r.0) (load_here m few) ∙ none-load m [] w d (Fresh-nothing m) r,
  )

  -- If a file with the states of a breaker, of keys that differ and with at most three failures in
  -- order, is accepted, the states that are loaded are the states that were written.
  pub reload_same :
      (m : Dict BreakerKey BreakerState) (key : BreakerKey)
      → AllStates m
      → Distinct m
      → (load sanitize 1 m).0 ≡ none
      → lookup key (load sanitize 1 m).1 ≡ lookup key m
  unfolding lookup
  reload_same m key w d h =
      let (few, r) = (reload_iff m w d).0 h in
      ap (λ r. lookup key r.1) (load_here m few)
      ∙ lookup-load key m [] w d (Fresh-nothing m) r
      ∙ same
    where
      same : elim (lookup key m) [ some s ↦ some s | none ↦ lookup key [] ] ≡ lookup key m
      same = elim (Option-cases (lookup key m)) [ inl p ↦ ground arith | inr (s, p) ↦ ground arith ]
