-- ===== src/History/Walk.antt =====
-- internal/orchestrator/db/recovery.go: what a stored history of steps says about the operation.
use nur_proxy.Base.{◌↔◌, ◌≡◌, refl, true, none, List, [], ◌∷◌, arith}
use mathlib.Core.List.{map}
use mathlib.Core.Path.{ap, sym, subst}
use nur_proxy.RecoveryModel.OperationState.{OperationState, operation_state_eq}
use nur_proxy.RecoveryModel.Report.{OperationReport, Step}
use nur_proxy.History.Graph.{◌⟶◌, legal_operation_transition, legal_iff}
use nur_proxy.History.Reports.{
  initial_state, validate_operation_history, validate_history, validate_successors,
}

-- The states of the steps from one state on, along the diagram, to the last one.
pub data Walk : OperationState → List OperationState → OperationState → Type 0 where
  end : {s : OperationState} → Walk s [] s
  move :
      {s t u : OperationState} {ts : List OperationState} → s ⟶ t → Walk t ts u → Walk s (t ∷ ts) u

abbrev pub states : List Step → List OperationState
states = map (λ s. s.state)

successors_sound :
    (final last : OperationState) (steps : List Step)
    → validate_successors final last steps ≡ none
    → Walk last (states steps) final
unfolding validate_successors
successors_sound final last [] h =
    subst (λ u. Walk last [] u) ((operation_state_eq.beq_iff last final).0 (ground arith)) end
successors_sound final last (s ∷ steps) h =
    move ((legal_iff last s.state).0 (ground arith))
      (successors_sound final s.state steps (ground arith))

successors_complete :
    (steps : List Step) {final last : OperationState} {ts : List OperationState}
    → Walk last ts final
    → ts ≡ states steps
    → validate_successors final last steps ≡ none
unfolding validate_successors
successors_complete [] {final} end e = rw ((operation_state_eq.beq_iff final final).1 refl)
successors_complete [] (move m w) e = cc
successors_complete (s ∷ steps) end e = cc
successors_complete (s ∷ steps) {final} {last} (move {t} {ts} m w) e =
    let same : t ≡ s.state = cc in
    let rest : ts ≡ states steps = cc in
    let legal : legal_operation_transition last s.state ≡ true =
      (legal_iff last s.state).1 (subst (λ u. last ⟶ u) same m) in
    rw (legal, validate_successors)
      (successors_complete steps (subst (λ u. Walk u ts final) same w) rest)

-- A report's history.
abbrev pub HasWalk : OperationReport → Type 0
HasWalk r =
    (rest : List OperationState) × (states r.steps ≡ initial_state r.source ∷ rest)
    × Walk (initial_state r.source) rest r.state

no_history : (r : OperationReport) → ¬ (validate_history r [] ≡ none)
unfolding validate_history
no_history r h = cc

history_first :
    (r : OperationReport) (s : Step) (steps : List Step)
    → validate_history r (s ∷ steps) ≡ none
    → s.state ≡ initial_state r.source
unfolding validate_history
history_first r s steps h =
    (operation_state_eq.beq_iff s.state (initial_state r.source)).0 (ground arith)

history_rest :
    (r : OperationReport) (s : Step) (steps : List Step)
    → validate_history r (s ∷ steps) ≡ none
    → Walk s.state (states steps) r.state
unfolding validate_history
history_rest r s steps h = successors_sound r.state s.state steps (ground arith)

Walk-from :
    (first initial final : OperationState) (ts : List OperationState)
    → first ≡ initial
    → Walk first ts final
    → (rest : List OperationState) × (first ∷ ts ≡ initial ∷ rest) × Walk initial rest final
Walk-from first initial final ts e w = (ts, ap (λ u. u ∷ ts) e, subst (λ u. Walk u ts final) e w)

history_sound :
    (r : OperationReport) (steps : List Step)
    → validate_history r steps ≡ none
    → (rest : List OperationState) × (states steps ≡ initial_state r.source ∷ rest)
      × Walk (initial_state r.source) rest r.state
history_sound r [] h = absurd (no_history r h)
history_sound r (s ∷ steps) h =
    Walk-from s.state (initial_state r.source) r.state (states steps) (history_first r s steps h)
      (history_rest r s steps h)

history_complete :
    (r : OperationReport) (steps : List Step) (rest : List OperationState)
    → states steps ≡ initial_state r.source ∷ rest
    → Walk (initial_state r.source) rest r.state
    → validate_history r steps ≡ none
unfolding validate_history
history_complete r [] rest e w = absurd cc
history_complete r (s ∷ steps) rest e w =
    let same : s.state ≡ initial_state r.source = cc in
    let tail : rest ≡ states steps = cc in
    rw ((operation_state_eq.beq_iff s.state (initial_state r.source)).1 same, validate_history)
      (successors_complete steps (subst (λ u. Walk u rest r.state) (sym same) w) tail)

-- A history is accepted exactly when its steps start in the state that the source of the operation
-- calls for, each follows the one before by an edge of the diagram, and the last is the state of
-- the report.
pub history_iff : (r : OperationReport) → (validate_operation_history r ≡ none) ↔ HasWalk r
unfolding validate_operation_history
history_iff r = (history_sound r r.steps, λ w. history_complete r r.steps w.0 w.1 w.2)
