-- ===== src/Domain/State.antt =====
-- internal/domain/types.go and state.go: the states of a post job and the table of moves.
pub mod Paths
use nomadposting.Prelude.{
  ◌≡◌, refl, ◌↔◌, Bool, true, false, ◌||◌, List, [], ◌∷◌, Result, ok, err, if◌then◌else◌, arith,
}
use nomadposting.Errors.{Error, invalid_transition}

pub data JobState : Type 0 where
  draft approved routing publishing complete partial failed unknown cancelled : JobState

pub JobState-discrete : Discrete JobState
JobState-discrete = hlevel

-- `==` on states.
abbrev pub state_eq : JobState → JobState → Bool
state_eq draft draft = true
state_eq approved approved = true
state_eq routing routing = true
state_eq publishing publishing = true
state_eq complete complete = true
state_eq partial partial = true
state_eq failed failed = true
state_eq unknown unknown = true
state_eq cancelled cancelled = true
state_eq _ _ = false

pub state_eq_iff : (s t : JobState) → (state_eq s t ≡ true) ↔ (s ≡ t)
state_eq_iff s t = ground arith

-- The rows of the map `transitions`; a state with no row has none.
unfoldable pub transitions : JobState → List JobState
transitions draft = approved ∷ cancelled ∷ []
transitions approved = routing ∷ cancelled ∷ []
transitions routing = publishing ∷ failed ∷ cancelled ∷ []
transitions publishing = complete ∷ partial ∷ failed ∷ unknown ∷ []
transitions partial = publishing ∷ complete ∷ failed ∷ unknown ∷ []
transitions failed = routing ∷ cancelled ∷ []
transitions unknown = complete ∷ failed ∷ partial ∷ []
transitions _ = []

-- Whether a row of the map holds a key.
has_state : List JobState → JobState → Bool
has_state [] to = false
has_state (s ∷ row) to = state_eq s to || has_state row to

unfoldable pub can_transition : JobState → JobState → Bool
unfolding transitions has_state
can_transition from to = has_state (transitions from) to

unfoldable pub validate_transition : JobState → JobState → Result Error (Unit {0})
validate_transition from to = if can_transition from to then ok tt else err invalid_transition
