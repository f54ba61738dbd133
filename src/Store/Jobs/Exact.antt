-- ===== src/Store/Jobs/Exact.antt =====
-- What `TransitionJob` and `DestroyJobContent` do to the table, in every case.
use nomadposting.Prelude.{
  ◌≡◌, refl, ◌∙◌, ◌≢◌, inl, inr, true, false, [], some, Str, str_eq, str_eq_refl, ◌==◌, Result, ok,
  err, if◌then◌else◌, arith, Bool-cases,
}
use nomadposting.Errors.{Error, database_error, not_found, invalid_transition}
use nomadposting.Clock.{Time}
use nomadposting.Domain.State.{
  JobState, state_eq, state_eq_iff, can_transition, validate_transition,
}
use nomadposting.Store.Tables.{JobRow, World, fault_now}
use nomadposting.Store.Jobs.{find_row, move_set, destroy_set, transition_job, destroy_job_content}
use nomadposting.Store.Jobs.Changes.{MovedTo, move_set-MovedTo}
use nomadposting.Store.Jobs.Update.{
  UniqueIds, Outcome, updated, not_updated, faulted, update_one-Outcome,
}

-- The ends of a transition.
pub data Swap {S : Type 0} (id : Str) (from to : JobState) (at : Time) (w w' : World S)
    (answer : Result Error (Unit {0})) : Type 0 where
  refused :
      can_transition from to ≡ false
      → answer ≡ err invalid_transition
      → w'.db ≡ w.db
      → Swap id from to at w w' answer
  swapped :
      (r r' : JobRow)
      → can_transition from to ≡ true
      → find_row id w.db.jobs ≡ some r
      → r.state ≡ from
      → MovedTo to at r r'
      → answer ≡ ok tt
      → ((j : Str)
          → find_row j w'.db.jobs ≡ (if str_eq id j then some r' else find_row j w.db.jobs))
      → w'.db ≡ record w.db { jobs = w'.db.jobs }
      → Swap id from to at w w' answer
  elsewhere :
      can_transition from to ≡ true
      → ((r : JobRow) → find_row id w.db.jobs ≡ some r → r.state ≢ from)
      → answer ≡ err not_found
      → w'.db ≡ w.db
      → Swap id from to at w w' answer
  broken :
      fault_now w.faults ≡ true
      → answer ≡ err database_error
      → w'.db ≡ w.db
      → Swap id from to at w w' answer

Outcome-Swap :
    {S : Type 0} (id : Str) (from to : JobState) (at : Time) (w w' : World S)
    (answer : Result Error (Unit {0}))
    → can_transition from to ≡ true
    → Outcome id (λ r. state_eq r.state from) (move_set to at) (λ r. refl) w w' answer
    → Swap id from to at w w' answer
Outcome-Swap id from to at w w' answer a_move (updated r found here done look _ rest) =
    swapped r (move_set to at r) a_move found ((state_eq_iff r.state from).0 here)
      (move_set-MovedTo to at r) done look rest
Outcome-Swap id from to at w w' answer a_move (not_updated failed missing same) =
    elsewhere a_move
      (λ r found here. absurd (ground (arith, missing r found, state_eq_iff r.state from))) failed
      same
Outcome-Swap id from to at w w' answer a_move (faulted failed fault same) = broken fault failed same

-- `TransitionJob` is a compare and swap. On a store whose IDs are unique one of four things happens:
-- the move is not in the table and is refused, and nothing changes; the job is found in the
-- expected state and it alone changes, its state to the new one, the time of its last update to the
-- given one, and no other column; no job under the ID is in the expected state, the answer is
-- `ErrNotFound` and nothing changes; or the database fails and nothing changes.
pub transition_job_swaps :
    {S : Type 0} (id : Str) (from to : JobState) (at : Time) (w : World S)
    → UniqueIds w.db
    → Swap id from to at w (transition_job id from to at w).1 (transition_job id from to at w).0
unfolding transition_job validate_transition
transition_job_swaps id from to at w u = elim (Bool-cases (can_transition from to)) [
  | inr no_move ↦ refused no_move (rw no_move refl) (rw no_move refl)
  | inl a_move ↦ Outcome-Swap id from to at w _ _ a_move (
      rw a_move
        (update_one-Outcome id (λ r. state_eq r.state from) (move_set to at) (λ r. refl) w u))
]

-- When `DestroyJobContent` succeeds, on a store whose IDs are unique, the job was there with its
-- content, and it is there still with no content, marked as destroyed, in the state it had; every
-- other job is as before.
pub destroy_job_content_erases :
    {S : Type 0} (id : Str) (at : Time) (w : World S)
    → UniqueIds w.db
    → (destroy_job_content id at w).0 ≡ ok tt
    → (r r' : JobRow) × (find_row id w.db.jobs ≡ some r)
      × (r.content_destroyed ≡ 0)
      × (find_row id (destroy_job_content id at w).1.db.jobs ≡ some r')
      × (r'.encrypted_content ≡ [])
      × (r'.content_destroyed ≡ 1)
      × (r'.state ≡ r.state)
      × ((j : Str)
          → find_row j (destroy_job_content id at w).1.db.jobs
            ≡ (if str_eq id j then some r' else find_row j w.db.jobs))
unfolding destroy_job_content
destroy_job_content_erases id at w u h =
    elim (update_one-Outcome id (λ r. r.content_destroyed == 0) (destroy_set at) (λ r. refl) w u) [
      | updated r found pr _ look _ _ ↦ (
        r,
        destroy_set at r,
        found,
        ground arith,
        look id ∙ rw (str_eq_refl id) refl,
        refl,
        refl,
        refl,
        look,
      )
      | not_updated failed _ _ ↦ absurd (ground arith)
      | faulted failed _ _ ↦ absurd (ground arith)
    ]
