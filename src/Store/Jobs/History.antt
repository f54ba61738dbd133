-- ===== src/Store/Jobs/History.antt =====
-- The lives of the jobs in a database, over any sequence of statements.
use mathlib.Core.List.{Memᴰ}
use nomadposting.Prelude.{
  ◌≡◌, refl, sym, ap, ◌∙◌, subst, ◌⊎◌, inl, inr, true, List, [], ◌∷◌, Option, none, some, Str, All,
  arith, Bool-cases, if◌then◌else◌,
}
use nomadposting.Domain.State.{JobState, draft, approved, state_eq, state_eq_iff, can_transition}
use nomadposting.Domain.State.Paths.{Life, born, move, is_dispatched, dispatch_needs_approval}
use nomadposting.Domain.State.{routing}
use nomadposting.Domain.Types.{PostJob}
use nomadposting.Store.Tables.{JobRow, Db, empty_db, World, row_of_job}
use nomadposting.Store.Jobs.{find_row}
use nomadposting.Store.Jobs.Update.{UniqueIds}
use nomadposting.Store.Jobs.Moves.{
  JobOp, create, run_op, Fate, untouched, created, rewritten, purged, run_op-Fates,
}

-- Statements one after another, each on what the last one left.
unfoldable pub run_ops : {S : Type 0} → List JobOp → World S → World S
run_ops [] w = w
run_ops (op ∷ ops) w = run_ops ops (run_op op w)

-- Jobs are created as drafts.
abbrev pub CreatesDrafts : JobOp → Type 0
CreatesDrafts (create job) = job.state ≡ draft
CreatesDrafts _ = Unit

state_of_job : (job : PostJob) (r : JobRow) → some (row_of_job job) ≡ some r → job.state ≡ r.state
unfolding row_of_job
state_of_job job r h = ground arith

same_state : (a b : JobRow) → some a ≡ some b → a.state ≡ b.state
same_state a b h = ground arith

-- The states that a job has entered since it was created, newest first, when a statement leaves
-- `after` of what was `before`.
abbrev entered_after : List JobState → Option JobRow → Option JobRow → List JobState
entered_after entered before none = []
entered_after entered none (some r') = []
entered_after entered (some r) (some r') =
    if state_eq r.state r'.state then entered else r'.state ∷ entered

-- The states that the job under an ID is seen to enter, from one statement to the next, in a run of
-- statements: newest first, since it was created, on top of those entered before the run.
unfoldable pub states_entered :
    {S : Type 0} → Str → List JobOp → World S → List JobState → List JobState
states_entered j [] w entered = entered
states_entered j (op ∷ ops) w entered =
    states_entered j ops (run_op op w)
      (entered_after entered (find_row j w.db.jobs) (find_row j (run_op op w).db.jobs))

-- What is kept of those states: they are a life from DRAFT to the state of the job.
abbrev Living : Option JobRow → List JobState → Type 0
Living found entered = (r : JobRow) → found ≡ some r → Life draft entered r.state

step-Life :
    (r r' : JobRow) (entered : List JobState)
    → (r'.state ≡ r.state) ⊎ (can_transition r.state r'.state ≡ true)
    → Life draft entered r.state
    → Life draft (entered_after entered (some r) (some r')) r'.state
step-Life r r' entered step life = elim (Bool-cases (state_eq r.state r'.state)) [
  | inl e ↦ rw e (subst (λ s. Life draft entered s) ((state_eq_iff r.state r'.state).0 e) life)
  | inr e ↦ elim step [
    | inl kept ↦ absurd (ground (arith, state_eq_iff r.state r'.state))
    | inr moved ↦ rw e (move r'.state life moved)
  ]
]

kept_or_moved :
    {op : JobOp} (r r' : JobRow)
    → Fate op (some r) (some r')
    → (r'.state ≡ r.state) ⊎ (can_transition r.state r'.state ≡ true)
kept_or_moved r r' (untouched e) = inl (same_state r' r e)
kept_or_moved r r' (created job _ gone _) = absurd (cc gone)
kept_or_moved r r' (rewritten a b before after step) =
    subst (λ s. (r'.state ≡ s) ⊎ (can_transition s r'.state ≡ true)) (sym (same_state r a before))
      (subst (λ s. (s ≡ a.state) ⊎ (can_transition a.state s ≡ true)) (sym (same_state r' b after))
        step)
kept_or_moved r r' (purged a _ gone _) = absurd (cc gone)

born_as_draft :
    {op : JobOp} (r : JobRow) → CreatesDrafts op → Fate op none (some r) → Life draft [] r.state
born_as_draft r drafts (untouched e) = absurd (cc e)
born_as_draft r drafts (created job is_create _ e) =
    subst (λ s. Life draft [] s)
      (sym (subst CreatesDrafts is_create drafts) ∙ state_of_job job r (sym e)) born
born_as_draft r drafts (rewritten a b before _ _) = absurd (cc before)
born_as_draft r drafts (purged a before _ _) = absurd (cc before)

Fate-Living :
    {op : JobOp} (before after : Option JobRow) (entered : List JobState)
    → CreatesDrafts op
    → Fate op before after
    → Living before entered
    → Living after (entered_after entered before after)
Fate-Living before none entered drafts fate live r e = absurd (cc e)
Fate-Living none (some r') entered drafts fate live r e =
    subst (λ s. Life draft [] s) (same_state r' r e) (born_as_draft r' drafts fate)
Fate-Living (some a) (some r') entered drafts fate live r e =
    subst (λ s. Life draft (entered_after entered (some a) (some r')) s) (same_state r' r e)
      (step-Life a r' entered (kept_or_moved a r' fate) (live a refl))

run_ops-Living :
    {S : Type 0} (j : Str) (ops : List JobOp) (w : World S) (entered : List JobState)
    → UniqueIds w.db
    → All CreatesDrafts ops
    → Living (find_row j w.db.jobs) entered
    → Living (find_row j (run_ops ops w).db.jobs) (states_entered j ops w entered)
unfolding run_ops states_entered
run_ops-Living j [] w entered u drafts live = live
run_ops-Living j (op ∷ ops) w entered u drafts live =
    let (u', fates) = run_op-Fates op w u in
    let before = find_row j w.db.jobs in
    let after = find_row j (run_op op w).db.jobs in
    run_ops-Living j ops (run_op op w) (entered_after entered before after) u' drafts.1
      (Fate-Living before after entered drafts.0 (fates j) live)

-- From an empty database on, through any statements, failed ones included, that create jobs as
-- drafts only: the states that a job is seen to enter in the run, since it was created, follow the
-- table one after the other from DRAFT to the state in which it is found at the end, and if that is
-- routing or any state behind it, APPROVED and ROUTING are among them.
pub dispatched_was_approved :
    {S : Type 0} (ops : List JobOp) (w : World S) (j : Str) (r : JobRow)
    → w.db ≡ empty_db
    → All CreatesDrafts ops
    → find_row j (run_ops ops w).db.jobs ≡ some r
    → is_dispatched r.state ≡ true
    → Life draft (states_entered j ops w []) r.state
      × Memᴰ approved (states_entered j ops w [])
      × Memᴰ routing (states_entered j ops w [])
unfolding find_row
dispatched_was_approved ops w j r new drafts found d =
    let nowhere : find_row j w.db.jobs ≡ none = ap (λ (db : Db). find_row j db.jobs) new in
    let life =
      run_ops-Living j ops w [] (subst UniqueIds (sym new) tt) drafts
        (λ i e. absurd (cc (e, nowhere))) r found in
    let (was_approved, was_routing) = dispatch_needs_approval life d in
    (life, was_approved, was_routing)
