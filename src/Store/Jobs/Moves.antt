-- ===== src/Store/Jobs/Moves.antt =====
-- What the statements on `jobs` do to each job.
use nomadposting.Prelude.{
  ◌≡◌, refl, sym, ap, ◌∙◌, subst, fun_ext, ◌⊎◌, inl, inr, Bool, true, false, not, ◌&&◌, ◌||◌,
  Option, none, some, Str, str_eq, str_eq_iff, ◌==◌, Result, arith, Option-cases, Bool-cases,
}
use nomadposting.Prelude.Assoc.{Distinct}
use nomadposting.Errors.{Error}
use nomadposting.Clock.{Time, millis}
use nomadposting.Domain.State.{
  JobState, draft, complete, failed, cancelled, state_eq, state_eq_iff, can_transition,
  validate_transition,
}
use nomadposting.Domain.Types.{PostJob}
use nomadposting.Store.Tables.{JobRow, Db, World, Statement, exec, exec-db, row_of_job}
use nomadposting.Store.Jobs.{
  find_row, insert_statement, purge_statement, is_purged, approve_set, move_set, destroy_set,
  country_set, update_one, create_job, approve_job, transition_job, destroy_job_content,
  set_last_nostr_country, purge_resolved_jobs_before,
}
use nomadposting.Store.Jobs.Update.{
  ids, UniqueIds, Outcome, updated, not_updated, faulted, update_one-Outcome,
}
use nomadposting.Store.Jobs.Rows.{
  find_row-snoc, absent_apart, Distinct-snoc, ids-snoc, Distinct-keep_if, find_row-keep_if,
}

-- The statements on `jobs`.
pub data JobOp : Type 0 where
  create : PostJob → JobOp
  approve : (id hash : Str) → Time → JobOp
  transition : Str → (from to : JobState) → Time → JobOp
  destroy : Str → Time → JobOp
  set_country : (id country : Str) → Time → JobOp
  purge : Time → JobOp

-- The database after a statement, whatever it answered.
unfoldable pub run_op : {S : Type 0} → JobOp → World S → World S
run_op (create job) w = (create_job job w).1
run_op (approve id hash at) w = (approve_job id hash at w).1
run_op (transition id from to at) w = (transition_job id from to at w).1
run_op (destroy id at) w = (destroy_job_content id at w).1
run_op (set_country id country at) w = (set_last_nostr_country id country at w).1
run_op (purge before) w = (purge_resolved_jobs_before before w).1

abbrev pub is_resolved : JobState → Bool
is_resolved s = state_eq s complete || state_eq s failed || state_eq s cancelled

-- What a statement may do to the job under an ID.
pub data Fate (op : JobOp) (before after : Option JobRow) : Type 0 where
  untouched : after ≡ before → Fate op before after
  created :
      (job : PostJob)
      → op ≡ create job
      → before ≡ none
      → after ≡ some (row_of_job job)
      → Fate op before after
  rewritten :
      (r r' : JobRow)
      → before ≡ some r
      → after ≡ some r'
      → (r'.state ≡ r.state) ⊎ (can_transition r.state r'.state ≡ true)
      → Fate op before after
  purged :
      (r : JobRow)
      → before ≡ some r
      → after ≡ none
      → is_resolved r.state ≡ true
      → Fate op before after

-- What a statement does to all jobs.
abbrev pub Fates : JobOp → Db → Db → Type 0
Fates op db db' = UniqueIds db' × ((j : Str) → Fate op (find_row j db.jobs) (find_row j db'.jobs))

same-Fates : (op : JobOp) (db db' : Db) → UniqueIds db → db' ≡ db → Fates op db db'
same-Fates op db db' u e =
    (subst UniqueIds (sym e) u, λ j. untouched (ap (λ (d : Db). find_row j d.jobs) e))

exec-Fates :
    {S A : Type 0} (op : JobOp) (statement : Statement A) (w : World S)
    → UniqueIds w.db
    → Fates op w.db (statement w.db).1
    → Fates op w.db (exec statement w).1.db
exec-Fates op statement w u h = elim (exec-db statement w) [
  | inl e ↦ same-Fates op w.db (exec statement w).1.db u e
  | inr e ↦ subst (Fates op w.db) (sym e) h
]

Outcome-Fates :
    {S : Type 0} (op : JobOp) (id : Str) (p : JobRow → Bool) (set : JobRow → JobRow)
    (keeps : (r : JobRow) → (set r).id ≡ r.id) (w w' : World S) (answer : Result Error (Unit {0}))
    → UniqueIds w.db
    → ((r : JobRow)
        → p r ≡ true
        → ((set r).state ≡ r.state) ⊎ (can_transition r.state (set r).state ≡ true))
    → Outcome id p set keeps w w' answer
    → Fates op w.db w'.db
Outcome-Fates op id p set keeps w w' answer u legal (updated r found pr _ look kept _) = (
  subst Distinct (sym kept) u,
  λ j. elim (Bool-cases (str_eq id j)) [
    | inl same ↦
        rewritten r (set r) (ground (arith, str_eq_iff id j)) (look j ∙ rw same) (legal r pr)
    | inr other ↦ untouched (look j ∙ rw other)
  ],
)
Outcome-Fates op id p set keeps w w' answer u legal (not_updated _ _ same) =
    same-Fates op w.db w'.db u same
Outcome-Fates op id p set keeps w w' answer u legal (faulted _ _ same) =
    same-Fates op w.db w'.db u same

insert-Fates :
    (job : PostJob) (db : Db)
    → UniqueIds db
    → Fates (create job) db (insert_statement (row_of_job job) db).1
unfolding insert_statement
insert-Fates job db u =
    let row = row_of_job job in
    elim (Option-cases (find_row row.id db.jobs)) [
      | inr (r, e) ↦ rw e (u, λ j. untouched refl)
      | inl e ↦ rw e (
        subst Distinct (sym (ids-snoc db.jobs row))
            (Distinct-snoc (ids db.jobs) row.id u (absent_apart row.id db.jobs e)),
        λ j. elim (Bool-cases (str_eq row.id j)) [
          | inl same ↦
              created job refl (ground (arith, str_eq_iff row.id j))
                (find_row-snoc row db.jobs j e ∙ rw same)
          | inr other ↦ untouched (find_row-snoc row db.jobs j e ∙ rw other)
        ],
      )
    ]

purge-Fates :
    (before : Time) (db : Db)
    → UniqueIds db
    → Fates (purge before) db (purge_statement (millis before) db).1
unfolding purge_statement
purge-Fates before db u =
    let t : JobRow → Bool = λ r. not (is_purged (millis before) r) in
    (
      Distinct-keep_if t db.jobs u,
      λ j. elim (find_row-keep_if t db.jobs j u) [
        | inl e ↦ untouched e
        | inr (r, found, gone, out) ↦ purged r found gone (ground arith)
      ],
    )

update_one-Fates :
    {S : Type 0} (op : JobOp) (id : Str) (p : JobRow → Bool) (set : JobRow → JobRow) (w : World S)
    → ((r : JobRow) → (set r).id ≡ r.id)
    → UniqueIds w.db
    → ((r : JobRow)
        → p r ≡ true
        → ((set r).state ≡ r.state) ⊎ (can_transition r.state (set r).state ≡ true))
    → Fates op w.db (update_one (λ r. str_eq r.id id && p r) set w).1.db
update_one-Fates op id p set w keeps u legal =
    Outcome-Fates op id p set keeps w _ _ u legal (update_one-Outcome id p set keeps w u)

and-true : (b : Bool) → b && true ≡ b
and-true true = refl
and-true false = refl

-- An update whose WHERE clause is the ID alone.
any_row : (id : Str) → ◌≡◌ {A = JobRow → Bool} (λ r. str_eq r.id id && true) (λ r. str_eq r.id id)
any_row id = fun_ext (λ r. and-true (str_eq r.id id))

transition-Fates :
    {S : Type 0} (id : Str) (from to : JobState) (at : Time) (w : World S)
    → UniqueIds w.db
    → Fates (transition id from to at) w.db (transition_job id from to at w).1.db
unfolding transition_job validate_transition
transition-Fates id from to at w u = elim (Bool-cases (can_transition from to)) [
  | inr no_move ↦ rw no_move (u, λ j. untouched refl)
  | inl a_move ↦ rw a_move (
      update_one-Fates (transition id from to at) id (λ r. state_eq r.state from) (move_set to at) w
        (λ r. refl) u
        (λ r h.
          inr (
            subst (λ s. can_transition s to ≡ true) (sym ((state_eq_iff r.state from).0 h))
              a_move)))
]

-- Whatever a statement on `jobs` answers, IDs stay unique, and each job is left alone, or is the one
-- created, or keeps its state, or moves as the table of `CanTransition` allows, or is deleted by the
-- purge in a resolved state, never as UNKNOWN or PARTIAL.
pub run_op-Fates :
    {S : Type 0} (op : JobOp) (w : World S) → UniqueIds w.db → Fates op w.db (run_op op w).db
unfolding run_op create_job purge_resolved_jobs_before approve_job destroy_job_content
    set_last_nostr_country
run_op-Fates (create job) w u =
    exec-Fates (create job) (insert_statement (row_of_job job)) w u (insert-Fates job w.db u)
run_op-Fates (approve id hash at) w u =
    update_one-Fates (approve id hash at) id
      (λ r. state_eq r.state draft && r.content_destroyed == 0) (approve_set hash at) w (λ r. refl)
      u (λ r h. inr (unfold can_transition in ground arith))
run_op-Fates (transition id from to at) w u = transition-Fates id from to at w u
run_op-Fates (destroy id at) w u =
    update_one-Fates (destroy id at) id (λ r. r.content_destroyed == 0) (destroy_set at) w
      (λ r. refl) u (λ r h. inl refl)
run_op-Fates (set_country id country at) w u =
    subst
      (λ (t : JobRow → Bool).
        Fates (set_country id country at) w.db (update_one t (country_set country at) w).1.db)
      (any_row id)
      (update_one-Fates (set_country id country at) id (λ r. true) (country_set country at) w
        (λ r. refl) u (λ r h. inl refl))
run_op-Fates (purge before) w u =
    exec-Fates (purge before) (purge_statement (millis before)) w u (purge-Fates before w.db u)
