-- ===== src/Store/Jobs/Update.antt =====
-- An UPDATE of one job: when it takes effect, and on what.
use nomadposting.Prelude.{
  ◌≡◌, refl, subst, ◌≢◌, ◌⊎◌, inl, inr, Bool, true, false, ◌&&◌, List, [], ◌∷◌, map, some, Str,
  str_eq, str_eq_iff, All, Result, ok, err, if◌then◌else◌, arith, Bool-cases,
}
use nomadposting.Prelude.Assoc.{Distinct}
use nomadposting.Errors.{Error, database_error, not_found}
use nomadposting.Store.Tables.{JobRow, Db, World, exec, fault_now, require_one}
use nomadposting.Store.Jobs.{find_row, update_rows, count_rows, update_statement, update_one}

-- The primary keys.
abbrev pub ids : List JobRow → List Str
ids = map λ r. r.id

-- What the primary key guarantees.
abbrev pub UniqueIds : Db → Type 0
UniqueIds db = Distinct (ids db.jobs)

module _ (id : Str) (p : JobRow → Bool) (set : JobRow → JobRow)
    (keeps : (r : JobRow) → (set r).id ≡ r.id) where
  abbrev picks : JobRow → Bool
  picks r = str_eq r.id id && p r

  picks_elsewhere :
      (rs : List JobRow)
      → All (λ j. id ≢ j) (ids rs)
      → (count_rows picks rs ≡ 0) × (update_rows picks set rs ≡ rs)
  unfolding count_rows update_rows
  picks_elsewhere [] h = (refl, refl)
  picks_elsewhere (r ∷ rs) h = ground (arith, str_eq_iff r.id id, picks_elsewhere rs h.1)

  -- A WHERE clause that no row meets changes nothing; one that the row of `id` meets changes it
  -- alone.
  pub picks_one :
      (rs : List JobRow)
      → Distinct (ids rs)
      → ((r : JobRow) × (find_row id rs ≡ some r)
          × (p r ≡ true)
          × (count_rows picks rs ≡ 1)
          × ((j : Str)
              → find_row j (update_rows picks set rs)
                ≡ (if str_eq id j then some (set r) else find_row j rs))
          × (ids (update_rows picks set rs) ≡ ids rs))
        ⊎ ((count_rows picks rs ≡ 0)
            × (update_rows picks set rs ≡ rs)
            × ((r : JobRow) → find_row id rs ≡ some r → p r ≡ false))
  unfolding find_row count_rows update_rows
  picks_one [] d = inr (refl, refl, λ r e. cc)
  picks_one (r ∷ rs) d = elim (Bool-cases (str_eq r.id id)) [
    | inl same ↦
        let here : r.id ≡ id = (str_eq_iff r.id id).0 same in
        let apart = picks_elsewhere rs (subst (λ k. All (λ j. k ≢ j) (ids rs)) here d.0) in
        elim (Bool-cases (p r)) [
          | inl yes_p ↦ inl (
            r,
            rw same refl,
            yes_p,
            ground arith,
            λ j. ground (arith, keeps r, str_eq_iff r.id j, str_eq_iff id j),
            ground (arith, keeps r),
          )
          | inr no_p ↦ inr (ground arith, ground arith, λ x e. ground arith)
        ]
    | inr other ↦ elim (picks_one rs d.1) [
      | inl (x, found, px, one, look, kept) ↦ inl (
        x,
        ground arith,
        px,
        ground arith,
        λ j. ground (arith, look j, str_eq_iff r.id j, str_eq_iff id j, str_eq_iff r.id id),
        ground arith,
      )
      | inr (zero_rows, kept, missing) ↦
          inr (ground arith, ground arith, λ x e. missing x (ground arith))
    ]
  ]

  -- What `UPDATE … WHERE id = ? AND …` followed by `requireOne` does.
  pub data Outcome {S : Type 0} (w w' : World S) (answer : Result Error (Unit {0})) : Type 0 where
    updated :
        (r : JobRow)
        → find_row id w.db.jobs ≡ some r
        → p r ≡ true
        → answer ≡ ok tt
        → ((j : Str)
            → find_row j w'.db.jobs ≡ (if str_eq id j then some (set r) else find_row j w.db.jobs))
        → ids w'.db.jobs ≡ ids w.db.jobs
        → w'.db ≡ record w.db { jobs = w'.db.jobs }
        → Outcome w w' answer
    not_updated :
        answer ≡ err not_found
        → ((r : JobRow) → find_row id w.db.jobs ≡ some r → p r ≡ false)
        → w'.db ≡ w.db
        → Outcome w w' answer
    faulted :
        answer ≡ err database_error → fault_now w.faults ≡ true → w'.db ≡ w.db → Outcome w w' answer

  pub update_one-Outcome :
      {S : Type 0} (w : World S)
      → UniqueIds w.db
      → Outcome w (update_one picks set w).1 (update_one picks set w).0
  unfolding exec update_statement require_one
  update_one-Outcome w u = elim (Bool-cases (fault_now w.faults)) [
    | inl f ↦ faulted (rw f refl) f (rw f refl)
    | inr f ↦ elim (picks_one w.db.jobs u) [
      | inl (r, found, pr, one, look, kept) ↦
          updated r found pr (ground arith) (λ j. ground (arith, look j)) (ground arith)
            (ground arith)
      | inr (none_there, kept, missing) ↦ not_updated (ground arith) missing (ground arith)
    ]
  ]
