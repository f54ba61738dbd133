-- ===== src/Store/Jobs/Rows.antt =====
-- Rows added at the end of `jobs`, and rows deleted.
use nomadposting.Prelude.{
  ◌≡◌, refl, ap, subst, ◌≢◌, ◌⊎◌, inl, inr, Bool, false, List, [], ◌∷◌, ◌++◌, none, some, Str,
  str_eq, str_eq_iff, All, All-snoc, keep_if, if◌then◌else◌, arith, Bool-cases,
}
use nomadposting.Prelude.Assoc.{Distinct}
use nomadposting.Store.Tables.{JobRow}
use nomadposting.Store.Jobs.{find_row}
use nomadposting.Store.Jobs.Update.{ids}

pub find_row-snoc :
    (row : JobRow) (rs : List JobRow) (j : Str)
    → find_row row.id rs ≡ none
    → find_row j (rs ++ row ∷ []) ≡ (if str_eq row.id j then some row else find_row j rs)
unfolding find_row
find_row-snoc row [] j h = refl
find_row-snoc row (r ∷ rs) j h =
    ground (
      arith,
      str_eq_iff r.id j,
      str_eq_iff row.id j,
      str_eq_iff r.id row.id,
      find_row-snoc row rs j,
    )

pub absent_apart :
    (id : Str) (rs : List JobRow) → find_row id rs ≡ none → All (λ j. j ≢ id) (ids rs)
unfolding find_row
absent_apart id [] h = tt
absent_apart id (r ∷ rs) h = ground (arith, str_eq_iff r.id id, absent_apart id rs)

pub Distinct-snoc :
    (ks : List Str) (k : Str) → Distinct ks → All (λ j. j ≢ k) ks → Distinct (ks ++ k ∷ [])
Distinct-snoc [] k d a = (tt, tt)
Distinct-snoc (j ∷ ks) k d a = (All-snoc (λ i. j ≢ i) ks k d.0 a.0, Distinct-snoc ks k d.1 a.1)

pub ids-snoc : (rs : List JobRow) (row : JobRow) → ids (rs ++ row ∷ []) ≡ ids rs ++ row.id ∷ []
ids-snoc [] row = refl
ids-snoc (r ∷ rs) row = ap (◌∷◌ r.id) (ids-snoc rs row)

pub All-ids-keep_if :
    (P : Str → Type 0) (t : JobRow → Bool) (rs : List JobRow)
    → All P (ids rs)
    → All P (ids (keep_if t rs))
All-ids-keep_if P t [] h = tt
All-ids-keep_if P t (r ∷ rs) h = ground (arith, All-ids-keep_if P t rs h.1)

pub Distinct-keep_if :
    (t : JobRow → Bool) (rs : List JobRow) → Distinct (ids rs) → Distinct (ids (keep_if t rs))
Distinct-keep_if t [] d = tt
Distinct-keep_if t (r ∷ rs) d =
    ground (arith, Distinct-keep_if t rs d.1, All-ids-keep_if (λ j. r.id ≢ j) t rs d.0)

pub find_row-apart : (j : Str) (rs : List JobRow) → All (λ k. j ≢ k) (ids rs) → find_row j rs ≡ none
unfolding find_row
find_row-apart j [] h = refl
find_row-apart j (r ∷ rs) h = ground (arith, str_eq_iff r.id j, find_row-apart j rs h.1)

-- A job is deleted, or found as before.
pub find_row-keep_if :
    (t : JobRow → Bool) (rs : List JobRow) (j : Str)
    → Distinct (ids rs)
    → (find_row j (keep_if t rs) ≡ find_row j rs)
      ⊎ ((r : JobRow) × (find_row j rs ≡ some r)
          × (find_row j (keep_if t rs) ≡ none)
          × (t r ≡ false))
unfolding find_row
find_row-keep_if t [] j d = inl refl
find_row-keep_if t (r ∷ rs) j d = elim (Bool-cases (str_eq r.id j)) [
  | inl same ↦ elim (Bool-cases (t r)) [
    | inl kept ↦ inl (ground arith)
    | inr gone ↦
        let apart = subst (λ k. All (λ i. k ≢ i) (ids rs)) ((str_eq_iff r.id j).0 same) d.0 in
        inr (
          r,
          ground arith,
          rw gone (find_row-apart j _ (All-ids-keep_if (λ i. j ≢ i) t rs apart)),
          gone,
        )
  ]
  | inr other ↦ elim (find_row-keep_if t rs j d.1) [
    | inl e ↦ inl (ground arith)
    | inr (x, found, gone, tx) ↦ inr (x, ground arith, ground arith, tx)
  ]
]
