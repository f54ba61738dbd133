-- ===== src/Prelude/Order.antt =====
-- The order of strings, and sorting by a string key (`sort.Slice` on distinct keys, `sort.Strings`).
use nomadposting.Prelude.{
  suc, length, ◌≡◌, refl, ◌≢◌, true, false, List, [], ◌∷◌, Str, str_lt, if◌then◌else◌, All, arith,
}

pub str_lt_trans : (s t u : Str) → str_lt s t ≡ true → str_lt t u ≡ true → str_lt s u ≡ true
unfolding str_lt
str_lt_trans [] [] u p q = cc
str_lt_trans [] (b ∷ t) [] p q = cc
str_lt_trans [] (b ∷ t) (c ∷ u) p q = refl
str_lt_trans (a ∷ s) [] u p q = cc
str_lt_trans (a ∷ s) (b ∷ t) [] p q = cc
str_lt_trans (a ∷ s) (b ∷ t) (c ∷ u) p q = ground (arith, str_lt_trans s t u)

pub str_lt_asymm : (s t : Str) → str_lt s t ≡ true → str_lt t s ≡ false
unfolding str_lt
str_lt_asymm [] [] p = cc
str_lt_asymm [] (b ∷ t) p = refl
str_lt_asymm (a ∷ s) [] p = cc
str_lt_asymm (a ∷ s) (b ∷ t) p = ground (arith, str_lt_asymm s t)

pub str_lt_total : (s t : Str) → str_lt s t ≡ false → str_lt t s ≡ false → s ≡ t
unfolding str_lt
str_lt_total [] [] p q = refl
str_lt_total [] (b ∷ t) p q = cc
str_lt_total (a ∷ s) [] p q = cc
str_lt_total (a ∷ s) (b ∷ t) p q = ground (arith, str_lt_total s t)

module _ {ℓ} {A : Type ℓ} (key : A → Str) where
  unfoldable pub insert_by : A → List A → List A
  insert_by x [] = x ∷ []
  insert_by x (y ∷ ys) = if str_lt (key x) (key y) then x ∷ y ∷ ys else y ∷ insert_by x ys

  unfoldable pub sort_by : List A → List A
  unfolding insert_by
  sort_by [] = []
  sort_by (x ∷ xs) = insert_by x (sort_by xs)

  -- Two insertions with distinct keys commute.
  pub insert_by_comm :
      (x y : A) (zs : List A)
      → key x ≢ key y
      → insert_by x (insert_by y zs) ≡ insert_by y (insert_by x zs)
  unfolding insert_by
  insert_by_comm x y [] h =
      ground (arith, str_lt_total (key x) (key y), str_lt_asymm (key x) (key y))
  insert_by_comm x y (z ∷ zs) h = ground (
    arith,
    str_lt_total (key x) (key y),
    str_lt_asymm (key x) (key y),
    str_lt_trans (key x) (key y) (key z),
    str_lt_trans (key y) (key x) (key z),
    insert_by_comm x y zs h,
  )

  pub All-insert_by {κ} :
      (P : A → Type κ) (x : A) (ys : List A) → P x → All P ys → All P (insert_by x ys)
  unfolding insert_by
  All-insert_by P x [] p h = (p, tt)
  All-insert_by P x (y ∷ ys) p h = ground (arith, All-insert_by P x ys p h.1)

  pub All-sort_by {κ} : (P : A → Type κ) (xs : List A) → All P xs → All P (sort_by xs)
  unfolding sort_by
  All-sort_by P [] h = tt
  All-sort_by P (x ∷ xs) h = All-insert_by P x (sort_by xs) h.0 (All-sort_by P xs h.1)

  length-insert_by : (x : A) (ys : List A) → length (insert_by x ys) ≡ suc (length ys)
  unfolding insert_by
  length-insert_by x [] = refl
  length-insert_by x (y ∷ ys) = ground (arith, length-insert_by x ys)

  pub length-sort_by : (xs : List A) → length (sort_by xs) ≡ length xs
  unfolding sort_by
  length-sort_by [] = refl
  length-sort_by (x ∷ xs) = omega (arith, length-insert_by x (sort_by xs), length-sort_by xs)
