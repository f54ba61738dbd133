-- ===== src/Prelude/Assoc.antt =====
-- A Go map with string keys: an association list, in which a write replaces the entry of its key or
-- appends one.
use nomadposting.Prelude.{
  ◌≡◌, refl, ◌≢◌, List, [], ◌∷◌, map, Option, none, some, Str, str_eq, str_eq_iff, str_eq_refl,
  if◌then◌else◌, Bool, true, keep_if, All, arith,
}

abbrev pub Assoc {ℓ} : Type ℓ → Type ℓ
Assoc V = List (Str × V)

module _ {ℓ} {V : Type ℓ} where
  -- `v, ok := m[k]`.
  unfoldable pub lookup : Str → Assoc V → Option V
  lookup k [] = none
  lookup k ((j, v) ∷ m) = if str_eq j k then some v else lookup k m

  -- `m[k] = v`.
  unfoldable pub insert : Str → V → Assoc V → Assoc V
  insert k v [] = (k, v) ∷ []
  insert k v ((j, w) ∷ m) = if str_eq j k then (j, v) ∷ m else (j, w) ∷ insert k v m

  -- `delete(m, k)`.
  unfoldable pub delete : Str → Assoc V → Assoc V
  delete k [] = []
  delete k ((j, v) ∷ m) = let rest = delete k m in if str_eq j k then rest else (j, v) ∷ rest

  abbrev pub keys : Assoc V → List Str
  keys = map λ e. e.0

  pub lookup-insert :
      (k j : Str) (v : V) (m : Assoc V)
      → lookup j (insert k v m) ≡ (if str_eq k j then some v else lookup j m)
  unfolding lookup insert
  lookup-insert k j v [] = refl
  lookup-insert k j v ((i, w) ∷ m) =
      ground (arith, str_eq_iff i k, str_eq_iff i j, str_eq_iff k j, lookup-insert k j v m)

  pub lookup-delete :
      (k j : Str) (m : Assoc V) → lookup j (delete k m) ≡ (if str_eq k j then none else lookup j m)
  unfolding lookup delete
  lookup-delete k j [] = ground arith
  lookup-delete k j ((i, w) ∷ m) =
      ground (arith, str_eq_iff i k, str_eq_iff i j, str_eq_iff k j, lookup-delete k j m)

  pub lookup-keep_if :
      (test : Str × V → Bool) (k : Str) (v : V) (m : Assoc V)
      → lookup k m ≡ some v
      → test (k, v) ≡ true
      → lookup k (keep_if test m) ≡ some v
  unfolding lookup
  lookup-keep_if test k v [] h e = cc
  lookup-keep_if test k v ((j, w) ∷ m) h e =
      ground (arith, str_eq_iff j k, lookup-keep_if test k v m)

  -- Writing at a key that is present keeps the keys, in their order.
  pub keys-insert_present :
      (k : Str) (v w : V) (m : Assoc V) → lookup k m ≡ some w → keys (insert k v m) ≡ keys m
  unfolding lookup insert
  keys-insert_present k v w [] h = cc
  keys-insert_present k v w ((j, u) ∷ m) h = ground (arith, keys-insert_present k v w m)

  -- A predicate of the entries is kept by a write that meets it at the key's every spelling.
  pub All-insert {κ} :
      (P : Str × V → Type κ) (k : Str) (v : V) (m : Assoc V)
      → P (k, v)
      → All P m
      → All P (insert k v m)
  unfolding insert
  All-insert P k v [] p h = (p, tt)
  All-insert P k v ((j, w) ∷ m) p h = grind (arith, str_eq_iff j k, All-insert P k v m)

  pub All-lookup {κ} :
      (P : Str × V → Type κ) (k : Str) (v : V) (m : Assoc V)
      → All P m
      → lookup k m ≡ some v
      → P (k, v)
  unfolding lookup
  All-lookup P k v [] h e = cc
  All-lookup P k v ((j, w) ∷ m) h e = grind (arith, str_eq_iff j k, All-lookup P k v m)

-- No key occurs twice.
abbrev pub Distinct : List Str → Type 0
Distinct [] = Unit
Distinct (k ∷ ks) = All (λ j. k ≢ j) ks × Distinct ks

module _ {ℓ} {V : Type ℓ} where
  keys-All-insert :
      (P : Str → Type 0) (k : Str) (v : V) (m : Assoc V)
      → P k
      → All P (keys m)
      → All P (keys (insert k v m))
  unfolding insert
  keys-All-insert P k v [] p h = (p, tt)
  keys-All-insert P k v ((j, w) ∷ m) p h = ground (arith, keys-All-insert P k v m)

  -- A write keeps the keys distinct.
  pub Distinct-insert :
      (k : Str) (v : V) (m : Assoc V) → Distinct (keys m) → Distinct (keys (insert k v m))
  unfolding insert
  Distinct-insert k v [] h = (tt, tt)
  Distinct-insert k v ((j, w) ∷ m) h =
      ground (arith, str_eq_iff j k, keys-All-insert (λ i. j ≢ i) k v m, Distinct-insert k v m)

  pub insert-ne-nil : (k : Str) (v : V) (m : Assoc V) → insert k v m ≢ []
  unfolding insert
  insert-ne-nil k v [] e = cc
  insert-ne-nil k v ((j, w) ∷ m) e = ground arith

module _ {ℓ} {V : Type ℓ} where
  -- An entry list whose keys avoid `k` is found alike with `k` in front.
  lookup-skip :
      (k : Str) (v : V) (m n : Assoc V)
      → All (λ j. k ≢ j) (keys n)
      → All (λ e. lookup e.0 m ≡ some e.1) n
      → All (λ e. lookup e.0 ((k, v) ∷ m) ≡ some e.1) n
  unfolding lookup
  lookup-skip k v m [] a h = tt
  lookup-skip k v m ((j, w) ∷ n) a h = (ground (arith, str_eq_iff k j), lookup-skip k v m n a.1 h.1)

  -- With distinct keys every entry is what its key finds.
  pub lookup-entries : (m : Assoc V) → Distinct (keys m) → All (λ e. lookup e.0 m ≡ some e.1) m
  unfolding lookup
  lookup-entries [] d = tt
  lookup-entries ((k, v) ∷ m) d =
      (rw (str_eq_refl k), lookup-skip k v m m d.0 (lookup-entries m d.1))
