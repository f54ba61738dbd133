-- ===== src/Random.antt =====
-- The random source that the code is given (`io.Reader`, crypto/rand), and computations that draw
-- from it.
use nomadposting.Prelude.{ℕ, ◌<◌, ◌≡◌, refl, Option, none, some, Str, length, Result, ok, err}
use nomadposting.Encoding.Base64.RoundTrip.{IsBytes}

-- What the code relies on: a full read has the length asked for, and a number drawn below a bound
-- is below it. Each may fail. `S` is the state of the source.
pub record Random (S : Type 0) : Type 0 where
  -- `io.ReadFull(random, make([]byte, n))`.
  pub read : ℕ → S → Option Str × S
  -- `rand.Int(random, n)`.
  pub below : ℕ → S → Option ℕ × S
  pub read_length : (n : ℕ) (s : S) {b : Str} → (read n s).0 ≡ some b → length b ≡ n
  pub below_lt : (n : ℕ) (s : S) {k : ℕ} → (below n s).0 ≡ some k → k < n

-- What is read from the source is bytes.
abbrev pub ReadsBytes : {S : Type 0} → Random S → Type 0
ReadsBytes {S} random = (n : ℕ) (s : S) (b : Str) → (random.read n s).0 ≡ some b → IsBytes b

-- A computation that draws from a source and may fail.
abbrev pub Draw {ℓ} : Type 0 → Type 0 → Type ℓ → Type ℓ
Draw S E A = S → Result E A × S

module _ {S E : Type 0} where
  infixl 5 ◌>>=◌ ◌>>◌
  abbrev pub after {ℓ κ} :
      {A : Type ℓ} {B : Type κ} → Result E A × S → (A → Draw S E B) → Result E B × S
  after (ok a, s) f = f a s
  after (err e, s) f = (err e, s)

  abbrev pub ◌>>=◌ {ℓ κ} : {A : Type ℓ} {B : Type κ} → Draw S E A → (A → Draw S E B) → Draw S E B
  ◌>>=◌ m f s = after (m s) f

  abbrev pub ◌>>◌ {ℓ} : {B : Type ℓ} → Draw S E (Unit {0}) → Draw S E B → Draw S E B
  m >> k = m >>= λ _. k

  -- A step that draws nothing.
  abbrev pub lift {ℓ} : {A : Type ℓ} → Result E A → Draw S E A
  lift r s = (r, s)

  abbrev pub or_error {ℓ} : {A : Type ℓ} → E → Option A × S → Result E A × S
  or_error e (none, s) = (err e, s)
  or_error e (some a, s) = (ok a, s)

  after-eq-ok {ℓ κ} :
      {A : Type ℓ} {B : Type κ} (r : Result E A × S) (f : A → Draw S E B) {b : B}
      → (after r f).0 ≡ ok b
      → (a : A) × (r.0 ≡ ok a) × ((f a r.1).0 ≡ ok b)
  after-eq-ok (ok a, s) f h = (a, refl, h)
  after-eq-ok (err e, s) f h = cc

  -- A bind that succeeds: its first part did, and so did the rest from there.
  pub >>=-eq-ok {ℓ κ} :
      {A : Type ℓ} {B : Type κ} (m : Draw S E A) (f : A → Draw S E B) (s : S) {b : B}
      → ((m >>= f) s).0 ≡ ok b
      → (a : A) × ((m s).0 ≡ ok a) × ((f a (m s).1).0 ≡ ok b)
  >>=-eq-ok m f s h = after-eq-ok (m s) f h

-- A source that never fails.
pub record IsReliable {S : Type 0} (random : Random S) : Type 0 where
  pub reads : (n : ℕ) (s : S) → (b : Str) × ((random.read n s).0 ≡ some b)
  pub draws : (n : ℕ) (s : S) → 0 < n → (k : ℕ) × ((random.below n s).0 ≡ some k)
