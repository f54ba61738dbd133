-- ===== src/Auth/Recovery/Window.antt =====
-- Counting the failures in a quarter of an hour.
use nomadposting.Prelude.{
  ℕ, ◌+◌, ◌*◌, ◌≤◌, ◌<◌, ◌≡◌, refl, inl, inr, Bool, true, ◌&&◌, List, [], ◌∷◌, ◌++◌, length, ltb,
  leb, keep_if, All, if◌then◌else◌, arith, Bool-cases,
}
use nomadposting.Clock.{Time}
use nomadposting.Auth.Sessions.{nanos_per_minute}
use nomadposting.Auth.Recovery.{is_recent}

abbrev pub count : (Time → Bool) → List Time → ℕ
count test xs = length (keep_if test xs)

pub count-le :
    (p q : Time → Bool) (xs : List Time)
    → All (λ x. p x ≡ true → q x ≡ true) xs
    → count p xs ≤ count q xs
count-le p q [] h = omega arith
count-le p q (x ∷ xs) h = elim (Bool-cases (p x)) [
  | inl e ↦ ground (arith, h.0 e, count-le p q xs h.1)
  | inr e ↦ ground (arith, count-le p q xs h.1)
]

pub count-snoc :
    (p : Time → Bool) (xs : List Time) (x : Time)
    → count p (xs ++ x ∷ []) ≡ count p xs + (if p x then 1 else 0)
count-snoc p [] x = ground arith
count-snoc p (y ∷ xs) x = ground (arith, count-snoc p xs x)

-- What is recent later was recent before.
pub count-pruned :
    (at later : Time) (xs : List Time)
    → at ≤ later
    → count (is_recent later) (keep_if (is_recent at) xs) ≡ count (is_recent later) xs
count-pruned at later [] h = refl
count-pruned at later (x ∷ xs) h = ground (arith, count-pruned at later xs h)

-- The window of a quarter of an hour from `start`.
abbrev pub in_window : Time → Time → Bool
in_window start failure = leb start failure && ltb failure (start + 15 * nanos_per_minute)

in_window→is_recent :
    (start failure last at : Time)
    → at ≤ last
    → in_window start last ≡ true
    → in_window start failure ≡ true
    → is_recent at failure ≡ true
in_window→is_recent start failure last at h inside e = ground arith

All-recent :
    (start last at : Time) (xs : List Time)
    → at ≤ last
    → in_window start last ≡ true
    → All (λ x. in_window start x ≡ true → is_recent at x ≡ true) xs
All-recent start last at [] h inside = tt
All-recent start last at (x ∷ xs) h inside =
    (in_window→is_recent start x last at h inside, All-recent start last at xs h inside)

-- One more failure, with fewer than five recent ones when it was let through.
pub count-one_more :
    (start at last : Time) (xs : List Time)
    → at ≤ last
    → count (is_recent at) xs < 5
    → count (in_window start) xs ≤ 5
    → count (in_window start) (xs ++ last ∷ []) ≤ 5
count-one_more start at last xs h few before = elim (Bool-cases (in_window start last)) [
  | inl inside ↦ ground (
    arith,
    count-snoc (in_window start) xs last,
    count-le (in_window start) (is_recent at) xs (All-recent start last at xs h inside),
  )
  | inr outside ↦ ground (arith, count-snoc (in_window start) xs last)
]
