-- ===== src/Scenarios/Fixtures.antt =====
-- What the runs are over: a counting random source, a cipher that puts a sum of the key before the
-- text, and a checksum.
use nomadposting.Prelude.{
  ℕ, zero, suc, ◌+◌, ◌<◌, ◌%◌, ◌≡◌, refl, ap, subst, [], ◌∷◌, ◌++◌, Option, none, some, Str, str_eq,
  str_eq_iff, str_eq_refl, length, length-append, take, drop, take-append-drop, take-append_at,
  drop-append_at, if◌then◌else◌, arith,
}
use nomadposting.Random.{Random, IsReliable, ReadsBytes}
use nomadposting.Encoding.Base64.RoundTrip.{IsBytes}
use nomadposting.Secure.Envelope.{Aead, Envelope}

unfoldable pub fill : ℕ → ℕ → Str
fill b zero = []
fill b (suc n) = b ∷ fill b n

length-fill : (b n : ℕ) → length (fill b n) ≡ n
unfolding fill
length-fill b zero = refl
length-fill b (suc n) = ap suc (length-fill b n)

unfoldable pub draw_byte : ℕ → ℕ → Option Str × ℕ
unfolding fill
draw_byte n s = (some (fill (s % 256) n), suc s)

unfoldable pub draw_below : ℕ → ℕ → Option ℕ × ℕ
draw_below zero s = (none, s)
draw_below (suc n) s = (some (s % suc n), suc s)

pub draw_byte-length : (n s : ℕ) {b : Str} → (draw_byte n s).0 ≡ some b → length b ≡ n
unfolding draw_byte
draw_byte-length n s h = ground (arith, length-fill (s % 256) n)

pub draw_below-lt : (n s : ℕ) {k : ℕ} → (draw_below n s).0 ≡ some k → k < n
unfolding draw_below
draw_below-lt zero s h = cc
draw_below-lt (suc n) s h = ground arith

-- The state is the number of draws so far.
abbrev pub counter : Random ℕ
counter = record {
  read = draw_byte;
  below = draw_below;
  read_length = draw_byte-length;
  below_lt = draw_below-lt;
}

pub counter-IsReliable : IsReliable counter
unfolding draw_byte draw_below
counter-IsReliable = record {
  reads = λ n s. (fill (s % 256) n, refl);
  draws = λ n s h. positive n s h;
}
  where
    positive : (n s : ℕ) → 0 < n → (k : ℕ) × ((draw_below n s).0 ≡ some k)
    positive zero s h = absurd (omega arith)
    positive (suc n) s h = (s % suc n, refl)

fill-IsBytes : (b n : ℕ) → b < 256 → IsBytes (fill b n)
unfolding fill
fill-IsBytes b zero h = tt
fill-IsBytes b (suc n) h = (h, fill-IsBytes b n h)

pub counter-ReadsBytes : ReadsBytes counter
unfolding draw_byte
counter-ReadsBytes n s b h =
    let same : fill (s % 256) n ≡ b = ground arith in
    subst IsBytes same (fill-IsBytes (s % 256) n (omega arith))

sum : Str → ℕ
sum [] = 0
sum (b ∷ s) = b + sum s

unfoldable pub tag : Str → Str → Str → Str
unfolding sum fill
tag k n d = (sum k + sum n + sum d) ∷ fill 0 15

length-tag : (k n d : Str) → length (tag k n d) ≡ 16
unfolding tag
length-tag k n d = ap suc (length-fill 0 15)

unfoldable pub lock : (key nonce plaintext data_bound : Str) → Str
lock k n p d = tag k n d ++ p

unfoldable pub unlock : (key nonce ciphertext data_bound : Str) → Option Str
unlock k n c d = if str_eq (take 16 c) (tag k n d) then some (drop 16 c) else none

pub length-lock : (k n p d : Str) → length (lock k n p d) ≡ length p + 16
unfolding lock
length-lock k n p d = omega (arith, length-append {0} (tag k n d) p, length-tag k n d)

pub unlock-lock : (k n p d : Str) → unlock k n (lock k n p d) d ≡ some p
unfolding lock unlock
unlock-lock k n p d = rw (
  take-append_at 16 (tag k n d) p (length-tag k n d),
  drop-append_at 16 (tag k n d) p (length-tag k n d),
  str_eq_refl (tag k n d),
)

pub unlock_only : (k n c d : Str) {p : Str} → unlock k n c d ≡ some p → c ≡ lock k n p d
unfolding lock unlock
unlock_only k n c d h = ground (arith, str_eq_iff (take 16 c) (tag k n d), take-append-drop 16 c)

abbrev pub padlock : Aead
padlock = record {
  encrypt = lock;
  decrypt = unlock;
  length-encrypt = length-lock;
  decrypt-encrypt = unlock-lock;
  decrypt_only = unlock_only;
}

abbrev pub master_key : Str
master_key =
    1 ∷ 2 ∷ 3 ∷ 4 ∷ 5 ∷ 6 ∷ 7 ∷ 8 ∷ 9 ∷ 10 ∷ 11 ∷ 12 ∷ 13 ∷ 14 ∷ 15 ∷ 16 ∷ 1 ∷ 2 ∷ 3 ∷ 4 ∷ 5 ∷ 6 ∷ 7
    ∷ 8 ∷ 9 ∷ 10 ∷ 11 ∷ 12 ∷ 13 ∷ 14 ∷ 15 ∷ 16 ∷ []

abbrev pub envelope : Envelope
envelope = record { master = master_key }

unfoldable pub checksum : Str → Str
unfolding sum
checksum s = (sum s % 256) ∷ []
