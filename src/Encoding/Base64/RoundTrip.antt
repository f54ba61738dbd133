-- ===== src/Encoding/Base64/RoundTrip.antt =====
-- Decoding what was encoded.
use nomadposting.Prelude.{
  ℕ, ◌+◌, ◌*◌, ◌/◌, ◌%◌, ◌<◌, ◌≡◌, refl, ap, false, not, some, [], ◌∷◌, map, Str, keep_if, All,
  arith,
}
use nomadposting.Encoding.Base64.{
  sextet, sextet_value, base64_encode, sextet_values, from_sextets, is_newline, base64_decode,
}

abbrev pub IsBytes : Str → Type 0
IsBytes = All (λ b. b < 256)

sextet_value-sextet : (n : ℕ) → n < 64 → sextet_value (sextet n) ≡ some n
sextet_value-sextet n h = ground arith

is_newline-sextet : (n : ℕ) → is_newline (sextet n) ≡ false
is_newline-sextet n = ground arith

-- The 6-bit groups of some bytes.
abbrev sextets : Str → Str
sextets [] = []
sextets (a ∷ []) = (a / 4) ∷ (a % 4 * 16) ∷ []
sextets (a ∷ b ∷ []) = (a / 4) ∷ (a % 4 * 16 + b / 16) ∷ (b % 16 * 4) ∷ []
sextets (a ∷ b ∷ c ∷ s) =
    (a / 4) ∷ (a % 4 * 16 + b / 16) ∷ (b % 16 * 4 + c / 64) ∷ (c % 64) ∷ sextets s

base64_encode-sextets : (s : Str) → base64_encode s ≡ map sextet (sextets s)
unfolding base64_encode
base64_encode-sextets [] = refl
base64_encode-sextets (a ∷ []) = refl
base64_encode-sextets (a ∷ b ∷ []) = refl
base64_encode-sextets (a ∷ b ∷ c ∷ s) =
    ap
      (λ t.
        sextet (a / 4)
        ∷ sextet (a % 4 * 16 + b / 16)
        ∷ sextet (b % 16 * 4 + c / 64)
        ∷ sextet (c % 64)
        ∷ t)
      (base64_encode-sextets s)

sextets-small : (s : Str) → IsBytes s → All (λ n. n < 64) (sextets s)
sextets-small [] h = tt
sextets-small (a ∷ []) h = (omega arith, (omega arith, tt))
sextets-small (a ∷ b ∷ []) h = (omega arith, (omega arith, (omega arith, tt)))
sextets-small (a ∷ b ∷ c ∷ s) h =
    (omega arith, (omega arith, (omega arith, (omega arith, sextets-small s h.1.1.1))))

sextet_values-map : (ns : Str) → All (λ n. n < 64) ns → sextet_values (map sextet ns) ≡ some ns
unfolding sextet_values
sextet_values-map [] h = refl
sextet_values-map (n ∷ ns) h = ground (arith, sextet_value-sextet n h.0, sextet_values-map ns h.1)

kept-map : (ns : Str) → keep_if (λ c. not (is_newline c)) (map sextet ns) ≡ map sextet ns
kept-map [] = refl
kept-map (n ∷ ns) = ground (arith, is_newline-sextet n, kept-map ns)

-- The bytes put together again.
joined_first : (a b : ℕ) → a < 256 → b < 256 → a / 4 * 4 + (a % 4 * 16 + b / 16) / 16 ≡ a
joined_first a b h h' = omega arith

joined_middle :
    (a b c : ℕ)
    → b < 256
    → c < 256
    → (a % 4 * 16 + b / 16) % 16 * 16 + (b % 16 * 4 + c / 64) / 4 ≡ b
joined_middle a b c h h' = omega arith

joined_last : (b c : ℕ) → c < 256 → (b % 16 * 4 + c / 64) % 4 * 64 + c % 64 ≡ c
joined_last b c h = omega arith

from_sextets-sextets : (s : Str) → IsBytes s → from_sextets (sextets s) ≡ some s
unfolding from_sextets
from_sextets-sextets [] h = refl
from_sextets-sextets (a ∷ []) h =
    let whole : a / 4 * 4 + a % 4 * 16 / 16 ≡ a = omega arith in ap (λ n. some (n ∷ [])) whole
from_sextets-sextets (a ∷ b ∷ []) h =
    ground (arith, joined_first a b h.0 h.1.0, joined_middle a b 0 h.1.0 (omega arith))
from_sextets-sextets (a ∷ b ∷ c ∷ s) h = ground (
  arith,
  joined_first a b h.0 h.1.0,
  joined_middle a b c h.1.0 h.1.1.0,
  joined_last b c h.1.1.0,
  from_sextets-sextets s h.1.1.1,
)

-- What was encoded, decodes to the same bytes.
pub base64_decode-encode : (s : Str) → IsBytes s → base64_decode (base64_encode s) ≡ some s
unfolding base64_decode
base64_decode-encode s h = ground (
  arith,
  base64_encode-sextets s,
  kept-map (sextets s),
  sextet_values-map (sextets s) (sextets-small s h),
  from_sextets-sextets s h,
)
