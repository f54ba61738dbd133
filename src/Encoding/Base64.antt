-- ===== src/Encoding/Base64.antt =====
-- `base64.RawURLEncoding` of Go, which internal/platform/xoauth.go and internal/auth/passkeys.go use
-- for their tokens.
pub mod RoundTrip
use nomadposting.Prelude.{
  ℕ, ◌+◌, ◌-◌, ◌*◌, ◌/◌, ◌%◌, Bool, true, false, not, ◌||◌, Option, none, some, List, [], ◌∷◌, Str,
  ltb, ◌==◌, in_range, keep_if, if◌then◌else◌,
}

abbrev pub sextet : ℕ → ℕ
sextet n =
    if ltb n 26
    then b'A' + n
    else if ltb n 52
    then b'a' + (n - 26)
    else if ltb n 62
    then b'0' + (n - 52)
    else if n == 62
    then b'-'
    else b'_'

abbrev pub sextet_value : ℕ → Option ℕ
sextet_value c =
    if in_range b'A' b'Z' c
    then some (c - b'A')
    else if in_range b'a' b'z' c
    then some (c - b'a' + 26)
    else if in_range b'0' b'9' c
    then some (c - b'0' + 52)
    else if c == b'-'
    then some 62
    else if c == b'_'
    then some 63
    else none

-- `EncodeToString`.
unfoldable pub base64_encode : Str → Str
base64_encode [] = []
base64_encode (a ∷ []) = sextet (a / 4) ∷ sextet (a % 4 * 16) ∷ []
base64_encode (a ∷ b ∷ []) =
    sextet (a / 4) ∷ sextet (a % 4 * 16 + b / 16) ∷ sextet (b % 16 * 4) ∷ []
base64_encode (a ∷ b ∷ c ∷ s) =
    sextet (a / 4)
    ∷ sextet (a % 4 * 16 + b / 16)
    ∷ sextet (b % 16 * 4 + c / 64)
    ∷ sextet (c % 64)
    ∷ base64_encode s

abbrev prepend : ℕ → Option Str → Option Str
prepend n none = none
prepend n (some s) = some (n ∷ s)

abbrev pub with_value : Option ℕ → Option Str → Option Str
with_value none s = none
with_value (some n) s = prepend n s

unfoldable pub sextet_values : Str → Option Str
sextet_values [] = some []
sextet_values (c ∷ s) = with_value (sextet_value c) (sextet_values s)

-- The bytes of the groups; unused low bits of the last one are not looked at.
unfoldable pub from_sextets : Str → Option Str
from_sextets [] = some []
from_sextets (p ∷ []) = none
from_sextets (p ∷ q ∷ []) = some ((p * 4 + q / 16) ∷ [])
from_sextets (p ∷ q ∷ r ∷ []) = some ((p * 4 + q / 16) ∷ (q % 16 * 16 + r / 4) ∷ [])
from_sextets (p ∷ q ∷ r ∷ t ∷ s) =
    prepend (p * 4 + q / 16)
      (prepend (q % 16 * 16 + r / 4) (prepend (r % 4 * 64 + t) (from_sextets s)))

abbrev pub grouped : Option Str → Option Str
grouped none = none
grouped (some values) = from_sextets values

abbrev pub is_newline : ℕ → Bool
is_newline c = c == 0x0a || c == 0x0d

-- `DecodeString`, which passes over line ends.
unfoldable pub base64_decode : Str → Option Str
unfolding from_sextets sextet_values
base64_decode s = grouped (sextet_values (keep_if (λ c. not (is_newline c)) s))
