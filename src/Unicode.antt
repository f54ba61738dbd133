-- ===== src/Unicode.antt =====
-- The functions of Go's `unicode/utf8`, `unicode` and `strings` that the program calls, on the
-- bytes of a string. An ill-formed byte decodes to `none` and one byte, as `utf8.RuneError` does.
use nomadposting.Prelude.{
  ℕ, zero, suc, ◌+◌, ◌-◌, ◌*◌, Bool, true, false, ◌&&◌, ◌||◌, Option, none, some, List, [], ◌∷◌,
  Str, leb, ◌==◌, in_range, all, if◌then◌else◌,
}

-- Continuation byte.
abbrev is_cont : ℕ → Bool
is_cont b = in_range 0x80 0xbf b

-- What a rune that fails to decode counts as: one byte, no rune.
abbrev bad_rune : Option ℕ × ℕ
bad_rune = (none, 0)

two_bytes : ℕ → Str → Option ℕ × ℕ
two_bytes a (b ∷ _) = if is_cont b then (some ((a - 0xc0) * 64 + (b - 0x80)), 1) else bad_rune
two_bytes a _ = bad_rune

-- `lo` and `hi` bound the second byte: they exclude overlong forms and surrogates.
three_bytes : ℕ → ℕ → ℕ → Str → Option ℕ × ℕ
three_bytes lo hi a (b ∷ c ∷ _) =
    if in_range lo hi b && is_cont c
    then (some ((a - 0xe0) * 4096 + (b - 0x80) * 64 + (c - 0x80)), 2)
    else bad_rune
three_bytes lo hi a _ = bad_rune

four_bytes : ℕ → ℕ → ℕ → Str → Option ℕ × ℕ
four_bytes lo hi a (b ∷ c ∷ d ∷ _) =
    if in_range lo hi b && is_cont c && is_cont d
    then (some ((a - 0xf0) * 262144 + (b - 0x80) * 4096 + (c - 0x80) * 64 + (d - 0x80)), 3)
    else bad_rune
four_bytes lo hi a _ = bad_rune

-- `utf8.DecodeRune` on a first byte and what follows: the rune, and how many more bytes it takes.
unfoldable pub decode_rune : ℕ → Str → Option ℕ × ℕ
unfolding two_bytes three_bytes four_bytes
decode_rune a s =
    if leb a 0x7f
    then (some a, 0)
    else if in_range 0xc2 0xdf a
    then two_bytes a s
    else if a == 0xe0
    then three_bytes 0xa0 0xbf a s
    else if a == 0xed
    then three_bytes 0x80 0x9f a s
    else if in_range 0xe1 0xef a
    then three_bytes 0x80 0xbf a s
    else if a == 0xf0
    then four_bytes 0x90 0xbf a s
    else if a == 0xf4
    then four_bytes 0x80 0x8f a s
    else if in_range 0xf1 0xf3 a
    then four_bytes 0x80 0xbf a s
    else bad_rune

-- The runes that `range` visits; the first argument counts bytes of the last rune still to skip.
unfoldable pub runes_from : ℕ → Str → List (Option ℕ)
runes_from skip [] = []
runes_from zero (a ∷ s) = let (r, extra) = decode_rune a s in r ∷ runes_from extra s
runes_from (suc k) (a ∷ s) = runes_from k s

abbrev pub runes : Str → List (Option ℕ)
runes = runes_from 0

abbrev pub is_some_rune : Option ℕ → Bool
is_some_rune none = false
is_some_rune (some r) = true

-- `utf8.ValidString`.
unfoldable pub valid_string : Str → Bool
valid_string s = all is_some_rune (runes s)

-- `unicode.IsSpace`.
unfoldable pub is_space : ℕ → Bool
is_space r =
    in_range 0x09 0x0d r
    || r == 0x20
    || r == 0x85
    || r == 0xa0
    || r == 0x1680
    || in_range 0x2000 0x200a r
    || r == 0x2028
    || r == 0x2029
    || r == 0x202f
    || r == 0x205f
    || r == 0x3000

unfoldable pub is_space_rune : Option ℕ → Bool
unfolding is_space
is_space_rune none = false
is_space_rune (some r) = is_space r

-- `strings.TrimSpace(s) == ""`.
unfoldable pub is_blank : Str → Bool
is_blank s = all is_space_rune (runes s)
