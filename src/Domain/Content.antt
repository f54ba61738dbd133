-- ===== src/Domain/Content.antt =====
-- internal/domain/state.go: `NormalizeContent`.
pub mod Normal
use nomadposting.Prelude.{
  ℕ, ◌+◌, ◌/◌, ◌%◌, ◌≡◌, refl, Bool, true, false, not, ◌&&◌, ◌||◌, List, [], ◌∷◌, ◌++◌, map, Option,
  none, some, Str, text, has_byte, ltb, ◌==◌, in_range, Result, ok, err, ◌>>=◌, ◌>>◌, reject_if,
  if◌then◌else◌,
}
use nomadposting.Unicode.{valid_string, is_blank, decode_rune}
use nomadposting.Errors.{Error, invalid_content, no_destination}

abbrev pub cr : ℕ
cr = 0x0d

abbrev pub lf : ℕ
lf = 0x0a

starts_lf : Str → Bool
starts_lf [] = false
starts_lf (c ∷ _) = c == lf

-- `strings.ReplaceAll(s, "\r\n", "\n")`: a CR before a LF goes.
unfoldable pub replace_crlf : Str → Str
unfolding starts_lf
replace_crlf [] = []
replace_crlf (c ∷ s) =
    let rest = replace_crlf s in if c == cr && starts_lf s then rest else c ∷ rest

-- `strings.ReplaceAll(s, "\r", "\n")`.
unfoldable pub replace_cr : Str → Str
replace_cr [] = []
replace_cr (c ∷ s) = (if c == cr then lf else c) ∷ replace_cr s

unfoldable pub to_lf : Str → Str
unfolding replace_crlf replace_cr
to_lf s = replace_cr (replace_crlf s)

-- The test of `NormalizeContent` on the text with its line ends replaced.
unfoldable pub is_publishable : Str → Bool
is_publishable s = not (not (valid_string s) || has_byte 0 s || is_blank s)

unfoldable pub normalize_content : Str → Result Error Str
unfolding is_publishable
normalize_content content =
    let s = to_lf content in if is_publishable s then ok s else err invalid_content
