-- ===== src/Json.antt =====
-- What the program uses of encoding/json to write texts and numbers.
use nomadposting.Prelude.{
  ℕ, zero, suc, ◌/◌, ◌%◌, Bool, true, false, ◌&&◌, ◌||◌, [], ◌∷◌, ◌++◌, Option, none, some, Str,
  text, ltb, ◌==◌, if◌then◌else◌,
}
use nomadposting.Unicode.{decode_rune}
use nomadposting.Encoding.{hex_digit}

-- How encoding/json writes an ASCII byte inside a string; the HTML characters are
-- escaped unless `SetEscapeHTML(false)` was called.
escape_ascii : Bool → ℕ → Str
unfolding hex_digit
escape_ascii html b =
    if b == b'"'
    then text "\\\""
    else if b == b'\\'
    then text "\\\\"
    else if b == 0x08
    then text "\\b"
    else if b == 0x0c
    then text "\\f"
    else if b == 0x0a
    then text "\\n"
    else if b == 0x0d
    then text "\\r"
    else if b == 0x09
    then text "\\t"
    else if ltb b 0x20 || (html && (b == b'<' || b == b'>' || b == b'&'))
    then text "\\u00" ++ hex_digit (b / 16) ∷ hex_digit (b % 16) ∷ []
    else b ∷ []

-- How the byte at the head of a string is written: what goes out for it, whether the other bytes of
-- its rune are copied, and how many those are.
pub record Escaped : Type 0 where
  pub out : Str
  pub copies : Bool
  pub extra : ℕ

escape_rune : ℕ → Option ℕ × ℕ → Escaped
unfolding hex_digit
escape_rune a (none, extra) = record { out = text "\\ufffd"; copies = true; extra = 0 }
escape_rune a (some r, extra) =
    if r == 0x2028 || r == 0x2029
    then record { out = text "\\u202" ++ hex_digit (r % 16) ∷ []; copies = false; extra = extra }
    else record { out = a ∷ []; copies = true; extra = extra }

escape_head : Bool → ℕ → Str → Escaped
unfolding escape_ascii escape_rune
escape_head html a s =
    if ltb a 0x80
    then record { out = escape_ascii html a; copies = true; extra = 0 }
    else escape_rune a (decode_rune a s)

escape_from : (html copies : Bool) → ℕ → Str → Str
unfolding escape_head
escape_from html copies skip [] = []
escape_from html copies zero (a ∷ s) =
    let e = escape_head html a s in e.out ++ escape_from html e.copies e.extra s
escape_from html copies (suc k) (a ∷ s) =
    let rest = escape_from html copies k s in if copies then a ∷ rest else rest

-- A JSON string.
unfoldable pub json_string : Bool → Str → Str
unfolding escape_from
json_string html s = b'"' ∷ escape_from html true 0 s ++ b'"' ∷ []
