-- ===== src/Platform/X/Text.antt =====
-- internal/platform/x.go: the local checks of a text and its weighted length. The pattern is
-- `https?://[^\s]+`, whose `\s` is ASCII white space, so that it can be matched byte by byte.
use nomadposting.Prelude.{
  ℕ, zero, suc, ◌+◌, ◌-◌, Bool, true, false, not, ◌&&◌, ◌||◌, List, [], ◌∷◌, map, Option, none,
  some, Str, text, take, drop, all, ltb, ◌==◌, in_range, Result, ◌>>◌, reject_if, if◌then◌else◌,
}
use nomadposting.Unicode.{runes, valid_string, is_blank}
use nomadposting.Platform.Contracts.{x}
use nomadposting.Platform.Errors.{PlatformError, failure, invalid_payload}

abbrev pub max_weighted_length : ℕ
max_weighted_length = 280

abbrev pub transformed_url_length : ℕ
transformed_url_length = 23

-- `\s` of a pattern.
abbrev pub is_pattern_space : ℕ → Bool
is_pattern_space c = c == 0x09 || c == 0x0a || c == 0x0c || c == 0x0d || c == 0x20

-- How many bytes at the front are no white space.
abbrev pub run_length : Str → ℕ
run_length [] = 0
run_length (c ∷ s) = let rest = run_length s in if is_pattern_space c then 0 else suc rest

abbrev has_prefix : Str → Str → Bool
has_prefix [] s = true
has_prefix (c ∷ p) [] = false
has_prefix (c ∷ p) (d ∷ s) = c == d && has_prefix p s

-- The match behind a scheme of `n` bytes: its length, or 0 for none.
abbrev url_behind : ℕ → Str → ℕ
url_behind n s = let run = run_length (drop n s) in if run == 0 then 0 else n + run

-- The length of the match that begins at the front, or 0 for none.
unfoldable pub url_length : Str → ℕ
url_length s =
    if has_prefix (text "https://") s
    then url_behind 8 s
    else if has_prefix (text "http://") s
    then url_behind 7 s
    else 0

-- `FindAllStringIndex`: the matches from left to right, each behind the one before. The arguments are
-- the index of the text at hand and how much of a match is still to skip.
unfoldable pub find_from : ℕ → ℕ → Str → List (ℕ × ℕ)
unfolding url_length
find_from i skip [] = []
find_from i (suc k) (c ∷ s) = find_from (i + 1) k s
find_from i zero (c ∷ s) = elim (url_length (c ∷ s)) [
  | zero ↦ find_from (i + 1) 0 s
  | suc n ↦ (i, i + suc n) ∷ find_from (i + 1) n s
]

abbrev is_light : ℕ → Bool
is_light r =
    in_range 0 0x10ff r
    || in_range 0x2000 0x200d r
    || in_range 0x2010 0x201f r
    || in_range 0x2032 0x2037 r

-- A byte that decodes to no rune is read as U+FFFD, which counts two.
abbrev rune_weight : Option ℕ → ℕ
rune_weight none = 2
rune_weight (some r) = if is_light r then 1 else 2

abbrev sum : List ℕ → ℕ
sum [] = 0
sum (n ∷ ns) = n + sum ns

-- `xRuneWeight`.
unfoldable pub x_rune_weight : Str → ℕ
x_rune_weight s = sum (map rune_weight (runes s))

-- The loop of `XWeightedLength`, with its variables `weight` and `last`.
unfoldable pub weigh : Str → ℕ → ℕ → List (ℕ × ℕ) → ℕ
unfolding x_rune_weight
weigh s weight last [] = weight + x_rune_weight (drop last s)
weigh s weight last (location ∷ locations) =
    weigh s
      (weight + x_rune_weight (take (location.0 - last) (drop last s)) + transformed_url_length)
      location.1 locations

unfoldable pub x_weighted_length : Str → ℕ
unfolding find_from weigh
x_weighted_length s = weigh s 0 0 (find_from 0 0 s)

abbrev is_allowed_rune : Option ℕ → Bool
is_allowed_rune none = true
is_allowed_rune (some r) =
    not
      (ltb r 0x20 && not (r == 0x0a) && not (r == 0x0d) && not (r == 0x09) || in_range 0x7f 0x9f r)

abbrev invalid : Str → PlatformError
invalid = failure x invalid_payload

-- `ValidateXText`.
unfoldable pub validate_x_text : Str → Result PlatformError (Unit {0})
unfolding x_weighted_length
validate_x_text s = do
  reject_if (not (valid_string s)) (invalid (text "text is not valid UTF-8"))
  reject_if (is_blank s) (invalid (text "text is empty"))
  reject_if (not (all is_allowed_rune (runes s)))
      (invalid (text "text contains a disallowed control character"))
  reject_if (ltb max_weighted_length (x_weighted_length s))
      (invalid (text "text exceeds the weighted length limit"))
