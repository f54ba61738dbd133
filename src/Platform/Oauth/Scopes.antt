-- ===== src/Platform/Oauth/Scopes.antt =====
-- internal/platform/xoauth.go: the scopes that a token must have, all of them and no other.
use nomadposting.Prelude.{
  ℕ, zero, suc, Bool, true, false, ◌&&◌, not, List, [], ◌∷◌, ◌++◌, Str, text, str_eq, length, ◌==◌,
  if◌then◌else◌,
}
use nomadposting.Prelude.Order.{sort_by}
use nomadposting.Unicode.{decode_rune, is_space_rune}

abbrev pub required_scopes : List Str
required_scopes =
    text "offline.access" ∷ text "tweet.read" ∷ text "tweet.write" ∷ text "users.read" ∷ []

-- The field at hand, if it has begun.
abbrev flush : Str → List Str → List Str
flush [] fields = fields
flush (c ∷ s) fields = (c ∷ s) ∷ fields

-- `strings.Fields`: the field at hand, how many more bytes the last rune takes, and whether it belongs
-- to the field.
unfoldable pub fields_from : Str → ℕ → Bool → Str → List Str
fields_from field skip inside [] = flush field []
fields_from field (suc k) inside (c ∷ s) =
    fields_from (if inside then field ++ c ∷ [] else field) k inside s
fields_from field zero inside (c ∷ s) =
    let (rune, extra) = decode_rune c s in
    elim (is_space_rune rune) [
      | true ↦ flush field (fields_from [] extra false s)
      | false ↦ fields_from (field ++ c ∷ []) extra true s
    ]

abbrev pub fields : Str → List Str
fields s = fields_from [] 0 true s

abbrev pub sort_strings : List Str → List Str
sort_strings = sort_by (λ s. s)

-- The comparison index by index, of lists of one length.
abbrev pub same_strings : List Str → List Str → Bool
same_strings [] [] = true
same_strings (s ∷ ss) (t ∷ ts) = str_eq s t && same_strings ss ts
same_strings _ _ = false

-- `hasExactlyRequiredScopes`.
unfoldable pub has_exactly_required_scopes : List Str → Bool
has_exactly_required_scopes scopes =
    if not (length scopes == length required_scopes)
    then false
    else same_strings (sort_strings scopes) required_scopes
