-- ===== src/Platform/Oauth/Values.antt =====
-- internal/platform/xoauth.go: the form values of a request (`url.Values` of net/url).
use nomadposting.Prelude.{
  ℕ, ◌+◌, ◌-◌, ◌/◌, ◌%◌, Bool, ◌||◌, List, [], ◌∷◌, ◌++◌, Str, ltb, ◌==◌, in_range, if◌then◌else◌,
}
use nomadposting.Prelude.Order.{sort_by}

-- Each key has one value.
abbrev pub Values : Type 0
Values = List (Str × Str)

abbrev upper_hex : ℕ → ℕ
upper_hex n = if ltb n 10 then b'0' + n else b'A' + (n - 10)

abbrev is_unreserved : ℕ → Bool
is_unreserved c =
    in_range b'a' b'z' c
    || in_range b'A' b'Z' c
    || in_range b'0' b'9' c
    || (c == b'-' || c == b'_' || c == b'.' || c == b'~')

-- `url.QueryEscape`.
unfoldable pub query_escape : Str → Str
query_escape [] = []
query_escape (c ∷ s) =
    (if is_unreserved c
      then c ∷ []
      else if c == b' '
      then b'+' ∷ []
      else b'%' ∷ upper_hex (c / 16) ∷ upper_hex (c % 16) ∷ [])
    ++ query_escape s

abbrev escape_pair : Str × Str → Str
escape_pair p = query_escape p.0 ++ b'=' ∷ query_escape p.1

-- The pairs with an ampersand between them.
abbrev join_pairs : Values → Str
join_pairs [] = []
join_pairs (p ∷ []) = escape_pair p
join_pairs (p ∷ q ∷ ps) = escape_pair p ++ b'&' ∷ join_pairs (q ∷ ps)

-- `Encode`, which sorts by key.
unfoldable pub encode_values : Values → Str
unfolding query_escape
encode_values values = join_pairs (sort_by (λ p. p.0) values)
