-- ===== src/Platform/Oauth/Answers.antt =====
-- internal/platform/xoauth.go: what is accepted as an answer to a request for tokens. `decode` is
-- `json.Unmarshal` into a token response.
use nomadposting.Prelude.{
  ℕ, ◌+◌, ◌*◌, Bool, not, ◌||◌, List, Option, Str, text, str_eq, length, ◌==◌, ℤ, pos, ltb_ℤ,
  pos_part, Result, ok, err, ◌>>=◌, ◌>>◌, reject_if, or_fail,
}
use nomadposting.Clock.{Time}
use nomadposting.Platform.X.Status.{
  Response, Bounded, unreadable, too_large, read, read_bounded, nanos_per_second,
}
use nomadposting.Platform.Nostr.Event.{to_lower}
use nomadposting.Platform.Oauth.Scopes.{fields, sort_strings, has_exactly_required_scopes}

pub data OauthError : Type 0 where
  no_binding no_entropy bad_state_text invalid_state expired_state invalid_code : OauthError
  exchange_failed invalid_response incomplete_response wrong_scopes no_offline_token : OauthError
  exchange_status : ℕ → OauthError
  vault_failed unencodable invalid_record record_violates_policy : OauthError
  not_configured no_stored_refresh_token : OauthError
  revocation_unknown invalid_revocation : OauthError
  revocation_status : ℕ → OauthError

-- `XOAuthTokens`.
pub record Tokens : Type 0 where
  pub access_token : Str
  pub refresh_token : Str
  pub token_type : Str
  pub scopes : List Str
  pub expires_at : Time

-- `xTokenResponse`.
pub record TokenResponse : Type 0 where
  pub access_token : Str
  pub refresh_token : Str
  pub token_type : Str
  pub expires_in : ℤ
  pub scope : Str

abbrev pub body_limit : ℕ
body_limit = 32 * 1024

abbrev pub read_body : OauthError → Bounded → Result OauthError Str
read_body e unreadable = err e
read_body e too_large = err e
read_body e (read body) = ok body

-- An answer that says too little, or of which the program accepts nothing. `strings.EqualFold` with
-- an ASCII word in which no letter has a fold beyond ASCII compares lower case.
abbrev pub is_incomplete : TokenResponse → Bool
is_incomplete t =
    length t.access_token == 0
    || not (str_eq (to_lower t.token_type) (text "bearer"))
    || (ltb_ℤ t.expires_in (pos 1) || ltb_ℤ (pos 86400) t.expires_in)

abbrev pub tokens_of : TokenResponse → Time → Tokens
tokens_of t now = record {
  access_token = t.access_token;
  refresh_token = t.refresh_token;
  token_type = text "Bearer";
  scopes = sort_strings (fields t.scope);
  expires_at = now + pos_part t.expires_in * nanos_per_second;
}

-- What `tokenRequest` makes of the response.
unfoldable pub accept_response :
    (Str → Option TokenResponse) → Response → Result OauthError TokenResponse
unfolding has_exactly_required_scopes
accept_response decode response = do
  body ← read_body invalid_response (read_bounded response body_limit)
  reject_if (not (response.status == 200)) (exchange_status response.status)
  t ← or_fail (decode body) invalid_response
  reject_if (is_incomplete t) incomplete_response
  reject_if (not (has_exactly_required_scopes (sort_strings (fields t.scope)))) wrong_scopes
  ok t
