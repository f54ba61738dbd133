-- ===== src/Platform/Oauth/Requests.antt =====
-- internal/platform/xoauth.go: the requests of the token manager. The HTTP client and the clock share
-- a state.
use nomadposting.Prelude.{Option, Str, text, ok}
use nomadposting.Random.{Draw, ◌>>=◌, lift, or_error}
use nomadposting.Clock.{Time}
use nomadposting.Platform.X.Status.{Response}
use nomadposting.Platform.Oauth.Values.{Values, encode_values}
use nomadposting.Platform.Oauth.Answers.{
  OauthError, exchange_failed, Tokens, TokenResponse, tokens_of, accept_response,
}

pub record FormRequest : Type 0 where
  pub method : Str
  pub url : Str
  pub content_type : Str
  pub accept : Str
  pub body : Str

abbrev pub FormClient : Type 0 → Type 0
FormClient S = FormRequest → S → Option Response × S

abbrev pub token_endpoint : Str
token_endpoint = text "https://api.x.com/2/oauth2/token"

abbrev pub revoke_endpoint : Str
revoke_endpoint = text "https://api.x.com/2/oauth2/revoke"

abbrev pub post_form : Str → Values → FormRequest
post_form url values = record {
  method = text "POST";
  url = url;
  content_type = text "application/x-www-form-urlencoded";
  accept = text "application/json";
  body = encode_values values;
}

module _ {S : Type 0} (decode : Str → Option TokenResponse) (now : S → Time)
    (client : FormClient S) where
  abbrev pub ask : Str → Values → OauthError → Draw S OauthError Response
  ask url values e s = or_error e (client (post_form url values) s)

  abbrev stamped : TokenResponse → Draw S OauthError Tokens
  stamped t s = (ok (tokens_of t (now s)), s)

  -- `tokenRequest`.
  unfoldable pub token_request : Values → Draw S OauthError Tokens
  token_request values = do
    response ← ask token_endpoint values exchange_failed
    t ← lift (accept_response decode response)
    stamped t
