-- ===== src/Platform/Oauth/Custody.antt =====
-- internal/platform/xoauth.go: the stored tokens. The vault is an interface of the code; `encode` and
-- `decode_record` are encoding/json on the stored record.
use nomadposting.Prelude.{
  ℕ, ◌+◌, ◌*◌, Bool, true, false, not, ◌||◌, [], ◌∷◌, Option, none, some, Str, text, length, ltb,
  leb, ◌==◌, Result, ok, err, reject_if, or_fail, if◌then◌else◌,
}
use nomadposting.Random.{Draw, ◌>>=◌, ◌>>◌, lift, or_error}
use nomadposting.Clock.{Time}
use nomadposting.Platform.X.Status.{Response, read_bounded, nanos_per_second}
use nomadposting.Platform.Oauth.Values.{Values}
use nomadposting.Platform.Oauth.Scopes.{has_exactly_required_scopes}
use nomadposting.Platform.Oauth.Answers.{
  OauthError, vault_failed, unencodable, invalid_record, record_violates_policy, not_configured,
  no_stored_refresh_token, revocation_unknown, invalid_revocation, revocation_status, Tokens,
  TokenResponse, body_limit, read_body,
}
use nomadposting.Platform.Oauth.Requests.{FormClient, revoke_endpoint, ask, token_request}

-- `XOAuthVault`. Saving and deleting tell whether they succeeded; loading fails, or finds a record or
-- not.
pub record Vault (S : Type 0) : Type 0 where
  pub save : Str → Time → S → Bool × S
  pub load : S → Option (Option Str) × S
  pub delete : S → Bool × S

-- The functions that are given to the manager.
pub record Parts (S : Type 0) : Type 0 where
  pub client_id : Str
  pub redirect_uri : Str
  pub decode : Str → Option TokenResponse
  pub encode : Tokens → Option Str
  pub decode_record : Str → Option Tokens
  pub now : S → Time
  pub client : FormClient S
  pub vault : Vault S

abbrev done_or : {S : Type 0} → OauthError → Bool × S → Result OauthError (Unit {0}) × S
done_or e (true, s) = (ok tt, s)
done_or e (false, s) = (err e, s)

abbrev pub violates_policy : Tokens → Bool
violates_policy t =
    length t.access_token == 0
    || length t.refresh_token == 0
    || not (has_exactly_required_scopes t.scopes)

abbrev with_refresh_token : Str → Tokens → Tokens
with_refresh_token refresh_token t = record {
  access_token = t.access_token;
  refresh_token = refresh_token;
  token_type = t.token_type;
  scopes = t.scopes;
  expires_at = t.expires_at;
}

-- The answer's refresh token, or the one in use if it names none.
abbrev pub renewed : Tokens → Tokens → Tokens
renewed current updated =
    if length updated.refresh_token == 0
    then with_refresh_token current.refresh_token updated
    else updated

abbrev confirmed : ℕ → Result OauthError Str → Result OauthError (Unit {0})
confirmed status (err e) = err e
confirmed status (ok body) = reject_if (ltb status 200 || leb 300 status) (revocation_status status)

module _ {S : Type 0} (p : Parts S) where
  -- `tokenRequest` of the manager.
  abbrev pub request_tokens : Values → Draw S OauthError Tokens
  request_tokens = token_request p.decode p.now p.client

  abbrev pub stored_at : Str → Draw S OauthError (Unit {0})
  stored_at encoded s = done_or vault_failed (p.vault.save encoded (p.now s) s)

  -- `saveTokens`.
  unfoldable pub save_tokens : Tokens → Draw S OauthError (Unit {0})
  save_tokens t = do encoded ← lift (or_fail (p.encode t) unencodable); stored_at encoded

  -- What `loadTokens` makes of what the vault holds.
  unfoldable pub check_record : Option Str → Result OauthError (Option Tokens)
  check_record none = ok none
  check_record (some encoded) = elim (p.decode_record encoded) [
    | none ↦ err invalid_record
    | some t ↦ if violates_policy t then err record_violates_policy else ok (some t)
  ]

  -- `loadTokens`.
  unfoldable pub load_tokens : Draw S OauthError (Option Tokens)
  unfolding check_record
  load_tokens = do found ← λ s. or_error vault_failed (p.vault.load s); lift (check_record found)

  abbrev is_found : Result OauthError (Option Tokens) → Bool
  is_found (ok (some t)) = true
  is_found (ok none) = false
  is_found (err e) = false

  -- `Connected`.
  unfoldable pub connected : S → Bool × S
  unfolding load_tokens
  connected s = let (answer, s') = load_tokens s in (is_found answer, s')

  abbrev pub refresh_values : Tokens → Values
  refresh_values current =
      (text "refresh_token", current.refresh_token)
      ∷ (text "grant_type", text "refresh_token")
      ∷ (text "client_id", p.client_id)
      ∷ []

  abbrev refreshable : Option Tokens → Result OauthError Tokens
  refreshable none = err no_stored_refresh_token
  refreshable (some t) = if length t.refresh_token == 0 then err no_stored_refresh_token else ok t

  -- `RefreshBearerToken`.
  unfoldable pub refresh_bearer_token : Draw S OauthError Str
  unfolding load_tokens save_tokens
  refresh_bearer_token = do
    found ← load_tokens
    current ← lift (refreshable found)
    updated ← request_tokens (refresh_values current)
    save_tokens (renewed current updated)
    lift (ok updated.access_token)

  -- Whether a token is used without a refresh.
  abbrev pub is_fresh : Tokens → Time → Bool
  is_fresh t now = ltb (now + 30 * nanos_per_second) t.expires_at

  abbrev pub fresh_or_refreshed : Option Tokens → Draw S OauthError Str
  fresh_or_refreshed none s = (err not_configured, s)
  fresh_or_refreshed (some t) s =
      if is_fresh t (p.now s) then (ok t.access_token, s) else refresh_bearer_token s

  -- `BearerToken`.
  unfoldable pub bearer_token : Draw S OauthError Str
  unfolding refresh_bearer_token
  bearer_token = do found ← load_tokens; fresh_or_refreshed found

  abbrev pub revoked_token : Tokens → Str
  revoked_token t = if length t.refresh_token == 0 then t.access_token else t.refresh_token

  abbrev pub revoke_values : Tokens → Values
  revoke_values t = (text "token", revoked_token t) ∷ (text "client_id", p.client_id) ∷ []

  -- Whether the answer confirms a revocation.
  unfoldable pub confirm_revocation : Response → Result OauthError (Unit {0})
  confirm_revocation response =
      confirmed response.status (read_body invalid_revocation (read_bounded response body_limit))

  abbrev pub revoke_found : Option Tokens → Draw S OauthError (Unit {0})
  revoke_found none = lift (ok tt)
  revoke_found (some t) = do
    response ← ask p.decode p.now p.client revoke_endpoint (revoke_values t) revocation_unknown
    lift (confirm_revocation response)
    λ s. done_or vault_failed (p.vault.delete s)

  -- `Revoke`.
  unfoldable pub revoke : Draw S OauthError (Unit {0})
  unfolding confirm_revocation
  revoke = do found ← load_tokens; revoke_found found
