-- ===== src/Platform/Oauth/Bearer.antt =====
-- internal/platform/xoauth.go: where the token of a publication comes from.
use nomadposting.Prelude.{
  ◌+◌, ◌*◌, ◌≤◌, ◌<◌, ◌≡◌, subst, inl, inr, none, some, Str, ltb→lt, ok, arith, Bool-cases,
  Result-cases,
}
use nomadposting.Platform.Oauth.Answers.{Tokens}
use nomadposting.Platform.Oauth.Custody.{Parts, load_tokens, is_fresh, bearer_token}
use nomadposting.Platform.Oauth.Renewed.{
  Stored, Renewal, load_tokens_inv, refresh_bearer_token-Renewal,
}

module _ {S : Type 0} (p : Parts S) where
  -- Where a bearer token comes from: the stored record, or a renewal of it.
  pub data Bearer (s : S) (token : Str) : Type 0 where
    stored :
        (t : Tokens)
        → Stored p s t
        → token ≡ t.access_token
        → p.now (p.vault.load s).1 + 30 * 1000000000 < t.expires_at
        → (bearer_token p s).1 ≡ (p.vault.load s).1
        → Bearer s token
    renewal :
        (t : Tokens)
        → Stored p s t
        → t.expires_at ≤ p.now (p.vault.load s).1 + 30 * 1000000000
        → Renewal p (p.vault.load s).1 token (bearer_token p s).1
        → Bearer s token

  -- A token that `BearerToken` hands out is one of two. It is the access token of the record in the vault,
  -- which meets the policy (both tokens there, exactly the required scopes) and is good for more
  -- than 30 seconds, and then nothing but the vault was asked. Or that record is good for no longer,
  -- the refresh token that the vault holds was sent to the token endpoint, and the token is the one in
  -- the answer's decoded body, which came whole in at most 32 KiB with status 200, exactly the
  -- required scopes and a life of a second to a day; and the vault was given, and kept, the record of
  -- that answer first, with the old refresh token if the answer names none.
  pub bearer_token-Bearer : (s : S) (token : Str) → (bearer_token p s).0 ≡ ok token → Bearer s token
  unfolding bearer_token
  bearer_token-Bearer s token h = elim (Result-cases (load_tokens p s).0) [
    | inl (_, e) ↦ absurd (ground arith)
    | inr (none, e) ↦ absurd (ground arith)
    | inr (some t, e) ↦
        let (held, at) = load_tokens_inv p s t e in
        let s' = (p.vault.load s).1 in
        elim (Bool-cases (is_fresh p t (p.now s'))) [
          | inl fresh ↦
              stored t held (ground arith) (ltb→lt (p.now s' + 30 * 1000000000) t.expires_at fresh)
                (ground arith)
          | inr stale ↦ renewal t held (ground arith) (
              subst (Renewal p s' token) (ground arith)
                (refresh_bearer_token-Renewal p s' token (ground arith)))
        ]
  ]
