-- ===== src/Platform/Oauth/Revoked.antt =====
-- internal/platform/xoauth.go: what a revocation leaves in the vault.
use nomadposting.Prelude.{
  ◌≤◌, ◌<◌, ◌≡◌, ◌≢◌, ◌↔◌, inl, inr, true, Option, [], ◌∷◌, ◌*◌, none, some, Option-cases, text,
  length, ◌==◌, if◌then◌else◌, Result, ok, arith, Result-cases,
}
use nomadposting.Platform.X.Status.{Response, read_bounded}
use nomadposting.Platform.Oauth.Bodies.{IsWhole, read_body_inv}
use nomadposting.Platform.Oauth.Answers.{
  OauthError, invalid_revocation, Tokens, body_limit, read_body,
}
use nomadposting.Platform.Oauth.Requests.{post_form, revoke_endpoint}
use nomadposting.Platform.Oauth.Custody.{Parts, confirm_revocation, load_tokens, revoke}

confirm_revocation_inv :
    {S : Type 0} (p : Parts S) (response : Response)
    → confirm_revocation p response ≡ ok tt
    → (200 ≤ response.status) × (response.status < 300) × IsWhole response (32 * 1024)
unfolding confirm_revocation
confirm_revocation_inv p response h =
    let answer = read_bounded response body_limit in
    elim (Result-cases (read_body invalid_revocation answer)) [
      | inl (_, e) ↦ absurd (ground arith)
      | inr (body, e) ↦ (
        ground arith,
        ground arith,
        (read_body_inv invalid_revocation response body_limit body e).0,
      )
    ]

module _ {S : Type 0} (p : Parts S) where
  -- The answer to the request that names the refresh token, or the access token if there is none.
  abbrev pub revocation_answer : Tokens → S → Option Response × S
  revocation_answer t s =
      p.client
        (post_form revoke_endpoint (
          (text "token", if length t.refresh_token == 0 then t.access_token else t.refresh_token)
          ∷ (text "client_id", p.client_id)
          ∷ []))
        s

  -- How a revocation ends: with nothing stored, with an error before the vault is told to delete
  -- anything, or with the vault's answer to that.
  pub data Revocation (s : S) (out : Result OauthError (Unit {0}) × S) : Type 0 where
    nothing_stored :
        (load_tokens p s).0 ≡ ok none → out ≡ (ok tt, (load_tokens p s).1) → Revocation s out
    unreadable_record :
        (load_tokens p s).0 ≢ ok none
        → out.0 ≢ ok tt
        → out.1 ≡ (load_tokens p s).1
        → Revocation s out
    unconfirmed :
        (t : Tokens)
        → (load_tokens p s).0 ≡ ok (some t)
        → out.0 ≢ ok tt
        → out.1 ≡ (revocation_answer t (load_tokens p s).1).1
        → Revocation s out
    confirmed :
        (t : Tokens) (response : Response)
        → (load_tokens p s).0 ≡ ok (some t)
        → (revocation_answer t (load_tokens p s).1).0 ≡ some response
        → 200 ≤ response.status
        → response.status < 300
        → IsWhole response (32 * 1024)
        → out.1 ≡ (p.vault.delete (revocation_answer t (load_tokens p s).1).1).1
        → ((out.0 ≡ ok tt)
            ↔ ((p.vault.delete (revocation_answer t (load_tokens p s).1).1).0 ≡ true))
        → Revocation s out

  -- `Revoke` tells the vault to delete the tokens only after an answer of X with a status from 200 to 299,
  -- whose body arrived whole in at most 32 KiB, to the request that names the stored token, and then
  -- succeeds exactly if the vault did. In every other case the vault is only read: without stored tokens that is a success, and
  -- otherwise the call fails with whatever is stored left in place.
  pub revoke-Revocation : (s : S) → Revocation s (revoke p s)
  unfolding revoke
  revoke-Revocation s = elim (Result-cases (load_tokens p s).0) [
    | inl (f, e) ↦ unreadable_record (ground arith) (ground arith) (ground arith)
    | inr (none, e) ↦ nothing_stored e (ground arith)
    | inr (some t, e) ↦
        let s' = (load_tokens p s).1 in
        elim (Option-cases (revocation_answer t s').0) [
          | inl e' ↦ unconfirmed t e (ground arith) (ground arith)
          | inr (response, e') ↦ elim (Result-cases (confirm_revocation p response)) [
            | inl (f, e'') ↦ unconfirmed t e (ground arith) (ground arith)
            | inr (tt, e'') ↦
                let (least, most, whole) = confirm_revocation_inv p response e'' in
                confirmed t response e e' least most whole (ground arith) (ground arith)
          ]
        ]
  ]
