-- ===== src/Platform/Oauth/Renewed.antt =====
-- internal/platform/xoauth.go: the record in the vault, and its renewal by `RefreshBearerToken`.
use nomadposting.Prelude.{
  ◌+◌, ◌*◌, ◌≡◌, refl, ◌∙◌, pos_part, subst, ◌≢◌, inl, inr, true, false, [], ◌∷◌, none, some,
  Option-cases, Str, text, length, ◌==◌, ok, arith, if◌then◌else◌, Bool-cases, Result-cases,
}
use nomadposting.Platform.X.Status.{Response}
use nomadposting.Platform.Oauth.Scopes.{required_scopes, fields, sort_strings}
use nomadposting.Platform.Oauth.Answers.{Tokens, TokenResponse}
use nomadposting.Platform.Oauth.Requests.{FormRequest, post_form, token_endpoint}
use nomadposting.Platform.Oauth.Custody.{
  Parts, violates_policy, renewed, request_tokens, save_tokens, check_record, load_tokens,
  refresh_values, refresh_bearer_token,
}
use nomadposting.Platform.Oauth.Granted.{exactly_required, Granted, token_request_inv}

module _ {S : Type 0} (p : Parts S) where
  -- What the vault holds, if it meets the policy: both tokens, and exactly the required scopes.
  pub record Stored (s : S) (t : Tokens) : Type 0 where
    pub encoded : Str
    pub loaded : (p.vault.load s).0 ≡ some (some encoded)
    pub decoded : p.decode_record encoded ≡ some t
    pub access_token : length t.access_token ≢ 0
    pub refresh_token : length t.refresh_token ≢ 0
    pub scopes : sort_strings t.scopes ≡ required_scopes

  -- The request with a refresh token.
  abbrev pub renewal_request : Str → FormRequest
  renewal_request refresh_token = post_form token_endpoint (
      (text "refresh_token", refresh_token)
      ∷ (text "grant_type", text "refresh_token")
      ∷ (text "client_id", p.client_id)
      ∷ [])

  -- A token that a renewal gives, from the state `s` to the state `s'`: the stored refresh token was sent to
  -- the token endpoint, the token is the one in the accepted answer, and the record that the vault was
  -- given and kept holds what the answer says, with the old refresh token if the answer names none.
  pub record Renewal (s : S) (token : Str) (s' : S) : Type 0 where
    pub current : Tokens
    pub stored : Stored s current
    pub response : Response
    pub asked :
        (p.client (renewal_request current.refresh_token) (p.vault.load s).1).0 ≡ some response
    pub answer : TokenResponse
    pub granted : Granted p.decode response answer
    pub own : token ≡ answer.access_token
    pub later : S
    pub behind : later ≡ (p.client (renewal_request current.refresh_token) (p.vault.load s).1).1
    pub updated : Tokens
    pub access_token : updated.access_token ≡ answer.access_token
    pub refresh_token :
        updated.refresh_token
        ≡ (if length answer.refresh_token == 0 then current.refresh_token else answer.refresh_token)
    pub scopes : updated.scopes ≡ sort_strings (fields answer.scope)
    pub expires_at : updated.expires_at ≡ p.now later + pos_part answer.expires_in * 1000000000
    pub encoded : Str
    pub encodes : p.encode updated ≡ some encoded
    pub kept : (p.vault.save encoded (p.now later) later).0 ≡ true
    pub ends : s' ≡ (p.vault.save encoded (p.now later) later).1

  compliant :
      (s : S) (t : Tokens) (encoded : Str)
      → (p.vault.load s).0 ≡ some (some encoded)
      → p.decode_record encoded ≡ some t
      → violates_policy t ≡ false
      → Stored s t
  compliant s t encoded loaded decoded fine = record {
    encoded = encoded;
    loaded = loaded;
    decoded = decoded;
    access_token = ground arith;
    refresh_token = ground arith;
    scopes = exactly_required t.scopes (ground arith);
  }

  pub load_tokens_inv :
      (s : S) (t : Tokens)
      → (load_tokens p s).0 ≡ ok (some t)
      → Stored s t × ((load_tokens p s).1 ≡ (p.vault.load s).1)
  unfolding load_tokens check_record
  load_tokens_inv s t h = elim (Option-cases (p.vault.load s).0) [
    | inl e ↦ absurd (ground arith)
    | inr (none, e) ↦ absurd (ground arith)
    | inr (some encoded, e) ↦ elim (Option-cases (p.decode_record encoded)) [
      | inl e' ↦ absurd (ground arith)
      | inr (u, e') ↦ elim (Bool-cases (violates_policy u)) [
        | inl e'' ↦ absurd (ground arith)
        | inr fine ↦
            (subst (Stored s) (ground arith) (compliant s u encoded e e' fine), ground arith)
      ]
    ]
  ]

  save_tokens_inv :
      (t : Tokens) (s : S)
      → (save_tokens p t s).0 ≡ ok tt
      → (encoded : Str) × (p.encode t ≡ some encoded)
        × ((p.vault.save encoded (p.now s) s).0 ≡ true)
        × ((save_tokens p t s).1 ≡ (p.vault.save encoded (p.now s) s).1)
  unfolding save_tokens
  save_tokens_inv t s h = elim (Option-cases (p.encode t)) [
    | inl e ↦ absurd (ground arith)
    | inr (encoded, e) ↦ elim (Bool-cases (p.vault.save encoded (p.now s) s).0) [
      | inl kept ↦ (encoded, e, kept, ground arith)
      | inr lost ↦ absurd (ground arith)
    ]
  ]

  renewed_values :
      (current updated : Tokens)
      → ((renewed current updated).access_token ≡ updated.access_token)
        × ((renewed current updated).scopes ≡ updated.scopes)
        × ((renewed current updated).expires_at ≡ updated.expires_at)
        × ((renewed current updated).refresh_token ≡ (
            if length updated.refresh_token == 0
            then current.refresh_token
            else updated.refresh_token))
  renewed_values current updated = elim (Bool-cases (length updated.refresh_token == 0)) [
    | inl e ↦ rw e (refl, refl, refl, refl)
    | inr e ↦ rw e (refl, refl, refl, refl)
  ]

  made-Renewal :
      (s s' : S) (current updated : Tokens)
      → Stored s current
      → (request_tokens p (refresh_values p current) (p.vault.load s).1).0 ≡ ok updated
      → (save_tokens p
          (renewed current updated)
          (request_tokens p (refresh_values p current) (p.vault.load s).1).1).0
        ≡ ok tt
      → s'
        ≡ (save_tokens p
            (renewed current updated)
            (request_tokens p (refresh_values p current) (p.vault.load s).1).1).1
      → Renewal s updated.access_token s'
  made-Renewal s s' current updated held made saved ends =
      let (response, u, asked, granted, of, behind) =
        token_request_inv p (refresh_values p current) (p.vault.load s).1 updated made in
      let later = (request_tokens p (refresh_values p current) (p.vault.load s).1).1 in
      let (encoded, encodes, kept, final) = save_tokens_inv (renewed current updated) later saved in
      let (a, b, c, d) = renewed_values current updated in
      record {
        current = current;
        stored = held;
        response = response;
        asked = asked;
        answer = u;
        granted = granted;
        own = of.access_token;
        later = later;
        behind = behind;
        updated = renewed current updated;
        access_token = a ∙ of.access_token;
        refresh_token = ground (arith, d, of.refresh_token);
        scopes = b ∙ of.scopes;
        expires_at = ground (arith, c, of.expires_at, behind);
        encoded = encoded;
        encodes = encodes;
        kept = kept;
        ends = ends ∙ final;
      }

  -- A token that `RefreshBearerToken` hands out is that of a renewal.
  pub refresh_bearer_token-Renewal :
      (s : S) (token : Str)
      → (refresh_bearer_token p s).0 ≡ ok token
      → Renewal s token (refresh_bearer_token p s).1
  unfolding refresh_bearer_token
  refresh_bearer_token-Renewal s token h = elim (Result-cases (load_tokens p s).0) [
    | inl (_, e) ↦ absurd (ground arith)
    | inr (none, e) ↦ absurd (ground arith)
    | inr (some current, e) ↦ elim (Bool-cases (length current.refresh_token == 0)) [
      | inl e' ↦ absurd (ground arith)
      | inr there ↦
          let (held, at) = load_tokens_inv s current e in
          let s2 = (p.vault.load s).1 in
          elim (Result-cases (request_tokens p (refresh_values p current) s2).0) [
            | inl (_, e') ↦ absurd (ground arith)
            | inr (updated, e') ↦
                let s3 = (request_tokens p (refresh_values p current) s2).1 in
                elim (Result-cases (save_tokens p (renewed current updated) s3).0) [
                  | inl (_, e'') ↦ absurd (ground arith)
                  | inr (tt, e'') ↦
                      subst (λ x. Renewal s x (refresh_bearer_token p s).1) (ground arith)
                        (made-Renewal s (refresh_bearer_token p s).1 current updated held e' e''
                          (ground arith))
                ]
          ]
    ]
  ]
