-- ===== src/Platform/Oauth/Granted.antt =====
-- internal/platform/xoauth.go: the tokens that a publication is given.
use nomadposting.Prelude.{
  ℤ, pos, negsuc, pos_part, ltb_ℤ, ◌+◌, ◌*◌, ◌≤◌, ◌≡◌, refl, subst, ◌≢◌, inl, inr, true, false, [],
  ◌∷◌, List, Option, some, Option-cases, Str, text, str_eq_iff, length, ap, sym, ◌∙◌, ◌==◌, ok,
  arith, Bool-cases, Result-cases,
}
use nomadposting.Clock.{Time}
use nomadposting.Platform.X.Status.{Response, read_bounded}
use nomadposting.Platform.Nostr.Event.{to_lower}
use nomadposting.Platform.Oauth.Values.{Values}
use nomadposting.Platform.Oauth.Scopes.{
  required_scopes, fields, sort_strings, same_strings, has_exactly_required_scopes,
}
use nomadposting.Platform.Oauth.Answers.{
  invalid_response, Tokens, TokenResponse, body_limit, read_body, is_incomplete, tokens_of,
  accept_response,
}
use nomadposting.Platform.Oauth.Bodies.{IsWhole, read_body_inv}
use nomadposting.Platform.Oauth.Requests.{post_form, token_endpoint, token_request}
use nomadposting.Platform.Oauth.Custody.{Parts, request_tokens}

same_strings→≡ : (ss ts : List Str) → same_strings ss ts ≡ true → ss ≡ ts
same_strings→≡ [] [] h = refl
same_strings→≡ [] (t ∷ ts) h = cc
same_strings→≡ (s ∷ ss) [] h = cc
same_strings→≡ (s ∷ ss) (t ∷ ts) h = ground (arith, str_eq_iff s t, same_strings→≡ ss ts)

pub exactly_required :
    (scopes : List Str)
    → has_exactly_required_scopes scopes ≡ true
    → sort_strings scopes ≡ required_scopes
unfolding has_exactly_required_scopes
exactly_required scopes h = elim (Bool-cases (length scopes == length required_scopes)) [
  | inl e ↦ same_strings→≡ (sort_strings scopes) required_scopes (ground arith)
  | inr e ↦ absurd (ground arith)
]

-- An answer of X with tokens as the program accepts them: status 200, a body that arrived whole in at most
-- 32 KiB and decodes to `t`, an access token, the type "bearer", a life of a second to a day, and
-- the required scopes with no other.
pub record Granted (decode : Str → Option TokenResponse) (response : Response) (t : TokenResponse)
    : Type 0 where
  pub status : response.status ≡ 200
  pub whole : IsWhole response (32 * 1024)
  pub decoded : decode response.body ≡ some t
  pub access_token : length t.access_token ≢ 0
  pub token_type : to_lower t.token_type ≡ text "bearer"
  pub least : 1 ≤ pos_part t.expires_in
  pub most : pos_part t.expires_in ≤ 86400
  pub scopes : sort_strings (sort_strings (fields t.scope)) ≡ required_scopes

lifetime :
    (n : ℤ)
    → ltb_ℤ n (pos 1) ≡ false
    → ltb_ℤ (pos 86400) n ≡ false
    → (1 ≤ pos_part n) × (pos_part n ≤ 86400)
lifetime (pos n) h h' = (ground arith, ground arith)
lifetime (negsuc n) h h' = absurd (ground arith)

complete-Granted :
    (decode : Str → Option TokenResponse) (response : Response) (t : TokenResponse)
    → response.status ≡ 200
    → IsWhole response (32 * 1024)
    → decode response.body ≡ some t
    → is_incomplete t ≡ false
    → has_exactly_required_scopes (sort_strings (fields t.scope)) ≡ true
    → Granted decode response t
complete-Granted decode response t fine whole decoded full exact =
    let (least, most) = lifetime t.expires_in (ground arith) (ground arith) in
    record {
      status = fine;
      whole = whole;
      decoded = decoded;
      access_token = ground arith;
      token_type = ground (arith, str_eq_iff (to_lower t.token_type) (text "bearer"));
      least = least;
      most = most;
      scopes = exactly_required (sort_strings (fields t.scope)) exact;
    }

accept_response_inv :
    (decode : Str → Option TokenResponse) (response : Response) (t : TokenResponse)
    → accept_response decode response ≡ ok t
    → Granted decode response t
unfolding accept_response
accept_response_inv decode response t h =
    elim (Result-cases (read_body invalid_response (read_bounded response body_limit))) [
      | inl (_, e) ↦ absurd (ground arith)
      | inr (body, e) ↦ elim (Bool-cases (response.status == 200)) [
        | inr e' ↦ absurd (ground arith)
        | inl fine ↦ elim (Option-cases (decode body)) [
          | inl e' ↦ absurd (ground arith)
          | inr (u, decoded) ↦ elim (Bool-cases (is_incomplete u)) [
            | inl e' ↦ absurd (ground arith)
            | inr full ↦
                let granted = has_exactly_required_scopes (sort_strings (fields u.scope)) in
                elim (Bool-cases granted) [
                  | inr e' ↦ absurd (ground arith)
                  | inl exact ↦
                      let (whole, same) =
                        read_body_inv invalid_response response body_limit body e in
                      subst (Granted decode response) (ground arith) (
                        complete-Granted decode response u (ground arith) whole
                          (sym (ap decode same) ∙ decoded) full exact)
                ]
          ]
        ]
      ]
    ]

-- What is kept of such an answer, read at some time.
pub record KeptOf (u : TokenResponse) (now : Time) (t : Tokens) : Type 0 where
  pub access_token : t.access_token ≡ u.access_token
  pub refresh_token : t.refresh_token ≡ u.refresh_token
  pub scopes : t.scopes ≡ sort_strings (fields u.scope)
  pub expires_at : t.expires_at ≡ now + pos_part u.expires_in * 1000000000

tokens_of-KeptOf : (u : TokenResponse) (now : Time) → KeptOf u now (tokens_of u now)
tokens_of-KeptOf u now = record {
  access_token = refl;
  refresh_token = refl;
  scopes = refl;
  expires_at = refl;
}

module _ {S : Type 0} (p : Parts S) where
  pub token_request_inv :
      (values : Values) (s : S) (t : Tokens)
      → (request_tokens p values s).0 ≡ ok t
      → (response : Response) × (u : TokenResponse) × ((p.client
            (post_form token_endpoint values)
            s).0
          ≡ some response)
        × Granted p.decode response u
        × KeptOf u (p.now (p.client (post_form token_endpoint values) s).1) t
        × ((request_tokens p values s).1 ≡ (p.client (post_form token_endpoint values) s).1)
  unfolding token_request
  token_request_inv values s t h =
      let s' = (p.client (post_form token_endpoint values) s).1 in
      elim (Option-cases (p.client (post_form token_endpoint values) s).0) [
        | inl e ↦ absurd (ground arith)
        | inr (response, e) ↦ elim (Result-cases (accept_response p.decode response)) [
          | inl (_, e') ↦ absurd (ground arith)
          | inr (u, e') ↦ (
            response,
            u,
            e,
            accept_response_inv p.decode response u e',
            subst (KeptOf u (p.now s')) (ground arith) (tokens_of-KeptOf u (p.now s')),
            ground arith,
          )
        ]
      ]
