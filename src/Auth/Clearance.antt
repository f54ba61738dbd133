-- ===== src/Auth/Clearance.antt =====
-- internal/auth/passkeys.go: what `Require`, `ValidateCSRF` and `OperationallyReady` have found when they let a
-- request through.
use nomadposting.Prelude.{
  ◌≤◌, ◌<◌, ◌≡◌, ◌≢◌, ◌⊎◌, inl, inr, true, false, some, Str, length, ltb, ltb→lt, ◌==◌, str_eq_iff,
  if◌then◌else◌, arith, Bool-cases, Option-cases,
}
use nomadposting.Prelude.Assoc.{lookup}
use nomadposting.Encoding.Base64.{base64_decode}
use nomadposting.Auth.Manager.{Session, Request, Given, Settings, Manager, operationally_ready}
use nomadposting.Auth.Sessions.{cookie_bytes, is_admitted, validate_csrf}

-- The CSRF token of a request: the header's value, or the form's if there is no header.
abbrev pub given_token : Request → Str
given_token r = if length r.csrf_header == 0 then r.csrf_form else r.csrf_header

module _ {C D S : Type 0} (g : Given C D S) (c : Settings) where
  -- A request that may change something: in development mode one with that mode's CSRF token, otherwise one
  -- whose cookie names a session that is there, has not expired when the request is admitted nor when
  -- its token is checked, and has the CSRF token that the request carries. No token is empty.
  pub data Cleared (r : Request) (m : Manager C D S) : Type 0 where
    in_development :
        c.dev_mode ≡ true → given_token r ≡ c.dev_csrf → length c.dev_csrf ≢ 0 → Cleared r m
    in_session :
        (value raw : Str) (session : Session)
        → c.dev_mode ≡ false
        → r.session_cookie ≡ some value
        → base64_decode value ≡ some raw
        → lookup (g.sha256 raw) m.sessions ≡ some session
        → (g.tick m.rest).0 < session.expires
        → (g.tick (g.tick m.rest).1).0 < session.expires
        → given_token r ≡ session.csrf
        → length session.csrf ≢ 0
        → Cleared r m

  -- Two passkeys and a recovery code, which development mode does without.
  abbrev pub Ready : Manager C D S → Type 0
  Ready m =
      (c.dev_mode ≡ true)
      ⊎ ((c.dev_mode ≡ false)
          × (2 ≤ length m.credentials)
          × (hash : Str) × (m.recovery_hash ≡ some hash))

  pub operationally_ready-Ready : (m : Manager C D S) → operationally_ready g c m ≡ true → Ready m
  unfolding operationally_ready
  operationally_ready-Ready m h = elim (Bool-cases c.dev_mode) [
    | inl e ↦ inl e
    | inr e ↦ elim (Option-cases m.recovery_hash) [
      | inl e' ↦ absurd (ground arith)
      | inr (hash, e') ↦ inr (e, ground arith, hash, e')
    ]
  ]

  pub admitted-ready :
      (r : Request) (m : Manager C D S)
      → operationally_ready g c (is_admitted g c r m).1 ≡ operationally_ready g c m
  unfolding operationally_ready is_admitted
  admitted-ready r m = elim (Bool-cases c.dev_mode) [
    | inl e ↦ ground arith
    | inr e ↦ elim (Option-cases (cookie_bytes r.session_cookie)) [
      | inl e' ↦ ground arith
      | inr (raw, e') ↦ ground arith
    ]
  ]

  pub validate_csrf-Cleared :
      (r : Request) (m : Manager C D S)
      → (is_admitted g c r m).0 ≡ true
      → (validate_csrf g c r (is_admitted g c r m).1).0 ≡ true
      → Cleared r m
  unfolding is_admitted validate_csrf
  validate_csrf-Cleared r m known valid = elim (Bool-cases c.dev_mode) [
    | inl e ↦
        in_development e (ground (arith, str_eq_iff c.dev_csrf (given_token r))) (ground arith)
    | inr e ↦ elim (Option-cases r.session_cookie) [
      | inl e' ↦ absurd (ground arith)
      | inr (value, e') ↦ elim (Option-cases (base64_decode value)) [
        | inl e'' ↦ absurd (ground arith)
        | inr (raw, e'') ↦ elim (Option-cases (lookup (g.sha256 raw) m.sessions)) [
          | inl missing ↦ absurd (ground arith)
          | inr (session, there) ↦
              let (at, s') = g.tick m.rest in
              let (later, _) = g.tick s' in
              elim (Bool-cases (ltb at session.expires)) [
                | inr over ↦ absurd (ground arith)
                | inl alive ↦ elim (Bool-cases (ltb later session.expires)) [
                  | inr over ↦ absurd (ground arith)
                  | inl alive' ↦
                      in_session value raw session e e' e'' there (ltb→lt at session.expires alive)
                        (ltb→lt later session.expires alive')
                        (ground (arith, str_eq_iff session.csrf (given_token r))) (ground arith)
                ]
              ]
        ]
      ]
    ]
  ]
