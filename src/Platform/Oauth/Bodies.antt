-- ===== src/Platform/Oauth/Bodies.antt =====
-- internal/platform/xoauth.go: the answers whose body is read to its end.
use nomadposting.Prelude.{ℕ, ◌≤◌, ◌≡◌, inl, inr, false, Str, length, ltb, ok, arith, Bool-cases}
use nomadposting.Platform.X.Status.{Response, read_bounded}
use nomadposting.Platform.Oauth.Answers.{OauthError, read_body}

-- The body has arrived whole and is no longer than the limit.
pub record IsWhole (response : Response) (limit : ℕ) : Type 0 where
  pub arrived : response.broken ≡ false
  pub short : length response.body ≤ limit

pub read_body_inv :
    (e : OauthError) (response : Response) (limit : ℕ) (body : Str)
    → read_body e (read_bounded response limit) ≡ ok body
    → IsWhole response limit × (body ≡ response.body)
unfolding read_bounded
read_body_inv e response limit body h = elim (Bool-cases (ltb limit (length response.body))) [
  | inl long ↦ absurd (ground arith)
  | inr short ↦ elim (Bool-cases response.broken) [
    | inl broken ↦ absurd (ground arith)
    | inr arrived ↦ (record { arrived = arrived; short = ground arith }, ground arith)
  ]
]
