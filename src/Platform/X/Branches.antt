-- ===== src/Platform/X/Branches.antt =====
-- internal/platform/x.go: the branches of `Publish` behind its checks, as equations.
use nomadposting.Prelude.{
  ◌≡◌, refl, ap, ◌∙◌, true, false, Option, none, some, Str, Result, ok, if◌then◌else◌, arith,
}
use nomadposting.Clock.{Time}
use nomadposting.Platform.Contracts.{Receipt}
use nomadposting.Platform.Errors.{PlatformError}
use nomadposting.Platform.X.Connector.{
  TokenSource, Client, Attempt, is_unusable, is_unauthorized, refresh_failure, publish_once,
  refreshed, with_refreshed, after_first, with_token, checked,
}

module _ {S : Type 0} (decode : Str → Option Str) (now : S → Time) (client : Client S)
    (tokens : TokenSource S) where
  pub after_first-accepted :
      (content : Str) (out : Attempt × S)
      → is_unauthorized out.0.1 ≡ false
      → after_first decode now client tokens content out ≡ out
  after_first-accepted content out e =
      ap
        (λ b.
          if b
          then refreshed decode now client tokens content tokens.refresh_bearer_token out
          else out)
        e

  pub after_first-rejected :
      (content : Str) (out : Attempt × S) {refresh : Option (S → Option Str × S)}
      → is_unauthorized out.0.1 ≡ true
      → tokens.refresh_bearer_token ≡ refresh
      → after_first decode now client tokens content out
        ≡ refreshed decode now client tokens content refresh out
  after_first-rejected content out e e' =
      ap
        (λ b.
          if b
          then refreshed decode now client tokens content tokens.refresh_bearer_token out
          else out)
        e
      ∙ ap (λ o. refreshed decode now client tokens content o out) e'

  pub with_refreshed-none :
      (content : Str) (r : Receipt) (given : Option Str × S)
      → given.0 ≡ none
      → with_refreshed decode now client tokens content r given
        ≡ ((r, some refresh_failure), given.1)
  with_refreshed-none content r (none, s) e = refl
  with_refreshed-none content r (some token, s) e = absurd (ground arith)

  pub with_refreshed-unusable :
      (content : Str) (r : Receipt) (given : Option Str × S) {token : Str}
      → given.0 ≡ some token
      → is_unusable token ≡ true
      → with_refreshed decode now client tokens content r given
        ≡ ((r, some refresh_failure), given.1)
  with_refreshed-unusable content r (none, s) e bad = absurd (ground arith)
  with_refreshed-unusable content r (some token, s) e bad = ground arith

  pub with_refreshed-fresh :
      (content : Str) (r : Receipt) (given : Option Str × S) {token : Str}
      → given.0 ≡ some token
      → is_unusable token ≡ false
      → with_refreshed decode now client tokens content r given
        ≡ publish_once decode now client tokens content token r given.1
  with_refreshed-fresh content r (none, s) e good = absurd (ground arith)
  with_refreshed-fresh content r (some token, s) e good = ground arith

  pub checked-given :
      (content : Str) (r : Receipt) (s : S) (test : Result PlatformError (Unit {0}))
      → test ≡ ok tt
      → checked decode now client tokens content r test s
        ≡ with_token decode now client tokens content r (tokens.bearer_token s)
  checked-given content r s test e = ap (λ t. checked decode now client tokens content r t s) e

  pub with_token-usable :
      (content : Str) (r : Receipt) (given : Option Str × S) {token : Str}
      → given.0 ≡ some token
      → is_unusable token ≡ false
      → with_token decode now client tokens content r given
        ≡ after_first decode now client tokens content
            (publish_once decode now client tokens content token r given.1)
  with_token-usable content r (none, s) e good = absurd (ground arith)
  with_token-usable content r (some token, s) e good = ground arith
