-- ===== src/Platform/X/Course.antt =====
-- internal/platform/x.go: which requests a publication sends, and what it reports after them.
use nomadposting.Prelude.{
  ◌+◌, ◌≡◌, refl, ap, sym, ◌∙◌, subst, ◌⊎◌, inl, inr, false, Option, some, Option-cases, Str, text,
  ok, arith, Bool-cases, Result-cases,
}
use nomadposting.Clock.{Time}
use nomadposting.Platform.Contracts.{x, PublishCommand}
use nomadposting.Platform.Errors.{PlatformError, failure, unauthorized}
use nomadposting.Platform.X.Text.{validate_x_text}
use nomadposting.Platform.X.Status.{Response}
use nomadposting.Platform.X.Connector.{
  TokenSource, Client, Attempt, request_of, concluded, is_unusable, is_unauthorized, blank_receipt,
  refresh_failure, with_attempt, publish_once, after_first, publish,
}
use nomadposting.Platform.X.Branches.{
  after_first-accepted, after_first-rejected, with_refreshed-none, with_refreshed-unusable,
  with_refreshed-fresh, checked-given, with_token-usable,
}
use nomadposting.Platform.X.Attempts.{
  Conclusion, concluded-Conclusion, concluded-attempt_count, concluded-unauthorized,
}

module _ {S : Type 0} (decode : Str → Option Str) (now : S → Time) (client : Client S)
    (tokens : TokenSource S) where
  -- The first request's answer, when the source gave a token.
  abbrev pub first_answer : PublishCommand → Str → S → Option Response × S
  first_answer command token s = client (request_of command.content token) (tokens.bearer_token s).1

  abbrev pub first_attempt : PublishCommand → Str → S → Attempt
  first_attempt command token s =
      concluded decode (now (first_answer command token s).1) (with_attempt (blank_receipt (now s)))
        (first_answer command token s).0

  -- The course of a publication: nothing was sent, one request was, or a second one was after
  -- the answer 401 to the first.
  pub data Course (command : PublishCommand) (s : S) (out : Attempt × S) : Type 0 where
    not_sent :
        (f : PlatformError)
        → out.0 ≡ (blank_receipt (now s), some f)
        → (out.1 ≡ s) ⊎ (out.1 ≡ (tokens.bearer_token s).1)
        → Course command s out
    sent_once :
        (token : Str)
        → validate_x_text command.content ≡ ok tt
        → (tokens.bearer_token s).0 ≡ some token
        → is_unusable token ≡ false
        → out.1 ≡ (first_answer command token s).1
        → out.0.0.attempt_count ≡ 1
        → Conclusion (with_attempt (blank_receipt (now s))) out.0
        → Course command s out
    not_renewed :
        (token : Str) (response : Response) (refresh : S → Option Str × S)
        → validate_x_text command.content ≡ ok tt
        → (tokens.bearer_token s).0 ≡ some token
        → (first_answer command token s).0 ≡ some response
        → response.status ≡ 401
        → tokens.refresh_bearer_token ≡ some refresh
        → out.1 ≡ (refresh (first_answer command token s).1).1
        → out.0 ≡ ((first_attempt command token s).0, some refresh_failure)
        → out.0.0.attempt_count ≡ 1
        → Course command s out
    sent_twice :
        (token token' : Str) (response : Response) (refresh : S → Option Str × S)
        → validate_x_text command.content ≡ ok tt
        → (tokens.bearer_token s).0 ≡ some token
        → (first_answer command token s).0 ≡ some response
        → response.status ≡ 401
        → tokens.refresh_bearer_token ≡ some refresh
        → (refresh (first_answer command token s).1).0 ≡ some token'
        → is_unusable token' ≡ false
        → out.1
          ≡ (client
              (request_of command.content token')
              (refresh (first_answer command token s).1).1).1
        → out.0.0.attempt_count ≡ 2
        → Conclusion (with_attempt (first_attempt command token s).0) out.0
        → Course command s out

  second-Course :
      (command : PublishCommand) (s : S) (token token' : Str) (response : Response)
      (refresh : S → Option Str × S)
      → validate_x_text command.content ≡ ok tt
      → (tokens.bearer_token s).0 ≡ some token
      → (first_answer command token s).0 ≡ some response
      → response.status ≡ 401
      → tokens.refresh_bearer_token ≡ some refresh
      → (refresh (first_answer command token s).1).0 ≡ some token'
      → is_unusable token' ≡ false
      → Course command s (
          publish_once decode now client tokens command.content token'
            (first_attempt command token s).0
            (refresh (first_answer command token s).1).1)
  unfolding publish_once
  second-Course command s token token' response refresh good given came status e e' fresh =
      let r = with_attempt (first_attempt command token s).0 in
      let (answer, s') =
        client (request_of command.content token') (refresh (first_answer command token s).1).1 in
      let first_answered = first_answer command token s in
      let once =
        concluded-attempt_count decode (now first_answered.1) (with_attempt (blank_receipt (now s)))
          first_answered.0 in
      sent_twice token token' response refresh good given came status e e' fresh refl
        (concluded-attempt_count decode (now s') r answer ∙ ap (λ n. n + 1) once)
        (concluded-Conclusion decode (now s') r answer)

  after_first-Course :
      (command : PublishCommand) (s : S) (token : Str)
      → validate_x_text command.content ≡ ok tt
      → (tokens.bearer_token s).0 ≡ some token
      → is_unusable token ≡ false
      → Course command s (
          after_first decode now client tokens command.content
            (first_attempt command token s, (first_answer command token s).1))
  after_first-Course command s token good given usable =
      let s' = (first_answer command token s).1 in
      let r = with_attempt (blank_receipt (now s)) in
      let (answer, _) = first_answer command token s in
      let first = first_attempt command token s in
      let one = concluded-attempt_count decode (now s') r answer in
      let told = concluded-Conclusion decode (now s') r answer in
      let once = sent_once token good given usable refl one told in
      elim (Bool-cases (is_unauthorized first.1)) [
        | inr e ↦
            subst (Course command s)
              (sym (after_first-accepted decode now client tokens command.content (first, s') e))
              once
        | inl e ↦ elim (Option-cases tokens.refresh_bearer_token) [
          | inl e' ↦
              subst (Course command s)
                (sym
                  (after_first-rejected decode now client tokens command.content (first, s') e e'))
                once
          | inr (refresh, e') ↦
              let (response, came, status) = concluded-unauthorized decode (now s') r answer e in
              subst (Course command s)
                (sym
                  (after_first-rejected decode now client tokens command.content (first, s') e e'))
                (elim (Option-cases (refresh s').0) [
                  | inl e'' ↦
                      subst (Course command s)
                        (sym (
                          with_refreshed-none decode now client tokens command.content first.0
                            (refresh s') e''))
                        (not_renewed token response refresh good given came status e' refl refl one)
                  | inr (token', e'') ↦ elim (Bool-cases (is_unusable token')) [
                    | inl bad ↦
                        subst (Course command s)
                          (sym (
                            with_refreshed-unusable decode now client tokens command.content first.0
                              (refresh s') e'' bad))
                          (not_renewed token response refresh good given came status e' refl refl
                            one)
                    | inr fresh ↦
                        subst (Course command s)
                          (sym (
                            with_refreshed-fresh decode now client tokens command.content first.0
                              (refresh s') e'' fresh))
                          (second-Course command s token token' response refresh good given came
                            status e' e'' fresh)
                  ]
                ])
        ]
      ]

  with_token-Course :
      (command : PublishCommand) (s : S) (token : Str)
      → validate_x_text command.content ≡ ok tt
      → (tokens.bearer_token s).0 ≡ some token
      → is_unusable token ≡ false
      → Course command s (publish decode now client tokens command s)
  unfolding publish publish_once
  with_token-Course command s token good given usable =
      subst (Course command s)
        (sym (
          checked-given decode now client tokens command.content (blank_receipt (now s)) s
            (validate_x_text command.content) good
          ∙ with_token-usable decode now client tokens command.content (blank_receipt (now s))
              (tokens.bearer_token s) given usable))
        (after_first-Course command s token good given usable)

  -- What `Publish` does. Either it reports an error with the initial receipt and no request was sent;
  -- or the text passed the local checks and exactly one request was sent, with a usable token of
  -- the source; or exactly two with the same content, the second one only when a response with
  -- status 401 had come to the first and with a usable token from a refresh behind it. The receipt
  -- counts the requests, and after each of them it says COMPLETE, with an ID that is not blank, when
  -- there is no error, UNKNOWN when the error is marked ambiguous, and what it said before when the
  -- error is not. When the refresh fails, nothing further is sent and that is the error.
  pub publish-Course :
      (command : PublishCommand) (s : S)
      → Course command s (publish decode now client tokens command s)
  unfolding publish publish_once
  publish-Course command s = elim (Result-cases (validate_x_text command.content)) [
    | inl (f, e) ↦ not_sent f (ground arith) (inl (ground arith))
    | inr (tt, good) ↦ elim (Option-cases (tokens.bearer_token s).0) [
      | inl e ↦
          not_sent (failure x unauthorized (text "credential retrieval failed")) (ground arith)
            (inr (ground arith))
      | inr (token, given) ↦ elim (Bool-cases (is_unusable token)) [
        | inl bad ↦
            not_sent (failure x unauthorized (text "credential is unavailable")) (ground arith)
              (inr (ground arith))
        | inr usable ↦ with_token-Course command s token good given usable
      ]
    ]
  ]
