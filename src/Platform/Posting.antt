-- ===== src/Platform/Posting.antt =====
-- internal/platform/x.go over internal/platform/xoauth.go: the connector as the program runs it, with the
-- token manager as its token source. Both act on one state, in which the HTTP client of each
-- keeps its own. What the connector sends is read off a client that keeps every request.
use nomadposting.Prelude.{
  ℕ, true, ◌≡◌, refl, ap, sym, ◌∙◌, subst, inl, inr, List, [], ◌∷◌, ◌++◌, Option, none, some, Str,
  text, length, Result, ok, err, arith,
}
use nomadposting.Json.{json_string}
use nomadposting.Platform.Contracts.{PublishCommand}
use nomadposting.Platform.X.Connector.{TokenSource, Request, Client, Attempt, publish, request_of}
use nomadposting.Platform.X.Status.{Response}
use nomadposting.Platform.X.Text.{validate_x_text}
use nomadposting.Platform.X.Course.{
  first_answer, not_sent, sent_once, not_renewed, sent_twice, publish-Course,
}
use nomadposting.Platform.Oauth.Answers.{OauthError}
use nomadposting.Platform.Oauth.Custody.{Parts, refresh_bearer_token, bearer_token}
use nomadposting.Platform.Oauth.Renewed.{Renewal, refresh_bearer_token-Renewal}
use nomadposting.Platform.Oauth.Bearer.{Bearer, bearer_token-Bearer}

abbrev or_none : Result OauthError Str → Option Str
or_none (ok token) = some token
or_none (err e) = none

abbrev token_or_none : {S : Type 0} → Result OauthError Str × S → Option Str × S
token_or_none (answer, s) = (or_none answer, s)

or_none_inv :
    (answer : Result OauthError Str) {token : Str} → or_none answer ≡ some token → answer ≡ ok token
or_none_inv (ok other) h = ground arith
or_none_inv (err e) h = absurd (ground arith)

-- The manager as a source that can refresh.
abbrev pub manager_source : {S : Type 0} → Parts S → TokenSource S
manager_source p = record {
  bearer_token = λ s. token_or_none (bearer_token p s);
  refresh_bearer_token = some (λ s. token_or_none (refresh_bearer_token p s));
}

-- A client that keeps the requests it is given, the last one at the end.
abbrev pub recording : {S : Type 0} → Client S → Client (S × List Request)
recording client q (s, log) = let (answer, s') = client q s in (answer, (s', log ++ q ∷ []))

same_content : {A : Type 0} {a b : A} → some a ≡ some b → a ≡ b
same_content e = cc e

abbrev beside : {S A L : Type 0} → (S → A × S) → S × L → A × (S × L)
beside f (s, log) = let (a, s') = f s in (a, (s', log))

-- The manager as the source beside that client.
abbrev pub quiet_source : {S : Type 0} → Parts S → TokenSource (S × List Request)
quiet_source p = record {
  bearer_token = beside (manager_source p).bearer_token;
  refresh_bearer_token = some (beside (λ s. token_or_none (refresh_bearer_token p s)));
}

-- A request that posts the content with a token.
pub record Carries (content token : Str) (q : Request) : Type 0 where
  pub method : q.method ≡ text "POST"
  pub url : q.url ≡ text "https://api.x.com/2/tweets"
  pub authorization : q.authorization ≡ text "Bearer " ++ token
  pub body : q.body ≡ text "{\"text\":" ++ json_string true content ++ text "}"

request_of-Carries : (content token : Str) → Carries content token (request_of content token)
request_of-Carries content token = record {
  method = refl;
  url = refl;
  authorization = refl;
  body = refl;
}

module _ {S : Type 0} (decode : Str → Option Str) (client : Client S) (p : Parts S) where
  -- A publication by the connector over the manager, from a state in which nothing was sent.
  abbrev pub recorded_publication : PublishCommand → S → Attempt × (S × List Request)
  recorded_publication command s =
      publish decode (λ v. p.now v.0) (recording client) (quiet_source p) command (s, [])

  -- The requests of a publication, the token of each, and where that comes from.
  pub data Sent (command : PublishCommand) (s : S) : List Request → Type 0 where
    nothing_sent : Sent command s []
    one_sent :
        (token : Str) (q : Request)
        → validate_x_text command.content ≡ ok tt
        → (bearer_token p s).0 ≡ ok token
        → Bearer p s token
        → Carries command.content token q
        → Sent command s (q ∷ [])
    two_sent :
        (token token' : Str) (q q' : Request) (response : Response) (later : S)
        → validate_x_text command.content ≡ ok tt
        → (bearer_token p s).0 ≡ ok token
        → Bearer p s token
        → Carries command.content token q
        → client q (bearer_token p s).1 ≡ (some response, later)
        → response.status ≡ 401
        → (refresh_bearer_token p later).0 ≡ ok token'
        → Renewal p later token' (refresh_bearer_token p later).1
        → Carries command.content token' q'
        → Sent command s (q ∷ q' ∷ [])

  first-Sent :
      (command : PublishCommand) (s : S) (token : Str)
      → validate_x_text command.content ≡ ok tt
      → or_none (bearer_token p s).0 ≡ some token
      → Sent command s (request_of command.content token ∷ [])
  first-Sent command s token good given =
      let h = or_none_inv (bearer_token p s).0 given in
      one_sent token (request_of command.content token) good h (bearer_token-Bearer p s token h)
        (request_of-Carries command.content token)

  -- The state behind the first request.
  abbrev behind_first : PublishCommand → Str → S → S
  behind_first command token s = (client (request_of command.content token) (bearer_token p s).1).1

  second-Sent :
      (command : PublishCommand) (s : S) (token token' : Str) (response : Response)
      → validate_x_text command.content ≡ ok tt
      → or_none (bearer_token p s).0 ≡ some token
      → (client (request_of command.content token) (bearer_token p s).1).0 ≡ some response
      → response.status ≡ 401
      → or_none (refresh_bearer_token p (behind_first command token s)).0 ≡ some token'
      → Sent command s (request_of command.content token ∷ request_of command.content token' ∷ [])
  second-Sent command s token token' response good given came status given' =
      let h = or_none_inv (bearer_token p s).0 given in
      let later = behind_first command token s in
      let h' = or_none_inv (refresh_bearer_token p later).0 given' in
      two_sent token token' (request_of command.content token) (request_of command.content token')
        response later good h (bearer_token-Bearer p s token h)
        (request_of-Carries command.content token) (ap (λ a. (a, later)) came) status h'
        (refresh_bearer_token-Renewal p later token' h') (request_of-Carries command.content token')

  -- The list of requests, when it is told what it is.
  log-Sent :
      (command : PublishCommand) (s : S) (log log' : List Request) (n : ℕ)
      → log ≡ log'
      → n ≡ length log'
      → Sent command s log'
      → Sent command s log × (n ≡ length log)
  log-Sent command s log log' n e count sent =
      subst (λ l. Sent command s l × (n ≡ length l)) (sym e) (sent, count)

  -- A publication by the connector over the token manager sends as many requests as its receipt counts,
  -- none, one or two. Each is a POST of the command's content, which had passed the local checks,
  -- to X's endpoint. The first carries the token that the manager handed out then: of a stored
  -- record with exactly the required scopes and more than 30 seconds to live, or of a renewal that was
  -- granted so and saved. The second one is sent only after the answer 401 to the first, and carries
  -- the token of a renewal from the state behind that answer.
  pub publish-Bearer :
      (command : PublishCommand) (s : S)
      → Sent command s (recorded_publication command s).1.1
        × ((recorded_publication command s).0.0.attempt_count
            ≡ length (recorded_publication command s).1.1)
  publish-Bearer command s =
      let log = (recorded_publication command s).1.1 in
      let first =
        first_answer decode (λ v. p.now v.0) (recording client) (quiet_source p) command in
      elim (publish-Course decode (λ v. p.now v.0) (recording client) (quiet_source p) command
        (s, [])) [
          | not_sent f e (inl same) ↦
              log-Sent command s log [] _ (ap (λ v. v.1) same)
                (ap (λ (a : Attempt). a.0.attempt_count) e) nothing_sent
          | not_sent f e (inr same) ↦
              log-Sent command s log [] _ (ap (λ v. v.1) same)
                (ap (λ (a : Attempt). a.0.attempt_count) e) nothing_sent
          | sent_once token good given _ same count _ ↦
              log-Sent command s log (request_of command.content token ∷ []) _ (ap (λ v. v.1) same)
                count (first-Sent command s token good given)
          | not_renewed token response refresh good given _ _ is same _ count ↦
              log-Sent command s log (request_of command.content token ∷ []) _
                (ap (λ v. v.1) same
                  ∙ ap (λ f. (f (first token (s, [])).1).1.1) (sym (same_content is)))
                count (first-Sent command s token good given)
          | sent_twice token token' response refresh good given came status is given' _ same count
                _ ↦
              let q = request_of command.content token in
              let q' = request_of command.content token' in
              log-Sent command s log (q ∷ q' ∷ []) _
                (ap (λ v. v.1) same
                  ∙ ap (λ f. (f (first token (s, [])).1).1.1 ++ q' ∷ []) (sym (same_content is)))
                count
                (second-Sent command s token token' response good given came status
                  (ap (λ f. (f (first token (s, [])).1).0) (same_content is) ∙ given'))
        ]
