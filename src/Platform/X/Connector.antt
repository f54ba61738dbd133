-- ===== src/Platform/X/Connector.antt =====
-- internal/platform/x.go: the connector. The token source and the HTTP client are interfaces of the
-- code, which share a state; `decode` is `json.Unmarshal` into the response type, which gives the
-- post's ID or fails. The dry-run transport is a client whose state is what it captured.
use nomadposting.Prelude.{
  ℕ, ◌+◌, ◌*◌, Bool, true, false, ◌&&◌, ◌||◌, List, [], ◌∷◌, ◌++◌, Option, none, some, Str, text,
  has_byte, length, ltb, ◌==◌, pos, Result, ok, err, if◌then◌else◌,
}
use nomadposting.Unicode.{is_blank}
use nomadposting.Json.{json_string}
use nomadposting.Clock.{Time}
use nomadposting.Domain.Content.{cr, lf}
use nomadposting.Platform.Contracts.{
  x, PublicationState, complete, failed, unknown, PublishCommand, Receipt,
}
use nomadposting.Platform.Errors.{
  PlatformError, ErrorCode, failure, unauthorized, ambiguous_result, response_too_large,
  protocol_error,
}
use nomadposting.Platform.X.Text.{validate_x_text}
use nomadposting.Platform.X.Status.{
  Response, Bounded, unreadable, too_large, read, read_bounded, classify_x_status_at,
}

-- `BearerTokenSource`; a source that can refresh is a `RefreshingBearerTokenSource`.
pub record TokenSource (S : Type 0) : Type 0 where
  pub bearer_token : S → Option Str × S
  pub refresh_bearer_token : Option (S → Option Str × S)

pub record Request : Type 0 where
  pub method : Str
  pub url : Str
  pub authorization : Str
  pub content_type : Str
  pub accept : Str
  pub user_agent : Str
  pub body : Str

-- `client.Do`, which answers or fails; it follows no redirect.
abbrev pub Client : Type 0 → Type 0
Client S = Request → S → Option Response × S

abbrev pub max_response_bytes : ℕ
max_response_bytes = 32 * 1024

-- The request of `publishOnce`, its body as `json.Marshal` writes it.
abbrev pub request_of : Str → Str → Request
request_of content token = record {
  method = text "POST";
  url = text "https://api.x.com/2/tweets";
  authorization = text "Bearer " ++ token;
  content_type = text "application/json";
  accept = text "application/json";
  user_agent = text "ivpn-crossposter/1";
  body = text "{\"text\":" ++ json_string true content ++ text "}";
}

-- A failure after which nobody knows whether the post was made.
abbrev ambiguous : ErrorCode → ℕ → Str → PlatformError
ambiguous code status message = record {
  platform = x;
  code = code;
  http_status = status;
  retry_after = pos 0;
  message = message;
  ambiguous = true;
}

-- The receipt as a publication changes it, and the error or nil.
abbrev pub Attempt : Type 0
Attempt = Receipt × Option PlatformError

abbrev pub with_attempt : Receipt → Receipt
with_attempt r = record {
  platform = r.platform;
  state = r.state;
  external_id = r.external_id;
  attempt_count = r.attempt_count + 1;
  country_code = r.country_code;
  relay_results = r.relay_results;
  created_at = r.created_at;
}

abbrev pub with_state : PublicationState → Str → Receipt → Receipt
with_state state external_id r = record {
  platform = r.platform;
  state = state;
  external_id = external_id;
  attempt_count = r.attempt_count;
  country_code = r.country_code;
  relay_results = r.relay_results;
  created_at = r.created_at;
}

abbrev pub doubtful : Receipt → PlatformError → Attempt
doubtful r f = (with_state unknown r.external_id r, some f)

abbrev pub unanswered : PlatformError
unanswered = ambiguous ambiguous_result 0 (text "publication result is unknown")

abbrev pub unread : ℕ → PlatformError
unread status = ambiguous ambiguous_result status (text "response could not be read")

abbrev pub oversized : ℕ → PlatformError
oversized status = ambiguous response_too_large status (text "response exceeded the safety limit")

abbrev pub unusable : ℕ → PlatformError
unusable status = ambiguous protocol_error status (text "success response was invalid")

abbrev pub decoded : ℕ → Receipt → Option Str → Attempt
decoded status r none = doubtful r (unusable status)
decoded status r (some id) =
    if is_blank id then doubtful r (unusable status) else (with_state complete id r, none)

abbrev pub examined : (Str → Option Str) → Time → Receipt → Response → Bounded → Attempt
examined decode now r response unreadable = doubtful r (unread response.status)
examined decode now r response too_large = doubtful r (oversized response.status)
examined decode now r response (read body) =
    if response.status == 201
    then decoded response.status r (decode body)
    else (r, some (classify_x_status_at response.status response.header now))

-- What `publishOnce` makes of the client's answer, with `now` as the time it reads then.
unfoldable pub concluded : (Str → Option Str) → Time → Receipt → Option Response → Attempt
unfolding read_bounded
concluded decode now r none = doubtful r unanswered
concluded decode now r (some response) =
    examined decode now r response (read_bounded response max_response_bytes)

abbrev pub is_unusable : Str → Bool
is_unusable token = is_blank token || (has_byte cr token || has_byte lf token)

-- `errors.As` and the status that it finds.
abbrev pub is_unauthorized : Option PlatformError → Bool
is_unauthorized none = false
is_unauthorized (some f) = f.http_status == 401

abbrev pub blank_receipt : Time → Receipt
blank_receipt at = record {
  platform = x;
  state = failed;
  external_id = [];
  attempt_count = 0;
  country_code = [];
  relay_results = [];
  created_at = at;
}

abbrev pub refresh_failure : PlatformError
refresh_failure = record {
  platform = x;
  code = unauthorized;
  http_status = 401;
  retry_after = pos 0;
  message = text "credential refresh failed";
  ambiguous = false;
}

module _ {S : Type 0} (decode : Str → Option Str) (now : S → Time) (client : Client S)
    (tokens : TokenSource S) where
  abbrev pub answered : Receipt → Option Response × S → Attempt × S
  answered r (answer, s) = (concluded decode (now s) (with_attempt r) answer, s)

  -- `publishOnce`.
  unfoldable pub publish_once : Str → Str → Receipt → S → Attempt × S
  publish_once content token r s = answered r (client (request_of content token) s)

  abbrev pub with_refreshed : Str → Receipt → Option Str × S → Attempt × S
  with_refreshed content r (none, s) = ((r, some refresh_failure), s)
  with_refreshed content r (some token, s) =
      if is_unusable token then ((r, some refresh_failure), s) else publish_once content token r s

  abbrev pub refreshed : Str → Option (S → Option Str × S) → Attempt × S → Attempt × S
  refreshed content none out = out
  refreshed content (some refresh) (attempt, s) = with_refreshed content attempt.0 (refresh s)

  -- What follows the first request.
  abbrev pub after_first : Str → Attempt × S → Attempt × S
  after_first content out =
      if is_unauthorized out.0.1 then refreshed content tokens.refresh_bearer_token out else out

  abbrev pub with_token : Str → Receipt → Option Str × S → Attempt × S
  with_token content r (none, s) =
      ((r, some (failure x unauthorized (text "credential retrieval failed"))), s)
  with_token content r (some token, s) =
      if is_unusable token
      then ((r, some (failure x unauthorized (text "credential is unavailable"))), s)
      else after_first content (publish_once content token r s)

  abbrev pub checked : Str → Receipt → Result PlatformError (Unit {0}) → S → Attempt × S
  checked content r (err f) s = ((r, some f), s)
  checked content r (ok _) s = with_token content r (tokens.bearer_token s)

  -- `Publish`.
  unfoldable pub publish : PublishCommand → S → Attempt × S
  publish command s =
      checked command.content (blank_receipt (now s)) (validate_x_text command.content) s

-- What the dry-run transport keeps of a request.
pub record DryRunCapture : Type 0 where
  pub method : Str
  pub url : Str
  pub content_type : Str
  pub authorization_present : Bool
  pub body : Str

abbrev starts_with : Str → Str → Bool
starts_with [] s = true
starts_with (c ∷ p) [] = false
starts_with (c ∷ p) (d ∷ s) = c == d && starts_with p s

abbrev captured : Request → DryRunCapture
captured request = record {
  method = request.method;
  url = request.url;
  content_type = request.content_type;
  authorization_present = starts_with (text "Bearer ") request.authorization;
  body = request.body;
}

abbrev dry_run_response : Response
dry_run_response = record {
  status = 201;
  header = λ _. [];
  body = text "{\"data\":{\"id\":\"dry-run\"}}";
  broken = false;
}

-- `RoundTrip` of `DryRunTransport`, on the captures so far.
unfoldable pub round_trip : Client (List DryRunCapture)
round_trip request captures =
    if ltb max_response_bytes (length request.body)
    then (none, captures)
    else (some dry_run_response, captures ++ captured request ∷ [])
