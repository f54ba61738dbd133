-- ===== src/Netbroker.antt =====
-- cmd/netbroker/main.go: the broker's socket protocol, one JSON object per connection. The start-up,
-- the listener and the other modes of the command line are not in it.
pub mod Steps
use nomadposting.Prelude.{
  ℕ, ◌+◌, Bool, true, false, not, List, [], ◌∷◌, Option, none, some, Str, text, str_eq, length,
  take, ltb, ◌==◌, Result, ok, err, if◌then◌else◌,
}
use nomadposting.Clock.{Time}
use nomadposting.Domain.Content.{lf}
use nomadposting.Egress.Types.{
  EgressError, unknown_endpoint, endpoint_not_healthy, execution_disabled,
}
use nomadposting.Egress.Registry.{Registry}
use nomadposting.Egress.Broker.{
  BrokerRequest, BrokerResult, BrokerStatus, GuardedBroker, status, dry_run, execute,
}

abbrev pub max_request : ℕ
max_request = 4096

pub record WireRequest : Type 0 where
  pub operation : Str
  pub request : BrokerRequest

pub data Payload : Type 0 where
  of_status : BrokerStatus → Payload
  of_result : BrokerResult → Payload

pub record WireResponse : Type 0 where
  pub ok : Bool
  pub code : Str
  pub error : Str
  pub result : Option Payload

-- What a connection delivers before its end, and whether it then fails in place of ending.
pub record Connection : Type 0 where
  pub bytes : Str
  pub broken : Bool

-- The bytes up to a line feed, with it.
abbrev with_first : ℕ → Option Str → Option Str
with_first c none = none
with_first c (some s) = some (c ∷ s)

unfoldable pub first_line : Str → Option Str
first_line [] = none
first_line (c ∷ s) = let rest = first_line s in if c == lf then some (c ∷ []) else with_first c rest

abbrev pub limited : Connection → Str
limited connection = take (max_request + 1) connection.bytes

-- `ReadBytes` behind the limit: a line, or all that is there at the end or the limit.
unfoldable pub read_payload : Connection → Option Str
unfolding first_line
read_payload connection = elim (first_line (limited connection)) [
  | some line ↦ some line
  | none ↦
      if ltb max_request (length connection.bytes)
      then some (limited connection)
      else if connection.broken
      then none
      else some (limited connection)
]

-- An error of the broker, or that of an unknown operation.
pub data WireError : Type 0 where
  of_broker : EgressError → WireError
  unknown_operation : WireError

unfoldable pub error_code : WireError → Str
error_code (of_broker unknown_endpoint) = text "UNKNOWN_ENDPOINT"
error_code (of_broker endpoint_not_healthy) = text "ENDPOINT_NOT_HEALTHY"
error_code (of_broker execution_disabled) = text "EXECUTION_DISABLED"
error_code _ = text "INVALID_REQUEST"

abbrev public_text : Str → Str
public_text code =
    if str_eq code (text "UNKNOWN_ENDPOINT")
    then text "endpoint ID is not registered"
    else if str_eq code (text "ENDPOINT_NOT_HEALTHY")
    then text "endpoint is not currently healthy"
    else if str_eq code (text "EXECUTION_DISABLED")
    then text "privileged namespace execution is disabled"
    else text "request rejected"

-- `publicError`.
unfoldable pub public_error : WireError → Str
unfolding error_code
public_error e = public_text (error_code e)

abbrev pub refusal : (code error : Str) → WireResponse
refusal code error = record { ok = false; code = code; error = error; result = none }

abbrev pub success : Payload → WireResponse
success payload = record { ok = true; code = []; error = []; result = some payload }

abbrev pub refused : WireError → WireResponse
refused e = refusal (error_code e) (public_error e)

abbrev pub answer : Result EgressError BrokerResult → WireResponse
answer (err e) = refused (of_broker e)
answer (ok result) = success (of_result result)

module _ {N : Type 0} (b : GuardedBroker N) (r : Registry) where
  -- The operations.
  unfoldable pub perform : WireRequest → Time → N → WireResponse × N
  perform w now n =
      if str_eq w.operation (text "status")
      then (success (of_status (status b r)), n)
      else if str_eq w.operation (text "dry_run")
      then (answer (dry_run b r w.request), n)
      else if str_eq w.operation (text "execute")
      then (let (result, n') = execute b r w.request now n in (answer result, n'))
      else (refused unknown_operation, n)

  -- What the decoder finds: nothing of the schema, or a request and whether the input ends behind it.
  abbrev pub decoded_request : Option (WireRequest × Bool) → Time → N → WireResponse × N
  decoded_request none now n =
      (refusal (text "INVALID_REQUEST") (text "request must match the typed broker schema"), n)
  decoded_request (some (w, ends)) now n =
      if ends
      then perform w now n
      else (refusal (text "INVALID_REQUEST") (text "request must contain one JSON object"), n)

  module _ (decode : Str → Option (WireRequest × Bool)) where
    abbrev pub handle_payload : Option Str → Time → N → WireResponse × N
    handle_payload none now n =
        (refusal (text "INVALID_REQUEST") (text "request could not be read"), n)
    handle_payload (some payload) now n =
        if ltb max_request (length payload)
        then (refusal (text "REQUEST_TOO_LARGE") (text "request exceeds size limit"), n)
        else decoded_request (decode payload) now n

    -- `handleConnection`, at the time that it reads.
    unfoldable pub handle_connection : Connection → Time → N → WireResponse × N
    unfolding read_payload perform
    handle_connection connection now n = handle_payload (read_payload connection) now n

    -- The loop of `serve` over connections that are accepted one after the other.
    unfoldable pub serve : List (Connection × Time) → N → List WireResponse × N
    unfolding handle_connection
    serve [] n = ([], n)
    serve ((connection, now) ∷ cs) n =
        let (response, n') = handle_connection connection now n in
        let (responses, n'') = serve cs n' in (response ∷ responses, n'')
