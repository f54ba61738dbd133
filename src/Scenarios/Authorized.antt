-- ===== src/Scenarios/Authorized.antt =====
-- Runs of the X authorization.
use nomadposting.Platform.Oauth.Values.{query_escape}
use nomadposting.Platform.Oauth.Values.{encode_values}
use nomadposting.Json.{json_string}
use nomadposting.Encoding.{hex_digit}
use nomadposting.Clock.{sub_time}
use nomadposting.Unicode.{is_space, is_blank, runes_from, valid_string, decode_rune}
use nomadposting.Unicode.{is_space_rune}
use nomadposting.Platform.Oauth.Requests.{token_request}
use nomadposting.Prelude.Order.{insert_by, sort_by}
use nomadposting.Prelude.{
  has_byte, Option, str_lt, str_eq, ℕ, suc, ◌+◌, ◌<◌, ◌≡◌, refl, ◌≢◌, true, false, [], ◌∷◌, some,
  Str, text, length, pos, ok, arith,
}
use nomadposting.Prelude.Assoc.{lookup}
use nomadposting.Encoding.Base64.{base64_encode, base64_decode}
use nomadposting.Platform.X.Status.{
  unix_time, retry_after, parse_int, mul_int64, classify_x_status_at, read_bounded,
}
use nomadposting.Platform.Contracts.{PublishCommand}
use nomadposting.Platform.X.Text.{
  x_weighted_length, x_rune_weight, weigh, url_length, find_from, validate_x_text,
}
use nomadposting.Platform.X.Connector.{publish_once, concluded, Client, publish}
use nomadposting.Platform.Posting.{manager_source, Sent, recorded_publication, publish-Bearer}
use nomadposting.Platform.Oauth.Scopes.{fields_from, has_exactly_required_scopes, required_scopes}
use nomadposting.Platform.Oauth.Answers.{accept_response, Tokens, TokenResponse}
use nomadposting.Platform.Oauth.Custody.{
  save_tokens, refresh_bearer_token, load_tokens, check_record, Vault, Parts, bearer_token, revoke,
}
use nomadposting.Platform.Oauth.States.{Pending, World, five_minutes, begin_drawn, consume_state}
use nomadposting.Platform.Oauth.Once.{consume_state-once}
use nomadposting.Platform.Oauth.Begun.{begin-consume_state}
use nomadposting.Platform.Oauth.Bearer.{Bearer, bearer_token-Bearer}
use nomadposting.Platform.Oauth.Revoked.{Revocation, revoke-Revocation}
use nomadposting.Scenarios.Fixtures.{draw_byte, fill, counter, counter-ReadsBytes, checksum}

-- A vault with one record, which takes every write; the state counts.
abbrev one_record : Vault ℕ
one_record = record {
  save = λ encoded at s. (true, suc s);
  load = λ s. (some (some (text "record")), suc s);
  delete = λ s. (true, suc s);
}

abbrev stale : Tokens
stale = record {
  access_token = text "old";
  refresh_token = text "refresh";
  token_type = text "Bearer";
  scopes = required_scopes;
  expires_at = 10;
}

abbrev granted : TokenResponse
granted = record {
  access_token = text "fresh";
  refresh_token = [];
  token_type = text "bearer";
  expires_in = pos 7200;
  scope = text "users.read tweet.write tweet.read offline.access";
}

abbrev granting : Parts ℕ
granting = record {
  client_id = text "client";
  redirect_uri = text "https://localhost/callback";
  decode = λ body. some granted;
  encode = λ t. some (text "record");
  decode_record = λ encoded. some stale;
  now = λ s. s;
  client = λ request s.
      (some (record { status = 200; header = λ _. []; body = text "{}"; broken = false }), suc s);
  vault = one_record;
}

abbrev fresh_world : World ℕ
fresh_world = record { states = []; rest = 0 }

abbrev first_state : Str
first_state = base64_encode (fill 0 32)

abbrev first_verifier : Str
first_verifier = base64_encode (fill 1 32)

begun :
    (begin_drawn checksum counter granting (text "session") fresh_world).0
    ≡ ok (first_state, first_verifier)
unfolding begin_drawn draw_byte base64_decode base64_encode
begun = refl

in_time :
    1000
    < (begin_drawn checksum counter granting (text "session") fresh_world).1.rest + five_minutes
in_time = omega arith

begin-consume_state_example :
    (consume_state checksum counter granting first_state (text "session") (record {
      states = (begin_drawn checksum counter granting (text "session") fresh_world).1.states;
      rest = 1000;
    })).0
    ≡ ok first_verifier
begin-consume_state_example =
    begin-consume_state checksum counter granting (text "session") first_state first_verifier
      fresh_world 1000 counter-ReadsBytes begun in_time

abbrev pending_world : World ℕ
pending_world = record {
  states =
      (
        checksum (fill 7 32),
        record { verifier = text "v"; binding_hash = checksum (text "session"); expires_at = 50 },
      )
      ∷ [];
  rest = 20;
}

abbrev returned_state : Str
returned_state = base64_encode (fill 7 32)

consumed :
    (consume_state checksum counter granting returned_state (text "session") pending_world).0
    ≡ ok (text "v")
unfolding consume_state base64_decode base64_encode fill lookup str_eq checksum
consumed = refl

consume_state-once_example :
    (raw : Str) × (base64_decode returned_state ≡ some raw)
    × (length raw ≡ 32)
    × (pending : Pending) × (lookup (checksum raw) pending_world.states ≡ some pending)
    × (20 < pending.expires_at)
    × (pending.binding_hash ≡ checksum (text "session"))
    × (text "v" ≡ pending.verifier)
    × ((consume_state checksum counter granting returned_state (text "session") (record {
      states =
          (consume_state checksum counter granting returned_state
            (text "session")
            pending_world).1.states;
      rest = 21;
    })).0
        ≢ ok (text "v"))
consume_state-once_example =
    consume_state-once checksum counter granting returned_state (text "session") (text "v")
      pending_world (text "session") (text "v") 21 consumed

renewed_token : (bearer_token granting 100).0 ≡ ok (text "fresh")
unfolding bearer_token has_exactly_required_scopes sort_by str_lt str_eq token_request
    accept_response read_bounded fields_from is_space_rune decode_rune
renewed_token = refl

bearer_token-Bearer_example : Bearer granting 100 (text "fresh")
bearer_token-Bearer_example = bearer_token-Bearer granting 100 (text "fresh") renewed_token

revoke-Revocation_example : Revocation granting 100 (revoke granting 100)
revoke-Revocation_example = revoke-Revocation granting 100

abbrev post : PublishCommand
post = record {
  job_id = text "job-1";
  content = text "hi";
  payload_hash_hex = [];
  egress_policy_id = [];
}

abbrev created : Client ℕ
created request s =
    (some (record { status = 201; header = λ _. []; body = text "{}"; broken = false }), suc s)

abbrev read_id : Str → Option Str
read_id body = some (text "7")

sent_one :
    (publish read_id granting.now created (manager_source granting) post 100).0.0.attempt_count ≡ 1
unfolding publish validate_x_text valid_string runes_from decode_rune is_blank is_space_rune
    bearer_token has_exactly_required_scopes sort_by str_lt str_eq token_request accept_response
    read_bounded fields_from has_byte sub_time hex_digit json_string check_record load_tokens
    refresh_bearer_token save_tokens encode_values query_escape concluded publish_once
    classify_x_status_at mul_int64 parse_int retry_after unix_time find_from url_length weigh
    x_rune_weight x_weighted_length insert_by is_space
sent_one = refl

publish-Bearer_example :
    Sent read_id created granting post 100
      (recorded_publication read_id created granting post 100).1.1
    × ((recorded_publication read_id created granting post 100).0.0.attempt_count
        ≡ length (recorded_publication read_id created granting post 100).1.1)
publish-Bearer_example = publish-Bearer read_id created granting post 100

-- One request is kept by the client.
recorded_one : length (recorded_publication read_id created granting post 100).1.1 ≡ 1
unfolding publish validate_x_text valid_string runes_from decode_rune is_blank is_space_rune
    bearer_token has_exactly_required_scopes sort_by str_lt str_eq token_request accept_response
    read_bounded fields_from has_byte sub_time hex_digit json_string check_record load_tokens
    refresh_bearer_token save_tokens encode_values query_escape concluded publish_once
    classify_x_status_at mul_int64 parse_int retry_after unix_time find_from url_length weigh
    x_rune_weight x_weighted_length insert_by is_space
recorded_one = refl
