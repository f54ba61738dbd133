-- ===== src/Scenarios/Publish.antt =====
-- Runs of the Nostr and X connectors.
use X.{concluded}
use X.{publish_once}
use nomadposting.Platform.X.Text.{validate_x_text}
use X.{publish}
use nomadposting.Prelude.Order.{sort_by}
use nomadposting.Encoding.{show_ℤ}
use nomadposting.Json.{json_string}
use nomadposting.Encoding.{hex_encode}
use nomadposting.Unicode.{is_space_rune, runes_from, is_blank, decode_rune}
use nomadposting.Unicode.{decode_rune, runes_from}
use nomadposting.Unicode.{valid_string}
use nomadposting.Prelude.{
  ◌<◌, ◌^◌, str_lt, has_byte, str_eq, ℕ, zero, suc, ◌≤◌, ◌≡◌, refl, ◌⊎◌, Bool, true, false, List,
  [], ◌∷◌, ◌++◌, Option, some, Str, text, pos, negsuc, Result, ok, err, arith, ◌==◌, if◌then◌else◌,
}
use nomadposting.Platform.Contracts.{PublishCommand}
use nomadposting.Platform.Errors.{PlatformError}
use nomadposting.Platform.Nostr.Event.{
  serialize, validate_event, UnsignedNostrEvent, NostrEvent, kind_text_note, kind_relay_auth,
  is_lower_hex, event_id,
}
use nomadposting.Platform.Nostr.Signer.{
  validate_signed_envelope, check_request, Nip46Signer, ask_public_key, sign_nostr_event,
}
use nomadposting.Platform.Nostr.Signed.{IsEventOf, sign_nostr_event-IsEventOf}
use nomadposting.Platform.Nostr.Connector.{Publisher, new_nostr_connector}
use nomadposting.Platform.Nostr.Connector as Nostr
use nomadposting.Platform.Nostr.Quorum.{Publication, publish-Publication}
use nomadposting.Platform.X.Status.{retry_after, parse_int, classify_x_status_at}
use nomadposting.Platform.X.Connector.{TokenSource, Client}
use nomadposting.Platform.X.Connector as X
use nomadposting.Platform.X.Course.{Course, publish-Course}
use nomadposting.Platform.X.Waits.{asked_seconds, asked_wait, classify-IsWait}
use nomadposting.Scenarios.Fixtures.{checksum}

abbrev repeated : ℕ → Str → Str
repeated zero s = []
repeated (suc n) s = s ++ repeated n s

abbrev operator_key : Str
operator_key = repeated 32 (text "ab")

abbrev signature : Str
signature = repeated 64 (text "0f")

abbrev id_or_none : Result PlatformError Str → Str
id_or_none (ok id) = id
id_or_none (err f) = []

-- A signer that signs what it is asked to; the state counts its calls and the relays'.
abbrev honest : Nip46Signer ℕ
honest = record {
  public_key = λ s. (some operator_key, suc s);
  sign_event = λ u s. (
    some (record {
      id = id_or_none (event_id checksum u);
      pubkey = u.pubkey;
      created_at = u.created_at;
      kind = u.kind;
      tags = u.tags;
      content = u.content;
      sig = signature;
    }),
    suc s,
  );
}

abbrev note : UnsignedNostrEvent
note = record {
  pubkey = operator_key;
  created_at = pos 5;
  kind = kind_text_note;
  tags = some [];
  content = text "hi";
}

abbrev signed_note : NostrEvent
signed_note = record {
  id = id_or_none (event_id checksum note);
  pubkey = operator_key;
  created_at = pos 5;
  kind = kind_text_note;
  tags = some [];
  content = text "hi";
  sig = signature;
}

note_signed : (sign_nostr_event checksum honest note 0).0 ≡ ok signed_note
unfolding sign_nostr_event check_request is_lower_hex str_eq event_id validate_event valid_string
    runes_from decode_rune validate_signed_envelope hex_encode checksum serialize json_string show_ℤ
note_signed = refl

sign_nostr_event-IsEventOf_example :
    ((note.kind ≡ kind_text_note) ⊎ (note.kind ≡ kind_relay_auth))
    × ((ask_public_key checksum honest 0).0 ≡ ok note.pubkey)
    × (is_lower_hex note.pubkey 64 ≡ true)
    × (id : Str) × (event_id checksum note ≡ ok id)
    × IsEventOf note id signed_note
    × (is_lower_hex signed_note.sig 128 ≡ true)
sign_nostr_event-IsEventOf_example =
    sign_nostr_event-IsEventOf checksum honest note 0 signed_note note_signed

abbrev relays : List Str
relays = text "relay-a" ∷ text "relay-b" ∷ text "relay-c" ∷ []

-- The relays answer in turn: two accept, one does not.
abbrev turn : ℕ → Bool
turn n = if n == 4 then false else true

abbrev relay : Publisher ℕ
relay name e s =
    (some (record { endpoint_id = name; accepted = turn s; code = text "duplicate" }), suc s)

relays_taken : new_nostr_connector relays ≡ ok relays
unfolding new_nostr_connector is_blank runes_from is_space_rune decode_rune has_byte sort_by str_lt
    str_eq
relays_taken = refl

abbrev command : PublishCommand
command = record {
  job_id = text "job-1";
  content = text "hi";
  payload_hash_hex = [];
  egress_policy_id = [];
}

publish-Publication_example :
    Publication checksum honest relay relays 62135596805000000000 command 0
      (Nostr.publish checksum honest relay relays 62135596805000000000 command 0)
publish-Publication_example =
    publish-Publication checksum honest relay relays relays 62135596805000000000 command 0
      relays_taken

-- A service whose first token is rejected, and a source that can renew it.
abbrev unauthorized_once : Client ℕ
unauthorized_once request s = (
  some (record {
    status = if s == 1 then 401 else 201;
    header = λ _. [];
    body = text "{\"data\":{\"id\":\"7\"}}";
    broken = false;
  }),
  suc s,
)

abbrev renewing : TokenSource ℕ
renewing = record {
  bearer_token = λ s. (some (text "old"), suc s);
  refresh_bearer_token = some λ s. (some (text "new"), suc s);
}

abbrev read_id : Str → Option Str
read_id body = some (text "7")

publish-Course_example :
    Course read_id
      (λ s. s)
      unauthorized_once
      renewing
      command
      0
      (X.publish read_id (λ s. s) unauthorized_once renewing command 0)
publish-Course_example = publish-Course read_id (λ s. s) unauthorized_once renewing command 0

abbrev retry_header : Str → Str
retry_header name = text "120"

two_minutes : asked_seconds retry_header ≤ 9223372036
unfolding parse_int
two_minutes = omega arith

classify-IsWait_example :
    ((classify_x_status_at 429 retry_header 5).retry_after
      ≡ pos (if 429 == 429 then asked_wait retry_header 5 else 0))
    × ((if 429 == 429 then asked_wait retry_header 5 else 0) < 2 ^ 63)
classify-IsWait_example = classify-IsWait 429 retry_header 5 two_minutes

-- The seconds of `Retry-After` overflow the int64 of nanoseconds.
overflowing_wait : retry_after (λ _. text "9223372037") 5 ≡ negsuc 9223372036709551615
unfolding retry_after parse_int
overflowing_wait = refl

-- A service that rejects the first token, with an answer that breaks off.
abbrev broken_once : Client ℕ
broken_once request s = (
  some (record {
    status = if s == 1 then 401 else 201;
    header = λ _. [];
    body = text "{}";
    broken = s == 1;
  }),
  suc s,
)

-- The result of the first request was ambiguous, and there is a second one.
sent_again : (X.publish read_id (λ s. s) broken_once renewing command 0).0.0.attempt_count ≡ 2
unfolding publish validate_x_text valid_string runes_from decode_rune is_blank is_space_rune
    has_byte publish_once concluded
sent_again = refl
