-- ===== src/Platform/Nostr/Connector.antt =====
-- internal/platform/nostr.go: the connector, which publishes one event to three relays. The publisher
-- is an interface of the code; it shares its state with the signer.
use nomadposting.Prelude.{
  ℕ, ◌+◌, Bool, false, not, ◌||◌, List, [], ◌∷◌, ◌++◌, Option, none, some, Str, text, str_eq,
  has_byte, length, ltb, ◌==◌, Result, ok, err, ◌>>◌, reject_if, if◌then◌else◌,
}
use nomadposting.Prelude.Order.{sort_by}
use nomadposting.Unicode.{is_blank, valid_string}
use nomadposting.Clock.{Time, unix_seconds}
use nomadposting.Domain.Content.{cr, lf}
use nomadposting.Platform.Contracts.{
  nostr, PublicationState, complete, partial, failed, PublishCommand, RelayResult, Receipt,
}
use nomadposting.Platform.Errors.{PlatformError, failure, invalid_payload, remote_rejected}
use nomadposting.Platform.Nostr.Event.{UnsignedNostrEvent, NostrEvent, kind_text_note, max_content}
use nomadposting.Platform.Nostr.Signer.{Nip46Signer, ask_public_key, sign_nostr_event}

-- `PublishEvent`, which answers or fails.
abbrev pub Publisher : Type 0 → Type 0
Publisher S = Str → NostrEvent → S → Option RelayResult × S

unfoldable pub is_bad_relay : Str → Bool
is_bad_relay relay =
    is_blank relay
    || ltb 128 (length relay)
    || (has_byte cr relay
        || has_byte lf relay
        || has_byte b'/' relay
        || has_byte b'\\' relay
        || has_byte b':' relay
        || has_byte b' ' relay)

unfoldable pub any_bad : List Str → Bool
unfolding is_bad_relay
any_bad [] = false
any_bad (r ∷ rs) = is_bad_relay r || any_bad rs

-- Whether two neighbours are equal.
unfoldable pub has_twin : List Str → Bool
has_twin [] = false
has_twin (r ∷ []) = false
has_twin (r ∷ q ∷ rs) = str_eq q r || has_twin (q ∷ rs)

-- The errors of `NewNostrConnector` beside nil arguments.
pub data ConnectorError : Type 0 where
  not_three bad_relay repeated_relay : ConnectorError

-- `NewNostrConnector`: the relays that the connector keeps.
unfoldable pub new_nostr_connector : List Str → Result ConnectorError (List Str)
unfolding any_bad has_twin
new_nostr_connector relays = do
  reject_if (not (length relays == 3)) not_three
  reject_if (any_bad relays) bad_relay
  reject_if (has_twin (sort_by (λ r. r) relays)) repeated_relay
  ok relays

abbrev is_known_code : Str → Bool
is_known_code code =
    str_eq code (text "rejected")
    || str_eq code (text "auth_required")
    || str_eq code (text "duplicate")
    || str_eq code (text "timeout")
    || str_eq code (text "protocol_error")

unfoldable pub normalize_relay_code : Bool → Str → Str
normalize_relay_code accepted code =
    if accepted then text "ok" else if is_known_code code then code else text "rejected"

-- What the receipt records of a relay's answer, and whether it counts as an acceptance.
unfoldable pub recorded : Str → Option RelayResult → RelayResult
unfolding normalize_relay_code
recorded relay none = record {
  endpoint_id = relay;
  accepted = false;
  code = text "transport_error";
}
recorded relay (some r) = record {
  endpoint_id = relay;
  accepted = r.accepted;
  code = normalize_relay_code r.accepted r.code;
}

-- The variables of the loop over the relays.
pub record Tally : Type 0 where
  pub attempts : ℕ
  pub results : List RelayResult
  pub accepted : ℕ

unfoldable pub counted : Tally → RelayResult → Tally
counted t r = record {
  attempts = t.attempts + 1;
  results = t.results ++ r ∷ [];
  accepted = if r.accepted then t.accepted + 1 else t.accepted;
}

-- The end of `Publish`: the state and the error that a number of acceptances gives.
unfoldable pub verdict : ℕ → PublicationState × Option PlatformError
verdict accepted =
    if accepted == 3 || accepted == 2
    then (complete, none)
    else if accepted == 1
    then (partial, some (failure nostr remote_rejected (text "Nostr relay quorum was not reached")))
    else (
      failed,
      some (failure nostr remote_rejected (text "Nostr publication was not acknowledged")),
    )

-- The receipt that `Publish` starts with, at the time that it reads.
abbrev pub blank_receipt : Time → Receipt
blank_receipt at = record {
  platform = nostr;
  state = failed;
  external_id = [];
  attempt_count = 0;
  country_code = [];
  relay_results = [];
  created_at = at;
}

abbrev pub note_of : Str → Time → PublishCommand → UnsignedNostrEvent
note_of key at command = record {
  pubkey = key;
  created_at = unix_seconds at;
  kind = kind_text_note;
  tags = some [];
  content = command.content;
}

unfoldable pub is_bad_text : Str → Bool
is_bad_text content =
    is_blank content || not (valid_string content) || ltb max_content (length content)

module _ {S : Type 0} (sha256 : Str → Str) (signer : Nip46Signer S) (publisher : Publisher S) where
  abbrev pub tallied : Str → Tally → Option RelayResult × S → Tally × S
  tallied relay t (answer, s) = (counted t (recorded relay answer), s)

  -- The loop over the relays still to come.
  unfoldable pub deliver : NostrEvent → List Str → Tally → S → Tally × S
  unfolding counted
  deliver e [] t s = (t, s)
  deliver e (relay ∷ relays) t s =
      let (t', s') = tallied relay t (publisher relay e s) in deliver e relays t' s'

  abbrev pub finish : Time → NostrEvent → Tally × S → (Receipt × Option PlatformError) × S
  finish at e (t, s) = (
    (
      record {
        platform = nostr;
        state = (verdict t.accepted).0;
        external_id = e.id;
        attempt_count = t.attempts;
        country_code = [];
        relay_results = t.results;
        created_at = at;
      },
      (verdict t.accepted).1,
    ),
    s,
  )

  abbrev pub submit :
      Time → List Str → Result PlatformError NostrEvent × S → (Receipt × Option PlatformError) × S
  submit at relays (err f, s) = ((blank_receipt at, some f), s)
  submit at relays (ok e, s) =
      finish at e (deliver e relays (record { attempts = 0; results = []; accepted = 0 }) s)

  abbrev pub sign_note :
      Time → PublishCommand → Result PlatformError Str × S → Result PlatformError NostrEvent × S
  sign_note at command (err f, s) = (err f, s)
  sign_note at command (ok key, s) = sign_nostr_event sha256 signer (note_of key at command) s

  -- `Publish`: the receipt, the error or nil, and the state of signer and relays.
  unfoldable pub publish :
      List Str → Time → PublishCommand → S → (Receipt × Option PlatformError) × S
  publish relays at command s =
      if is_bad_text command.content
      then (
        (blank_receipt at, some (failure nostr invalid_payload (text "Nostr text is invalid"))),
        s,
      )
      else submit at relays (sign_note at command (ask_public_key sha256 signer s))
