-- ===== src/Platform/Nostr/Event.antt =====
-- internal/platform/nostr.go: NIP-01 events, their canonical text and their ID. `sha256` is the digest
-- of crypto/sha256. A Go slice that may be nil is an option.
use nomadposting.Prelude.{
  ℕ, ◌+◌, ◌%◌, Bool, true, false, not, ◌&&◌, ◌||◌, List, [], ◌∷◌, ◌++◌, map, Option, none, some,
  Str, text, str_eq, length, all, ltb, in_range, ◌==◌, ℤ, pos, negsuc, Result, ok, err, ◌>>=◌, ◌>>◌,
  reject_if, if◌then◌else◌,
}
use nomadposting.Unicode.{valid_string}
use nomadposting.Encoding.{hex_encode, show_ℤ}
use nomadposting.Json.{json_string}
use nomadposting.Platform.Contracts.{nostr}
use nomadposting.Platform.Errors.{PlatformError, failure, invalid_payload}

abbrev pub kind_text_note : ℤ
kind_text_note = pos 1

abbrev pub kind_relay_auth : ℤ
kind_relay_auth = pos 22242

abbrev pub max_content : ℕ
max_content = 65536

abbrev pub Tags : Type 0
Tags = Option (List (Option (List Str)))

pub record UnsignedNostrEvent : Type 0 where
  pub pubkey : Str
  pub created_at : ℤ
  pub kind : ℤ
  pub tags : Tags
  pub content : Str

pub record NostrEvent : Type 0 where
  pub id : Str
  pub pubkey : Str
  pub created_at : ℤ
  pub kind : ℤ
  pub tags : Tags
  pub content : Str
  pub sig : Str

abbrev is_negative : ℤ → Bool
is_negative (pos n) = false
is_negative (negsuc n) = true

-- `strings.ToLower` on ASCII, and the digits that `hex.DecodeString` takes.
abbrev pub to_lower : Str → Str
to_lower = map λ c. if in_range b'A' b'Z' c then c + 32 else c

abbrev pub is_hex : ℕ → Bool
is_hex c = in_range b'0' b'9' c || in_range b'a' b'f' c || in_range b'A' b'F' c

-- `isLowerHex`; of a text with bytes beyond ASCII only that it is no hex matters.
unfoldable pub is_lower_hex : Str → ℕ → Bool
is_lower_hex value n =
    length value == n
    && str_eq value (to_lower value)
    && (all is_hex value && length value % 2 == 0)

-- The failure of a check, all of one code.
abbrev pub invalid : Str → PlatformError
invalid = failure nostr invalid_payload

unfoldable pub validate_tags : List (Option (List Str)) → Result PlatformError (Unit {0})
validate_tags [] = ok tt
validate_tags (none ∷ tags) = err (invalid (text "event contains a null tag"))
validate_tags (some tag ∷ tags) =
    let rest = validate_tags tags in
    reject_if (not (all valid_string tag)) (invalid (text "event tag is not valid UTF-8")) >> rest

abbrev pub tags_or_empty : Tags → List (Option (List Str))
tags_or_empty none = []
tags_or_empty (some tags) = tags

abbrev pub is_nil : Tags → Bool
is_nil none = true
is_nil (some tags) = false

-- `Validate`.
unfoldable pub validate_event : UnsignedNostrEvent → Result PlatformError (Unit {0})
unfolding validate_tags
validate_event e = do
  reject_if (not (is_lower_hex e.pubkey 64))
      (invalid (text "public key must be 32-byte lowercase hex"))
  reject_if (is_negative e.created_at) (invalid (text "created_at is invalid"))
  reject_if (is_negative e.kind) (invalid (text "event kind is invalid"))
  reject_if (is_nil e.tags) (invalid (text "event tags must be an array"))
  reject_if (not (valid_string e.content) || ltb max_content (length e.content))
      (invalid (text "event content is invalid"))
  validate_tags (tags_or_empty e.tags)

-- The rest of a JSON array behind its bracket.
unfoldable pub json_items : List Str → Str
json_items [] = b']' ∷ []
json_items (s ∷ []) = s ++ b']' ∷ []
json_items (s ∷ t ∷ ss) = s ++ b',' ∷ json_items (t ∷ ss)

abbrev pub json_array : List Str → Str
json_array items = b'[' ∷ json_items items

abbrev pub json_tag : Option (List Str) → Str
json_tag none = text "null"
json_tag (some tag) = json_array (map (json_string false) tag)

abbrev pub json_tags : Tags → Str
json_tags none = text "null"
json_tags (some tags) = json_array (map json_tag tags)

-- The payload as encoding/json writes it, HTML escaping off and the line end trimmed.
unfoldable pub serialize : UnsignedNostrEvent → Str
unfolding json_items
serialize e = json_array (
    text "0"
    ∷ json_string false e.pubkey
    ∷ show_ℤ e.created_at
    ∷ show_ℤ e.kind
    ∷ json_tags e.tags
    ∷ json_string false e.content
    ∷ [])

unfoldable pub canonical_serialize : UnsignedNostrEvent → Result PlatformError Str
canonical_serialize e = do validate_event e; ok (serialize e)

module _ (sha256 : Str → Str) where
  -- `ID`.
  unfoldable pub event_id : UnsignedNostrEvent → Result PlatformError Str
  unfolding canonical_serialize
  event_id e = do serialized ← canonical_serialize e; ok (hex_encode (sha256 serialized))
