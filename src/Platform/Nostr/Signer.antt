-- ===== src/Platform/Nostr/Signer.antt =====
-- internal/platform/nostr.go: remote signing. The signer is an interface of the code; it acts on a
-- state `S` and may fail.
use nomadposting.Prelude.{
  Bool, true, false, not, ◌&&◌, ◌||◌, List, [], ◌∷◌, Option, none, some, Str, text, str_eq,
  has_byte, length, ltb, ◌==◌, eqb_ℤ, Result, ok, err, reject_if, if◌then◌else◌,
}
use nomadposting.Unicode.{is_blank}
use nomadposting.Clock.{Time, unix_seconds}
use nomadposting.Random.{Draw, ◌>>=◌, ◌>>◌, lift}
use nomadposting.Domain.Content.{cr, lf}
use nomadposting.Platform.Contracts.{nostr}
use nomadposting.Platform.Errors.{PlatformError, failure, forbidden, signing, invalid_payload}
use nomadposting.Platform.Nostr.Event.{
  UnsignedNostrEvent, NostrEvent, Tags, kind_text_note, kind_relay_auth, is_lower_hex, event_id,
}

pub record Nip46Signer (S : Type 0) : Type 0 where
  pub public_key : S → Option Str × S
  pub sign_event : UnsignedNostrEvent → S → Option NostrEvent × S

-- The answer of the signer, or the failure with its message.
abbrev pub signed_or : {S A : Type 0} → Str → Option A × S → Result PlatformError A × S
signed_or message (none, s) = (err (failure nostr signing message), s)
signed_or message (some a, s) = (ok a, s)

-- `reflect.DeepEqual` of tags.
abbrev pub texts_eq : List Str → List Str → Bool
texts_eq [] [] = true
texts_eq (s ∷ ss) (t ∷ ts) = str_eq s t && texts_eq ss ts
texts_eq _ _ = false

abbrev pub tag_eq : Option (List Str) → Option (List Str) → Bool
tag_eq none none = true
tag_eq (some ss) (some ts) = texts_eq ss ts
tag_eq _ _ = false

abbrev pub tag_list_eq : List (Option (List Str)) → List (Option (List Str)) → Bool
tag_list_eq [] [] = true
tag_list_eq (s ∷ ss) (t ∷ ts) = tag_eq s t && tag_list_eq ss ts
tag_list_eq _ _ = false

abbrev pub tags_eq : Tags → Tags → Bool
tags_eq none none = true
tags_eq (some ss) (some ts) = tag_list_eq ss ts
tags_eq _ _ = false

unfoldable pub is_requested : UnsignedNostrEvent → Str → NostrEvent → Bool
is_requested u id e =
    str_eq e.id id
    && str_eq e.pubkey u.pubkey
    && eqb_ℤ e.created_at u.created_at
    && eqb_ℤ e.kind u.kind
    && str_eq e.content u.content
    && tags_eq e.tags u.tags

unfoldable pub validate_signed_envelope :
    UnsignedNostrEvent → Str → NostrEvent → Result PlatformError (Unit {0})
unfolding is_requested
validate_signed_envelope u id e =
    if not (is_requested u id e)
    then err (failure nostr signing (text "remote signer changed the approved event"))
    else reject_if (not (is_lower_hex e.sig 128))
        (failure nostr signing (text "remote signer returned an invalid signature encoding"))

-- What `SignNIP42AuthEvent` reads of a URL that `url.Parse` took.
pub record ParsedUrl : Type 0 where
  pub scheme : Str
  pub hostname : Str
  pub has_user : Bool
  pub raw_query : Str
  pub fragment : Str
  pub port : Str

unfoldable pub is_reviewed_url : Option ParsedUrl → Bool
is_reviewed_url none = false
is_reviewed_url (some u) =
    str_eq u.scheme (text "wss")
    && not (length u.hostname == 0)
    && not u.has_user
    && length u.raw_query == 0
    && length u.fragment == 0
    && (length u.port == 0 || str_eq u.port (text "443"))

module _ {S : Type 0} (sha256 : Str → Str) (signer : Nip46Signer S) where
  abbrev pub ask_public_key : Draw S PlatformError Str
  ask_public_key s = signed_or (text "remote signer public key lookup failed") (signer.public_key s)

  abbrev pub ask_signature : UnsignedNostrEvent → Draw S PlatformError NostrEvent
  ask_signature u s = signed_or (text "remote signing failed") (signer.sign_event u s)

  -- The checks of `SignNostrEvent` before it asks for a signature; the answer is the expected ID.
  unfoldable pub check_request : UnsignedNostrEvent → Draw S PlatformError Str
  check_request u = do
    lift (
        reject_if (not (eqb_ℤ u.kind kind_text_note) && not (eqb_ℤ u.kind kind_relay_auth))
          (failure nostr forbidden (text "event kind is not permitted")))
    key ← ask_public_key
    lift (
        reject_if (not (is_lower_hex key 64) || not (str_eq u.pubkey key))
          (failure nostr signing (text "remote signer identity mismatch")))
    lift (event_id sha256 u)

  -- `SignNostrEvent`; a nil signer cannot be given here.
  unfoldable pub sign_nostr_event : UnsignedNostrEvent → Draw S PlatformError NostrEvent
  sign_nostr_event u = do
    id ← check_request u
    e ← ask_signature u
    lift (validate_signed_envelope u id e)
    lift (ok e)

  -- `SignNIP42AuthEvent`; `parse` is `url.Parse`.
  unfoldable pub sign_nip42_auth_event :
      (Str → Option ParsedUrl)
      → (challenge relay_url : Str) → Time
      → Draw S PlatformError NostrEvent
  sign_nip42_auth_event parse challenge relay_url now = do
    lift (
        reject_if
          (is_blank challenge
            || ltb 512 (length challenge)
            || (has_byte cr challenge || has_byte lf challenge))
          (failure nostr invalid_payload (text "relay authentication challenge is invalid")))
    lift (
        reject_if (not (is_reviewed_url (parse relay_url)))
          (failure nostr invalid_payload (text "relay authentication URL is invalid")))
    key ← ask_public_key
    sign_nostr_event (record {
      pubkey = key;
      created_at = unix_seconds now;
      kind = kind_relay_auth;
      tags =
          some
            (some (text "relay" ∷ relay_url ∷ []) ∷ some (text "challenge" ∷ challenge ∷ []) ∷ []);
      content = [];
    })
