-- ===== src/Secure/MasterKey.antt =====
-- internal/secure/envelope.go: the master key as text. base64 is the record `Base64`.
use nomadposting.Prelude.{
  ◌≡◌, Option, none, some, Str, length, ◌==◌, Result, ok, err, if◌then◌else◌, arith, Option-cases,
  inl, inr,
}
use nomadposting.Errors.{Error, invalid_master_key}
use nomadposting.Random.{Random, Draw, ◌>>=◌, lift}
use nomadposting.Secure.Envelope.{Envelope, key_size, read_full, new_envelope}

-- `base64.RawURLEncoding` and the decoder of `base64.StdEncoding`: what was encoded is decoded.
pub record Base64 : Type 0 where
  pub encode_raw_url : Str → Str
  pub decode_raw_url : Str → Option Str
  pub decode_std : Str → Option Str
  pub decode-encode : (s : Str) → decode_raw_url (encode_raw_url s) ≡ some s

abbrev pub of_size : Option Str → Result Error Str
of_size none = err invalid_master_key
of_size (some key) = if length key == key_size then ok key else err invalid_master_key

abbrev pub first_of : Option Str → Option Str → Option Str
first_of none other = other
first_of (some key) other = some key

module _ (base64 : Base64) where
  open base64 use {encode_raw_url, decode_raw_url, decode_std, decode-encode}

  unfoldable pub decode_master_key : Str → Result Error Str
  decode_master_key value = of_size (first_of (decode_raw_url value) (decode_std value))

  unfoldable pub generate_master_key : {S : Type 0} → Random S → Draw S Error Str
  generate_master_key random = do key ← read_full random key_size; lift (ok (encode_raw_url key))

  -- A key that `GenerateMasterKey` returned is decoded by `DecodeMasterKey`, and `NewEnvelope` takes
  -- what was decoded.
  pub generate_master_key-decode :
      {S : Type 0} (random : Random S) (s : S) (value : Str)
      → (generate_master_key random s).0 ≡ ok value
      → (key : Str) × (e : Envelope) × (decode_master_key value ≡ ok key)
        × (new_envelope key ≡ ok e)
  unfolding generate_master_key decode_master_key new_envelope read_full
  generate_master_key-decode random s value h = elim (Option-cases (random.read 32 s).0) [
    | inl e ↦ absurd (ground arith)
    | inr (key, e) ↦ (
      key,
      record { master = key },
      ground (arith, random.read_length 32 s e, decode-encode key),
      ground (arith, random.read_length 32 s e),
    )
  ]
