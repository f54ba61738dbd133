-- ===== src/Secure/Envelope.antt =====
-- internal/secure/envelope.go: each record is sealed under a fresh data key, which is sealed under
-- the master key. AES-GCM is the interface `Aead`, with the laws that the code relies on.
pub mod RoundTrip
pub mod Authentic
use nomadposting.Prelude.{
  ℕ, ◌+◌, ◌-◌, ◌≡◌, Bool, true, false, not, ◌||◌, ◌&&◌, List, [], ◌∷◌, ◌++◌, Option, none, some,
  Str, length, take, drop, ltb, ◌==◌, Result, ok, err, reject_if, if◌then◌else◌,
}
use nomadposting.Errors.{Error, invalid_master_key, invalid_envelope, bad_key_size, entropy_error}
use nomadposting.Random.{Random, Draw, ◌>>=◌, ◌>>◌, lift, or_error}

-- AES in Galois/Counter Mode, as crypto/cipher gives it: nonces of 12 bytes, a tag of 16 bytes.
-- Opening undoes sealing, and only what was sealed under the same key, nonce and data opens.
pub record Aead : Type 0 where
  pub encrypt : (key nonce plaintext data_bound : Str) → Str
  pub decrypt : (key nonce ciphertext data_bound : Str) → Option Str
  pub length-encrypt : (k n p d : Str) → length (encrypt k n p d) ≡ length p + 16
  pub decrypt-encrypt : (k n p d : Str) → decrypt k n (encrypt k n p d) d ≡ some p
  pub decrypt_only : (k n c d : Str) {p : Str} → decrypt k n c d ≡ some p → c ≡ encrypt k n p d

abbrev pub envelope_version : ℕ
envelope_version = 1

abbrev pub key_size : ℕ
key_size = 32

abbrev pub nonce_size : ℕ
nonce_size = 12

abbrev pub overhead : ℕ
overhead = 16

pub record Envelope : Type 0 where
  pub master : Str

unfoldable pub new_envelope : Str → Result Error Envelope
new_envelope master =
    if length master == key_size then ok (record { master = master }) else err invalid_master_key

-- `newAEAD`: AES takes keys of 16, 24 and 32 bytes.
unfoldable pub new_aead : Str → Result Error (Unit {0})
new_aead key =
    if length key == 16 || length key == 24 || length key == 32 then ok tt else err bad_key_size

-- `s[lo:hi]`.
abbrev pub slice : ℕ → ℕ → Str → Str
slice lo hi s = take (hi - lo) (drop lo s)

abbrev pub first_byte : Str → Option ℕ
first_byte [] = none
first_byte (b ∷ s) = some b

abbrev has_version : Option ℕ → Bool
has_version none = false
has_version (some b) = b == envelope_version

-- The shortest envelope: version, nonce, wrapped key, nonce, tag.
abbrev pub minimum : ℕ
minimum = 1 + nonce_size + (key_size + overhead) + nonce_size + overhead

-- `io.ReadFull(rand.Reader, make([]byte, n))`.
unfoldable pub read_full : {S : Type 0} → Random S → ℕ → Draw S Error Str
read_full random n s = or_error entropy_error (random.read n s)

module _ (aead : Aead) where
  module _ {S : Type 0} (random : Random S) where
    -- `seal`: the ciphertext and its nonce.
    unfoldable pub seal_under : (key plaintext data_bound : Str) → Draw S Error (Str × Str)
    seal_under key plaintext data_bound = do
      lift (new_aead key)
      nonce ← read_full random nonce_size
      lift (ok (aead.encrypt key nonce plaintext data_bound, nonce))

    unfoldable pub seal : Envelope → (plaintext data_bound : Str) → Draw S Error Str
    seal e plaintext data_bound = do
      data_key ← read_full random key_size
      wrapped ← seal_under e.master data_key data_bound
      body ← seal_under data_key plaintext data_bound
      lift (ok (envelope_version ∷ wrapped.1 ++ (wrapped.0 ++ (body.1 ++ body.0))))

  -- A failed decryption is reported as `ErrInvalidEnvelope`.
  abbrev pub decrypted : Option Str → Result Error Str
  decrypted none = err invalid_envelope
  decrypted (some p) = ok p

  unfoldable pub open_body : (data_key nonce ciphertext data_bound : Str) → Result Error Str
  open_body data_key nonce ciphertext data_bound = elim (new_aead data_key) [
    | err e ↦ err e
    | ok u ↦ decrypted (aead.decrypt data_key nonce ciphertext data_bound)
  ]

  unfoldable pub open_fields :
      Envelope → (key_nonce wrapped_key data_nonce ciphertext data_bound : Str) → Result Error Str
  unfolding open_body
  open_fields e key_nonce wrapped_key data_nonce ciphertext data_bound =
      elim (aead.decrypt e.master key_nonce wrapped_key data_bound) [
        | none ↦ err invalid_envelope
        | some data_key ↦ open_body data_key data_nonce ciphertext data_bound
      ]

  unfoldable pub open_envelope : Envelope → (envelope data_bound : Str) → Result Error Str
  open_envelope e envelope data_bound = elim (new_aead e.master) [
    | err f ↦ err f
    | ok u ↦
        if ltb (length envelope) minimum || not (has_version (first_byte envelope))
        then err invalid_envelope
        else open_fields e (slice 1 13 envelope) (slice 13 61 envelope) (slice 61 73 envelope)
            (drop 73 envelope) data_bound
  ]
