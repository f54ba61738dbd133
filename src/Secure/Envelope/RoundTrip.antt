-- ===== src/Secure/Envelope/RoundTrip.antt =====
-- What sealing and opening promise.
use nomadposting.Prelude.{
  ℕ, ◌+◌, ◌≤◌, ◌≡◌, refl, ◌∙◌, inl, inr, false, ◌∷◌, ◌++◌, Str, length, length-append, drop,
  take-append_at, drop-append_at, drop-append_past, ltb, ok, arith, Result-cases, Option-cases,
}
use nomadposting.Random.{Random}
use nomadposting.Secure.Envelope.{
  Aead, Envelope, envelope_version, slice, minimum, new_aead, read_full, seal_under, seal,
  open_fields, open_envelope, new_envelope,
}

-- The four parts of an envelope behind its version.
abbrev pub layout : (key_nonce wrapped_key data_nonce ciphertext : Str) → Str
layout key_nonce wrapped_key data_nonce ciphertext =
    envelope_version ∷ key_nonce ++ (wrapped_key ++ (data_nonce ++ ciphertext))

module _ (kn wk dn ct : Str) (hk : length kn ≡ 12) (hw : length wk ≡ 48) (hd : length dn ≡ 12) where
  slice-key_nonce : slice 1 13 (layout kn wk dn ct) ≡ kn
  slice-key_nonce = take-append_at 12 kn (wk ++ (dn ++ ct)) hk

  slice-wrapped_key : slice 13 61 (layout kn wk dn ct) ≡ wk
  slice-wrapped_key =
      rw (drop-append_at 12 kn (wk ++ (dn ++ ct)) hk) (take-append_at 48 wk (dn ++ ct) hw)

  slice-data_nonce : slice 61 73 (layout kn wk dn ct) ≡ dn
  slice-data_nonce =
      rw
        (
          drop-append_past 60 12 48 kn (wk ++ (dn ++ ct)) hk refl,
          drop-append_at 48 wk (dn ++ ct) hw,
        )
        (take-append_at 12 dn ct hd)

  drop-ciphertext : drop 73 (layout kn wk dn ct) ≡ ct
  drop-ciphertext =
      drop-append_past 72 12 60 kn (wk ++ (dn ++ ct)) hk refl
      ∙ drop-append_past 60 48 12 wk (dn ++ ct) hw refl
      ∙ drop-append_at 12 dn ct hd

  length-layout : length (layout kn wk dn ct) ≡ 73 + length ct
  length-layout = omega (
    arith,
    length-append {0} kn (wk ++ (dn ++ ct)),
    length-append {0} wk (dn ++ ct),
    length-append {0} dn ct,
  )

new_aead_32 : (key : Str) → length key ≡ 32 → new_aead key ≡ ok tt
unfolding new_aead
new_aead_32 key h = ground arith

not_lt : (a b : ℕ) → b ≤ a → ltb a b ≡ false
not_lt a b h = ground arith

pub new_envelope_inv :
    (master : Str) {e : Envelope} → new_envelope master ≡ ok e → length e.master ≡ 32
unfolding new_envelope
new_envelope_inv master h = ground arith

module _ (aead : Aead) where
  open aead use {encrypt, decrypt, length-encrypt, decrypt-encrypt, decrypt_only}

  -- What an envelope is: both seals, over nonces of the right length.
  pub record IsSealed (e : Envelope) (plaintext data_bound envelope : Str) : Type 0 where
    pub key_nonce : Str
    pub data_key : Str
    pub data_nonce : Str
    pub key_nonce_length : length key_nonce ≡ 12
    pub data_key_length : length data_key ≡ 32
    pub data_nonce_length : length data_nonce ≡ 12
    pub bytes :
        envelope
        ≡ layout key_nonce
            (encrypt e.master key_nonce data_key data_bound)
            data_nonce
            (encrypt data_key data_nonce plaintext data_bound)

  open_fields-encrypt :
      (e : Envelope) (kn dk dn p d : Str)
      → length dk ≡ 32
      → open_fields aead e kn (encrypt e.master kn dk d) dn (encrypt dk dn p d) d ≡ ok p
  unfolding open_fields
  open_fields-encrypt e kn dk dn p d h =
      ground (arith, decrypt-encrypt e.master kn dk d, new_aead_32 dk h, decrypt-encrypt dk dn p d)

  open_envelope-layout :
      (e : Envelope) (kn wk dn ct d : Str)
      → length e.master ≡ 32
      → length kn ≡ 12
      → length wk ≡ 48
      → length dn ≡ 12
      → 16 ≤ length ct
      → open_envelope aead e (layout kn wk dn ct) d ≡ open_fields aead e kn wk dn ct d
  unfolding open_envelope
  open_envelope-layout e kn wk dn ct d m hk hw hd hc = ground (
    arith,
    new_aead_32 e.master m,
    not_lt (length (layout kn wk dn ct)) minimum
        (omega (arith, length-layout kn wk dn ct hk hw hd)),
    slice-key_nonce kn wk dn ct hk hw hd,
    slice-wrapped_key kn wk dn ct hk hw hd,
    slice-data_nonce kn wk dn ct hk hw hd,
    drop-ciphertext kn wk dn ct hk hw hd,
  )

  pub IsSealed-opens :
      (e : Envelope) (p d c : Str)
      → length e.master ≡ 32
      → IsSealed e p d c
      → open_envelope aead e c d ≡ ok p
  IsSealed-opens e p d c m q =
      let wk = encrypt e.master q.key_nonce q.data_key d in
      let ct = encrypt q.data_key q.data_nonce p d in
      rw q.bytes (
        open_envelope-layout e q.key_nonce wk q.data_nonce ct d m q.key_nonce_length
          (omega (arith, length-encrypt e.master q.key_nonce q.data_key d, q.data_key_length))
          q.data_nonce_length (omega (arith, length-encrypt q.data_key q.data_nonce p d))
        ∙ open_fields-encrypt e q.key_nonce q.data_key q.data_nonce p d q.data_key_length)

  module _ {S : Type 0} (random : Random S) where
    read_full-length : (n : ℕ) (s : S) {b : Str} → (read_full random n s).0 ≡ ok b → length b ≡ n
    unfolding read_full
    read_full-length n s h = elim (Option-cases (random.read n s).0) [
      | inl e ↦ absurd (ground arith)
      | inr (b, e) ↦ ground (arith, random.read_length n s e)
    ]

    seal_under_inv :
        (key p d : Str) (s : S) {c n : Str}
        → (seal_under aead random key p d s).0 ≡ ok (c, n)
        → (c ≡ encrypt key n p d) × (length n ≡ 12)
    unfolding seal_under
    seal_under_inv key p d s h = elim (Result-cases (read_full random 12 s).0) [
      | inl (_, e) ↦ absurd (ground arith)
      | inr (b, e) ↦ ground (arith, read_full-length 12 s e)
    ]

    pub seal-IsSealed :
        (e : Envelope) (p d : Str) (s : S) {c : Str}
        → (seal aead random e p d s).0 ≡ ok c
        → IsSealed e p d c
    unfolding seal
    seal-IsSealed e p d s h =
        let r1 = read_full random 32 s in
        elim (Result-cases r1.0) [
          | inl (_, f) ↦ absurd (ground arith)
          | inr (dk, e1) ↦
              let r2 = seal_under aead random e.master dk d r1.1 in
              elim (Result-cases r2.0) [
                | inl (_, f) ↦ absurd (ground arith)
                | inr ((wk, kn), e2) ↦
                    let r3 = seal_under aead random dk p d r2.1 in
                    elim (Result-cases r3.0) [
                      | inl (_, f) ↦ absurd (ground arith)
                      | inr ((ct, dn), e3) ↦
                          let (w, hk) = seal_under_inv e.master dk d r1.1 e2 in
                          let (b, hd) = seal_under_inv dk p d r2.1 e3 in
                          record {
                            key_nonce = kn;
                            data_key = dk;
                            data_nonce = dn;
                            key_nonce_length = hk;
                            data_key_length = read_full-length 32 s e1;
                            data_nonce_length = hd;
                            bytes = rw (← w, ← b) (ground arith);
                          }
                    ]
              ]
        ]

    -- What `Seal` returned, `Open` with the same master key and the same associated data gives back.
    pub open-seal :
        (master p d : Str) (s : S) {e : Envelope} {c : Str}
        → new_envelope master ≡ ok e
        → (seal aead random e p d s).0 ≡ ok c
        → open_envelope aead e c d ≡ ok p
    open-seal master p d s {e} {c} new h =
        IsSealed-opens e p d c (new_envelope_inv master new) (seal-IsSealed e p d s h)
