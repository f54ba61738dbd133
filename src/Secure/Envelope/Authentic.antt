-- ===== src/Secure/Envelope/Authentic.antt =====
-- What `Open` accepts.
use nomadposting.Prelude.{
  ℕ, ◌≤◌, ◌≡◌, refl, ap, ◌↔◌, inl, inr, [], ◌∷◌, Str, length, take, drop, take-append-drop,
  drop-drop, length-take, length-drop, ok, arith, Option-cases,
}
use nomadposting.Secure.Envelope.{
  Aead, Envelope, envelope_version, slice, open_fields, open_envelope, new_envelope,
}
use nomadposting.Secure.Envelope.RoundTrip.{layout, IsSealed, IsSealed-opens, new_envelope_inv}

-- The slices of an envelope put together again.
layout-slices :
    (b : ℕ) (s : Str)
    → b ≡ envelope_version
    → b ∷ s
      ≡ layout (slice 1 13 (b ∷ s)) (slice 13 61 (b ∷ s)) (slice 61 73 (b ∷ s)) (drop 73 (b ∷ s))
layout-slices b s v = cc (
  take-append-drop 12 s,
  take-append-drop 48 (drop 12 s),
  take-append-drop 12 (drop 60 s),
  drop-drop 60 12 48 s refl,
  drop-drop 72 60 12 s refl,
)

module _ (aead : Aead) where
  open aead use {encrypt, decrypt, length-encrypt, decrypt_only}

  open_fields_inv :
      (e : Envelope) (kn wk dn ct d : Str) {p : Str}
      → open_fields aead e kn wk dn ct d ≡ ok p
      → (dk : Str) × (wk ≡ encrypt e.master kn dk d) × (ct ≡ encrypt dk dn p d)
  unfolding open_fields
  open_fields_inv e kn wk dn ct d h = elim (Option-cases (decrypt e.master kn wk d)) [
    | inl f ↦ absurd (ground arith)
    | inr (dk, f) ↦ elim (Option-cases (decrypt dk dn ct d)) [
      | inl g ↦ absurd (ground arith)
      | inr (q, g) ↦ (dk, decrypt_only e.master kn wk d f, decrypt_only dk dn ct d (ground arith))
    ]
  ]

  open_envelope_inv :
      (e : Envelope) (c d : Str) {p : Str}
      → open_envelope aead e c d ≡ ok p
      → (b : ℕ) × (s : Str) × (c ≡ b ∷ s)
        × (b ≡ envelope_version)
        × (88 ≤ length s)
        × (open_fields aead e (take 12 s) (take 48 (drop 12 s)) (take 12 (drop 60 s)) (drop 72 s) d
            ≡ ok p)
  unfolding open_envelope
  open_envelope_inv e [] d h = absurd (ground arith)
  open_envelope_inv e (b ∷ s) d h = (b, s, refl, ground arith, ground arith, ground arith)

  opens-IsSealed :
      (e : Envelope) (c d : Str) {p : Str} → open_envelope aead e c d ≡ ok p → IsSealed aead e p d c
  opens-IsSealed e c d {p} h =
      let (b, s, whole, version, long, fields) = open_envelope_inv e c d h in
      let (dk, wrapped, body) = open_fields_inv e _ _ _ _ d fields in
      let wrapped_length : length (take 48 (drop 12 s)) ≡ 48 =
        length-take 48 (drop 12 s) (omega (arith, length-drop {0} 12 s)) in
      record {
        key_nonce = take 12 s;
        data_key = dk;
        data_nonce = take 12 (drop 60 s);
        key_nonce_length = length-take 12 s (omega arith);
        data_key_length = omega (
          arith,
          wrapped_length,
          ap (λ (z : Str). length z) wrapped,
          length-encrypt e.master (take 12 s) dk d,
        );
        data_nonce_length = length-take 12 (drop 60 s) (omega (arith, length-drop {0} 60 s));
        bytes = cc (whole, layout-slices b s version, wrapped, body);
      }

  -- Under a master key that `NewEnvelope` takes, `Open` succeeds with a plaintext exactly on the
  -- envelopes that consist of the version, a 32-byte data key sealed under the master key and the
  -- plaintext sealed under that data key, both bound to the given data; any other bytes, shorter,
  -- longer, altered or bound to other data, are refused.
  pub open_envelope_iff :
      (master c d p : Str) {e : Envelope}
      → new_envelope master ≡ ok e
      → (open_envelope aead e c d ≡ ok p) ↔ IsSealed aead e p d c
  open_envelope_iff master c d p {e} new =
      (opens-IsSealed e c d, IsSealed-opens aead e p d c (new_envelope_inv master new))
