-- ===== src/Store/Secrets/Kept.antt =====
-- Saving and loading the stored secrets.
use nomadposting.Prelude.{
  ◌≡◌, refl, ◌≢◌, inl, inr, false, none, some, Str, text, ok, arith, Bool-cases, Result-cases,
}
use nomadposting.Random.{Random}
use nomadposting.Clock.{Time, millis}
use nomadposting.Secure.Envelope.{Aead, Envelope, new_envelope, seal, open_envelope}
use nomadposting.Secure.Envelope.RoundTrip.{open-seal}
use nomadposting.Store.Tables.{AuthRow, World, exec, fault_now}
use nomadposting.Store.Secrets.{
  user_id_aad, credentials_aad, tokens_aad, recovery_aad, put_auth, put_x_oauth, put_recovery,
  open_secret, open_auth, save_auth_state, load_auth_state, save_x_oauth_tokens,
  load_x_oauth_tokens, save_recovery_hash, load_recovery_hash,
}

module _ (aead : Aead) {S : Type 0} (random : Random S) where
  -- The X tokens that `SaveXOAuthTokens` stored, `LoadXOAuthTokens` gives back, if the store's sealer
  -- has a proper key and the database does not fail; without a sealer nothing is ever stored.
  pub save_x_oauth_tokens-load :
      (master encoded : Str) (e : Envelope) (at : Time) (w : World S)
      → new_envelope master ≡ ok e
      → (save_x_oauth_tokens aead random (some e) encoded at w).0 ≡ ok tt
      → fault_now (save_x_oauth_tokens aead random (some e) encoded at w).1.faults ≡ false
      → ((load_x_oauth_tokens aead
            (some e)
            (save_x_oauth_tokens aead random (some e) encoded at w).1).0
          ≡ ok (some encoded))
        × ((save_x_oauth_tokens aead random none encoded at w).0 ≢ ok tt)
        × ((save_x_oauth_tokens aead random none encoded at w).1 ≡ w)
  unfolding save_x_oauth_tokens load_x_oauth_tokens exec put_x_oauth open_secret
  save_x_oauth_tokens-load master encoded e at w new h quiet =
      elim (Result-cases (seal aead random e encoded tokens_aad w.source).0) [
        | inl (_, f) ↦ absurd (ground arith)
        | inr (sealed, made) ↦ elim (Bool-cases (fault_now w.faults)) [
          | inl f ↦ absurd (ground arith)
          | inr f ↦ (
            ground (arith, open-seal aead random master encoded tokens_aad w.source new made),
            ground arith,
            refl,
          )
        ]
      ]

  -- The recovery hash, in the same way.
  pub save_recovery_hash-load :
      (master hash : Str) (e : Envelope) (at : Time) (w : World S)
      → new_envelope master ≡ ok e
      → (save_recovery_hash aead random (some e) hash at w).0 ≡ ok tt
      → fault_now (save_recovery_hash aead random (some e) hash at w).1.faults ≡ false
      → (load_recovery_hash aead (some e) (save_recovery_hash aead random (some e) hash at w).1).0
        ≡ ok (some hash)
  unfolding save_recovery_hash load_recovery_hash exec put_recovery open_secret
  save_recovery_hash-load master hash e at w new h quiet =
      elim (Result-cases (seal aead random e hash recovery_aad w.source).0) [
        | inl (_, f) ↦ absurd (ground arith)
        | inr (sealed, made) ↦ elim (Bool-cases (fault_now w.faults)) [
          | inl f ↦ absurd (ground arith)
          | inr f ↦ ground (arith, open-seal aead random master hash recovery_aad w.source new made)
        ]
      ]

  -- The user ID and the passkey credentials that `SaveAuthState` stored in an encrypted store,
  -- `LoadAuthState` gives back, if the store's sealer has a proper key and the database does not fail.
  -- The row that is stored holds each of the two sealed under an associated data of its own: the
  -- user ID under "auth:user-id:v1", the credentials under "auth:credentials:v1".
  pub save_auth_state-load :
      (master user_id credentials : Str) (e : Envelope) (at : Time) (w : World S)
      → new_envelope master ≡ ok e
      → (save_auth_state aead random (some e) user_id credentials at w).0 ≡ ok tt
      → fault_now (save_auth_state aead random (some e) user_id credentials at w).1.faults ≡ false
      → ((load_auth_state aead
            (some e)
            (save_auth_state aead random (some e) user_id credentials at w).1).0
          ≡ ok (some (user_id, credentials)))
        × (row : AuthRow) × ((save_auth_state aead random
              (some e)
              user_id
              credentials
              at
              w).1.db.auth
            ≡ some row)
        × (open_envelope aead e row.user_id (text "auth:user-id:v1") ≡ ok user_id)
        × (open_envelope aead e row.credentials_json (text "auth:credentials:v1") ≡ ok credentials)
  unfolding save_auth_state load_auth_state exec put_auth open_auth
  save_auth_state-load master user_id credentials e at w new h quiet =
      let r1 = seal aead random e user_id user_id_aad w.source in
      elim (Result-cases r1.0) [
        | inl (_, f) ↦ absurd (ground arith)
        | inr (first, made) ↦
            elim (Result-cases (seal aead random e credentials credentials_aad r1.1).0) [
              | inl (_, f) ↦ absurd (ground arith)
              | inr (second, made') ↦ elim (Bool-cases (fault_now w.faults)) [
                | inl f ↦ absurd (ground arith)
                | inr f ↦
                    let opened =
                      open-seal aead random master user_id user_id_aad w.source new made in
                    let opened' =
                      open-seal aead random master credentials credentials_aad r1.1 new made' in
                    (
                      ground arith,
                      record { user_id = first; credentials_json = second; updated_at = millis at },
                      ground arith,
                      opened,
                      opened',
                    )
              ]
            ]
      ]
