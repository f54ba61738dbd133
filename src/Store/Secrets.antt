-- ===== src/Store/Secrets.antt =====
-- internal/store/sqlite.go: passkey material, the recovery hash and the X tokens, one row each.
pub mod Kept
use nomadposting.Prelude.{Option, none, some, Str, text, Result, ok, err}
use nomadposting.Errors.{Error, sealer_required}
use nomadposting.Random.{Random, Draw, ◌>>=◌, ◌>>◌, lift}
use nomadposting.Clock.{Time, millis}
use nomadposting.Secure.Envelope.{Aead, Envelope, seal, open_envelope}
use nomadposting.Store.Tables.{AuthRow, SecretRow, Db, World, Action, Statement, exec, with_source}

abbrev pub user_id_aad : Str
user_id_aad = text "auth:user-id:v1"

abbrev pub credentials_aad : Str
credentials_aad = text "auth:credentials:v1"

abbrev pub recovery_aad : Str
recovery_aad = text "auth:recovery-hash:v1"

abbrev pub tokens_aad : Str
tokens_aad = text "x:oauth-tokens:v1"

-- Each `INSERT … ON CONFLICT(id) DO UPDATE` leaves the row that it was given.
unfoldable pub put_auth : Str → Str → Time → Statement (Unit {0})
put_auth user_id credentials at db = (
  ok tt,
  record db {
    auth =
        some (record { user_id = user_id; credentials_json = credentials; updated_at = millis at });
  },
)

unfoldable pub put_recovery : Time → Str → Statement (Unit {0})
put_recovery at sealed db =
    (ok tt, record db { recovery = some (record { encrypted = sealed; updated_at = millis at }) })

unfoldable pub put_x_oauth : Time → Str → Statement (Unit {0})
put_x_oauth at sealed db =
    (ok tt, record db { x_oauth = some (record { encrypted = sealed; updated_at = millis at }) })

module _ (aead : Aead) where
  -- What a load makes of the row that it found; no row is not an error.
  unfoldable pub open_secret : Option Envelope → Str → Option SecretRow → Result Error (Option Str)
  open_secret sealer aad none = ok none
  open_secret none aad (some r) = err sealer_required
  open_secret (some e) aad (some r) = elim (open_envelope aead e r.encrypted aad) [
    | err f ↦ err f
    | ok plaintext ↦ ok (some plaintext)
  ]

  unfoldable pub open_auth : Option Envelope → Option AuthRow → Result Error (Option (Str × Str))
  open_auth sealer none = ok none
  open_auth none (some r) = ok (some (r.user_id, r.credentials_json))
  open_auth (some e) (some r) = elim (open_envelope aead e r.user_id user_id_aad) [
    | err f ↦ err f
    | ok user_id ↦ elim (open_envelope aead e r.credentials_json credentials_aad) [
      | err f ↦ err f
      | ok credentials ↦ ok (some (user_id, credentials))
    ]
  ]

  module _ {S : Type 0} where
    unfoldable pub load_auth_state : Option Envelope → Action S (Option (Str × Str))
    unfolding open_auth
    load_auth_state sealer = exec (λ db. (ok db.auth, db)) >>= λ row. lift (open_auth sealer row)

    unfoldable pub load_recovery_hash : Option Envelope → Action S (Option Str)
    unfolding open_secret
    load_recovery_hash sealer =
        exec (λ db. (ok db.recovery, db)) >>= λ row. lift (open_secret sealer recovery_aad row)

    unfoldable pub load_x_oauth_tokens : Option Envelope → Action S (Option Str)
    unfolding open_secret
    load_x_oauth_tokens sealer =
        exec (λ db. (ok db.x_oauth, db)) >>= λ row. lift (open_secret sealer tokens_aad row)

    unfoldable pub save_auth_state :
        Random S → Option Envelope → (user_id credentials : Str) → Time → Action S (Unit {0})
    unfolding put_auth
    save_auth_state random none user_id credentials at = exec (put_auth user_id credentials at)
    save_auth_state random (some e) user_id credentials at = do
      sealed_id ← with_source (seal aead random e user_id user_id_aad)
      sealed_credentials ← with_source (seal aead random e credentials credentials_aad)
      exec (put_auth sealed_id sealed_credentials at)

    -- The two saves that need a sealer.
    abbrev pub save_secret :
        Random S
        → (Str → Statement (Unit {0}))
        → Option Envelope
        → (aad secret : Str) → Action S (Unit {0})
    save_secret random put none aad secret = lift (err sealer_required)
    save_secret random put (some e) aad secret = do
      sealed ← with_source (seal aead random e secret aad)
      exec (put sealed)

    unfoldable pub save_recovery_hash :
        Random S → Option Envelope → Str → Time → Action S (Unit {0})
    unfolding put_recovery
    save_recovery_hash random sealer hash at =
        save_secret random (put_recovery at) sealer recovery_aad hash

    unfoldable pub save_x_oauth_tokens :
        Random S → Option Envelope → Str → Time → Action S (Unit {0})
    unfolding put_x_oauth
    save_x_oauth_tokens random sealer encoded at =
        save_secret random (put_x_oauth at) sealer tokens_aad encoded

module _ {S : Type 0} where
  unfoldable pub delete_x_oauth_tokens : Action S (Unit {0})
  delete_x_oauth_tokens = exec (λ db. (ok tt, record db { x_oauth = none }))
