-- ===== src/Scenarios/Vault.antt =====
-- Runs of the encrypted receipts and of the stored secrets.
use nomadposting.Prelude.{
  str_eq, ℕ, ◌+◌, ◌*◌, ◌≡◌, refl, ◌≢◌, true, false, [], ◌∷◌, ◌++◌, none, some, Str, text, pos, ok,
  arith,
}
use nomadposting.Clock.{Time}
use nomadposting.Domain.State.{complete}
use nomadposting.Domain.Types.{PlatformReceipt, nostr, success}
use nomadposting.Secure.Envelope.{
  new_aead, seal_under, read_full, seal, new_envelope, open_envelope,
}
use nomadposting.Store.Tables.{exec, AuthRow, ReceiptRow, JobRow, World, empty_db, fault_now}
use nomadposting.Store.Jobs.{find_row, is_row}
use nomadposting.Store.Receipts.{ReceiptCodec, scan_receipt, add_receipt}
use nomadposting.Store.Receipts.Sealed.{Discreet, add_receipt-scan_receipt}
use nomadposting.Store.Secrets.{
  save_auth_state, load_auth_state, save_x_oauth_tokens, load_x_oauth_tokens, save_recovery_hash,
}
use nomadposting.Store.Secrets.Kept.{save_auth_state-load, save_x_oauth_tokens-load}
use nomadposting.Scenarios.Fixtures.{draw_byte, counter, padlock, envelope, master_key}

abbrev moment : Time
moment = 63900000000 * 1000000000 + 500000

abbrev row : JobRow
row = record {
  id = text "j";
  encrypted_content = [];
  payload_hash = text "h";
  post_to_x = 0;
  post_to_nostr = 1;
  state = complete;
  approved_at = none;
  scheduled_at = none;
  created_at = pos 5;
  updated_at = pos 5;
  last_nostr_country = text "DE";
  content_destroyed = 1;
}

abbrev world : World ℕ
world = record {
  db = record empty_db { jobs = row ∷ [] };
  source = 7;
  faults = [];
  clock = λ n. moment;
  ticks = 0;
}

abbrev delivery : PlatformReceipt
delivery = record {
  id = 0;
  job_id = text "j";
  platform = nostr;
  state = success;
  external_id = text "event";
  country_code = text "DE";
  attempt_count = 1;
  relay_accepted = 2;
  relay_attempted = 3;
  safe_error = [];
  created_at = moment;
}

abbrev codec : ReceiptCodec
codec = record { encode = λ _. text "receipt"; decode = λ _. some delivery }

envelope_new : new_envelope master_key ≡ ok envelope
unfolding new_envelope
envelope_new = refl

delivery_added : (add_receipt padlock codec counter (some envelope) delivery world).0 ≡ ok tt
unfolding add_receipt seal read_full draw_byte seal_under new_aead exec find_row str_eq
delivery_added = refl

add_receipt-scan_receipt_example :
    (row : ReceiptRow) × ((add_receipt padlock codec counter
        (some envelope)
        delivery
        world).1.db.receipts
      ≡ [] ++ row ∷ [])
    × (is_row (find_row (text "j") world.db.jobs) ≡ true)
    × (row.id ≡ 1)
    × Discreet padlock codec counter envelope delivery row
    × (scan_receipt padlock codec (some envelope) row ≡ ok (record delivery { id = 1 }))
add_receipt-scan_receipt_example =
    add_receipt-scan_receipt padlock codec counter master_key envelope delivery world envelope_new
      refl (omega arith) delivery_added

abbrev secret : Str
secret = text "secret"

tokens_saved : (save_x_oauth_tokens padlock counter (some envelope) secret moment world).0 ≡ ok tt
unfolding save_x_oauth_tokens seal read_full draw_byte seal_under new_aead exec
tokens_saved = refl

tokens_quiet :
    fault_now (save_x_oauth_tokens padlock counter (some envelope) secret moment world).1.faults
    ≡ false
unfolding save_x_oauth_tokens seal read_full draw_byte seal_under new_aead exec
tokens_quiet = refl

save_x_oauth_tokens-load_example :
    ((load_x_oauth_tokens padlock
        (some envelope)
        (save_x_oauth_tokens padlock counter (some envelope) secret moment world).1).0
      ≡ ok (some secret))
    × ((save_x_oauth_tokens padlock counter none secret moment world).0 ≢ ok tt)
    × ((save_x_oauth_tokens padlock counter none secret moment world).1 ≡ world)
save_x_oauth_tokens-load_example =
    save_x_oauth_tokens-load padlock counter master_key secret envelope moment world envelope_new
      tokens_saved tokens_quiet

hash_saved : (save_recovery_hash padlock counter (some envelope) secret moment world).0 ≡ ok tt
unfolding save_recovery_hash seal read_full draw_byte seal_under new_aead exec
hash_saved = refl

hash_quiet :
    fault_now (save_recovery_hash padlock counter (some envelope) secret moment world).1.faults
    ≡ false
unfolding save_recovery_hash seal read_full draw_byte seal_under new_aead exec
hash_quiet = refl

auth_saved :
    (save_auth_state padlock counter (some envelope) (text "u") secret moment world).0 ≡ ok tt
unfolding save_auth_state seal read_full draw_byte seal_under new_aead exec
auth_saved = refl

auth_quiet :
    fault_now
      (save_auth_state padlock counter (some envelope) (text "u") secret moment world).1.faults
    ≡ false
unfolding save_auth_state seal read_full draw_byte seal_under new_aead exec
auth_quiet = refl

save_auth_state-load_example :
    ((load_auth_state padlock
        (some envelope)
        (save_auth_state padlock counter (some envelope) (text "u") secret moment world).1).0
      ≡ ok (some (text "u", secret)))
    × (row : AuthRow) × ((save_auth_state padlock counter
          (some envelope)
          (text "u")
          secret
          moment
          world).1.db.auth
        ≡ some row)
    × (open_envelope padlock envelope row.user_id (text "auth:user-id:v1") ≡ ok (text "u"))
    × (open_envelope padlock envelope row.credentials_json (text "auth:credentials:v1") ≡ ok secret)
save_auth_state-load_example =
    save_auth_state-load padlock counter master_key (text "u") secret envelope moment world
      envelope_new auth_saved auth_quiet
