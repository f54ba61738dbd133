-- ===== src/Scenarios/Sealed.antt =====
-- Runs of the envelope and of the encrypted audit log.
use nomadposting.Prelude.{
  ℕ, ◌+◌, ◌*◌, ◌≡◌, refl, ◌↔◌, [], ◌∷◌, ◌++◌, some, Str, text, Result, ok, err, arith,
}
use nomadposting.Clock.{Time, millis}
use nomadposting.Errors.{Error}
use nomadposting.Domain.Types.{AuditEvent}
use nomadposting.Secure.Envelope.{
  new_aead, seal_under, read_full, new_envelope, seal, open_envelope,
}
use nomadposting.Secure.MasterKey.{Base64, generate_master_key}
use nomadposting.Secure.Envelope.RoundTrip.{IsSealed, open-seal}
use nomadposting.Secure.Envelope.Authentic.{open_envelope_iff}
use nomadposting.Store.Tables.{exec, AuditRow, World, empty_db}
use nomadposting.Store.Records.{Codec, add_audit, scan_audit}
use nomadposting.Store.Records.Audit.{add_audit-scan_audit}
use nomadposting.Scenarios.Fixtures.{counter, padlock, envelope, master_key, draw_byte}

abbrev note : Str
note = text "note"

abbrev bound : Str
bound = text "job"

bytes_of : Result Error Str → Str
bytes_of (ok s) = s
bytes_of (err e) = []

sealed : Str
unfolding bytes_of
sealed = bytes_of (seal padlock counter envelope note bound 5).0

sealed_made : (seal padlock counter envelope note bound 5).0 ≡ ok sealed
unfolding sealed seal read_full draw_byte seal_under new_aead
sealed_made = refl

envelope_new : new_envelope master_key ≡ ok envelope
unfolding new_envelope
envelope_new = refl

open-seal_example : open_envelope padlock envelope sealed bound ≡ ok note
open-seal_example = open-seal padlock counter master_key note bound 5 envelope_new sealed_made

open_envelope_iff_example :
    (open_envelope padlock envelope sealed bound ≡ ok note)
    ↔ IsSealed padlock envelope note bound sealed
open_envelope_iff_example = open_envelope_iff padlock master_key sealed bound note envelope_new

-- An instant in 2025, half a millisecond past.
abbrev moment : Time
moment = 63900000000 * 1000000000 + 500000

abbrev event : AuditEvent
event = record {
  id = 0;
  job_id = text "j";
  kind = text "k";
  detail = text "d";
  created_at = moment;
}

-- A codec for that event.
abbrev codec : Codec
codec = record { encode = λ _. text "event"; decode = λ _. some event }

abbrev world : World ℕ
world = record { db = empty_db; source = 7; faults = []; clock = λ n. moment; ticks = 0 }

event_added : (add_audit padlock codec counter (some envelope) event world).0 ≡ ok tt
unfolding add_audit seal read_full draw_byte seal_under new_aead exec
event_added = refl

add_audit-scan_audit_example :
    (row : AuditRow) × ((add_audit padlock codec counter (some envelope) event world).1.db.audits
      ≡ [] ++ row ∷ [])
    × (row.job_id ≡ [])
    × (row.kind ≡ [])
    × (row.detail ≡ [])
    × (row.created_at ≡ millis moment)
    × (scan_audit padlock codec (some envelope) row ≡ ok (record event { id = row.id }))
add_audit-scan_audit_example =
    add_audit-scan_audit padlock codec counter master_key envelope event world envelope_new refl
      (omega arith) event_added

-- An encoding that changes nothing.
abbrev base64 : Base64
base64 = record {
  encode_raw_url = λ s. s;
  decode_raw_url = some;
  decode_std = some;
  decode-encode = λ s. refl;
}

abbrev fresh_key : Str
fresh_key =
    9 ∷ 9 ∷ 9 ∷ 9 ∷ 9 ∷ 9 ∷ 9 ∷ 9 ∷ 9 ∷ 9 ∷ 9 ∷ 9 ∷ 9 ∷ 9 ∷ 9 ∷ 9 ∷ 9 ∷ 9 ∷ 9 ∷ 9 ∷ 9 ∷ 9 ∷ 9 ∷ 9
    ∷ 9 ∷ 9 ∷ 9 ∷ 9 ∷ 9 ∷ 9 ∷ 9 ∷ 9 ∷ []

fresh_key_made : (generate_master_key base64 counter 9).0 ≡ ok fresh_key
unfolding generate_master_key read_full draw_byte
fresh_key_made = refl
