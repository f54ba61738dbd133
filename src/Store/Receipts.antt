-- ===== src/Store/Receipts.antt =====
-- internal/store/sqlite.go: receipts and the list of jobs with them.
pub mod Sealed
use nomadposting.Prelude.{
  ℕ, ◌+◌, Bool, true, false, not, List, [], ◌∷◌, ◌++◌, Option, none, some, Str, text, str_eq,
  length, take, keep_if, ◌==◌, ℤ, ltb_ℤ, leb_ℤ, Result, ok, err, if◌then◌else◌,
}
use nomadposting.Errors.{Error, sealer_required, decode_error, database_error}
use nomadposting.Encoding.{show_ℤ}
use nomadposting.Random.{Random, Draw, ◌>>=◌, ◌>>◌, lift}
use nomadposting.Clock.{Time, millis, from_millis}
use nomadposting.Domain.Types.{PostJob, PlatformReceipt, JobSummary, no_platform, no_receipt_state}
use nomadposting.Secure.Envelope.{Aead, Envelope, seal, open_envelope}
use nomadposting.Store.Tables.{
  JobRow, ReceiptRow, Db, World, Action, Statement, exec, with_source, scan_job,
}
use nomadposting.Store.Jobs.{find_row, is_row}
use nomadposting.Store.Records.{clamp_limit}

-- `json.Marshal` and `json.Unmarshal` of a receipt; a payload holds every field.
pub record ReceiptCodec : Type 0 where
  pub encode : PlatformReceipt → Str
  pub decode : Str → Option PlatformReceipt

-- `receiptAAD`.
unfoldable pub receipt_aad : Str → Time → Str
receipt_aad job_id created = text "receipt:v1:" ++ (job_id ++ (text ":" ++ show_ℤ (millis created)))

-- The columns of a receipt that is stored in the clear, and of one that is sealed.
abbrev pub clear_row : ℕ → PlatformReceipt → ReceiptRow
clear_row id p = record {
  id = id;
  job_id = p.job_id;
  platform = p.platform;
  state = p.state;
  external_id = p.external_id;
  country_code = p.country_code;
  attempt_count = p.attempt_count;
  relay_accepted = p.relay_accepted;
  relay_attempted = p.relay_attempted;
  safe_error = p.safe_error;
  created_at = millis p.created_at;
  encrypted_payload = [];
}

abbrev pub sealed_row : ℕ → PlatformReceipt → Str → ReceiptRow
sealed_row id p payload = record {
  id = id;
  job_id = p.job_id;
  platform = no_platform;
  state = no_receipt_state;
  external_id = [];
  country_code = [];
  attempt_count = 0;
  relay_accepted = 0;
  relay_attempted = 0;
  safe_error = [];
  created_at = millis p.created_at;
  encrypted_payload = payload;
}

-- `INSERT INTO receipts`: the foreign key refuses a job that is not there.
unfoldable pub insert_receipt : (ℕ → ReceiptRow) → Statement (Unit {0})
insert_receipt row db =
    if is_row (find_row (row db.next_receipt).job_id db.jobs)
    then (
      ok tt,
      record db {
        receipts = db.receipts ++ row db.next_receipt ∷ [];
        next_receipt = db.next_receipt + 1;
      },
    )
    else (err database_error, db)

-- `ORDER BY created_at ASC` over the index on job and time: rows of one instant in rising order of IDs.
unfoldable pub insert_oldest : ReceiptRow → List ReceiptRow → List ReceiptRow
insert_oldest r [] = r ∷ []
insert_oldest r (q ∷ qs) =
    let rest = insert_oldest r qs in
    if leb_ℤ r.created_at q.created_at then r ∷ q ∷ qs else q ∷ rest

unfoldable pub oldest_first : List ReceiptRow → List ReceiptRow
unfolding insert_oldest
oldest_first [] = []
oldest_first (r ∷ rs) = insert_oldest r (oldest_first rs)

-- `ORDER BY created_at DESC` on `jobs`; jobs of one instant stay in the order of their rows.
unfoldable pub insert_newest_job : JobRow → List JobRow → List JobRow
insert_newest_job r [] = r ∷ []
insert_newest_job r (q ∷ qs) =
    let rest = insert_newest_job r qs in
    if ltb_ℤ r.created_at q.created_at then q ∷ rest else r ∷ q ∷ qs

unfoldable pub newest_jobs : List JobRow → List JobRow
unfolding insert_newest_job
newest_jobs [] = []
newest_jobs (r ∷ rs) = insert_newest_job r (newest_jobs rs)

abbrev stored_receipt : ReceiptRow → Time → PlatformReceipt
stored_receipt r created = record {
  id = r.id;
  job_id = r.job_id;
  platform = r.platform;
  state = r.state;
  external_id = r.external_id;
  country_code = r.country_code;
  attempt_count = r.attempt_count;
  relay_accepted = r.relay_accepted;
  relay_attempted = r.relay_attempted;
  safe_error = r.safe_error;
  created_at = created;
}

-- The fields of `domain.JobSummary`.
unfoldable pub summary : PostJob → List PlatformReceipt → JobSummary
summary j receipts = record {
  id = j.id;
  payload_hash = j.payload_hash;
  post_to_x = j.post_to_x;
  post_to_nostr = j.post_to_nostr;
  state = j.state;
  approved_at = j.approved_at;
  scheduled_at = j.scheduled_at;
  created_at = j.created_at;
  updated_at = j.updated_at;
  content_destroyed = j.content_destroyed;
  receipts = receipts;
}

module _ (aead : Aead) (codec : ReceiptCodec) where
  abbrev pub decoded_receipt : ℕ → Option PlatformReceipt → Result Error PlatformReceipt
  decoded_receipt id none = err decode_error
  decoded_receipt id (some p) = ok (record p { id = id })

  abbrev pub unsealed_receipt : ℕ → Result Error Str → Result Error PlatformReceipt
  unsealed_receipt id (err e) = err e
  unsealed_receipt id (ok plaintext) = decoded_receipt id (codec.decode plaintext)

  -- One row of `ListReceipts`.
  unfoldable pub scan_receipt : Option Envelope → ReceiptRow → Result Error PlatformReceipt
  scan_receipt sealer r =
      let created = from_millis r.created_at in
      if length r.encrypted_payload == 0 then ok (stored_receipt r created) else elim sealer [
        | none ↦ err sealer_required
        | some e ↦
            unsealed_receipt r.id
              (open_envelope aead e r.encrypted_payload (receipt_aad r.job_id created))
      ]

  unfoldable pub scan_receipts :
      Option Envelope → List ReceiptRow → Result Error (List PlatformReceipt)
  unfolding scan_receipt
  scan_receipts sealer [] = ok []
  scan_receipts sealer (r ∷ rs) =
      let rest = scan_receipts sealer rs in
      elim (scan_receipt sealer r) [
        | err e ↦ err e
        | ok p ↦ elim rest [ err e ↦ err e | ok ps ↦ ok (p ∷ ps) ]
      ]

  module _ {S : Type 0} where
    unfoldable pub add_receipt : Random S → Option Envelope → PlatformReceipt → Action S (Unit {0})
    unfolding insert_receipt
    add_receipt random (some e) p = do
      sealed ← with_source (seal aead random e (codec.encode p) (receipt_aad p.job_id p.created_at))
      exec (insert_receipt (λ id. sealed_row id p sealed))
    add_receipt random none p = exec (insert_receipt (λ id. clear_row id p))

    unfoldable pub list_receipts : Option Envelope → Str → Action S (List PlatformReceipt)
    unfolding scan_receipts oldest_first
    list_receipts sealer job_id =
        exec (λ db. (ok (oldest_first (keep_if (λ r. str_eq r.job_id job_id) db.receipts)), db))
        >>= λ rows. lift (scan_receipts sealer rows)

    -- The loop of `ListJobs`: each job's receipts are read by a statement of their own.
    unfoldable pub summaries : Option Envelope → List JobRow → Action S (List JobSummary)
    unfolding summary
    summaries sealer [] = lift (ok [])
    summaries sealer (r ∷ rs) = list_receipts sealer r.id >>= λ receipts.
        summaries sealer rs >>= λ rest. lift (ok (summary (scan_job r) receipts ∷ rest))

    unfoldable pub list_jobs : Option Envelope → ℤ → Action S (List JobSummary)
    unfolding newest_jobs
    list_jobs sealer limit =
        exec (λ db. (ok (take (clamp_limit limit) (newest_jobs db.jobs)), db)) >>= λ rows.
        summaries sealer rows
