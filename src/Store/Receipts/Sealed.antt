-- ===== src/Store/Receipts/Sealed.antt =====
-- What an encrypted receipt hides, and how it is read back.
use nomadposting.Prelude.{
  ℕ, ◌≡◌, refl, ◌≢◌, inl, inr, true, [], ◌∷◌, ◌++◌, some, Str, ok, arith, Bool-cases, Result-cases,
}
use nomadposting.Random.{Random}
use nomadposting.Clock.{millis, from_millis, epoch_millis}
use nomadposting.Clock.Millis.{whole_millis, millis-from_millis}
use nomadposting.Domain.Types.{PlatformReceipt, no_platform, no_receipt_state}
use nomadposting.Secure.Envelope.{Aead, Envelope, new_envelope, seal, open_envelope}
use nomadposting.Secure.Envelope.RoundTrip.{seal-IsSealed, open-seal}
use nomadposting.Store.Tables.{ReceiptRow, World, exec, fault_now}
use nomadposting.Store.Jobs.{find_row, is_row}
use nomadposting.Store.Receipts.{
  ReceiptCodec, receipt_aad, sealed_row, insert_receipt, scan_receipt, add_receipt,
}

module _ (aead : Aead) (codec : ReceiptCodec) {S : Type 0} (random : Random S) where
  scan_receipt-sealed :
      (e : Envelope) (r : ReceiptRow) (p : PlatformReceipt) (b : ℕ) (s : Str)
      → r.encrypted_payload ≡ b ∷ s
      → open_envelope aead e r.encrypted_payload (receipt_aad r.job_id (from_millis r.created_at))
        ≡ ok (codec.encode p)
      → codec.decode (codec.encode p) ≡ some p
      → scan_receipt aead codec (some e) r ≡ ok (record p { id = r.id })
  unfolding scan_receipt
  scan_receipt-sealed e r p b s long opened back = ground arith

  add_receipt_inv :
      (e : Envelope) (p : PlatformReceipt) (w : World S)
      → (add_receipt aead codec random (some e) p w).0 ≡ ok tt
      → (sealed : Str) × ((seal aead random e
            (codec.encode p)
            (receipt_aad p.job_id p.created_at)
            w.source).0
          ≡ ok sealed)
        × ((add_receipt aead codec random (some e) p w).1.db.receipts
            ≡ w.db.receipts ++ sealed_row w.db.next_receipt p sealed ∷ [])
        × (is_row (find_row p.job_id w.db.jobs) ≡ true)
  unfolding add_receipt exec insert_receipt
  add_receipt_inv e p w h =
      elim (Result-cases
        (seal aead random e (codec.encode p) (receipt_aad p.job_id p.created_at) w.source).0) [
          | inl (_, f) ↦ absurd (ground arith)
          | inr (sealed, made) ↦ elim (Bool-cases (fault_now w.faults)) [
            | inl f ↦ absurd (ground arith)
            | inr f ↦ elim (Bool-cases (is_row (find_row p.job_id w.db.jobs))) [
              | inl there ↦ (sealed, made, ground arith, there)
              | inr gone ↦ absurd (ground arith)
            ]
          ]
        ]

  receipt_aad-from_millis :
      (p : PlatformReceipt)
      → whole_millis p.created_at ≢ epoch_millis
      → receipt_aad p.job_id (from_millis (millis p.created_at)) ≡ receipt_aad p.job_id p.created_at
  unfolding receipt_aad
  receipt_aad-from_millis p dated = rw (millis-from_millis p.created_at dated)

  -- A row that tells of a receipt its job and its time, and the rest of it only to who can open the
  -- payload under the receipt's associated data.
  pub record Discreet (e : Envelope) (p : PlatformReceipt) (row : ReceiptRow) : Type 0 where
    pub job_id : row.job_id ≡ p.job_id
    pub created_at : row.created_at ≡ millis p.created_at
    pub platform : row.platform ≡ no_platform
    pub state : row.state ≡ no_receipt_state
    pub external_id : row.external_id ≡ []
    pub country_code : row.country_code ≡ []
    pub attempt_count : row.attempt_count ≡ 0
    pub relay_accepted : row.relay_accepted ≡ 0
    pub relay_attempted : row.relay_attempted ≡ 0
    pub safe_error : row.safe_error ≡ []
    pub payload :
        open_envelope aead e row.encrypted_payload (receipt_aad p.job_id p.created_at)
        ≡ ok (codec.encode p)

  sealed_row-Discreet :
      (e : Envelope) (p : PlatformReceipt) (id : ℕ) (sealed : Str)
      → open_envelope aead e sealed (receipt_aad p.job_id p.created_at) ≡ ok (codec.encode p)
      → Discreet e p (sealed_row id p sealed)
  sealed_row-Discreet e p id sealed opened = record {
    job_id = refl;
    created_at = refl;
    platform = refl;
    state = refl;
    external_id = refl;
    country_code = refl;
    attempt_count = refl;
    relay_accepted = refl;
    relay_attempted = refl;
    safe_error = refl;
    payload = opened;
  }

  -- A receipt added to an encrypted store is for a job that is there, and leaves one new row, which
  -- shows its job and time and nothing of the delivery: every other column is empty or 0, and the
  -- payload is the encoded receipt sealed under the receipt's associated data. `ListReceipts` reads
  -- the whole receipt back from the row, under the row's own ID. The codec must read back this receipt, and its time must not
  -- fall in the first millisecond of 1970.
  pub add_receipt-scan_receipt :
      (master : Str) (e : Envelope) (p : PlatformReceipt) (w : World S)
      → new_envelope master ≡ ok e
      → codec.decode (codec.encode p) ≡ some p
      → whole_millis p.created_at ≢ epoch_millis
      → (add_receipt aead codec random (some e) p w).0 ≡ ok tt
      → (row : ReceiptRow) × ((add_receipt aead codec random (some e) p w).1.db.receipts
          ≡ w.db.receipts ++ row ∷ [])
        × (is_row (find_row p.job_id w.db.jobs) ≡ true)
        × (row.id ≡ w.db.next_receipt)
        × Discreet e p row
        × (scan_receipt aead codec (some e) row ≡ ok (record p { id = w.db.next_receipt }))
  add_receipt-scan_receipt master e p w new back dated h =
      let (sealed, made, left, there) = add_receipt_inv e p w h in
      let aad = receipt_aad p.job_id p.created_at in
      let q = seal-IsSealed aead random e (codec.encode p) aad w.source made in
      let opened = open-seal aead random master (codec.encode p) aad w.source new made in
      (
        sealed_row w.db.next_receipt p sealed,
        left,
        there,
        refl,
        sealed_row-Discreet e p w.db.next_receipt sealed opened,
        scan_receipt-sealed e (sealed_row w.db.next_receipt p sealed) p _ _ q.bytes
            (rw (receipt_aad-from_millis p dated) opened) back,
      )
