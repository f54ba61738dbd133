-- ===== src/Store/Records/Audit.antt =====
-- What an audit event becomes in the database, and how it is read back.
use nomadposting.Prelude.{
  ℕ, ◌≡◌, refl, ap, ◌∙◌, ◌≢◌, inl, inr, [], ◌∷◌, ◌++◌, some, Str, ok, arith, Bool-cases,
  Result-cases,
}
use nomadposting.Random.{Random}
use nomadposting.Clock.{Time, millis, from_millis, epoch_millis}
use nomadposting.Clock.Millis.{whole_millis, millis-from_millis}
use nomadposting.Domain.Types.{AuditEvent}
use nomadposting.Secure.Envelope.{Aead, Envelope, new_envelope, seal, open_envelope}
use nomadposting.Secure.Envelope.RoundTrip.{seal-IsSealed, open-seal}
use nomadposting.Store.Tables.{AuditRow, Db, World, exec, fault_now}
use nomadposting.Store.Records.{Codec, audit_aad, scan_audit, add_audit, insert_audit}

audit_aad-from_millis :
    (t : Time) → whole_millis t ≢ epoch_millis → audit_aad (from_millis (millis t)) ≡ audit_aad t
unfolding audit_aad
audit_aad-from_millis t h = rw (millis-from_millis t h)

audits-insert_audit :
    (r : AuditRow) (db : Db)
    → r.id ≡ db.next_audit
    → (insert_audit r.job_id r.kind r.detail r.created_at r.encrypted_payload db).1.audits
      ≡ db.audits ++ r ∷ []
unfolding insert_audit
audits-insert_audit r db e = ground arith

module _ (aead : Aead) (codec : Codec) where
  scan_audit-sealed :
      (e : Envelope) (r : AuditRow) (event : AuditEvent) (b : ℕ) (s : Str)
      → r.encrypted_payload ≡ b ∷ s
      → open_envelope aead e r.encrypted_payload (audit_aad (from_millis r.created_at))
        ≡ ok (codec.encode event)
      → codec.decode (codec.encode event) ≡ some event
      → scan_audit aead codec (some e) r ≡ ok (record event { id = r.id })
  unfolding scan_audit
  scan_audit-sealed e r event b s long opened back = ground arith

  module _ {S : Type 0} (random : Random S) where
    add_audit_inv :
        (e : Envelope) (event : AuditEvent) (w : World S)
        → (add_audit aead codec random (some e) event w).0 ≡ ok tt
        → (sealed : Str) × ((seal aead random e
              (codec.encode event)
              (audit_aad event.created_at)
              w.source).0
            ≡ ok sealed)
          × ((add_audit aead codec random (some e) event w).1.db
              ≡ (insert_audit [] [] [] (millis event.created_at) sealed w.db).1)
    unfolding add_audit exec
    add_audit_inv e event w h =
        elim (Result-cases
          (seal aead random e (codec.encode event) (audit_aad event.created_at) w.source).0) [
            | inl (_, f) ↦ absurd (ground arith)
            | inr (sealed, made) ↦ elim (Bool-cases (fault_now w.faults)) [
              | inl f ↦ absurd (ground arith)
              | inr f ↦ (sealed, made, ground arith)
            ]
          ]

    -- An audit event added to an encrypted store leaves one new row, which holds its time and, in the
    -- clear, neither job, kind nor detail; `ListAudit` reads the whole event back from the row, under
    -- the row's own ID. The codec must read back this event, and its time must not fall in the first
    -- millisecond of 1970.
    pub add_audit-scan_audit :
        (master : Str) (e : Envelope) (event : AuditEvent) (w : World S)
        → new_envelope master ≡ ok e
        → codec.decode (codec.encode event) ≡ some event
        → whole_millis event.created_at ≢ epoch_millis
        → (add_audit aead codec random (some e) event w).0 ≡ ok tt
        → (row : AuditRow) × ((add_audit aead codec random (some e) event w).1.db.audits
            ≡ w.db.audits ++ row ∷ [])
          × (row.job_id ≡ [])
          × (row.kind ≡ [])
          × (row.detail ≡ [])
          × (row.created_at ≡ millis event.created_at)
          × (scan_audit aead codec (some e) row ≡ ok (record event { id = row.id }))
    add_audit-scan_audit master e event w new back dated h =
        let (sealed, made, left) = add_audit_inv e event w h in
        let q =
          seal-IsSealed aead random e (codec.encode event) (audit_aad event.created_at) w.source
            made in
        let row : AuditRow = record {
          id = w.db.next_audit;
          job_id = [];
          kind = [];
          detail = [];
          created_at = millis event.created_at;
          encrypted_payload = sealed;
        } in
        (
          row,
          ap (λ (d : Db). d.audits) left ∙ audits-insert_audit row w.db refl,
          refl,
          refl,
          refl,
          refl,
          scan_audit-sealed e row event _ _ q.bytes
              (rw (audit_aad-from_millis event.created_at dated) (
                open-seal aead random master (codec.encode event) (audit_aad event.created_at)
                  w.source new made))
              back,
        )
