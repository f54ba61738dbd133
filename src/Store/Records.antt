-- ===== src/Store/Records.antt =====
-- internal/store/sqlite.go: audit events and the emergency stop. The store holds a sealer or none;
-- encoding/json is the interface `Codec`.
pub mod Audit
use nomadposting.Prelude.{
  ℕ, ◌+◌, ◌≡◌, Bool, true, false, not, ◌||◌, List, [], ◌∷◌, ◌++◌, map, Option, none, some, Str,
  text, length, take, keep_if, ◌==◌, ℤ, pos, pos_part, ltb_ℤ, leb_ℤ, Result, ok, err, if◌then◌else◌,
}
use nomadposting.Errors.{Error, sealer_required, decode_error}
use nomadposting.Encoding.{show_ℤ}
use nomadposting.Random.{Random, Draw, ◌>>=◌, ◌>>◌, lift}
use nomadposting.Clock.{Time, millis, from_millis}
use nomadposting.Domain.Types.{AuditEvent, SystemState}
use nomadposting.Secure.Envelope.{Aead, Envelope, seal, open_envelope}
use nomadposting.Store.Tables.{AuditRow, Db, World, Action, Statement, exec, with_source, bool_int}

-- `json.Marshal` and `json.Unmarshal` of an audit event; a payload holds every field.
pub record Codec : Type 0 where
  pub encode : AuditEvent → Str
  pub decode : Str → Option AuditEvent

-- `auditAAD`.
unfoldable pub audit_aad : Time → Str
audit_aad created = text "audit:v1:" ++ show_ℤ (millis created)

unfoldable pub insert_audit : (job_id kind detail : Str) → ℤ → Str → Statement (Unit {0})
insert_audit job_id kind detail created payload db = (
  ok tt,
  record db {
    audits =
        db.audits
        ++ (record {
          id = db.next_audit;
          job_id = job_id;
          kind = kind;
          detail = detail;
          created_at = created;
          encrypted_payload = payload;
        })
          ∷ [];
    next_audit = db.next_audit + 1;
  },
)

-- `ORDER BY created_at DESC`; rows of one instant come in falling order of their IDs, as the index
-- on the column yields them.
unfoldable pub insert_newest : AuditRow → List AuditRow → List AuditRow
insert_newest r [] = r ∷ []
insert_newest r (q ∷ qs) =
    if leb_ℤ r.created_at q.created_at then q ∷ insert_newest r qs else r ∷ q ∷ qs

unfoldable pub newest_first : List AuditRow → List AuditRow
unfolding insert_newest
newest_first [] = []
newest_first (r ∷ rs) = insert_newest r (newest_first rs)

-- `if limit < 1 || limit > 500 { limit = 100 }`.
unfoldable pub clamp_limit : ℤ → ℕ
clamp_limit limit = if ltb_ℤ limit (pos 1) || ltb_ℤ (pos 500) limit then 100 else pos_part limit

abbrev stored_clear : AuditRow → Time → AuditEvent
stored_clear r created = record {
  id = r.id;
  job_id = r.job_id;
  kind = r.kind;
  detail = r.detail;
  created_at = created;
}

module _ (aead : Aead) (codec : Codec) where
  abbrev pub decoded : ℕ → Option AuditEvent → Result Error AuditEvent
  decoded id none = err decode_error
  decoded id (some e) = ok (record e { id = id })

  abbrev pub unsealed : ℕ → Result Error Str → Result Error AuditEvent
  unsealed id (err e) = err e
  unsealed id (ok plaintext) = decoded id (codec.decode plaintext)

  -- One row of `ListAudit`.
  unfoldable pub scan_audit : Option Envelope → AuditRow → Result Error AuditEvent
  scan_audit sealer r =
      let created = from_millis r.created_at in
      if length r.encrypted_payload == 0 then ok (stored_clear r created) else elim sealer [
        | none ↦ err sealer_required
        | some e ↦ unsealed r.id (open_envelope aead e r.encrypted_payload (audit_aad created))
      ]

  -- The loop over the rows: the first error ends it.
  unfoldable pub scan_audits : Option Envelope → List AuditRow → Result Error (List AuditEvent)
  unfolding scan_audit
  scan_audits sealer [] = ok []
  scan_audits sealer (r ∷ rs) =
      let rest = scan_audits sealer rs in
      elim (scan_audit sealer r) [
        | err e ↦ err e
        | ok event ↦ elim rest [ err e ↦ err e | ok events ↦ ok (event ∷ events) ]
      ]

  module _ {S : Type 0} (random : Random S) where
    unfoldable pub add_audit : Option Envelope → AuditEvent → Action S (Unit {0})
    unfolding insert_audit
    add_audit (some e) event = do
      sealed ← with_source (seal aead random e (codec.encode event) (audit_aad event.created_at))
      exec (insert_audit [] [] [] (millis event.created_at) sealed)
    add_audit none event =
        exec (insert_audit event.job_id event.kind event.detail (millis event.created_at) [])

  unfoldable pub list_audit : {S : Type 0} → Option Envelope → ℤ → Action S (List AuditEvent)
  unfolding scan_audits newest_first
  list_audit sealer limit =
      exec (λ db. (ok (take (clamp_limit limit) (newest_first db.audits)), db)) >>= λ rows.
      lift (scan_audits sealer rows)

module _ {S : Type 0} where
  -- `PurgeAuditBefore`: the answer is the number of rows deleted.
  unfoldable pub purge_audit_before : Time → Action S ℕ
  purge_audit_before before = exec (λ db. (
    ok (length (keep_if (λ (r : AuditRow). ltb_ℤ r.created_at (millis before)) db.audits)),
    record db { audits = keep_if (λ r. not (ltb_ℤ r.created_at (millis before))) db.audits },
  ))

  unfoldable pub system_state : Action S SystemState
  system_state = exec (λ db. (
    ok (record {
      emergency_stop = db.system.emergency_stop == 1;
      reason = db.system.reason;
      updated_at = from_millis db.system.updated_at;
    }),
    db,
  ))

  unfoldable pub set_emergency_stop : Bool → Str → Time → Action S (Unit {0})
  set_emergency_stop stopped reason at = exec (λ db. (
    ok tt,
    record db {
      system = record {
        emergency_stop = bool_int stopped;
        reason = reason;
        updated_at = millis at;
      };
    },
  ))
