-- ===== src/App/Frames.antt =====
-- What the parts of the service's methods read, and what they leave alone.
use nomadposting.Prelude.{
  ◌≡◌, refl, inl, inr, false, Option, none, some, Str, length, ◌==◌, ok, arith, Bool-cases,
  Result-cases, Option-cases,
}
use nomadposting.Random.{Random}
use nomadposting.Domain.Types.{PostJob, AuditEvent}
use nomadposting.Domain.Approval.{approval_hash}
use nomadposting.Secure.Envelope.{Aead, Envelope, open_envelope}
use nomadposting.Store.Tables.{JobRow, Db, World, Statement, exec, fault_now, now, scan_job}
use nomadposting.Store.Jobs.{find_row, select_statement, get_job}
use nomadposting.Store.Records.{Codec, insert_audit, add_audit, system_state}
use nomadposting.App.Service.{
  Service, Preview, scheduled_text, audit, preview_job, preview, check_running,
}

-- The tables and the clock are as before.
abbrev pub Unmoved : {S : Type 0} → World S → World S → Type 0
Unmoved w w' = (w'.db ≡ w.db) × (w'.clock ≡ w.clock) × (w'.ticks ≡ w.ticks)

-- A statement that only reads.
reads-Unmoved :
    {S A : Type 0} (statement : Statement A) (w : World S)
    → (statement w.db).1 ≡ w.db
    → Unmoved w (exec statement w).1
unfolding exec
reads-Unmoved statement w same = elim (Bool-cases (fault_now w.faults)) [
  | inl f ↦ rw f (refl, refl, refl)
  | inr f ↦ rw f (same, refl, refl)
]

select_statement-db : (id : Str) (db : Db) → (select_statement id db).1 ≡ db
unfolding select_statement
select_statement-db id db = ground arith

select_statement_inv :
    (id : Str) (db : Db) {job : PostJob}
    → (select_statement id db).0 ≡ ok job
    → (r : JobRow) × (find_row id db.jobs ≡ some r) × (job ≡ scan_job r)
unfolding select_statement
select_statement_inv id db h = elim (Option-cases (find_row id db.jobs)) [
  | inl e ↦ absurd (ground arith)
  | inr (r, e) ↦ (r, e, ground arith)
]

-- A statement that answers was run on the tables.
exec_inv :
    {S A : Type 0} (statement : Statement A) (w : World S) {a : A}
    → (exec statement w).0 ≡ ok a
    → ((statement w.db).0 ≡ ok a) × ((exec statement w).1.db ≡ (statement w.db).1)
unfolding exec
exec_inv statement w h = elim (Bool-cases (fault_now w.faults)) [
  | inl f ↦ absurd (ground arith)
  | inr f ↦ (ground arith, ground arith)
]

module _ {S : Type 0} (id : Str) (w : World S) where
  pub get_job-Unmoved : Unmoved w (get_job id w).1
  unfolding get_job
  get_job-Unmoved = reads-Unmoved (select_statement id) w (select_statement-db id w.db)

  pub get_job_inv :
      {job : PostJob}
      → (get_job id w).0 ≡ ok job
      → (r : JobRow) × (find_row id w.db.jobs ≡ some r) × (job ≡ scan_job r)
  unfolding get_job
  get_job_inv h = select_statement_inv id w.db (exec_inv (select_statement id) w h).0

-- What an audit call leaves: the jobs and the emergency stop.
add_audit-jobs :
    {S : Type 0} (aead : Aead) (codec : Codec) (random : Random S) (sealer : Option Envelope)
    (event : AuditEvent) (w : World S)
    → ((add_audit aead codec random sealer event w).1.db.jobs ≡ w.db.jobs)
      × ((add_audit aead codec random sealer event w).1.db.system ≡ w.db.system)
unfolding add_audit exec insert_audit
add_audit-jobs aead codec random none event w = ground arith
add_audit-jobs aead codec random (some e) event w = ground arith

module _ {S : Type 0} (s : Service S) where
  pub audit-jobs :
      (id kind detail : Str) (w : World S)
      → ((audit s id kind detail w).1.db.jobs ≡ w.db.jobs)
        × ((audit s id kind detail w).1.db.system ≡ w.db.system)
  unfolding audit now
  audit-jobs id kind detail w = add_audit-jobs s.aead s.codec s.random s.store_sealer _ _

  pub check_running-Unmoved : (w : World S) → Unmoved w (check_running s w).1
  unfolding check_running system_state exec
  check_running-Unmoved w = ground arith

  -- With the emergency stop on, the check fails; when it succeeds the stop is off.
  pub check_running_inv :
      (w : World S) → (check_running s w).0 ≡ ok tt → (w.db.system.emergency_stop == 1) ≡ false
  unfolding check_running system_state exec
  check_running_inv w h = ground arith

  pub preview-Unmoved : (id : Str) (w : World S) → Unmoved w (preview s id w).1
  unfolding preview
  preview-Unmoved id w = elim (Result-cases (get_job id w).0) [
    | inl (_, e) ↦ ground (arith, get_job-Unmoved id w)
    | inr (_, e) ↦ ground (arith, get_job-Unmoved id w)
  ]

  -- A preview is of the row that is stored under the ID.
  pub preview_inv :
      (id : Str) (w : World S) {p : Preview}
      → (preview s id w).0 ≡ ok p
      → (r : JobRow) × (find_row id w.db.jobs ≡ some r) × (preview_job s id (scan_job r) ≡ ok p)
  unfolding preview
  preview_inv id w h = elim (Result-cases (get_job id w).0) [
    | inl (_, e) ↦ absurd (ground arith)
    | inr (job, e) ↦ let (r, found, same) = get_job_inv id w e in (r, found, ground arith)
  ]

  -- What a preview shows of a job: the bytes that open under the job's ID, and their hash.
  pub preview_job_inv :
      (id : Str) (job : PostJob) {p : Preview}
      → preview_job s id job ≡ ok p
      → (p.job ≡ job)
        × (job.content_destroyed ≡ false)
        × (open_envelope s.aead s.sealer job.encrypted_content id ≡ ok p.content)
        × (approval_hash s.sha256 p.content job.post_to_x job.post_to_nostr
              (scheduled_text s.format_time job.scheduled_at)
            ≡ ok p.hash)
  unfolding preview_job
  preview_job_inv id job h = elim (Bool-cases job.content_destroyed) [
    | inl e ↦ absurd (ground arith)
    | inr kept ↦ elim (Bool-cases (length job.encrypted_content == 0)) [
      | inl e ↦ absurd (ground arith)
      | inr full ↦ elim (Result-cases (open_envelope s.aead s.sealer job.encrypted_content id)) [
        | inl (_, e) ↦ absurd (ground arith)
        | inr (plain, e) ↦
            elim (Result-cases (
              approval_hash s.sha256 plain job.post_to_x job.post_to_nostr
                (scheduled_text s.format_time job.scheduled_at))) [
                  | inl (_, e') ↦ absurd (ground arith)
                  | inr (hash, e') ↦ (ground arith, kept, ground arith, ground arith)
                ]
      ]
    ]
  ]
