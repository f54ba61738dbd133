-- ===== src/App/Drafts.antt =====
-- internal/app/service.go: `CreateDraft` and the preview of its job.
use nomadposting.Prelude.{
  ℕ, ◌+◌, text, ◌≡◌, refl, ap, ◌∙◌, subst, inl, inr, Bool, true, false, not, ◌&&◌, [], ◌∷◌, ◌++◌,
  none, some, Str, str_eq_refl, ◌==◌, ok, arith, Bool-cases, Result-cases, Option-cases,
}
use nomadposting.Random.{◌>>◌, lift}
use nomadposting.Clock.{Time}
use nomadposting.Domain.State.{draft}
use nomadposting.Domain.Types.{PostJob}
use nomadposting.Domain.Content.{normalize_content}
use nomadposting.Domain.Content.Normal.{normalize_content_idem}
use nomadposting.Domain.Approval.{approval_hash}
use nomadposting.Secure.Envelope.{new_envelope, seal, open_envelope}
use nomadposting.Secure.Envelope.RoundTrip.{seal-IsSealed, open-seal}
use nomadposting.Store.Jobs.Rows.{find_row-snoc}
use nomadposting.Store.Tables.{
  Action, JobRow, Db, World, exec, fault_now, now, bool_int, row_of_job, scan_job,
}
use nomadposting.Store.Jobs.{find_row, create_job, get_job, select_statement, insert_statement}
use nomadposting.App.Frames.{audit-jobs}
use nomadposting.App.Service.{
  audit, ignore, Service, CreateDraftInput, Preview, preview, scheduled_text, random_id,
  destination_detail, create_draft, preview_job,
}

-- Content that `NormalizeContent` returned, with a destination, has an approval hash.
approval_hash-normal :
    (sha256 : Str → Str) (content at : Str) (x n : Bool)
    → normalize_content content ≡ ok content
    → not x && not n ≡ false
    → (hash : Str) × (approval_hash sha256 content x n at ≡ ok hash)
unfolding approval_hash
approval_hash-normal sha256 content at x n normal some_destination =
    elim (Result-cases (approval_hash sha256 content x n at)) [
      | inl (_, e) ↦ absurd (ground arith)
      | inr (hash, e) ↦ (hash, e)
    ]

module _ {S : Type 0} (s : Service S) where
  preview_job-sealed :
      (id content hash : Str) (job : PostJob) (b : ℕ) (rest : Str)
      → job.encrypted_content ≡ b ∷ rest
      → job.content_destroyed ≡ false
      → open_envelope s.aead s.sealer job.encrypted_content id ≡ ok content
      → approval_hash s.sha256 content job.post_to_x job.post_to_nostr
          (scheduled_text s.format_time job.scheduled_at)
        ≡ ok hash
      → preview_job s id job
        ≡ ok (record { job = job; content = content; hash = hash; x_cost = s.x_estimated_charge })
  unfolding preview_job
  preview_job-sealed id content hash job b rest full kept opened hashed = ground arith

  create_job_inv :
      (job : PostJob) (w : World S)
      → (create_job job w).0 ≡ ok tt
      → (find_row job.id w.db.jobs ≡ none)
        × ((create_job job w).1.db.jobs ≡ w.db.jobs ++ row_of_job job ∷ [])
  unfolding create_job exec insert_statement row_of_job
  create_job_inv job w h = elim (Bool-cases (fault_now w.faults)) [
    | inl f ↦ absurd (ground arith)
    | inr f ↦ elim (Option-cases (find_row job.id w.db.jobs)) [
      | inl missing ↦ (missing, ground arith)
      | inr (_, there) ↦ absurd (ground arith)
    ]
  ]

  create_job-stored :
      (job : PostJob) (w : World S)
      → (create_job job w).0 ≡ ok tt
      → find_row job.id (create_job job w).1.db.jobs ≡ some (row_of_job job)
  unfolding row_of_job
  create_job-stored job w h =
      let (missing, left) = create_job_inv job w h in
      ap (find_row job.id) left
      ∙ find_row-snoc (row_of_job job) w.db.jobs job.id missing
      ∙ rw (str_eq_refl job.id) refl

  -- How a draft comes about.
  record Drafted (input : CreateDraftInput) (job : PostJob) (after : Db) : Type 0 where
    content : Str
    source : S
    normal : normalize_content input.content ≡ ok content
    destination : not input.post_to_x && not input.post_to_nostr ≡ false
    sealing : (seal s.aead s.random s.sealer content job.id source).0 ≡ ok job.encrypted_content
    to_x : job.post_to_x ≡ input.post_to_x
    to_nostr : job.post_to_nostr ≡ input.post_to_nostr
    schedule : job.scheduled_at ≡ input.scheduled_at
    is_draft : job.state ≡ draft
    unhashed : job.payload_hash ≡ []
    kept : job.content_destroyed ≡ false
    stored : find_row job.id after.jobs ≡ some (row_of_job job)

  -- The job that `CreateDraft` writes.
  abbrev draft_of : CreateDraftInput → (id sealed : Str) → Time → PostJob
  draft_of input id sealed at = record {
    id = id;
    encrypted_content = sealed;
    payload_hash = [];
    post_to_x = input.post_to_x;
    post_to_nostr = input.post_to_nostr;
    state = draft;
    approved_at = none;
    scheduled_at = input.scheduled_at;
    created_at = at;
    updated_at = at;
    last_nostr_country = [];
    content_destroyed = false;
  }

  -- The last steps of `CreateDraft`.
  write_draft : CreateDraftInput → PostJob → Action S PostJob
  write_draft input j = do
    create_job j
    ignore (
        audit s j.id (text "draft.created")
          (destination_detail input.post_to_x input.post_to_nostr))
    lift (ok j)

  write_draft-stored :
      (input : CreateDraftInput) (j : PostJob) (w : World S) {job : PostJob}
      → (write_draft input j w).0 ≡ ok job
      → (j ≡ job) × (find_row j.id (write_draft input j w).1.db.jobs ≡ some (row_of_job j))
  unfolding write_draft
  write_draft-stored input j w h = elim (Result-cases (create_job j w).0) [
    | inl (_, c) ↦ absurd (ground arith)
    | inr (tt, c) ↦
        let detail = destination_detail input.post_to_x input.post_to_nostr in
        let kept = (audit-jobs s j.id (text "draft.created") detail (create_job j w).1).0 in
        (ground arith, ground (arith, kept, create_job-stored j w c))
  ]

  create_draft-Drafted :
      (input : CreateDraftInput) (w : World S) (job : PostJob)
      → (create_draft s input w).0 ≡ ok job
      → Drafted input job (create_draft s input w).1.db
  unfolding create_draft now write_draft
  create_draft-Drafted input w job h = elim (Result-cases (normalize_content input.content)) [
    | inl (_, e) ↦ absurd (ground arith)
    | inr (content, e) ↦ elim (Bool-cases (not input.post_to_x && not input.post_to_nostr)) [
      | inl d ↦ absurd (ground arith)
      | inr d ↦ elim (Result-cases (random_id s w).0) [
        | inl (_, f) ↦ absurd (ground arith)
        | inr (id, f) ↦
            let w1 = (random_id s w).1 in
            let r = seal s.aead s.random s.sealer content id w1.source in
            elim (Result-cases r.0) [
              | inl (_, g) ↦ absurd (ground arith)
              | inr (sealed, g) ↦
                  let w2 : World S = record w1 { source = r.1; ticks = w1.ticks + 1 } in
                  let j = draft_of input id sealed (w1.clock w1.ticks) in
                  let (same, stored) = write_draft-stored input j w2 {job = job} (ground arith) in
                  subst (λ x. Drafted input x (create_draft s input w).1.db) same
                    (record {
                      content = content;
                      source = w1.source;
                      normal = e;
                      destination = d;
                      sealing = g;
                      to_x = refl;
                      to_nostr = refl;
                      schedule = refl;
                      is_draft = refl;
                      unhashed = refl;
                      kept = refl;
                      stored = ground (arith, stored);
                    })
            ]
      ]
    ]
  ]

  -- A flag is read back as it was written.
  bool_int-one : (b : Bool) → bool_int b == 1 ≡ b
  bool_int-one true = refl
  bool_int-one false = refl

  preview-stored :
      (id : Str) (w : World S) (r : JobRow) {p : Preview}
      → fault_now w.faults ≡ false
      → find_row id w.db.jobs ≡ some r
      → preview_job s id (scan_job r) ≡ ok p
      → (preview s id w).0 ≡ ok p
  unfolding preview get_job exec select_statement
  preview-stored id w r quiet found shown = ground arith

  -- Under a sealer with a proper key, when `CreateDraft` succeeds, `Preview` of the new job, called
  -- next and with no database fault, succeeds too: it shows the normalized form of the content that
  -- was given, on a job in the state DRAFT with the destinations that were given, no approved hash and
  -- the approval hash of exactly that content, those destinations and the stored schedule.
  pub create_draft-preview :
      (master : Str) (input : CreateDraftInput) (w : World S) (job : PostJob)
      → new_envelope master ≡ ok s.sealer
      → (create_draft s input w).0 ≡ ok job
      → fault_now (create_draft s input w).1.faults ≡ false
      → (p : Preview) × ((preview s job.id (create_draft s input w).1).0 ≡ ok p)
        × (normalize_content input.content ≡ ok p.content)
        × (p.job.state ≡ draft)
        × (p.job.post_to_x ≡ input.post_to_x)
        × (p.job.post_to_nostr ≡ input.post_to_nostr)
        × (p.job.payload_hash ≡ [])
        × (approval_hash s.sha256 p.content input.post_to_x input.post_to_nostr
              (scheduled_text s.format_time p.job.scheduled_at)
            ≡ ok p.hash)
  unfolding scan_job row_of_job
  create_draft-preview master input w job new h quiet =
      let d = create_draft-Drafted input w job h in
      let read = scan_job (row_of_job job) in
      let x_kept : read.post_to_x ≡ input.post_to_x = bool_int-one job.post_to_x ∙ d.to_x in
      let nostr_kept : read.post_to_nostr ≡ input.post_to_nostr =
        bool_int-one job.post_to_nostr ∙ d.to_nostr in
      let at = scheduled_text s.format_time read.scheduled_at in
      let (hash, hashed) =
        approval_hash-normal s.sha256 d.content at input.post_to_x input.post_to_nostr
          (normalize_content_idem input.content d.content d.normal) d.destination in
      let q = seal-IsSealed s.aead s.random s.sealer d.content job.id d.source d.sealing in
      let shown =
        preview_job-sealed job.id d.content hash read _ _ q.bytes
          (bool_int-one job.content_destroyed ∙ d.kept)
          (open-seal s.aead s.random master d.content job.id d.source new d.sealing)
          (rw (x_kept, nostr_kept) hashed) in
      (
        record { job = read; content = d.content; hash = hash; x_cost = s.x_estimated_charge },
        preview-stored job.id (create_draft s input w).1 (row_of_job job) quiet d.stored shown,
        d.normal,
        d.is_draft,
        x_kept,
        nostr_kept,
        d.unhashed,
        hashed,
      )
