-- ===== src/App/Approval.antt =====
-- internal/app/service.go: what a successful or failed approval leaves behind.
use nomadposting.Prelude.{
  ◌≤◌, Option, none, ◌+◌, text, ◌≡◌, refl, sym, ap, ◌∙◌, subst, ◌≢◌, inl, inr, false, not, ◌&&◌,
  ◌||◌, [], some, Str, str_eq, str_eq_iff, ◌==◌, Result, ok, if◌then◌else◌, arith, Bool-cases,
  Result-cases, Option-cases,
}
use nomadposting.Errors.{Error}
use nomadposting.Random.{◌>>=◌, ◌>>◌, lift}
use nomadposting.Clock.{Time}
use nomadposting.Domain.State.{draft, approved, state_eq, state_eq_iff}
use nomadposting.Domain.Approval.{approval_hash}
use nomadposting.Secure.Envelope.{open_envelope}
use nomadposting.Store.Tables.{JobRow, Db, World, Action, now, scan_job}
use nomadposting.Store.Jobs.{find_row, approve_set, approve_job}
use nomadposting.Store.Jobs.Changes.{ApprovedAs, approve_set-ApprovedAs}
use nomadposting.Store.Jobs.Update.{UniqueIds, updated, not_updated, faulted, update_one-Outcome}
use nomadposting.App.Service.{
  Service, Preview, ApprovedPayload, scheduled_text, is_due_later, now_if_scheduled, audit, preview,
  check_running, check_approval, approve, payload_of, payload_for_dispatch,
}
use nomadposting.App.Frames.{
  check_running-Unmoved, check_running_inv, preview-Unmoved, preview_inv, Unmoved, preview_job_inv,
  audit-jobs,
}

-- A schedule, if there is one, has come.
abbrev pub HasCome : Option Time → Time → Type 0
HasCome none at = Unit
HasCome (some t) at = t ≤ at

not_later-HasCome : (due : Option Time) (at : Time) → is_due_later due at ≡ false → HasCome due at
not_later-HasCome none at h = tt
not_later-HasCome (some t) at h = ground arith

module _ {S : Type 0} (s : Service S) where
  -- What an operator who approves `hash` of a job has seen: the job's row, and the content it opens to.
  abbrev pub Reviewed : (id hash : Str) → Db → JobRow → Str → Type 0
  Reviewed id hash db r content =
      (find_row id db.jobs ≡ some r)
      × (db.system.emergency_stop == 1 ≡ false)
      × (scan_job r).content_destroyed ≡ false
      × open_envelope s.aead s.sealer r.encrypted_content id ≡ ok content
      × approval_hash s.sha256 content (scan_job r).post_to_x (scan_job r).post_to_nostr
          (scheduled_text s.format_time (scan_job r).scheduled_at)
        ≡ ok hash

  preview-Reviewed :
      (id : Str) (w : World S) (p : Preview)
      → (check_running s w).0 ≡ ok tt
      → (preview s id (check_running s w).1).0 ≡ ok p
      → (r : JobRow) × Reviewed id p.hash w.db r p.content × (p.job ≡ scan_job r)
  unfolding scan_job
  preview-Reviewed id w p on h =
      let (r, found, shown) = preview_inv s id (check_running s w).1 h in
      let (a, b, c, d) = preview_job_inv s id (scan_job r) shown in
      (r, (ground (arith, check_running-Unmoved s w), check_running_inv s w on, b, c, d), a)

  check_approval-Unmoved : (id hash : Str) (w : World S) → Unmoved w (check_approval s id hash w).1
  unfolding check_approval
  check_approval-Unmoved id hash w = elim (Result-cases (check_running s w).0) [
    | inl (_, e) ↦ ground (arith, check_running-Unmoved s w)
    | inr (tt, e) ↦ elim (Result-cases (preview s id (check_running s w).1).0) [
      | inl (_, e') ↦
          ground (arith, check_running-Unmoved s w, preview-Unmoved s id (check_running s w).1)
      | inr (p, e') ↦
          ground (arith, check_running-Unmoved s w, preview-Unmoved s id (check_running s w).1)
    ]
  ]

  -- What the checks of an approval establish.
  check_approval_inv :
      (id hash : Str) (w : World S) (p : Preview)
      → (check_approval s id hash w).0 ≡ ok p
      → (r : JobRow) × Reviewed id hash w.db r p.content
        × (r.state ≡ draft)
        × (p.hash ≡ hash)
        × (hash ≢ [])
  unfolding check_approval scan_job
  check_approval_inv id hash w p h = elim (Result-cases (check_running s w).0) [
    | inl (_, e) ↦ absurd (ground arith)
    | inr (tt, e) ↦ elim (Result-cases (preview s id (check_running s w).1).0) [
      | inl (_, e') ↦ absurd (ground arith)
      | inr (q, e') ↦ elim (Bool-cases (state_eq q.job.state draft)) [
        | inr e'' ↦ absurd (ground arith)
        | inl at_draft ↦ elim (Bool-cases (str_eq hash [] || not (str_eq hash q.hash))) [
          | inl e'' ↦ absurd (ground arith)
          | inr fits ↦
              let (r, seen, same) = preview-Reviewed id w q e e' in
              let shown : q ≡ p = ground arith in
              let hashes : q.hash ≡ hash = ground (arith, str_eq_iff hash q.hash) in
              (
                r,
                subst (λ x. Reviewed id hash w.db r x) (ap (λ (x : Preview). x.content) shown)
                    (subst (λ x. Reviewed id x w.db r q.content) hashes seen),
                ground (arith, state_eq_iff q.job.state draft),
                ground arith,
                ground (arith, str_eq_iff hash []),
              )
        ]
      ]
    ]
  ]

  -- The two things an approval can do: take effect, on a draft whose content was reviewed, or fail
  -- and leave every job as it is.
  pub data Approval (id hash : Str) (w w' : World S) (answer : Result Error (Unit {0}))
      : Type 0 where
    took_effect :
        (r r' : JobRow) (content : Str)
        → Reviewed id hash w.db r content
        → r.state ≡ draft
        → hash ≢ []
        → ApprovedAs hash (w.clock w.ticks) r r'
        → ((j : Str)
            → find_row j w'.db.jobs ≡ (if str_eq id j then some r' else find_row j w.db.jobs))
        → Approval id hash w w' answer
    refused : answer ≢ ok tt → w'.db.jobs ≡ w.db.jobs → Approval id hash w w' answer

  -- The step of an approval behind its checks.
  record_approval : (id hash : Str) → Time → Action S (Unit {0})
  record_approval id hash at =
      approve_job id hash at
      >> audit s id (text "job.approved") (text "exact preview hash verified")

  recorded-Approval :
      (id hash : Str) (w w1 : World S) (r : JobRow) (content : Str)
      → UniqueIds w.db
      → w1.db ≡ w.db
      → Reviewed id hash w.db r content
      → r.state ≡ draft
      → hash ≢ []
      → Approval id hash w
          (record_approval id hash (w.clock w.ticks) w1).1
          (record_approval id hash (w.clock w.ticks) w1).0
  unfolding record_approval approve_job
  recorded-Approval id hash w w1 r content u same seen at_draft full =
      let at = w.clock w.ticks in
      elim (update_one-Outcome id (λ x. state_eq x.state draft && x.content_destroyed == 0)
        (approve_set hash at) (λ x. refl) w1 (subst UniqueIds (sym same) u)) [
          | updated x found px done look _ _ ↦
              let one : r ≡ x = ground (arith, found, same, seen.0) in
              took_effect r (approve_set hash at r) content seen at_draft full
                (approve_set-ApprovedAs hash at r)
                (λ j. ground (
                  arith,
                  look j,
                  audit-jobs s id (text "job.approved") (text "exact preview hash verified")
                      (approve_job id hash at w1).1,
                ))
          | not_updated failed _ left ↦ refused (ground arith) (ground arith)
          | faulted failed _ left ↦ refused (ground arith) (ground arith)
        ]

  -- What `Approve` does, on a store whose IDs are unique. Either it fails with every job left as it
  -- was, or all of this holds: the emergency stop is off, the job is stored as a DRAFT whose content
  -- is there and opens under the job's ID, the hash the operator sent is not empty and is the
  -- approval hash of exactly that content, its destinations and schedule, and that job alone is
  -- changed: its state is APPROVED, it has that hash and, as the times of its approval and its last
  -- update, the time read from the clock, and its other columns are as they were.
  pub approve-Approval :
      (id hash : Str) (w : World S)
      → UniqueIds w.db
      → Approval id hash w (approve s id hash w).1 (approve s id hash w).0
  unfolding approve now record_approval
  approve-Approval id hash w u =
      let w1 = (check_approval s id hash w).1 in
      let (left, clocks, ticks) = check_approval-Unmoved id hash w in
      elim (Result-cases (check_approval s id hash w).0) [
        | inl (_, e) ↦ refused (ground arith) (ground arith)
        | inr (p, e) ↦
            let (r, seen, at_draft, same, full) = check_approval_inv id hash w p e in
            let done =
              recorded-Approval id hash w (record w1 { ticks = w1.ticks + 1 }) r p.content u left
                seen at_draft full in
            subst (λ (v : Result Error (Unit {0}) × World S). Approval id hash w v.1 v.0)
              (ground (arith, e, same, clocks, ticks)) done
      ]

  payload_of_inv :
      (q : Preview) (at : Time) (p : ApprovedPayload)
      → payload_of s q at ≡ ok p
      → (is_due_later q.job.scheduled_at at ≡ false)
        × (q.job.payload_hash ≡ q.hash)
        × (p.job ≡ q.job)
        × (p.content ≡ q.content)
  unfolding payload_of
  payload_of_inv q at p h = ground (arith, str_eq_iff q.job.payload_hash q.hash)

  -- The last part of a dispatch, which reads the clock only for a schedule.
  release : Preview → Action S ApprovedPayload
  release q = now_if_scheduled q.job.scheduled_at >>= λ at. lift (payload_of s q at)

  release_inv :
      (q : Preview) (v : World S) (p : ApprovedPayload)
      → (release q v).0 ≡ ok p
      → (is_due_later q.job.scheduled_at (v.clock v.ticks) ≡ false)
        × (q.job.payload_hash ≡ q.hash)
        × (p.job ≡ q.job)
        × (p.content ≡ q.content)
  unfolding release now
  release_inv q v p h = elim (Option-cases q.job.scheduled_at) [
    | inl e ↦ let (_, a, b, c) = payload_of_inv q 0 p (ground arith) in (ground arith, a, b, c)
    | inr (t, e) ↦ payload_of_inv q (v.clock v.ticks) p (ground arith)
  ]

  release-db : (q : Preview) (v : World S) → (release q v).1.db ≡ v.db
  unfolding release now
  release-db q v = elim (Option-cases q.job.scheduled_at) [
    | inl e ↦ ground arith
    | inr (t, e) ↦ ground arith
  ]

  -- When `PayloadForDispatch` hands out content, the emergency stop is off, the job is stored as
  -- APPROVED, its content is not destroyed and opens, under the job's ID, to the content handed out,
  -- the approval hash of that content with the job's destinations and schedule is the hash that was
  -- stored at the approval, a schedule, if there is one, has passed on the clock, and the tables are unchanged.
  pub payload_for_dispatch_inv :
      (id : Str) (w : World S) (p : ApprovedPayload)
      → (payload_for_dispatch s id w).0 ≡ ok p
      → (r : JobRow) × Reviewed id r.payload_hash w.db r p.content
        × (r.state ≡ approved)
        × (p.job ≡ scan_job r)
        × HasCome (scan_job r).scheduled_at (w.clock w.ticks)
        × ((payload_for_dispatch s id w).1.db ≡ w.db)
  unfolding payload_for_dispatch release scan_job
  payload_for_dispatch_inv id w p h =
      let w1 = (check_running s w).1 in
      let at_w1 = check_running-Unmoved s w in
      let at_w2 = preview-Unmoved s id w1 in
      elim (Result-cases (check_running s w).0) [
        | inl (_, e) ↦ absurd (ground arith)
        | inr (tt, e) ↦ elim (Result-cases (preview s id w1).0) [
          | inl (_, e') ↦ absurd (ground arith)
          | inr (q, e') ↦ elim (Bool-cases (state_eq q.job.state approved)) [
            | inr e'' ↦ absurd (ground arith)
            | inl is_approved ↦
                let (r, seen, same) = preview-Reviewed id w q e e' in
                let v = (preview s id w1).1 in
                let (due, hashes, jobs, contents) = release_inv q v p (ground arith) in
                (
                  r,
                  subst (λ x. Reviewed id x w.db r p.content) (ground arith)
                      (subst (λ x. Reviewed id q.hash w.db r x) (sym contents) seen),
                  ground (arith, state_eq_iff q.job.state approved),
                  jobs ∙ same,
                  not_later-HasCome (scan_job r).scheduled_at (w.clock w.ticks)
                      (ground (arith, at_w1, at_w2)),
                  ground (arith, release-db q v, at_w1, at_w2),
                )
          ]
        ]
      ]
