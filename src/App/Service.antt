-- ===== src/App/Service.antt =====
-- internal/app/service.go: drafts, previews, approval, dispatch, cancelling, reconciling and the
-- emergency stop. Each method is an `Action`: it runs statements on the store one after another.
use nomadposting.Prelude.{
  ℤ, List, Bool, true, false, not, ◌&&◌, ◌||◌, [], Option, none, some, Str, text, str_eq, length,
  ltb, ◌==◌, Result, ok, err, reject_if, if◌then◌else◌,
}
use nomadposting.Errors.{
  Error, no_destination, invalid_transition, content_erased, hash_mismatch, not_due, hash_drift,
  emergency_stop_active,
}
use nomadposting.Encoding.{hex_encode}
use nomadposting.Random.{Random, ◌>>=◌, ◌>>◌, lift}
use nomadposting.Clock.{Time}
use nomadposting.Domain.State.{draft, approved, unknown, partial, cancelled, state_eq}
use nomadposting.Domain.Types.{AuditEvent, PostJob, JobSummary, SystemState}
use nomadposting.Domain.Content.{normalize_content}
use nomadposting.Domain.Approval.{approval_hash}
use nomadposting.Secure.Envelope.{Aead, Envelope, read_full, seal, open_envelope}
use nomadposting.Store.Tables.{Action, with_source, now}
use nomadposting.Store.Jobs.{create_job, get_job, approve_job, transition_job}
use nomadposting.Store.Records.{Codec, add_audit, system_state, set_emergency_stop, list_audit}
use nomadposting.Store.Receipts.{ReceiptCodec, list_jobs}

pub record CreateDraftInput : Type 0 where
  pub content : Str
  pub post_to_x : Bool
  pub post_to_nostr : Bool
  pub scheduled_at : Option Time

pub record Preview : Type 0 where
  pub job : PostJob
  pub content : Str
  pub hash : Str
  pub x_cost : Str

pub record ApprovedPayload : Type 0 where
  pub job : PostJob
  pub content : Str

-- What a service is built over: the sealers of the service and of its store, the random source, the
-- operator's price estimate, and the standard library's SHA-256, JSON and RFC 3339.
pub record Service (S : Type 0) : Type 0 where
  pub aead : Aead
  pub codec : Codec
  pub receipt_codec : ReceiptCodec
  pub random : Random S
  pub sha256 : Str → Str
  pub format_time : Time → Str
  pub sealer : Envelope
  pub store_sealer : Option Envelope
  pub x_estimated_charge : Str

unfoldable pub destination_detail : (x nostr : Bool) → Str
destination_detail true true = text "destinations=x,nostr"
destination_detail true false = text "destination=x"
destination_detail false nostr = text "destination=nostr"

-- `preview.Job.ScheduledAt.UTC().Format(time.RFC3339Nano)`, or the empty text.
abbrev pub scheduled_text : (Time → Str) → Option Time → Str
scheduled_text format none = []
scheduled_text format (some t) = format t

-- `scheduled != nil && scheduled.After(now)`.
abbrev pub is_due_later : Option Time → Time → Bool
is_due_later none at = false
is_due_later (some t) at = ltb at t

-- An action whose error is dropped, `_ = call`.
abbrev pub ignore : {S : Type 0} → Action S (Unit {0}) → Action S (Unit {0})
ignore m w = (ok tt, (m w).1)

-- The clock is read only for a job that has a schedule.
abbrev pub now_if_scheduled : {S : Type 0} → Option Time → Action S Time
now_if_scheduled none = lift (ok 0)
now_if_scheduled (some t) = now

-- What `EmergencyStop` records as the reason, and the kind of its audit event.
unfoldable pub stop_reason : Bool → Str → Str
stop_reason false reason = []
stop_reason true reason =
    if str_eq reason [] then text "operator activated emergency stop" else reason

unfoldable pub stop_kind : Bool → Str
stop_kind true = text "system.emergency_stop.enabled"
stop_kind false = text "system.emergency_stop.disabled"

module _ {S : Type 0} (s : Service S) where
  unfoldable pub audit : (job_id kind detail : Str) → Action S (Unit {0})
  audit job_id kind detail = do
    at ← now
    add_audit s.aead s.codec s.random s.store_sealer
        (record { id = 0; job_id = job_id; kind = kind; detail = detail; created_at = at })

  -- `randomID`.
  unfoldable pub random_id : Action S Str
  random_id = do value ← with_source (read_full s.random 16); lift (ok (hex_encode value))

  unfoldable pub create_draft : CreateDraftInput → Action S PostJob
  create_draft input = do
    content ← lift (normalize_content input.content)
    lift (reject_if (not input.post_to_x && not input.post_to_nostr) no_destination)
    id ← random_id
    sealed ← with_source (seal s.aead s.random s.sealer content id)
    at ← now
    let job : PostJob = record {
      id = id;
      encrypted_content = sealed;
      payload_hash = [];
      post_to_x = input.post_to_x;
      post_to_nostr = input.post_to_nostr;
      state = draft;
      approved_at = none;
      scheduled_at = input.scheduled_at;
      created_at = at;
      updated_at = at;
      last_nostr_country = [];
      content_destroyed = false;
    }
    create_job job
    ignore
        (audit id (text "draft.created") (destination_detail input.post_to_x input.post_to_nostr))
    lift (ok job)

  -- `Preview` of a job that was read.
  unfoldable pub preview_job : Str → PostJob → Result Error Preview
  preview_job id job =
      if job.content_destroyed || length job.encrypted_content == 0
      then err content_erased
      else elim (open_envelope s.aead s.sealer job.encrypted_content id) [
        | err e ↦ err e
        | ok plaintext ↦
            elim (approval_hash s.sha256 plaintext job.post_to_x job.post_to_nostr
              (scheduled_text s.format_time job.scheduled_at)) [
                | err e ↦ err e
                | ok hash ↦ ok (record {
                  job = job;
                  content = plaintext;
                  hash = hash;
                  x_cost = s.x_estimated_charge;
                })
              ]
      ]

  unfoldable pub preview : Str → Action S Preview
  preview id = get_job id >>= λ job. lift (preview_job id job)

  -- The first check of `Approve` and `PayloadForDispatch`.
  unfoldable pub check_running : Action S (Unit {0})
  check_running = system_state >>= λ state.
      lift (reject_if state.emergency_stop (emergency_stop_active state.reason))

  -- `Approve` up to its checks; the answer is the preview that passed them.
  unfoldable pub check_approval : (id expected_hash : Str) → Action S Preview
  check_approval id expected_hash = do
    check_running
    p ← preview id
    lift (reject_if (not (state_eq p.job.state draft)) invalid_transition)
    lift (reject_if (str_eq expected_hash [] || not (str_eq expected_hash p.hash)) hash_mismatch)
    lift (ok p)

  unfoldable pub approve : (id expected_hash : Str) → Action S (Unit {0})
  approve id expected_hash = do
    p ← check_approval id expected_hash
    at ← now
    approve_job id p.hash at
    audit id (text "job.approved") (text "exact preview hash verified")

  -- The last checks of `PayloadForDispatch`, at the time that was read.
  unfoldable pub payload_of : Preview → Time → Result Error ApprovedPayload
  payload_of p at =
      if is_due_later p.job.scheduled_at at
      then err not_due
      else if not (str_eq p.job.payload_hash p.hash)
      then err hash_drift
      else ok (record { job = p.job; content = p.content })

  unfoldable pub payload_for_dispatch : Str → Action S ApprovedPayload
  payload_for_dispatch id = do
    check_running
    p ← preview id
    lift (reject_if (not (state_eq p.job.state approved)) invalid_transition)
    at ← now_if_scheduled p.job.scheduled_at
    lift (payload_of p at)

  unfoldable pub cancel : Str → Action S (Unit {0})
  cancel id = do
    job ← get_job id
    at ← now
    transition_job id job.state cancelled at
    audit id (text "job.cancelled") (text "operator cancelled before completion")

  unfoldable pub reconcile : Str → Action S (Unit {0})
  reconcile id = do
    job ← get_job id
    lift (
        reject_if (not (state_eq job.state unknown) && not (state_eq job.state partial))
          invalid_transition)
    audit id (text "job.reconcile.requested")
        (text "manual reconciliation queued; no automatic resend")

  unfoldable pub emergency_stop : Bool → Str → Action S (Unit {0})
  emergency_stop stopped reason = do
    at ← now
    set_emergency_stop stopped (stop_reason stopped reason) at
    audit [] (stop_kind stopped) (stop_reason stopped reason)

  -- `Jobs`, `Audit` and `SystemState` ask the store.
  unfoldable pub jobs : ℤ → Action S (List JobSummary)
  jobs limit = list_jobs s.aead s.receipt_codec s.store_sealer limit

  unfoldable pub audit_log : ℤ → Action S (List AuditEvent)
  audit_log limit = list_audit s.aead s.codec s.store_sealer limit

  unfoldable pub current_state : Action S SystemState
  current_state = system_state
