-- ===== src/Scenarios/Stored.antt =====
-- Runs of the statements on `jobs` and of the service.
use nomadposting.Unicode.{is_space, is_space_rune, is_blank, decode_rune, runes_from, valid_string}
use nomadposting.Unicode.{is_space, is_space_rune, is_blank, decode_rune, valid_string, runes_from}
use nomadposting.Unicode.{runes_from, valid_string, is_space_rune}
use nomadposting.Unicode.{is_space}
use nomadposting.Unicode.{is_blank}
use nomadposting.Unicode.{decode_rune}
use mathlib.Core.List.{Memᴰ}
use nomadposting.Prelude.{
  has_byte, ℕ, ◌+◌, ◌*◌, ◌≡◌, refl, ◌≢◌, true, false, List, [], ◌∷◌, none, some, Str, text, str_eq,
  pos, Result, ok, err, if◌then◌else◌,
}
use nomadposting.Errors.{Error}
use nomadposting.Encoding.{show_ℤ, show_ℕ, show_fuel, hex_digit, hex_encode}
use nomadposting.Clock.{Time, millis, from_millis}
use nomadposting.Domain.State.{
  validate_transition, draft, approved, routing, cancelled, can_transition,
}
use nomadposting.Domain.State.Paths.{Life, is_dispatched}
use nomadposting.Domain.Types.{PostJob}
use nomadposting.Domain.Content.{to_lf, replace_crlf, replace_cr, is_publishable, normalize_content}
use nomadposting.Json.{json_string}
use nomadposting.Domain.Approval.{marshal_payload, approval_hash}
use nomadposting.Secure.Envelope.{
  open_fields, open_body, new_aead, seal_under, read_full, new_envelope, seal, open_envelope,
}
use nomadposting.Store.Tables.{
  null_time, time_ptr, require_one, exec, now, JobRow, World, empty_db, fault_now, scan_job,
  row_of_job,
}
use nomadposting.Store.Jobs.{
  insert_statement, select_statement, get_job, update_rows, create_job, approve_job, count_rows,
  find_row, transition_job, destroy_job_content,
}
use nomadposting.Store.Jobs.Moves.{JobOp, create, approve, transition, run_op, Fates, run_op-Fates}
use nomadposting.Store.Jobs.History.{run_ops, states_entered, dispatched_was_approved}
use nomadposting.Store.Jobs.Exact.{Swap, transition_job_swaps, destroy_job_content_erases}
use nomadposting.Store.Records.{
  insert_audit, audit_aad, system_state, add_audit, set_emergency_stop,
}
use nomadposting.App.Service.{
  destination_detail, random_id, payload_of, preview_job, check_running, audit,
  approve as approve_reviewed, Service, CreateDraftInput, Preview, ApprovedPayload, create_draft,
  preview, payload_for_dispatch, scheduled_text, emergency_stop,
}
use nomadposting.App.Approval.{
  HasCome, Reviewed, Approval, approve-Approval, payload_for_dispatch_inv,
}
use nomadposting.App.Stop.{emergency_stop_blocks}
use nomadposting.App.Drafts.{create_draft-preview}
use nomadposting.Scenarios.Fixtures.{
  unlock, draw_below, tag, lock, counter, padlock, envelope, master_key, checksum, draw_byte,
}

abbrev moment : Time
moment = 63900000000 * 1000000000

abbrev note : Str
note = text "note"

abbrev pub service : Service ℕ
service = record {
  aead = padlock;
  codec = record { encode = λ _. text "event"; decode = λ _. none };
  receipt_codec = record { encode = λ _. text "receipt"; decode = λ _. none };
  random = counter;
  sha256 = checksum;
  format_time = λ t. text "T";
  sealer = envelope;
  store_sealer = none;
  x_estimated_charge = text "0.01";
}

bytes_of : Result Error Str → Str
bytes_of (ok s) = s
bytes_of (err e) = []

pub sealed : Str
unfolding bytes_of
sealed = bytes_of (seal padlock counter envelope note (text "j") 5).0

pub hash : Str
unfolding bytes_of
hash = bytes_of (approval_hash checksum note true false [])

abbrev draft_row : JobRow
draft_row = record {
  id = text "j";
  encrypted_content = sealed;
  payload_hash = [];
  post_to_x = 1;
  post_to_nostr = 0;
  state = draft;
  approved_at = none;
  scheduled_at = none;
  created_at = pos 5;
  updated_at = pos 5;
  last_nostr_country = [];
  content_destroyed = 0;
}

abbrev world_of : JobRow → World ℕ
world_of r = record {
  db = record empty_db { jobs = r ∷ [] };
  source = 7;
  faults = [];
  clock = λ n. moment + n;
  ticks = 0;
}

abbrev pub world : World ℕ
world = world_of draft_row

abbrev approved_row : JobRow
approved_row = record draft_row { state = approved; payload_hash = hash }

-- The draft that is stored is approved.
approve-Approval_example :
    Approval service
      (text "j")
      hash
      world
      (approve_reviewed service (text "j") hash world).1
      (approve_reviewed service (text "j") hash world).0
approve-Approval_example = approve-Approval service (text "j") hash world (tt, tt)

abbrev payload : ApprovedPayload
payload = record { job = scan_job approved_row; content = note }

dispatched : (payload_for_dispatch service (text "j") (world_of approved_row)).0 ≡ ok payload
unfolding payload_for_dispatch sealed hash check_running system_state exec preview get_job find_row
    str_eq preview_job scan_job seal read_full draw_byte seal_under new_aead lock tag open_envelope
    payload_of from_millis approval_hash json_string marshal_payload is_publishable
    normalize_content replace_cr replace_crlf to_lf hex_digit hex_encode has_byte checksum
    draw_below unlock bytes_of open_body open_fields select_statement now time_ptr decode_rune
    is_blank is_space is_space_rune runes_from valid_string
dispatched = refl

payload_for_dispatch_inv_example :
    (r : JobRow) × Reviewed service (text "j") r.payload_hash (world_of approved_row).db r note
    × (r.state ≡ approved)
    × (payload.job ≡ scan_job r)
    × HasCome (scan_job r).scheduled_at moment
    × ((payload_for_dispatch service (text "j") (world_of approved_row)).1.db
        ≡ (world_of approved_row).db)
payload_for_dispatch_inv_example =
    payload_for_dispatch_inv service (text "j") (world_of approved_row) payload dispatched

abbrev input : CreateDraftInput
input = record { content = note; post_to_x = true; post_to_nostr = false; scheduled_at = none }

abbrev empty_world : World ℕ
empty_world = record world { db = empty_db }

job_of : Result Error PostJob → PostJob
job_of (ok j) = j
job_of (err e) = scan_job draft_row

drafted : PostJob
unfolding job_of
drafted = job_of (create_draft service input empty_world).0

drafted_ok : (create_draft service input empty_world).0 ≡ ok drafted
unfolding drafted create_draft normalize_content valid_string runes_from to_lf decode_rune has_byte
    is_blank is_space_rune random_id read_full draw_byte seal seal_under new_aead now create_job
    audit destination_detail from_millis millis is_publishable replace_cr replace_crlf hex_digit
    hex_encode show_fuel show_ℕ show_ℤ str_eq checksum draw_below lock tag unlock bytes_of job_of
    sealed find_row insert_statement add_audit audit_aad insert_audit exec null_time row_of_job
    scan_job time_ptr is_space
drafted_ok = refl

envelope_new : new_envelope master_key ≡ ok envelope
unfolding new_envelope
envelope_new = refl

drafted_quiet : fault_now (create_draft service input empty_world).1.faults ≡ false
unfolding create_draft normalize_content valid_string runes_from to_lf decode_rune has_byte is_blank
    is_space_rune random_id read_full draw_byte seal seal_under new_aead now create_job exec audit
    destination_detail millis is_publishable replace_cr replace_crlf hex_digit hex_encode show_fuel
    show_ℕ show_ℤ str_eq find_row insert_statement add_audit audit_aad insert_audit null_time
    row_of_job is_space
drafted_quiet = refl

create_draft-preview_example :
    (p : Preview) × ((preview service drafted.id (create_draft service input empty_world).1).0
      ≡ ok p)
    × (normalize_content note ≡ ok p.content)
    × (p.job.state ≡ draft)
    × (p.job.post_to_x ≡ true)
    × (p.job.post_to_nostr ≡ false)
    × (p.job.payload_hash ≡ [])
    × (approval_hash checksum p.content true false
          (scheduled_text service.format_time p.job.scheduled_at)
        ≡ ok p.hash)
create_draft-preview_example =
    create_draft-preview service master_key input empty_world drafted envelope_new drafted_ok
      drafted_quiet

stopped : (emergency_stop service true [] world).0 ≡ ok tt
unfolding emergency_stop now set_emergency_stop exec audit add_audit
stopped = refl

emergency_stop_blocks_example :
    ((id hash : Str)
      → ((approve_reviewed service id hash (emergency_stop service true [] world).1).0 ≢ ok tt)
        × ((approve_reviewed service id hash (emergency_stop service true [] world).1).1.db
            ≡ (emergency_stop service true [] world).1.db))
    × ((id : Str) (p : ApprovedPayload)
        → (payload_for_dispatch service id (emergency_stop service true [] world).1).0 ≢ ok p)
emergency_stop_blocks_example = emergency_stop_blocks service [] world stopped

transition_job_swaps_example :
    Swap
      (text "j")
      draft
      cancelled
      moment
      world
      (transition_job (text "j") draft cancelled moment world).1
      (transition_job (text "j") draft cancelled moment world).0
transition_job_swaps_example = transition_job_swaps (text "j") draft cancelled moment world (tt, tt)

erased : (destroy_job_content (text "j") moment world).0 ≡ ok tt
unfolding destroy_job_content exec require_one count_rows str_eq
erased = refl

destroy_job_content_erases_example :
    (r r' : JobRow) × (find_row (text "j") world.db.jobs ≡ some r)
    × (r.content_destroyed ≡ 0)
    × (find_row (text "j") (destroy_job_content (text "j") moment world).1.db.jobs ≡ some r')
    × (r'.encrypted_content ≡ [])
    × (r'.content_destroyed ≡ 1)
    × (r'.state ≡ r.state)
    × ((j : Str)
        → find_row j (destroy_job_content (text "j") moment world).1.db.jobs
          ≡ (if str_eq (text "j") j then some r' else find_row j world.db.jobs))
destroy_job_content_erases_example =
    destroy_job_content_erases (text "j") moment world (tt, tt) erased

run_op-Fates_example :
    Fates
      (transition (text "j") draft cancelled moment)
      world.db
      (run_op (transition (text "j") draft cancelled moment) world).db
run_op-Fates_example = run_op-Fates (transition (text "j") draft cancelled moment) world (tt, tt)

abbrev first_job : PostJob
first_job = record (scan_job draft_row) { state = draft }

abbrev ops : List JobOp
ops =
    create first_job
    ∷ approve (text "j") (text "h") moment
    ∷ transition (text "j") approved routing moment
    ∷ []

routed : JobRow
unfolding row_of_job scan_job
routed = record (row_of_job first_job) {
  payload_hash = text "h";
  state = routing;
  approved_at = some (millis moment);
  updated_at = millis moment;
}

routed_found : find_row (text "j") (run_ops ops empty_world).db.jobs ≡ some routed
unfolding routed run_ops run_op find_row transition_job validate_transition can_transition exec
    approve_job create_job update_rows str_eq
routed_found = refl

routed_dispatched : is_dispatched routed.state ≡ true
unfolding routed
routed_dispatched = refl

-- What the run above is seen to do with the job.
entered_routed : states_entered (text "j") ops empty_world [] ≡ (routing ∷ approved ∷ [])
unfolding states_entered run_op find_row transition_job validate_transition can_transition exec
    approve_job create_job update_rows str_eq row_of_job scan_job
entered_routed = refl

dispatched_was_approved_example :
    Life draft (states_entered (text "j") ops empty_world []) routed.state
    × Memᴰ approved (states_entered (text "j") ops empty_world [])
    × Memᴰ routing (states_entered (text "j") ops empty_world [])
dispatched_was_approved_example =
    dispatched_was_approved ops empty_world (text "j") routed refl (refl, (tt, (tt, tt)))
      routed_found routed_dispatched
