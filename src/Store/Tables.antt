-- ===== src/Store/Tables.antt =====
-- internal/store/sqlite.go: the schema of `migrate` as records, and how a statement runs.
use nomadposting.Prelude.{
  none, ℕ, ◌+◌, ◌≡◌, ◌⊎◌, inl, inr, Bool-cases, Bool, true, false, List, [], ◌∷◌, Option, Str, ℤ,
  pos, ◌==◌, Result, ok, err, if◌then◌else◌,
}
use mathlib.Core.Option
use nomadposting.Errors.{Error, database_error, not_found}
use nomadposting.Random.{Draw}
use nomadposting.Clock.{Time, millis, from_millis}
use nomadposting.Domain.State.{JobState}
use nomadposting.Domain.Types.{PostJob, Platform, ReceiptState}

-- A row of `jobs`. Flags are 0 or 1, times milliseconds; NULL and an empty blob scan alike.
pub record JobRow : Type 0 where
  pub id : Str
  pub encrypted_content : Str
  pub payload_hash : Str
  pub post_to_x : ℕ
  pub post_to_nostr : ℕ
  pub state : JobState
  pub approved_at : Option ℤ
  pub scheduled_at : Option ℤ
  pub created_at : ℤ
  pub updated_at : ℤ
  pub last_nostr_country : Str
  pub content_destroyed : ℕ

-- A row of `audit_events`; an empty payload stands for an event stored in the clear.
pub record AuditRow : Type 0 where
  pub id : ℕ
  pub job_id : Str
  pub kind : Str
  pub detail : Str
  pub created_at : ℤ
  pub encrypted_payload : Str

-- The one row of `system_state`.
pub record SystemRow : Type 0 where
  pub emergency_stop : ℕ
  pub reason : Str
  pub updated_at : ℤ

-- A row of `receipts`; an empty payload stands for a receipt stored in the clear.
pub record ReceiptRow : Type 0 where
  pub id : ℕ
  pub job_id : Str
  pub platform : Platform
  pub state : ReceiptState
  pub external_id : Str
  pub country_code : Str
  pub attempt_count : ℕ
  pub relay_accepted : ℕ
  pub relay_attempted : ℕ
  pub safe_error : Str
  pub created_at : ℤ
  pub encrypted_payload : Str

-- The one row of `auth_state`, when there is one.
pub record AuthRow : Type 0 where
  pub user_id : Str
  pub credentials_json : Str
  pub updated_at : ℤ

-- The one row of `auth_recovery_state` or of `x_oauth_state`.
pub record SecretRow : Type 0 where
  pub encrypted : Str
  pub updated_at : ℤ

pub record Db : Type 0 where
  pub jobs : List JobRow
  pub receipts : List ReceiptRow
  pub next_receipt : ℕ
  pub auth : Option AuthRow
  pub recovery : Option SecretRow
  pub x_oauth : Option SecretRow
  pub audits : List AuditRow
  pub next_audit : ℕ
  pub system : SystemRow

-- The tables after `migrate` on a new file.
abbrev pub empty_db : Db
empty_db = record {
  jobs = [];
  receipts = [];
  next_receipt = 1;
  auth = none;
  recovery = none;
  x_oauth = none;
  audits = [];
  next_audit = 1;
  system = record { emergency_stop = 0; reason = []; updated_at = pos 0 };
}

-- What a controller runs in: the database, the random source, the clock, and which of the coming
-- statements the driver fails (when the list ends, none).
pub record World (S : Type 0) : Type 0 where
  pub db : Db
  pub source : S
  pub faults : List Bool
  pub clock : ℕ → Time
  pub ticks : ℕ

abbrev pub Action {ℓ} : Type 0 → Type ℓ → Type ℓ
Action S A = Draw (World S) Error A

abbrev pub fault_now : List Bool → Bool
fault_now [] = false
fault_now (f ∷ fs) = f

abbrev pub later_faults : List Bool → List Bool
later_faults [] = []
later_faults (f ∷ fs) = fs

-- A statement on the tables, atomic: it answers, or fails and changes nothing.
abbrev pub Statement {ℓ} : Type ℓ → Type ℓ
Statement A = Db → Result Error A × Db

module _ {S : Type 0} where
  abbrev pub finish {ℓ} : {A : Type ℓ} → World S → Result Error A × Db → Result Error A × World S
  finish w (r, db) = (r, record w { db = db; faults = later_faults w.faults })

  unfoldable pub exec {ℓ} : {A : Type ℓ} → Statement A → Action S A
  exec statement w =
      if fault_now w.faults
      then (err database_error, record w { faults = later_faults w.faults })
      else finish w (statement w.db)

  -- After a statement the tables are as before, or as the statement leaves them.
  pub exec-db {ℓ} :
      {A : Type ℓ} (statement : Statement A) (w : World S)
      → ((exec statement w).1.db ≡ w.db) ⊎ ((exec statement w).1.db ≡ (statement w.db).1)
  unfolding exec
  exec-db statement w = elim (Bool-cases (fault_now w.faults)) [
    | inl f ↦ inl (rw f)
    | inr f ↦ inr (rw f)
  ]

  -- A computation on the random source alone.
  abbrev pub with_source {ℓ} : {A : Type ℓ} → Draw S Error A → Action S A
  with_source m w = let (r, s) = m w.source in (r, record w { source = s })

  -- `s.now()`.
  unfoldable pub now : Action S Time
  now w = (ok (w.clock w.ticks), record w { ticks = w.ticks + 1 })

-- `boolInt`.
abbrev pub bool_int : Bool → ℕ
bool_int true = 1
bool_int false = 0

-- `nullTime` and `timePtr`.
unfoldable pub null_time : Option Time → Option ℤ
null_time = Option.map millis

unfoldable pub time_ptr : Option ℤ → Option Time
time_ptr = Option.map from_millis

-- `requireOne`.
unfoldable pub require_one : ℕ → Result Error (Unit {0})
require_one rows = if rows == 1 then ok tt else err not_found

-- The columns that `CreateJob` writes.
unfoldable pub row_of_job : PostJob → JobRow
unfolding null_time
row_of_job j = record {
  id = j.id;
  encrypted_content = j.encrypted_content;
  payload_hash = j.payload_hash;
  post_to_x = bool_int j.post_to_x;
  post_to_nostr = bool_int j.post_to_nostr;
  state = j.state;
  approved_at = null_time j.approved_at;
  scheduled_at = null_time j.scheduled_at;
  created_at = millis j.created_at;
  updated_at = millis j.updated_at;
  last_nostr_country = j.last_nostr_country;
  content_destroyed = bool_int j.content_destroyed;
}

-- `scanJob`.
unfoldable pub scan_job : JobRow → PostJob
unfolding time_ptr
scan_job r = record {
  id = r.id;
  encrypted_content = r.encrypted_content;
  payload_hash = r.payload_hash;
  post_to_x = r.post_to_x == 1;
  post_to_nostr = r.post_to_nostr == 1;
  state = r.state;
  approved_at = time_ptr r.approved_at;
  scheduled_at = time_ptr r.scheduled_at;
  created_at = from_millis r.created_at;
  updated_at = from_millis r.updated_at;
  last_nostr_country = r.last_nostr_country;
  content_destroyed = r.content_destroyed == 1;
}
