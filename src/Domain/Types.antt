-- ===== src/Domain/Types.antt =====
-- internal/domain/types.go: the records that the controller stores and shows.
use nomadposting.Prelude.{ℕ, Bool, List, Option, Str}
use nomadposting.Clock.{Time}
use nomadposting.Domain.State.{JobState}

-- A Go string type; the empty text, its zero value, is a value too.
pub data Platform : Type 0 where
  x nostr no_platform : Platform

pub data ReceiptState : Type 0 where
  pending success partial failed unknown no_receipt_state : ReceiptState

pub record PostJob : Type 0 where
  pub id : Str
  pub encrypted_content : Str
  pub payload_hash : Str
  pub post_to_x : Bool
  pub post_to_nostr : Bool
  pub state : JobState
  pub approved_at : Option Time
  pub scheduled_at : Option Time
  pub created_at : Time
  pub updated_at : Time
  pub last_nostr_country : Str
  pub content_destroyed : Bool

pub record PlatformReceipt : Type 0 where
  pub id : ℕ
  pub job_id : Str
  pub platform : Platform
  pub state : ReceiptState
  pub external_id : Str
  pub country_code : Str
  pub attempt_count : ℕ
  pub relay_accepted : ℕ
  pub relay_attempted : ℕ
  pub safe_error : Str
  pub created_at : Time

pub record JobSummary : Type 0 where
  pub id : Str
  pub payload_hash : Str
  pub post_to_x : Bool
  pub post_to_nostr : Bool
  pub state : JobState
  pub approved_at : Option Time
  pub scheduled_at : Option Time
  pub created_at : Time
  pub updated_at : Time
  pub content_destroyed : Bool
  pub receipts : List PlatformReceipt

pub record AuditEvent : Type 0 where
  pub id : ℕ
  pub job_id : Str
  pub kind : Str
  pub detail : Str
  pub created_at : Time

pub record SystemState : Type 0 where
  pub emergency_stop : Bool
  pub reason : Str
  pub updated_at : Time
