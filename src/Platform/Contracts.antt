-- ===== src/Platform/Contracts.antt =====
-- internal/platform/contracts.go: what a publication is given and what it answers.
use nomadposting.Prelude.{ℕ, Bool, List, Str, text}
use nomadposting.Clock.{Time}

pub data Platform : Type 0 where
  x nostr : Platform

abbrev pub platform_text : Platform → Str
platform_text x = text "x"
platform_text nostr = text "nostr"

pub data PublicationState : Type 0 where
  complete partial failed unknown : PublicationState

pub record PublishCommand : Type 0 where
  pub job_id : Str
  pub content : Str
  pub payload_hash_hex : Str
  pub egress_policy_id : Str

pub record RelayResult : Type 0 where
  pub endpoint_id : Str
  pub accepted : Bool
  pub code : Str

pub record Receipt : Type 0 where
  pub platform : Platform
  pub state : PublicationState
  pub external_id : Str
  pub attempt_count : ℕ
  pub country_code : Str
  pub relay_results : List RelayResult
  pub created_at : Time
