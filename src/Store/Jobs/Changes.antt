-- ===== src/Store/Jobs/Changes.antt =====
-- internal/store/sqlite.go: what an approval and a transition change in a row of `jobs`, column by column.
use nomadposting.Prelude.{◌≡◌, refl, some, Str}
use nomadposting.Clock.{Time, millis}
use nomadposting.Domain.State.{JobState, approved}
use nomadposting.Store.Tables.{JobRow}
use nomadposting.Store.Jobs.{approve_set, move_set}

-- The columns that neither changes.
pub record SameJob (r r' : JobRow) : Type 0 where
  pub id : r'.id ≡ r.id
  pub encrypted_content : r'.encrypted_content ≡ r.encrypted_content
  pub post_to_x : r'.post_to_x ≡ r.post_to_x
  pub post_to_nostr : r'.post_to_nostr ≡ r.post_to_nostr
  pub scheduled_at : r'.scheduled_at ≡ r.scheduled_at
  pub created_at : r'.created_at ≡ r.created_at
  pub last_nostr_country : r'.last_nostr_country ≡ r.last_nostr_country
  pub content_destroyed : r'.content_destroyed ≡ r.content_destroyed

-- `r'` is `r` in the state APPROVED, with the hash that was approved and the time of the approval.
pub record ApprovedAs (hash : Str) (at : Time) (r r' : JobRow) : Type 0 where
  pub state : r'.state ≡ approved
  pub payload_hash : r'.payload_hash ≡ hash
  pub approved_at : r'.approved_at ≡ some (millis at)
  pub updated_at : r'.updated_at ≡ millis at
  pub same : SameJob r r'

-- `r'` is `r` in the state `to`, with its approval as it was.
pub record MovedTo (to : JobState) (at : Time) (r r' : JobRow) : Type 0 where
  pub state : r'.state ≡ to
  pub payload_hash : r'.payload_hash ≡ r.payload_hash
  pub approved_at : r'.approved_at ≡ r.approved_at
  pub updated_at : r'.updated_at ≡ millis at
  pub same : SameJob r r'

pub approve_set-ApprovedAs :
    (hash : Str) (at : Time) (r : JobRow) → ApprovedAs hash at r (approve_set hash at r)
approve_set-ApprovedAs hash at r = record {
  state = refl;
  payload_hash = refl;
  approved_at = refl;
  updated_at = refl;
  same = record {
    id = refl;
    encrypted_content = refl;
    post_to_x = refl;
    post_to_nostr = refl;
    scheduled_at = refl;
    created_at = refl;
    last_nostr_country = refl;
    content_destroyed = refl;
  };
}

pub move_set-MovedTo : (to : JobState) (at : Time) (r : JobRow) → MovedTo to at r (move_set to at r)
move_set-MovedTo to at r = record {
  state = refl;
  payload_hash = refl;
  approved_at = refl;
  updated_at = refl;
  same = record {
    id = refl;
    encrypted_content = refl;
    post_to_x = refl;
    post_to_nostr = refl;
    scheduled_at = refl;
    created_at = refl;
    last_nostr_country = refl;
    content_destroyed = refl;
  };
}
