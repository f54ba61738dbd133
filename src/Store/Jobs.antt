-- ===== src/Store/Jobs.antt =====
-- internal/store/sqlite.go: the statements on `jobs`.
pub mod Update
pub mod Rows
pub mod Changes
pub mod Moves
pub mod History
pub mod Exact
use nomadposting.Prelude.{
  ℕ, suc, ◌+◌, Bool, true, false, not, ◌&&◌, ◌||◌, List, [], ◌∷◌, ◌++◌, Option, none, some, Str,
  str_eq, length, keep_if, ◌==◌, ℤ, ltb_ℤ, Result, ok, err, or_fail, if◌then◌else◌,
}
use nomadposting.Errors.{Error, database_error, not_found}
use nomadposting.Random.{Draw, ◌>>=◌, ◌>>◌, lift}
use nomadposting.Clock.{Time, millis}
use nomadposting.Domain.State.{
  JobState, draft, approved, complete, failed, cancelled, state_eq, validate_transition,
}
use nomadposting.Domain.Types.{PostJob}
use nomadposting.Store.Tables.{
  JobRow, ReceiptRow, Db, World, Action, Statement, exec, require_one, row_of_job, scan_job,
}

-- `SELECT … WHERE id = ?`: the first row; the primary key leaves at most one.
unfoldable pub find_row : Str → List JobRow → Option JobRow
find_row id [] = none
find_row id (r ∷ rs) = if str_eq r.id id then some r else find_row id rs

abbrev pub is_row : Option JobRow → Bool
is_row none = false
is_row (some r) = true

-- `UPDATE jobs SET … WHERE …`: the rows, and how many it affected.
unfoldable pub update_rows : (JobRow → Bool) → (JobRow → JobRow) → List JobRow → List JobRow
update_rows test set [] = []
update_rows test set (r ∷ rs) = (if test r then set r else r) ∷ update_rows test set rs

unfoldable pub count_rows : (JobRow → Bool) → List JobRow → ℕ
count_rows test [] = 0
count_rows test (r ∷ rs) = let rest = count_rows test rs in if test r then suc rest else rest

unfoldable pub update_statement : (JobRow → Bool) → (JobRow → JobRow) → Statement ℕ
update_statement test set db =
    (ok (count_rows test db.jobs), record db { jobs = update_rows test set db.jobs })

-- `INSERT INTO jobs`: the primary key refuses an ID that is there.
unfoldable pub insert_statement : JobRow → Statement (Unit {0})
insert_statement row db =
    if is_row (find_row row.id db.jobs)
    then (err database_error, db)
    else (ok tt, record db { jobs = db.jobs ++ row ∷ [] })

unfoldable pub select_statement : Str → Statement PostJob
select_statement id db = elim (find_row id db.jobs) [
  | none ↦ (err not_found, db)
  | some r ↦ (ok (scan_job r), db)
]

-- The WHERE clause and the SET clause of each update.
abbrev pub approves : Str → JobRow → Bool
approves id r = str_eq r.id id && (state_eq r.state draft && r.content_destroyed == 0)

abbrev pub approve_set : Str → Time → JobRow → JobRow
approve_set hash at r = record r {
  payload_hash = hash;
  state = approved;
  approved_at = some (millis at);
  updated_at = millis at;
}

abbrev pub moves : Str → JobState → JobRow → Bool
moves id from r = str_eq r.id id && state_eq r.state from

abbrev pub move_set : JobState → Time → JobRow → JobRow
move_set to at r = record r { state = to; updated_at = millis at }

abbrev pub destroys : Str → JobRow → Bool
destroys id r = str_eq r.id id && r.content_destroyed == 0

abbrev pub destroy_set : Time → JobRow → JobRow
destroy_set at r = record r {
  encrypted_content = [];
  content_destroyed = 1;
  updated_at = millis at;
}

abbrev pub country_set : Str → Time → JobRow → JobRow
country_set country at r = record r { last_nostr_country = country; updated_at = millis at }

-- What `PurgeResolvedJobsBefore` deletes.
abbrev pub is_purged : ℤ → JobRow → Bool
is_purged before r =
    ltb_ℤ r.updated_at before
    && (state_eq r.state complete || state_eq r.state failed || state_eq r.state cancelled)

-- `ON DELETE CASCADE`: the receipts of a deleted job go with it.
abbrev purges_job : ℤ → Option JobRow → Bool
purges_job before none = false
purges_job before (some r) = is_purged before r

unfoldable pub purge_statement : ℤ → Statement ℕ
purge_statement before db = (
  ok (count_rows (is_purged before) db.jobs),
  record db {
    jobs = keep_if (λ r. not (is_purged before r)) db.jobs;
    receipts =
        keep_if (λ (q : ReceiptRow). not (purges_job before (find_row q.job_id db.jobs)))
          db.receipts;
  },
)

module _ {S : Type 0} where
  unfoldable pub create_job : PostJob → Action S (Unit {0})
  unfolding insert_statement
  create_job job = exec (insert_statement (row_of_job job))

  unfoldable pub get_job : Str → Action S PostJob
  unfolding select_statement
  get_job id = exec (select_statement id)

  abbrev pub update_one : (JobRow → Bool) → (JobRow → JobRow) → Action S (Unit {0})
  update_one test set = exec (update_statement test set) >>= λ rows. lift (require_one rows)

  unfoldable pub approve_job : (id hash : Str) → Time → Action S (Unit {0})
  unfolding update_statement
  approve_job id hash at = update_one (approves id) (approve_set hash at)

  unfoldable pub transition_job : Str → (from to : JobState) → Time → Action S (Unit {0})
  unfolding update_statement
  transition_job id from to at = do
    lift (validate_transition from to)
    update_one (moves id from) (move_set to at)

  unfoldable pub destroy_job_content : Str → Time → Action S (Unit {0})
  unfolding update_statement
  destroy_job_content id at = update_one (destroys id) (destroy_set at)

  unfoldable pub set_last_nostr_country : (id country : Str) → Time → Action S (Unit {0})
  unfolding update_statement
  set_last_nostr_country id country at = update_one (λ r. str_eq r.id id) (country_set country at)

  unfoldable pub purge_resolved_jobs_before : Time → Action S ℕ
  unfolding purge_statement
  purge_resolved_jobs_before before = exec (purge_statement (millis before))
