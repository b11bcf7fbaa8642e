-- ===== src/Job/Table.antt =====
-- The rows of the table `jobs` (its columns stand in skills/dev/references/jobs.md and in
-- tests/job_enqueuer_test.rs), and the effect of the SQL statements on a list of rows. A time is a
-- number, in whatever unit: the RFC 3339 texts of the source sort as the times do. Text is bytes.
pub mod Updates
use modo.Base.{
  ℕ, suc, ◌+◌, ◌≡◌, refl, Bool, true, false, not, ◌&&◌, ◌||◌, List, [], ◌∷◌, ◌++◌, map, Option,
  none, some, if◌then◌else◌, nat_eq, ◌==◌,
}
use modo.Base.Lists.{any, list_eq}
use modo.Encoding.Bytes.{Bytes}

pub data Status : Type 0 where
  pending running completed dead cancelled : Status

pub record Job : Type 0 where
  pub id : Bytes
  pub name : Bytes
  pub queue : Bytes
  pub payload : Bytes
  pub payload_hash : Option Bytes
  pub status : Status
  pub attempt : ℕ
  pub run_at : ℕ
  pub error_message : Option Bytes
  pub started_at : Option ℕ
  pub completed_at : Option ℕ
  pub failed_at : Option ℕ
  pub created_at : ℕ
  pub updated_at : ℕ

abbrev pub Table : Type 0
Table = List Job

abbrev pub is_pending : Status → Bool
is_pending pending = true
is_pending _ = false

abbrev pub is_running : Status → Bool
is_running running = true
is_running _ = false

-- `status IN ('pending', 'running')`
abbrev pub is_active : Status → Bool
is_active pending = true
is_active running = true
is_active _ = false

-- `status IN ('completed', 'dead', 'cancelled')`
abbrev pub is_terminal : Status → Bool
is_terminal s = not (is_active s)

-- `UPDATE jobs SET … WHERE …`, `DELETE FROM jobs WHERE …`
unfoldable pub update_where : (Job → Bool) → (Job → Job) → Table → Table
update_where test change [] = []
update_where test change (j ∷ t) = (if test j then change j else j) ∷ update_where test change t

unfoldable pub delete_where : (Job → Bool) → Table → Table
delete_where test [] = []
delete_where test (j ∷ t) = if test j then delete_where test t else j ∷ delete_where test t

unfoldable pub find_job : Bytes → Table → Option Job
find_job id [] = none
find_job id (j ∷ t) = if j.id == id then some j else find_job id t

abbrev pub has_id : Bytes → Table → Bool
has_id id = any (λ j. j.id == id)

-- SQL's `=` between two hashes, of which `NULL` equals nothing.
abbrev pub same_hash : Option Bytes → Option Bytes → Bool
same_hash (some a) (some b) = a == b
same_hash _ _ = false

-- Two rows that the partial unique index on `payload_hash` keeps apart.
abbrev pub clash : Job → Job → Bool
clash j k = (is_active j.status && is_active k.status) && same_hash j.payload_hash k.payload_hash

abbrev pub clashes : Job → Table → Bool
clashes j = any (λ k. clash j k)

-- The primary key and the unique index hold.
unfoldable pub ids_unique : Table → Bool
ids_unique [] = true
ids_unique (j ∷ t) = not (has_id j.id t) && ids_unique t

unfoldable pub hashes_unique : Table → Bool
hashes_unique [] = true
hashes_unique (j ∷ t) = not (clashes j t) && hashes_unique t

-- `INSERT INTO jobs …`: `none` is a violation of one of the two.
unfoldable pub insert_row : Job → Table → Option Table
insert_row j t = if has_id j.id t || clashes j t then none else some (t ++ j ∷ [])

-- An update that may violate the index is undone if it does.
unfoldable pub checked : Table → Table → Table
unfolding hashes_unique
checked t t' = if hashes_unique t' then t' else t
