-- ===== src/Job/Enqueuer.antt =====
-- job/enqueuer.rs. The identifier, the time, the digest, the serialised payload and the texts of
-- foreign errors are arguments; each operation returns its result and the table.
use modo.Base.{ℕ, Bool, ◌&&◌, [], ◌∷◌, ◌++◌, Option, none, some, if◌then◌else◌, nat_eq, ◌==◌}
use modo.Base.Lists.{any, list_eq}
use modo.Base.Text.{codes}
use modo.Base.Errors.{Result, ok, err, internal}
use modo.Encoding.Bytes.{Bytes}
use modo.Encoding.Hex.{encode}
use modo.Job.Table.{
  pending, cancelled, Job, Table, is_active, is_pending, same_hash, update_where, insert_row,
}

pub data EnqueueResult : Type 0 where
  created duplicate : Bytes → EnqueueResult

pub record EnqueueOptions : Type 0 where
  pub queue : Bytes
  pub run_at : Option ℕ

abbrev pub default_options : EnqueueOptions
default_options = record { queue = codes "default"; run_at = none }

abbrev pub unwrap_or : Option ℕ → ℕ → ℕ
unwrap_or none now = now
unwrap_or (some t) now = t

-- `serde_json::to_string`: the text, or serde's message.
pub data Serialized : Type 0 where
  json refused : Bytes → Serialized

abbrev pub to_json : Serialized → Result Bytes
to_json (json s) = ok s
to_json (refused e) = err (internal (codes "serialize job payload: " ++ e))

abbrev pub new_row : Bytes → Bytes → Bytes → Option Bytes → EnqueueOptions → ℕ → Job
new_row id name payload hash options now = record {
  id = id;
  name = name;
  queue = options.queue;
  payload = payload;
  payload_hash = hash;
  status = pending;
  attempt = 0;
  run_at = unwrap_or options.run_at now;
  error_message = none;
  started_at = none;
  completed_at = none;
  failed_at = none;
  created_at = now;
  updated_at = now;
}

-- A result together with the table.
abbrev pub Outcome : Type 0 → Type 0
Outcome A = Result A × Table

unfoldable pub compute_payload_hash : (Bytes → Bytes) → Bytes → Bytes → Bytes
compute_payload_hash digest name payload = encode (digest (name ++ 0 ∷ payload))

-- `violation` is the driver's text for a broken constraint.
module _ (violation : Bytes) where
  abbrev pub inserted : Bytes → Option Table → Table → Outcome Bytes
  inserted id (some t') t = (ok id, t')
  inserted id none t = (err (internal (codes "enqueue job: " ++ violation)), t)

  abbrev pub enqueue_json :
      Result Bytes → Bytes → Bytes → EnqueueOptions → ℕ → Table → Outcome Bytes
  enqueue_json (err e) id name options now t = (err e, t)
  enqueue_json (ok payload) id name options now t =
      inserted id (insert_row (new_row id name payload none options now) t) t

  unfoldable pub enqueue_with :
      Bytes → Bytes → Serialized → EnqueueOptions → ℕ → Table → Outcome Bytes
  enqueue_with id name payload options now t = enqueue_json (to_json payload) id name options now t

  unfoldable pub enqueue : Bytes → Bytes → Serialized → ℕ → Table → Outcome Bytes
  unfolding enqueue_with
  enqueue id name payload now t = enqueue_with id name payload default_options now t

  unfoldable pub enqueue_at : Bytes → Bytes → Serialized → ℕ → ℕ → Table → Outcome Bytes
  unfolding enqueue_with
  enqueue_at id name payload run_at now t =
      enqueue_with id name payload (record default_options { run_at = some run_at }) now t

-- `SELECT id FROM jobs WHERE payload_hash = ?1 AND status IN ('pending', 'running') LIMIT 1`
unfoldable pub active_id : Bytes → Table → Option Bytes
active_id hash [] = none
active_id hash (j ∷ t) =
    if is_active j.status && same_hash j.payload_hash (some hash)
    then some j.id
    else active_id hash t

-- `missing` is the text of the query's error for no row.
module _ (digest : Bytes → Bytes) (missing : Bytes) where
  abbrev pub found_id : Option Bytes → Result EnqueueResult
  found_id (some id) = ok (duplicate id)
  found_id none = err (internal (codes "fetch duplicate job id: " ++ missing))

  abbrev pub unique_inserted : Bytes → Bytes → Option Table → Table → Outcome EnqueueResult
  unique_inserted id hash (some t') t = (ok (created id), t')
  unique_inserted id hash none t = (found_id (active_id hash t), t)

  abbrev pub enqueue_unique_json :
      Result Bytes → Bytes → Bytes → EnqueueOptions → ℕ → Table → Outcome EnqueueResult
  enqueue_unique_json (err e) id name options now t = (err e, t)
  enqueue_unique_json (ok payload) id name options now t =
      let hash = compute_payload_hash digest name payload in
      unique_inserted id hash (insert_row (new_row id name payload (some hash) options now) t) t

  unfoldable pub enqueue_unique_with :
      Bytes → Bytes → Serialized → EnqueueOptions → ℕ → Table → Outcome EnqueueResult
  enqueue_unique_with id name payload options now t =
      enqueue_unique_json (to_json payload) id name options now t

  unfoldable pub enqueue_unique : Bytes → Bytes → Serialized → ℕ → Table → Outcome EnqueueResult
  unfolding enqueue_unique_with
  enqueue_unique id name payload now t = enqueue_unique_with id name payload default_options now t

-- `cancel`: whether a row was changed, and the table.
abbrev pub cancels : Bytes → Job → Bool
cancels id j = j.id == id && is_pending j.status

unfoldable pub cancel : Bytes → ℕ → Table → Bool × Table
cancel id now t = (
  any (cancels id) t,
  update_where (cancels id) (λ j. record j { status = cancelled; updated_at = now }) t,
)
