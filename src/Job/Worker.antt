-- ===== src/Job/Worker.antt =====
-- job/worker.rs: claiming the due jobs of a queue, and what is written when a handler returns. Numbers
-- are those of a release build, which wraps: a debug build panics where a product or a power passes
-- 2 ^ 64, or `attempt` is 0.
use modo.Base.{
  ℕ, ◌+◌, ◌-◌, ◌*◌, ◌%◌, ◌^◌, min, Bool, ◌&&◌, List, [], ◌∷◌, map, none, some, if◌then◌else◌, leb,
  nat_eq, ◌==◌,
}
use modo.Base.Lists.{list_eq, take, filter, contains}
use modo.Base.Text.{codes}
use modo.Encoding.Bytes.{Bytes}
use modo.Job.Table.{
  pending, running, completed, dead, Job, Table, is_pending, update_where, checked,
}

-- The rows of the inner `SELECT`: pending, due, of the queue, with a registered handler.
unfoldable pub eligible : List Bytes → Bytes → ℕ → Job → Bool
unfolding contains
eligible handler_names queue now j =
    (is_pending j.status && leb j.run_at now) && (j.queue == queue && contains handler_names j.name)

-- `ORDER BY run_at ASC`; rows of equal times keep their order.
unfoldable pub insert_by_run_at : Job → Table → Table
insert_by_run_at j [] = j ∷ []
insert_by_run_at j (k ∷ t) = if leb j.run_at k.run_at then j ∷ k ∷ t else k ∷ insert_by_run_at j t

unfoldable pub order_by_run_at : Table → Table
unfolding insert_by_run_at
order_by_run_at [] = []
order_by_run_at (j ∷ t) = insert_by_run_at j (order_by_run_at t)

unfoldable pub selected : List Bytes → Bytes → ℕ → ℕ → Table → Table
unfolding eligible order_by_run_at
selected handler_names queue slots now t =
    take slots (order_by_run_at (filter (eligible handler_names queue now) t))

abbrev pub start : ℕ → Job → Job
start now j = record j {
  status = running;
  attempt = j.attempt + 1;
  started_at = some now;
  updated_at = now;
}

abbrev pub ids : Table → List Bytes
ids = map (λ j. j.id)

-- One round of the poll loop for one queue: with no handler, or no free slot, nothing is claimed.
-- The claimed rows are those that `RETURNING` gives, and the table is what the update leaves.
unfoldable pub claim : List Bytes → Bytes → ℕ → ℕ → Table → Table × Table
unfolding selected contains
claim [] queue slots now t = ([], t)
claim (name ∷ names) queue slots now t =
    if slots == 0
    then ([], t)
    else let chosen = ids (selected (name ∷ names) queue slots now t) in
      (
        map (start now) (filter (λ j. contains chosen j.id) t),
        update_where (λ j. contains chosen j.id) (start now) t,
      )

-- `5u64 * 2u64.pow(attempt - 1)`, at most an hour.
unfoldable pub retry_delay : ℕ → ℕ
retry_delay attempt = min (5 * (2 ^ ((attempt + 2 ^ 32 - 1) % 2 ^ 32) % 2 ^ 64) % 2 ^ 64) 3600

unfoldable pub complete : Bytes → ℕ → Table → Table
complete id now =
    update_where (λ j. j.id == id)
      (λ j. record j { status = completed; completed_at = some now; updated_at = now })

abbrev pub kill : Bytes → ℕ → Job → Job
kill error_msg now j = record j {
  status = dead;
  failed_at = some now;
  error_message = some error_msg;
  updated_at = now;
}

abbrev pub reschedule : Bytes → ℕ → ℕ → Job → Job
reschedule error_msg retry_at now j = record j {
  status = pending;
  run_at = retry_at;
  started_at = none;
  failed_at = some now;
  error_message = some error_msg;
  updated_at = now;
}

-- `seconds` is how many units of time make a second, and `later` the second reading of the clock. The
-- result of a write is not looked at, so a reschedule that the index refuses leaves the table.
unfoldable pub handle_job_failure : ℕ → Bytes → ℕ → ℕ → Bytes → ℕ → ℕ → Table → Table
unfolding retry_delay
handle_job_failure seconds id attempt max_attempts error_msg now later t =
    if leb max_attempts attempt
    then update_where (λ j. j.id == id) (kill error_msg now) t
    else checked t (
        update_where (λ j. j.id == id)
          (reschedule error_msg (later + retry_delay attempt * seconds) now) t)

-- What the task of a claimed job writes, by the handler's result under its timeout.
pub data HandlerResult : Type 0 where
  succeeded : HandlerResult
  failed : Bytes → HandlerResult
  timed_out : HandlerResult

unfoldable pub finish : ℕ → HandlerResult → Bytes → ℕ → ℕ → ℕ → ℕ → Table → Table
unfolding complete handle_job_failure
finish seconds succeeded id attempt max_attempts now later t = complete id now t
finish seconds (failed e) id attempt max_attempts now later t =
    handle_job_failure seconds id attempt max_attempts e now later t
finish seconds timed_out id attempt max_attempts now later t =
    handle_job_failure seconds id attempt max_attempts (codes "timeout") now later t
