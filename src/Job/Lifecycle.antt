-- ===== src/Job/Lifecycle.antt =====
-- The queue as a whole: any sequence of what clients, workers and the two maintenance loops do, in any
-- interleaving. A worker's report may come at any time, also after its job was reaped.
use modo.Base.{ℕ, refl, List, [], ◌∷◌, nat_eq}
use modo.Base.Lists.{list_eq}
use modo.Encoding.Bytes.{Bytes}
use modo.Job.Table.{Table, ids_unique, hashes_unique}
use modo.Job.Enqueuer.{Serialized, EnqueueOptions, enqueue_with, enqueue_unique_with, cancel}
use modo.Job.Worker.{claim, HandlerResult, finish}
use modo.Job.Maintenance.{reap, cleanup}
use modo.Job.Invariant.{
  IsValid, enqueue_with-IsValid, enqueue_unique_with-IsValid, cancel-IsValid, claim-IsValid,
  finish-IsValid, reap-IsValid, cleanup-IsValid,
}

pub data Event : Type 0 where
  enqueued : Bytes → Bytes → Serialized → EnqueueOptions → ℕ → Event
  enqueued_unique : Bytes → Bytes → Serialized → EnqueueOptions → ℕ → Event
  cancelled : Bytes → ℕ → Event
  polled : List Bytes → Bytes → ℕ → ℕ → Event
  reported : HandlerResult → Bytes → ℕ → ℕ → ℕ → ℕ → Event
  reaped : ℕ → ℕ → Event
  cleaned : ℕ → Event

-- `digest` is SHA-256, `seconds` the units of time in a second, the others texts of foreign errors.
module _ (digest : Bytes → Bytes) (violation missing : Bytes) (seconds : ℕ) where
  unfoldable pub apply : Event → Table → Table
  apply (enqueued id name payload options now) t =
      (enqueue_with violation id name payload options now t).1
  apply (enqueued_unique id name payload options now) t =
      (enqueue_unique_with digest missing id name payload options now t).1
  apply (cancelled id now) t = (cancel id now t).1
  apply (polled names queue slots now) t = (claim names queue slots now t).1
  apply (reported r id attempt max_attempts now later) t =
      finish seconds r id attempt max_attempts now later t
  apply (reaped threshold now) t = reap threshold now t
  apply (cleaned threshold) t = cleanup threshold t

  unfoldable pub run : List Event → Table → Table
  unfolding apply
  run [] t = t
  run (e ∷ events) t = run events (apply e t)

  pub apply-IsValid : (e : Event) (t : Table) → IsValid t → IsValid (apply e t)
  unfolding apply
  apply-IsValid (enqueued id name payload options now) t v =
      enqueue_with-IsValid violation id name payload options now t v
  apply-IsValid (enqueued_unique id name payload options now) t v =
      enqueue_unique_with-IsValid digest missing id name payload options now t v
  apply-IsValid (cancelled id now) t v = cancel-IsValid id now t v
  apply-IsValid (polled names queue slots now) t v = claim-IsValid names queue slots now t v
  apply-IsValid (reported r id attempt max_attempts now later) t v =
      finish-IsValid seconds r id attempt max_attempts now later t v
  apply-IsValid (reaped threshold now) t v = reap-IsValid threshold now t v
  apply-IsValid (cleaned threshold) t v = cleanup-IsValid threshold t v

  run-IsValid_from : (events : List Event) (t : Table) → IsValid t → IsValid (run events t)
  unfolding run
  run-IsValid_from [] t v = v
  run-IsValid_from (e ∷ events) t v = run-IsValid_from events (apply e t) (apply-IsValid e t v)

  -- In every table that the queue can reach from the empty one, ids are unique, no two active jobs
  -- have the same payload hash, and each row's columns fit its status: a pending job has no start
  -- time, a running one has a start time and an attempt, a completed one its time, a dead one its
  -- time and error.
  pub run-IsValid : (events : List Event) → IsValid (run events [])
  run-IsValid events = run-IsValid_from events [] (record {
    ids_ok = unfold ids_unique in refl;
    hashes_ok = unfold hashes_unique in refl;
    rows_ok = tt;
  })
