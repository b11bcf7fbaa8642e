-- ===== src/Job/Tests.antt =====
-- A small queue, run by evaluation, and the theorems at work on it.
use mathlib.Core.Option
use modo.Base.{
  ◌≡◌, ◌≢◌, ◌≤◌, ◌<◌, false, refl, ap, true, false, List, [], ◌∷◌, ◌++◌, Option, none, some, arith,
  ◌⊎◌, nat_eq, ◌==◌,
}
use modo.Base.Lists.{list_eq}
use modo.Base.Text.{codes}
use modo.Base.Errors.{ok}
use modo.Encoding.Bytes.{Bytes}
use modo.Encoding.Hex.{encode}
use modo.Job.Table.{
  Job, Table, pending, dead, find_job, update_where, ids_unique, hashes_unique, insert_row, checked,
}
use modo.Job.Enqueuer.{
  json, default_options, new_row, active_id, compute_payload_hash, enqueue_unique_with, created,
  duplicate, enqueue_with,
}
use modo.Job.Worker.{
  retry_delay, handle_job_failure, failed, claim, selected, eligible, order_by_run_at,
  insert_by_run_at, finish,
}
use modo.Job.Invariant.{IsValid}
use modo.Job.Lifecycle.{Event, enqueued, enqueued_unique, polled, reported, apply, run, run-IsValid}
use modo.Job.Retry.{retry_delay_wraps, failure_lem}
use modo.Job.Dedup.{enqueue_unique_with_lem}

abbrev mail : Bytes
mail = codes "mail"

abbrev first : Bytes
first = codes "job_1"

abbrev second : Bytes
second = codes "job_2"

-- A stand-in for SHA-256.
abbrev digest : Bytes → Bytes
digest bytes = bytes

abbrev events : List Event
events =
    enqueued_unique first mail (json (codes "{}")) default_options 10
    ∷ enqueued second mail (json (codes "[]")) default_options 12
    ∷ polled (mail ∷ []) (codes "default") 1 20
    ∷ reported (failed (codes "refused")) first 1 3 25 26
    ∷ []

abbrev given : Job
given =
    new_row first mail (codes "{}") (some (compute_payload_hash digest mail (codes "{}")))
      default_options 10

-- Two queued jobs.
abbrev queued : Table
queued = given ∷ new_row second mail (codes "[]") none default_options 12 ∷ []

run-IsValid_example : IsValid (run digest [] [] 1 events [])
run-IsValid_example = run-IsValid digest [] [] 1 events

queued-IsValid : IsValid queued
unfolding ids_unique hashes_unique
queued-IsValid = record { ids_ok = refl; hashes_ok = refl; rows_ok = (refl, (refl, tt)) }

retry_delay_wraps_example : retry_delay 65 ≡ 0
retry_delay_wraps_example = retry_delay_wraps 65 (omega arith) (omega arith)

false-true : false ≢ true
false-true h = cc

names_differ : first ≢ second
names_differ e = false-true (ap (λ x. x == second) e)

-- The failed run of a job that has two attempts left.
failure_lem_example :
    (((3 ≤ 1)
        × (find_job first (handle_job_failure 1 first 1 3 (codes "refused") 25 26 queued)
            ≡ some (record given {
              status = dead;
              failed_at = some 25;
              error_message = some (codes "refused");
              updated_at = 25;
            })))
      ⊎ ((1 < 3)
          × (find_job first (handle_job_failure 1 first 1 3 (codes "refused") 25 26 queued)
              ≡ some (record given {
                status = pending;
                run_at = 31;
                started_at = none;
                failed_at = some 25;
                error_message = some (codes "refused");
                updated_at = 25;
              })))
      ⊎ ((1 < 3)
          × (hashes_unique (
                update_where
                  (λ x. x.id == first)
                  (λ x. record x {
                    status = pending;
                    run_at = 31;
                    started_at = none;
                    failed_at = some 25;
                    error_message = some (codes "refused");
                    updated_at = 25;
                  })
                  queued)
              ≡ false)
          × (handle_job_failure 1 first 1 3 (codes "refused") 25 26 queued ≡ queued)))
    × (find_job second (handle_job_failure 1 first 1 3 (codes "refused") 25 26 queued)
        ≡ find_job second queued)
unfolding find_job
failure_lem_example =
    failure_lem 1 first second 0 3 (codes "refused") 25 26 queued given (omega arith) refl
      names_differ

enqueue_unique_with_lem_example :
    ((old : Bytes) × (active_id (compute_payload_hash digest mail (codes "{}")) queued ≡ some old)
      × (enqueue_unique_with digest []
            (codes "job_3")
            mail
            (json (codes "{}"))
            default_options
            30
            queued
          ≡ (ok (duplicate old), queued)))
    ⊎ ((active_id (compute_payload_hash digest mail (codes "{}")) queued ≡ none)
        × (enqueue_unique_with digest []
              (codes "job_3")
              mail
              (json (codes "{}"))
              default_options
              30
              queued
            ≡ (
              ok (created (codes "job_3")),
              queued
                  ++ new_row
                      (codes "job_3")
                      mail
                      (codes "{}")
                      (some (compute_payload_hash digest mail (codes "{}")))
                      default_options
                      30
                    ∷ [],
            )))
enqueue_unique_with_lem_example =
    enqueue_unique_with_lem digest [] (codes "job_3") mail (codes "{}") default_options 30 queued
      refl

abbrev second_row : Job
second_row = new_row second mail (codes "[]") none default_options 12

second_found : find_job second queued ≡ some second_row
unfolding find_job
second_found = refl

-- The job that was claimed first has failed once and waits for 5 units of time.
abbrev after : Option Job
after = find_job first (run digest [] [] 1 events [])

waits : Option.map (λ j. j.run_at) after ≡ some 31
unfolding run apply enqueue_unique_with enqueue_with compute_payload_hash encode insert_row claim
    selected eligible order_by_run_at insert_by_run_at finish handle_job_failure hashes_unique
    update_where find_job checked retry_delay
waits = refl
