-- ===== src/Job/Maintenance.antt =====
-- job/reaper.rs and job/cleanup.rs: one round of each loop.
use modo.Base.{ℕ, Bool, false, ◌&&◌, Option, none, some, ltb}
use modo.Job.Table.{pending, Job, Table, is_running, is_terminal, update_where, delete_where}

-- `started_at < ?2`, which no `NULL` is.
abbrev pub before : Option ℕ → ℕ → Bool
before none threshold = false
before (some t) threshold = ltb t threshold

abbrev pub is_stale : ℕ → Job → Bool
is_stale threshold j = is_running j.status && before j.started_at threshold

unfoldable pub reap : ℕ → ℕ → Table → Table
reap threshold now =
    update_where (is_stale threshold)
      (λ j. record j { status = pending; started_at = none; updated_at = now })

abbrev pub is_old : ℕ → Job → Bool
is_old threshold j = is_terminal j.status && ltb j.updated_at threshold

unfoldable pub cleanup : ℕ → Table → Table
cleanup threshold = delete_where (is_old threshold)
