-- ===== src/Cron/Tests.antt =====
-- The theorem at work on one text.
use modo.Base.{◌≡◌, ◌↔◌}
use modo.Base.Text.{codes}
use modo.Base.Errors.{ok}
use modo.Cron.Schedule.{parse_duration}
use modo.Cron.Durations.{IsDuration, parse_duration_iff}

parse_duration_iff_example :
    (parse_duration (codes "1h30m") ≡ ok 5400) ↔ IsDuration (codes "1h30m") 5400
parse_duration_iff_example = parse_duration_iff (codes "1h30m") 5400
