-- ===== src/Cron/Schedule.antt =====
-- cron/schedule.rs: schedules and durations. The crate `croner` parses cron expressions; its parser is an
-- argument. `u64` arithmetic wraps, as in a release build: a debug build
-- panics on overflow.
use modo.Base.{
  ℕ, ◌+◌, ◌-◌, ◌*◌, ◌%◌, ◌^◌, ◌⊎◌, inl, inr, Bool, true, false, not, ◌||◌, [], ◌∷◌, ◌++◌, Option,
  none, some, if◌then◌else◌, ltb, ◌=ℕ◌, nat_eq, ◌==◌,
}
use modo.Base.Lists.{list_eq}
use modo.Base.Text.{Text, codes, is_ascii_digit, is_empty, trim, strip_prefix}
use modo.Base.Errors.{Result, ok, err, Error, unprocessable_entity, ◌>>=◌}

abbrev pub invalid : Text → Text → Error
invalid s why = unprocessable_entity (codes "invalid duration '" ++ s ++ codes "': " ++ why)

-- The value of a text of decimal digits.
abbrev pub number_from : ℕ → Text → ℕ
number_from n [] = n
number_from n (c ∷ s) = number_from (n * 10 + (c - b'0')) s

-- `parse::<u64>()` of a text of digits: none if it is empty or the value is too large.
unfoldable pub parse_u64 : Text → Option ℕ
parse_u64 s =
    if is_empty s || not (ltb (number_from 0 s) (2 ^ 64)) then none else some (number_from 0 s)

-- The seconds in a unit; `none` for a character that is no unit.
abbrev pub unit_seconds : ℕ → Option ℕ
unit_seconds c =
    if c =ℕ b'h'
    then some 3600
    else if c =ℕ b'm'
    then some 60
    else if c =ℕ b's'
    then some 1
    else none

-- The loop's variables.
pub record Progress : Type 0 where
  pub total_secs : ℕ
  pub current_num : Text
  pub found_any : Bool

abbrev pub bad_number : ℕ → Text
bad_number ch = codes "bad number before '" ++ ch ∷ codes "'"

abbrev pub add_component : Text → ℕ → ℕ → Progress → Option ℕ → Result Progress
add_component s ch seconds p none = err (invalid s (bad_number ch))
add_component s ch seconds p (some n) = ok record {
  total_secs = (p.total_secs + n * seconds % 2 ^ 64) % 2 ^ 64;
  current_num = [];
  found_any = true;
}

abbrev pub unexpected : ℕ → Text
unexpected ch = codes "unexpected character '" ++ ch ∷ codes "'"

abbrev pub end_component : Text → ℕ → Progress → Option ℕ → Result Progress
end_component s ch p none = err (invalid s (unexpected ch))
end_component s ch p (some seconds) = add_component s ch seconds p (parse_u64 p.current_num)

-- The body of the loop, for one character of the whole text `s`.
unfoldable pub step : Text → ℕ → Progress → Result Progress
unfolding parse_u64
step s ch p =
    if is_ascii_digit ch
    then ok (record p { current_num = p.current_num ++ ch ∷ [] })
    else end_component s ch p (unit_seconds ch)

unfoldable pub scan : Text → Text → Progress → Result Progress
unfolding step
scan s [] p = ok p
scan s (ch ∷ rest) p = step s ch p >>= scan s rest

-- The two tests behind the loop.
unfoldable pub conclude : Text → Progress → Result ℕ
conclude s p =
    if not (is_empty p.current_num)
    then err (invalid s (codes "trailing number without unit (use h, m, or s)"))
    else if not p.found_any
    then err (invalid s (codes "no duration components found"))
    else ok p.total_secs

abbrev pub started : Progress
started = record { total_secs = 0; current_num = []; found_any = false }

-- The seconds of a duration such as `1h30m`.
unfoldable pub parse_duration : Text → Result ℕ
unfolding scan conclude
parse_duration s = scan s s started >>= conclude s

module _ {Cron : Type 0} (parse : Text → Cron ⊎ Text) where
  pub data Schedule : Type 0 where
    cron : Cron → Schedule
    interval : ℕ → Schedule

  abbrev pub cron_parsed : Text → Cron ⊎ Text → Result Schedule
  cron_parsed expr (inl c) = ok (cron c)
  cron_parsed expr (inr e) =
      err (unprocessable_entity (codes "invalid cron expression '" ++ expr ++ codes "': " ++ e))

  abbrev pub parse_cron : Text → Result Schedule
  parse_cron expr = cron_parsed expr (parse expr)

  unfoldable pub parse_trimmed : Text → Result Schedule
  unfolding parse_duration strip_prefix trim
  parse_trimmed trimmed =
      if trimmed == codes "@yearly" || trimmed == codes "@annually"
      then parse_cron (codes "0 0 0 1 1 *")
      else if trimmed == codes "@monthly"
      then parse_cron (codes "0 0 0 1 * *")
      else if trimmed == codes "@weekly"
      then parse_cron (codes "0 0 0 * * 0")
      else if trimmed == codes "@daily" || trimmed == codes "@midnight"
      then parse_cron (codes "0 0 0 * * *")
      else if trimmed == codes "@hourly"
      then parse_cron (codes "0 0 * * * *")
      else every (strip_prefix (codes "@every ") trimmed)
    where
      every : Option Text → Result Schedule
      every (some dur_str) = parse_duration (trim dur_str) >>= λ seconds. ok (interval seconds)
      every none = parse_cron trimmed

  unfoldable pub schedule : Text → Result Schedule
  unfolding parse_trimmed trim
  schedule input = parse_trimmed (trim input)
