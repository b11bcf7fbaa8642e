-- ===== src/Job/Retry.antt =====
-- How long a failed job waits, and what is written when a run fails.
use Prim.Native.Nat.{◌*◌}
use native.Mathlib.Nat.{pow-suc}
use modo.Base.{
  ℕ, zero, suc, ◌+◌, ◌-◌, ◌%◌, ◌^◌, ◌≡◌, ◌≢◌, ◌⊎◌, ◌≤◌, ◌<◌, min, refl, ap, sym, ◌∙◌, true, false,
  none, some, [], ◌∷◌, arith, Bool-cases, inl, inr, nat_eq, ◌==◌, leb, =ℕ_iff, ◌=ℕ◌, ==_ne,
}
use mathlib.Core.Option
use modo.Base.Lists.{list_eq, list_beq_iff}
use modo.Encoding.Bytes.{Bytes, all_below, all_below_sound}
use modo.Job.Table.{Job, Table, pending, dead, update_where, find_job, checked, hashes_unique}
use modo.Job.Worker.{retry_delay, kill, reschedule, handle_job_failure}

delay_table : all_below 62 (λ a. retry_delay (suc a) =ℕ min (5 * 2 ^ a) 3600) ≡ true
unfolding all_below retry_delay
delay_table = refl

-- Up to the 62nd attempt nothing overflows: the delay is 5 seconds doubled for each attempt before, and
-- at most an hour.
pub retry_delay_lem : (a : ℕ) → a < 62 → retry_delay (suc a) ≡ min (5 * 2 ^ a) 3600
retry_delay_lem a h =
    (=ℕ_iff _ _).0
      (all_below_sound 62 (λ b. retry_delay (suc b) =ℕ min (5 * 2 ^ b) 3600) a delay_table h)

pow-add_64 : (k : ℕ) → 2 ^ (k + 64) ≡ 2 ^ 64 * 2 ^ k
pow-add_64 zero = refl
pow-add_64 (suc k) =
    let e : suc k + 64 ≡ suc (k + 64) = omega arith in
    rw (e, pow-suc 2 (k + 64), pow-suc 2 k) (omega (arith, ap (λ x. x * 2) (pow-add_64 k)))

-- From the 65th attempt on the power wraps to 0, and so does the delay.
pub retry_delay_wraps : (a : ℕ) → a < 2 ^ 32 → 65 ≤ a → retry_delay a ≡ 0
unfolding retry_delay
retry_delay_wraps a h k =
    let e : (a + 2 ^ 32 - 1) % 2 ^ 32 ≡ (a - 65) + 64 = omega arith in
    rw e (omega (arith, pow-add_64 (a - 65)))

find_job-update :
    (id : Bytes) (change : Job → Job) (t : Table)
    → ((j : Job) → (change j).id ≡ j.id)
    → find_job id (update_where (λ j. j.id == id) change t) ≡ Option.map change (find_job id t)
unfolding update_where find_job
find_job-update id change [] same = refl
find_job-update id change (j ∷ t) same = elim (Bool-cases (j.id == id)) [
  | inl hit ↦ rw (hit, same j, hit)
  | inr miss ↦ rw (miss, miss) (find_job-update id change t same)
]

find_job-update_other :
    (id other : Bytes) (change : Job → Job) (t : Table)
    → ((j : Job) → (change j).id ≡ j.id)
    → id ≢ other
    → find_job other (update_where (λ j. j.id == id) change t) ≡ find_job other t
unfolding update_where find_job
find_job-update_other id other change [] same n = refl
find_job-update_other id other change (j ∷ t) same n = elim (Bool-cases (j.id == id)) [
  | inl hit ↦
      let e : j.id ≡ id = (list_beq_iff j.id id).0 hit in
      let skip : (j.id == other) ≡ false = ==_ne j.id other (λ x. n (sym e ∙ x)) in
      rw (hit, same j, skip) (find_job-update_other id other change t same n)
  | inr miss ↦ rw (miss, find_job-update_other id other change t same n)
]

failure_other :
    (seconds : ℕ) (id other : Bytes) (attempt max_attempts : ℕ) (error_msg : Bytes) (now later : ℕ)
    (t : Table)
    → id ≢ other
    → find_job other (handle_job_failure seconds id attempt max_attempts error_msg now later t)
      ≡ find_job other t
unfolding handle_job_failure checked
failure_other seconds id other attempt max_attempts error_msg now later t n =
    let killed = find_job-update_other id other (kill error_msg now) t (λ j. refl) n in
    let delay = later + retry_delay attempt * seconds in
    let again = find_job-update_other id other (reschedule error_msg delay now) t (λ j. refl) n in
    elim (Bool-cases (leb max_attempts attempt)) [
      | inl last ↦ rw last killed
      | inr more ↦
          elim (Bool-cases
            (hashes_unique (update_where (λ j. j.id == id) (reschedule error_msg delay now) t))) [
              | inl fine ↦ rw (more, fine) again
              | inr broken ↦ rw (more, broken)
            ]
    ]

-- What a reported failure of one of the first 62 attempts does. The job with the id is dead, with the time
-- and the error of the failure, if the attempt is at least the maximum. If it is below, the job is
-- pending again, with no start time, the time and the error of the failure, and a run time 5 seconds,
-- doubled for each attempt before and at most an hour, after the clock; unless the unique index forbids
-- the rows that result, and then the table stays as it is. The other jobs stay as they are always.
pub failure_lem :
    (seconds : ℕ) (id other : Bytes) (a max_attempts : ℕ) (error_msg : Bytes) (now later : ℕ)
    (t : Table) (j : Job)
    → a < 62
    → find_job id t ≡ some j
    → id ≢ other
    → (((max_attempts ≤ suc a)
          × (find_job id (handle_job_failure seconds id (suc a) max_attempts error_msg now later t)
              ≡ some (record j {
                status = dead;
                failed_at = some now;
                error_message = some error_msg;
                updated_at = now;
              })))
        ⊎ ((suc a < max_attempts)
            × (find_job id
                  (handle_job_failure seconds id (suc a) max_attempts error_msg now later t)
                ≡ some (record j {
                  status = pending;
                  run_at = later + min (5 * 2 ^ a) 3600 * seconds;
                  started_at = none;
                  failed_at = some now;
                  error_message = some error_msg;
                  updated_at = now;
                })))
        ⊎ ((suc a < max_attempts)
            × (hashes_unique (
                  update_where
                    (λ x. x.id == id)
                    (λ x. record x {
                      status = pending;
                      run_at = later + min (5 * 2 ^ a) 3600 * seconds;
                      started_at = none;
                      failed_at = some now;
                      error_message = some error_msg;
                      updated_at = now;
                    })
                    t)
                ≡ false)
            × (handle_job_failure seconds id (suc a) max_attempts error_msg now later t ≡ t)))
      × (find_job other (handle_job_failure seconds id (suc a) max_attempts error_msg now later t)
          ≡ find_job other t)
unfolding handle_job_failure checked
failure_lem seconds id other a max_attempts error_msg now later t j early found differs = (
  rw (retry_delay_lem a early) (elim (Bool-cases (leb max_attempts (suc a))) [
    | inl last ↦ inl (
      ground arith,
      rw last (
          find_job-update id (kill error_msg now) t (λ x. refl)
          ∙ ap (Option.map (kill error_msg now)) found),
    )
    | inr more ↦
        let again = reschedule error_msg (later + min (5 * 2 ^ a) 3600 * seconds) now in
        elim (Bool-cases (hashes_unique (update_where (λ x. x.id == id) again t))) [
          | inl fine ↦ inr (
              inl (
                ground arith,
                rw (more, fine)
                    (find_job-update id again t (λ x. refl) ∙ ap (Option.map again) found),
              ))
          | inr broken ↦ inr (inr (ground arith, broken, rw (more, broken) refl))
        ]
  ]),
  failure_other seconds id other (suc a) max_attempts error_msg now later t differs,
)
