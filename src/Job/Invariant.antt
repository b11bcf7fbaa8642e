-- ===== src/Job/Invariant.antt =====
-- The well-formed tables, and what the statements do to them.
use modo.Base.{
  ℕ, ◌≡◌, ◌≤◌, refl, sym, subst, ◌∙◌, Bool, true, List, [], ◌∷◌, Option, none, some, arith,
  Bool-cases, inl, inr, nat_eq, ◌==◌, leb,
}
use modo.Base.Lists.{All, All-map, All-append, list_eq}
use modo.Base.Dict.{is_some}
use modo.Base.Errors.{Result, ok, err}
use modo.Encoding.Bytes.{Bytes}
use modo.Job.Table.{
  Status, pending, running, completed, dead, cancelled, Job, Table, is_active, update_where,
  delete_where, ids_unique, hashes_unique, insert_row, checked,
}
use modo.Job.Table.Updates.{
  IsQuiet, AreQuiet, ids_unique-update, hashes_unique-update, ids_unique-delete,
  hashes_unique-delete, insert_row-some,
}
use modo.Job.Enqueuer.{
  Serialized, EnqueueOptions, to_json, cancel, inserted, enqueue_json, enqueue_with,
  unique_inserted, enqueue_unique_json, enqueue_unique_with,
}
use modo.Job.Worker.{
  start, claim, eligible, complete, kill, handle_job_failure, HandlerResult, succeeded, failed,
  timed_out, finish,
}
use modo.Job.Claiming.{chosen-eligible}
use modo.Job.Maintenance.{reap, is_stale, cleanup}

-- What the columns of a row hold, by its status.
abbrev pub Facts : Status → Job → Type 0
Facts pending j = j.started_at ≡ none
Facts running j = (is_some j.started_at ≡ true) × (1 ≤ j.attempt)
Facts completed j = is_some j.completed_at ≡ true
Facts dead j = (is_some j.failed_at ≡ true) × (is_some j.error_message ≡ true)
Facts cancelled j = Unit

abbrev pub RowOk : Job → Type 0
RowOk j = Facts j.status j

-- Both constraints hold, and the columns of each row fit its status.
pub record IsValid (t : Table) : Type 0 where
  pub ids_ok : ids_unique t ≡ true
  pub hashes_ok : hashes_unique t ≡ true
  pub rows_ok : All RowOk t

rows-update :
    (test : Job → Bool) (change : Job → Job) (t : Table)
    → ((j : Job) → RowOk (change j))
    → All RowOk t
    → All RowOk (update_where test change t)
unfolding update_where
rows-update test change [] f h = tt
rows-update test change (j ∷ t) f (p, h) = elim (Bool-cases (test j)) [
  | inl hit ↦ rw hit (f j, rows-update test change t f h)
  | inr miss ↦ rw miss (p, rows-update test change t f h)
]

rows-delete : (test : Job → Bool) (t : Table) → All RowOk t → All RowOk (delete_where test t)
unfolding delete_where
rows-delete test [] h = tt
rows-delete test (j ∷ t) (p, h) = elim (Bool-cases (test j)) [
  | inl gone ↦ rw gone (rows-delete test t h)
  | inr kept ↦ rw kept (p, rows-delete test t h)
]

-- An update that is quiet and leaves rows that fit.
update-IsValid :
    (test : Job → Bool) (change : Job → Job) (t : Table)
    → ((j : Job) → (change j).id ≡ j.id)
    → ((j : Job) → RowOk (change j))
    → AreQuiet test change t
    → IsValid t
    → IsValid (update_where test change t)
update-IsValid test change t same fits quiet v = record {
  ids_ok = ids_unique-update test change t same ∙ v.ids_ok;
  hashes_ok = hashes_unique-update test change t quiet v.hashes_ok;
  rows_ok = rows-update test change t fits v.rows_ok;
}

quiet_always :
    (test : Job → Bool) (change : Job → Job) (t : Table)
    → ((j : Job) → test j ≡ true → IsQuiet change j)
    → AreQuiet test change t
quiet_always test change [] f = tt
quiet_always test change (j ∷ t) f = (f j, quiet_always test change t f)

pub complete-IsValid : (id : Bytes) (now : ℕ) (t : Table) → IsValid t → IsValid (complete id now t)
unfolding complete
complete-IsValid id now t v =
    update-IsValid _ _ t (λ j. refl) (λ j. refl)
      (quiet_always _ _ t (λ j h. record { hash_kept = refl; calm = λ e. cc })) v

pub kill-IsValid :
    (id error_msg : Bytes) (now : ℕ) (t : Table)
    → IsValid t
    → IsValid (update_where (λ j. j.id == id) (kill error_msg now) t)
kill-IsValid id error_msg now t v =
    update-IsValid _ _ t (λ j. refl) (λ j. (refl, refl))
      (quiet_always _ _ t (λ j h. record { hash_kept = refl; calm = λ e. cc })) v

pub cancel-IsValid : (id : Bytes) (now : ℕ) (t : Table) → IsValid t → IsValid (cancel id now t).1
unfolding cancel
cancel-IsValid id now t v =
    update-IsValid _ _ t (λ j. refl) (λ j. tt)
      (quiet_always _ _ t (λ j h. record { hash_kept = refl; calm = λ e. cc })) v

active_of_stale :
    (threshold : ℕ) (j : Job) → is_stale threshold j ≡ true → is_active j.status ≡ true
active_of_stale threshold j h = ground arith

pub reap-IsValid : (threshold now : ℕ) (t : Table) → IsValid t → IsValid (reap threshold now t)
unfolding reap
reap-IsValid threshold now t v =
    update-IsValid _ _ t (λ j. refl) (λ j. refl)
      (quiet_always _ _ t
        (λ j h. record { hash_kept = refl; calm = λ e. active_of_stale threshold j h }))
      v

pub cleanup-IsValid : (threshold : ℕ) (t : Table) → IsValid t → IsValid (cleanup threshold t)
unfolding cleanup
cleanup-IsValid threshold t v = record {
  ids_ok = ids_unique-delete _ t v.ids_ok;
  hashes_ok = hashes_unique-delete _ t v.hashes_ok;
  rows_ok = rows-delete _ t v.rows_ok;
}

active_of_eligible :
    (names : List Bytes) (queue : Bytes) (now : ℕ) (j : Job)
    → eligible names queue now j ≡ true
    → is_active j.status ≡ true
unfolding eligible
active_of_eligible names queue now j h = ground arith

pub claim-IsValid :
    (names : List Bytes) (queue : Bytes) (slots now : ℕ) (t : Table)
    → IsValid t
    → IsValid (claim names queue slots now t).1
unfolding claim
claim-IsValid [] queue slots now t v = v
claim-IsValid (name ∷ names) queue slots now t v = elim (Bool-cases (slots == 0)) [
  | inl none_free ↦ rw none_free v
  | inr free ↦ rw free (
      update-IsValid _ (start now) t (λ j. refl) (λ j. (refl, omega arith))
        (All-map t
          (λ j e h. record {
            hash_kept = refl;
            calm = λ a. active_of_eligible (name ∷ names) queue now j (e h);
          })
          (chosen-eligible (name ∷ names) queue slots now t v.ids_ok))
        v)
]

-- An update that the index may refuse.
checked-IsValid :
    (test : Job → Bool) (change : Job → Job) (t : Table)
    → ((j : Job) → (change j).id ≡ j.id)
    → ((j : Job) → RowOk (change j))
    → IsValid t
    → IsValid (checked t (update_where test change t))
unfolding checked
checked-IsValid test change t same fits v =
    elim (Bool-cases (hashes_unique (update_where test change t))) [
      | inl fine ↦ rw fine (record {
        ids_ok = ids_unique-update test change t same ∙ v.ids_ok;
        hashes_ok = fine;
        rows_ok = rows-update test change t fits v.rows_ok;
      })
      | inr broken ↦ rw broken v
    ]

pub failure-IsValid :
    (seconds : ℕ) (id : Bytes) (attempt max_attempts : ℕ) (error_msg : Bytes) (now later : ℕ)
    (t : Table)
    → IsValid t
    → IsValid (handle_job_failure seconds id attempt max_attempts error_msg now later t)
unfolding handle_job_failure
failure-IsValid seconds id attempt max_attempts error_msg now later t v =
    elim (Bool-cases (leb max_attempts attempt)) [
      | inl last ↦ rw last (kill-IsValid id error_msg now t v)
      | inr more ↦ rw more (checked-IsValid _ _ t (λ j. refl) (λ j. refl) v)
    ]

pub finish-IsValid :
    (seconds : ℕ) (r : HandlerResult) (id : Bytes) (attempt max_attempts now later : ℕ) (t : Table)
    → IsValid t
    → IsValid (finish seconds r id attempt max_attempts now later t)
unfolding finish
finish-IsValid seconds succeeded id attempt max_attempts now later t v = complete-IsValid id now t v
finish-IsValid seconds (failed e) id attempt max_attempts now later t v =
    failure-IsValid seconds id attempt max_attempts e now later t v
finish-IsValid seconds timed_out id attempt max_attempts now later t v =
    failure-IsValid seconds id attempt max_attempts _ now later t v

insert_row-IsValid :
    (j : Job) (t t' : Table) → RowOk j → insert_row j t ≡ some t' → IsValid t → IsValid t'
insert_row-IsValid j t t' fits h v =
    let (e, i, u) = insert_row-some j t t' h v.ids_ok v.hashes_ok in
    record {
      ids_ok = i;
      hashes_ok = u;
      rows_ok = subst (All RowOk) (sym e) (All-append RowOk t (j ∷ []) v.rows_ok (fits, tt));
    }

inserted-IsValid :
    (violation id : Bytes) (j : Job) (t : Table) (o : Option Table)
    → RowOk j
    → insert_row j t ≡ o
    → IsValid t
    → IsValid (inserted violation id o t).1
inserted-IsValid violation id j t none fits h v = v
inserted-IsValid violation id j t (some t') fits h v = insert_row-IsValid j t t' fits h v

pub enqueue_with-IsValid :
    (violation id name : Bytes) (payload : Serialized) (options : EnqueueOptions) (now : ℕ)
    (t : Table)
    → IsValid t
    → IsValid (enqueue_with violation id name payload options now t).1
unfolding enqueue_with
enqueue_with-IsValid violation id name payload options now t v = go (to_json payload)
  where
    go : (r : Result Bytes) → IsValid (enqueue_json violation r id name options now t).1
    go (err e) = v
    go (ok s) = inserted-IsValid violation id _ t _ refl refl v

unique_inserted-IsValid :
    (digest : Bytes → Bytes) (missing id hash : Bytes) (j : Job) (t : Table) (o : Option Table)
    → RowOk j
    → insert_row j t ≡ o
    → IsValid t
    → IsValid (unique_inserted digest missing id hash o t).1
unique_inserted-IsValid digest missing id hash j t none fits h v = v
unique_inserted-IsValid digest missing id hash j t (some t') fits h v =
    insert_row-IsValid j t t' fits h v

pub enqueue_unique_with-IsValid :
    (digest : Bytes → Bytes) (missing id name : Bytes) (payload : Serialized)
    (options : EnqueueOptions) (now : ℕ) (t : Table)
    → IsValid t
    → IsValid (enqueue_unique_with digest missing id name payload options now t).1
unfolding enqueue_unique_with
enqueue_unique_with-IsValid digest missing id name payload options now t v = go (to_json payload)
  where
    go : (r : Result Bytes) → IsValid (enqueue_unique_json digest missing r id name options now t).1
    go (err e) = v
    go (ok s) = unique_inserted-IsValid digest missing id _ _ t _ refl refl v
