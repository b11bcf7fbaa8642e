-- ===== src/Job/Upkeep.antt =====
-- What one round of the reaper and of the cleanup leaves, and what a cancellation changes.
use modo.Base.{
  ℕ, ◌≡◌, ◌≤◌, refl, subst, Bool, true, false, ◌&&◌, [], ◌∷◌, Option, none, some, arith,
  if◌then◌else◌, Bool-cases, inl, inr, nat_eq, ◌==◌,
}
use modo.Base.Lists.{any, list_eq, All, list_beq_iff}
use modo.Encoding.Bytes.{Bytes}
use modo.Job.Table.{
  Status, pending, running, completed, dead, cancelled, Job, Table, is_running, is_pending, has_id,
  update_where, delete_where, find_job, ids_unique,
}
use modo.Job.Table.Updates.{or_false}
use modo.Job.Enqueuer.{cancel, cancels}
use modo.Job.Maintenance.{reap, is_stale, before, cleanup, is_old}
use modo.Job.Invariant.{IsValid, Facts, RowOk}

-- A running row that started at the threshold or later.
abbrev pub IsFresh : ℕ → Job → Type 0
IsFresh threshold j =
    is_running j.status ≡ true → (s : ℕ) × (j.started_at ≡ some s) × (threshold ≤ s)

IsFresh-rows :
    (threshold now : ℕ) (t : Table) → All RowOk t → All (IsFresh threshold) (reap threshold now t)
unfolding reap update_where
IsFresh-rows threshold now [] h = tt
IsFresh-rows threshold now (j ∷ t) (p, h) = elim (Bool-cases (is_stale threshold j)) [
  | inl hit ↦ rw hit ((λ e. cc), IsFresh-rows threshold now t h)
  | inr miss ↦ rw miss (kept j.status j.started_at p miss, IsFresh-rows threshold now t h)
]
  where
    kept :
        (s : Status) (o : Option ℕ)
        → Facts s (record j { status = s; started_at = o })
        → is_running s && before o threshold ≡ false
        → is_running s ≡ true
        → (u : ℕ) × (o ≡ some u) × (threshold ≤ u)
    kept running (some u) f m e = (u, refl, ground arith)
    kept running none f m e = cc f.0
    kept pending o f m e = cc
    kept completed o f m e = cc
    kept dead o f m e = cc
    kept cancelled o f m e = cc

-- After a round of the reaper on a valid table, every running job started at the threshold or later.
pub reap-IsFresh :
    (threshold now : ℕ) (t : Table) → IsValid t → All (IsFresh threshold) (reap threshold now t)
reap-IsFresh threshold now t v = IsFresh-rows threshold now t v.rows_ok

find_job-absent : (id : Bytes) (t : Table) → has_id id t ≡ false → find_job id t ≡ none
unfolding find_job
find_job-absent id [] h = refl
find_job-absent id (j ∷ t) h = elim (Bool-cases (j.id == id)) [
  | inl hit ↦ cc (rw hit at h)
  | inr miss ↦ rw miss (find_job-absent id t (rw miss at h))
]

has_id-find_job : (id : Bytes) (t : Table) (j : Job) → find_job id t ≡ some j → j.id ≡ id
unfolding find_job
has_id-find_job id [] j h = cc
has_id-find_job id (k ∷ t) j h = elim (Bool-cases (k.id == id)) [
  | inl hit ↦ let same : some k ≡ some j = rw hit at h in cc ((list_beq_iff k.id id).0 hit, same)
  | inr miss ↦ has_id-find_job id t j (rw miss at h)
]

find_job-delete_absent :
    (id : Bytes) (test : Job → Bool) (t : Table)
    → has_id id t ≡ false
    → find_job id (delete_where test t) ≡ none
unfolding delete_where find_job
find_job-delete_absent id test [] h = refl
find_job-delete_absent id test (j ∷ t) h =
    let (other, absent) = or_false (j.id == id) _ h in
    elim (Bool-cases (test j)) [
      | inl gone ↦ rw gone (find_job-delete_absent id test t absent)
      | inr kept ↦ rw (kept, other) (find_job-delete_absent id test t absent)
    ]

find_job-delete :
    (id : Bytes) (test : Job → Bool) (t : Table) (j : Job)
    → ids_unique t ≡ true
    → find_job id t ≡ some j
    → find_job id (delete_where test t) ≡ (if test j then none else some j)
unfolding delete_where find_job ids_unique
find_job-delete id test [] j u h = cc
find_job-delete id test (k ∷ t) j u h = elim (Bool-cases (k.id == id)) [
  | inl hit ↦
      let same : some k ≡ some j = rw hit at h in
      let e : k ≡ j = cc in
      let absent : has_id id t ≡ false =
        subst (λ i. has_id i t ≡ false) ((list_beq_iff k.id id).0 hit) (ground arith) in
      subst (λ x. find_job id (delete_where test (k ∷ t)) ≡ (if test x then none else some x)) e
        (elim (Bool-cases (test k)) [
          | inl gone ↦ rw gone (find_job-delete_absent id test t absent)
          | inr kept ↦ rw (kept, hit)
        ])
  | inr miss ↦
      let rest = find_job-delete id test t j (ground arith) (rw miss at h) in
      elim (Bool-cases (test k)) [ inl gone ↦ rw gone rest | inr kept ↦ rw (kept, miss) rest ]
]

-- In a valid table a cleanup removes a job exactly when it is completed, dead or cancelled and was last
-- updated before the threshold; any other job stays as it is.
pub cleanup_lem :
    (id : Bytes) (threshold : ℕ) (t : Table) (j : Job)
    → IsValid t
    → find_job id t ≡ some j
    → find_job id (cleanup threshold t) ≡ (if is_old threshold j then none else some j)
unfolding cleanup
cleanup_lem id threshold t j v h = find_job-delete id (is_old threshold) t j v.ids_ok h

any-cancels : (id : Bytes) (t : Table) → has_id id t ≡ false → any (cancels id) t ≡ false
any-cancels id [] h = refl
any-cancels id (j ∷ t) h =
    let (other, absent) = or_false (j.id == id) _ h in rw (other, any-cancels id t absent)

abbrev pub as_cancelled : ℕ → Job → Job
as_cancelled now j = record j { status = cancelled; updated_at = now }

cancel_found :
    (id : Bytes) (now : ℕ) (t : Table) (j : Job)
    → ids_unique t ≡ true
    → find_job id t ≡ some j
    → (any (cancels id) t ≡ is_pending j.status)
      × (find_job id (update_where (cancels id) (as_cancelled now) t)
          ≡ some (if is_pending j.status then as_cancelled now j else j))
unfolding find_job ids_unique update_where
cancel_found id now [] j u h = cc
cancel_found id now (k ∷ t) j u h = elim (Bool-cases (k.id == id)) [
  | inl hit ↦
      let same : some k ≡ some j = rw hit at h in
      let e : k ≡ j = cc in
      let absent : has_id id t ≡ false =
        subst (λ i. has_id i t ≡ false) ((list_beq_iff k.id id).0 hit) (ground arith) in
      subst
        (λ x.
          (any (cancels id) (k ∷ t) ≡ is_pending x.status)
          × (find_job id (update_where (cancels id) (as_cancelled now) (k ∷ t))
              ≡ some (if is_pending x.status then as_cancelled now x else x)))
        e
        (elim (Bool-cases (is_pending k.status)) [
          | inl p ↦ rw (hit, p, hit) (refl, refl)
          | inr n ↦ rw (hit, n, any-cancels id t absent, hit) (refl, refl)
        ])
  | inr miss ↦
      let rest = cancel_found id now t j (ground arith) (rw miss at h) in rw (miss, miss) rest
]

-- In a valid table, cancelling a job answers whether the job is pending; then it is cancelled at that
-- time, and otherwise it stays as it is.
pub cancel_lem :
    (id : Bytes) (now : ℕ) (t : Table) (j : Job)
    → IsValid t
    → find_job id t ≡ some j
    → ((cancel id now t).0 ≡ is_pending j.status)
      × (find_job id (cancel id now t).1
          ≡ some (if is_pending j.status then as_cancelled now j else j))
unfolding cancel
cancel_lem id now t j v h = cancel_found id now t j v.ids_ok h
