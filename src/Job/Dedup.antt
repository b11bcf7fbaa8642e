-- ===== src/Job/Dedup.antt =====
-- The two outcomes of unique enqueueing.
use modo.Base.{
  ℕ, ◌≡◌, ◌⊎◌, refl, Bool, true, false, ◌&&◌, ◌||◌, [], ◌∷◌, ◌++◌, Option, none, some,
  if◌then◌else◌, Option-cases, inl, inr, nat_eq,
}
use modo.Base.Lists.{list_eq}
use modo.Base.Dict.{is_some}
use modo.Base.Errors.{ok}
use modo.Encoding.Bytes.{Bytes}
use modo.Job.Table.{Table, is_active, has_id, same_hash, clashes, insert_row}
use modo.Job.Table.Updates.{same_hash_sym}
use modo.Job.Enqueuer.{
  created, duplicate, EnqueueOptions, json, new_row, active_id, compute_payload_hash,
  enqueue_unique_with,
}

clash_step :
    (a s : Bool) (i : Bytes) (c : Bool) (o : Option Bytes)
    → c ≡ is_some o
    → (((true && a) && s) || c) ≡ is_some (if a && s then some i else o)
clash_step true true i c o e = refl
clash_step true false i c o e = e
clash_step false s i c o e = e

-- The index refuses a pending row exactly when an active row has its hash.
clashes-active_id :
    (id name payload hash : Bytes) (options : EnqueueOptions) (now : ℕ) (t : Table)
    → clashes (new_row id name payload (some hash) options now) t ≡ is_some (active_id hash t)
unfolding active_id
clashes-active_id id name payload hash options now [] = refl
clashes-active_id id name payload hash options now (j ∷ t) =
    rw (same_hash_sym (some hash) j.payload_hash) (
      clash_step (is_active j.status) (same_hash j.payload_hash (some hash)) j.id _
        (active_id hash t) (clashes-active_id id name payload hash options now t))

-- With an unused id and a payload that can be serialised, `enqueue_unique` has two outcomes. If an
-- active job has the hash of this name and payload, its id is returned and the table stays; if none
-- has, the new pending row stands behind the others and its id is returned.
pub enqueue_unique_with_lem :
    (digest : Bytes → Bytes) (missing id name payload : Bytes) (options : EnqueueOptions) (now : ℕ)
    (t : Table)
    → has_id id t ≡ false
    → ((old : Bytes) × (active_id (compute_payload_hash digest name payload) t ≡ some old)
        × (enqueue_unique_with digest missing id name (json payload) options now t
            ≡ (ok (duplicate old), t)))
      ⊎ ((active_id (compute_payload_hash digest name payload) t ≡ none)
          × (enqueue_unique_with digest missing id name (json payload) options now t ≡ (
            ok (created id),
            t
                ++ new_row id name payload
                    (some (compute_payload_hash digest name payload))
                    options
                    now
                  ∷ [],
          )))
unfolding enqueue_unique_with insert_row
enqueue_unique_with_lem digest missing id name payload options now t fresh =
    let hash = compute_payload_hash digest name payload in
    let e = clashes-active_id id name payload hash options now t in
    elim (Option-cases (active_id hash t)) [
      | inl free ↦
          let clear : clashes (new_row id name payload (some hash) options now) t ≡ false =
            rw (e, free) in
          inr (free, rw (fresh, clear))
      | inr (old, found) ↦
          let taken : clashes (new_row id name payload (some hash) options now) t ≡ true =
            rw (e, found) in
          inl (old, found, rw (fresh, taken, found))
    ]
