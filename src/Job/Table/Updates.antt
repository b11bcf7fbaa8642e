-- ===== src/Job/Table/Updates.antt =====
-- What the statements keep: the two constraints, and properties of every row.
use modo.Base.{
  ◌≡◌, refl, ap, sym, subst, Bool, true, false, not, ◌&&◌, ◌||◌, [], ◌∷◌, ◌++◌, Option, none, some,
  arith, Bool-cases, inl, inr, nat_eq, ◌==◌, ==_sym,
}
use modo.Base.Lists.{any-append, All, list_eq}
use modo.Encoding.Bytes.{Bytes}
use modo.Job.Table.{
  Job, Table, is_active, update_where, delete_where, has_id, same_hash, clash, clashes, ids_unique,
  hashes_unique, insert_row,
}

-- A change of a row that keeps its hash, and makes no finished job active again.
pub record IsQuiet (change : Job → Job) (j : Job) : Type 0 where
  pub hash_kept : (change j).payload_hash ≡ j.payload_hash
  pub calm : is_active (change j).status ≡ true → is_active j.status ≡ true

module _ (test : Job → Bool) (change : Job → Job) where
  abbrev pub AreQuiet : Table → Type 0
  AreQuiet = All (λ j. test j ≡ true → IsQuiet change j)

  has_id-update :
      (id : Bytes) (t : Table)
      → ((j : Job) → (change j).id ≡ j.id)
      → has_id id (update_where test change t) ≡ has_id id t
  unfolding update_where
  has_id-update id [] q = refl
  has_id-update id (j ∷ t) q = ground (arith, q j, has_id-update id t q)

  pub ids_unique-update :
      (t : Table)
      → ((j : Job) → (change j).id ≡ j.id)
      → ids_unique (update_where test change t) ≡ ids_unique t
  unfolding update_where ids_unique
  ids_unique-update [] q = refl
  ids_unique-update (j ∷ t) q = ground (arith, q j, has_id-update j.id t q, ids_unique-update t q)

and3 : (a b c b' : Bool) → ((a && b) && c) ≡ true → (b ≡ true → b' ≡ true) → ((a && b') && c) ≡ true
and3 true true true b' h k = rw (k refl)
and3 true true false b' h k = cc
and3 true false c b' h k = cc
and3 false b c b' h k = cc

and3_left :
    (a b c a' : Bool) → ((a && b) && c) ≡ true → (a ≡ true → a' ≡ true) → ((a' && b) && c) ≡ true
and3_left true b c a' h k = rw (k refl) h
and3_left false b c a' h k = cc

or_mono :
    (a b : Bool) {a' b' : Bool}
    → (a ≡ true → a' ≡ true)
    → (b ≡ true → b' ≡ true)
    → (a || b) ≡ true
    → (a' || b') ≡ true
or_mono true b f g h = rw (f refl)
or_mono false b {a' = true} f g h = refl
or_mono false b {a' = false} f g h = g h

pub not_mono : (a' : Bool) {a : Bool} → (a' ≡ true → a ≡ true) → a ≡ false → a' ≡ false
not_mono true f h = cc (f refl)
not_mono false f h = refl

pub or_false : (a b : Bool) → (a || b) ≡ false → (a ≡ false) × (b ≡ false)
or_false true b h = cc
or_false false b h = (refl, h)

and_comm : (a b : Bool) → (a && b) ≡ (b && a)
and_comm true true = refl
and_comm true false = refl
and_comm false true = refl
and_comm false false = refl

unique_step : (a b : Bool) → (not a && b) ≡ true → not (a || false) && true ≡ true
unique_step true b h = cc
unique_step false b h = refl

some_eq : {A : Type 0} {a b : A} → some a ≡ some b → a ≡ b
some_eq h = cc

module _ (test : Job → Bool) (change : Job → Job) where
  clash_right : (j k : Job) → IsQuiet change k → clash j (change k) ≡ true → clash j k ≡ true
  clash_right j k q h =
      and3 (is_active j.status) (is_active (change k).status)
        (same_hash j.payload_hash k.payload_hash) (is_active k.status) (rw q.hash_kept at h) q.calm

  clash_left : (j k : Job) → IsQuiet change j → clash (change j) k ≡ true → clash j k ≡ true
  clash_left j k q h =
      and3_left (is_active (change j).status) (is_active k.status)
        (same_hash j.payload_hash k.payload_hash) (is_active j.status) (rw q.hash_kept at h) q.calm

  clashes_changed :
      (j : Job) (t : Table) → IsQuiet change j → clashes (change j) t ≡ true → clashes j t ≡ true
  clashes_changed j [] q h = cc
  clashes_changed j (k ∷ t) q h =
      or_mono (clash (change j) k) (clashes (change j) t) (clash_left j k q) (clashes_changed j t q)
        h

  clashes-update :
      (j : Job) (t : Table)
      → AreQuiet test change t
      → clashes j (update_where test change t) ≡ true
      → clashes j t ≡ true
  unfolding update_where
  clashes-update j [] qs h = cc
  clashes-update j (k ∷ t) (q, qs) h = elim (Bool-cases (test k)) [
    | inl hit ↦
        or_mono (clash j (change k)) (clashes j (update_where test change t))
          (clash_right j k (q hit)) (clashes-update j t qs) (rw hit at h)
    | inr miss ↦
        or_mono (clash j k) (clashes j (update_where test change t)) (λ e. e)
          (clashes-update j t qs) (rw miss at h)
  ]

  -- An update that is quiet on the rows it changes keeps the unique index.
  pub hashes_unique-update :
      (t : Table)
      → AreQuiet test change t
      → hashes_unique t ≡ true
      → hashes_unique (update_where test change t) ≡ true
  unfolding update_where hashes_unique
  hashes_unique-update [] qs h = refl
  hashes_unique-update (j ∷ t) (q, qs) h =
      let free : clashes j t ≡ false = ground arith in
      let rest : hashes_unique (update_where test change t) ≡ true =
        hashes_unique-update t qs (ground arith) in
      let free' : clashes j (update_where test change t) ≡ false =
        not_mono _ (clashes-update j t qs) free in
      elim (Bool-cases (test j)) [
        | inl hit ↦ rw (
          hit,
          not_mono (clashes (change j) (update_where test change t))
              (λ e. clashes-update j t qs (clashes_changed j _ (q hit) e)) free,
          rest,
        )
        | inr miss ↦ rw (miss, free', rest)
      ]

-- Deleting rows breaks neither constraint.
module _ (test : Job → Bool) where
  has_id-delete :
      (id : Bytes) (t : Table) → has_id id (delete_where test t) ≡ true → has_id id t ≡ true
  unfolding delete_where
  has_id-delete id [] h = h
  has_id-delete id (j ∷ t) h = elim (Bool-cases (test j)) [
    | inl gone ↦ or_mono false _ {a' = j.id == id} (λ e. cc) (has_id-delete id t) (rw gone at h)
    | inr kept ↦ or_mono (j.id == id) _ (λ e. e) (has_id-delete id t) (rw kept at h)
  ]

  clashes-delete :
      (j : Job) (t : Table) → clashes j (delete_where test t) ≡ true → clashes j t ≡ true
  unfolding delete_where
  clashes-delete j [] h = h
  clashes-delete j (k ∷ t) h = elim (Bool-cases (test k)) [
    | inl gone ↦ or_mono false _ {a' = clash j k} (λ e. cc) (clashes-delete j t) (rw gone at h)
    | inr kept ↦ or_mono (clash j k) _ (λ e. e) (clashes-delete j t) (rw kept at h)
  ]

  pub ids_unique-delete :
      (t : Table) → ids_unique t ≡ true → ids_unique (delete_where test t) ≡ true
  unfolding delete_where ids_unique
  ids_unique-delete [] h = refl
  ids_unique-delete (j ∷ t) h =
      let fresh : has_id j.id (delete_where test t) ≡ false =
        not_mono _ (has_id-delete j.id t) (ground arith) in
      let rest : ids_unique (delete_where test t) ≡ true = ids_unique-delete t (ground arith) in
      elim (Bool-cases (test j)) [ inl gone ↦ rw gone rest | inr kept ↦ rw (kept, fresh, rest) ]

  pub hashes_unique-delete :
      (t : Table) → hashes_unique t ≡ true → hashes_unique (delete_where test t) ≡ true
  unfolding delete_where hashes_unique
  hashes_unique-delete [] h = refl
  hashes_unique-delete (j ∷ t) h =
      let free : clashes j (delete_where test t) ≡ false =
        not_mono _ (clashes-delete j t) (ground arith) in
      let rest : hashes_unique (delete_where test t) ≡ true =
        hashes_unique-delete t (ground arith) in
      elim (Bool-cases (test j)) [ inl gone ↦ rw gone rest | inr kept ↦ rw (kept, free, rest) ]

pub same_hash_sym : (a b : Option Bytes) → same_hash a b ≡ same_hash b a
same_hash_sym none none = refl
same_hash_sym none (some b) = refl
same_hash_sym (some a) none = refl
same_hash_sym (some a) (some b) = ==_sym a b

clash_sym : (j k : Job) → clash j k ≡ clash k j
clash_sym j k = rw (same_hash_sym j.payload_hash k.payload_hash) (
    ap (λ b. b && same_hash k.payload_hash j.payload_hash)
      (and_comm (is_active j.status) (is_active k.status)))

-- A row that may be inserted keeps both constraints.
ids_unique-append :
    (t : Table) (j : Job)
    → has_id j.id t ≡ false
    → ids_unique t ≡ true
    → ids_unique (t ++ j ∷ []) ≡ true
unfolding ids_unique
ids_unique-append [] j n h = refl
ids_unique-append (k ∷ t) j n h =
    let rest : ids_unique (t ++ j ∷ []) ≡ true =
      ids_unique-append t j (ground arith) (ground arith) in
    rw (any-append (λ x. x.id == k.id) t j, rest, ==_sym j.id k.id) (ground arith)

hashes_unique-append :
    (t : Table) (j : Job)
    → clashes j t ≡ false
    → hashes_unique t ≡ true
    → hashes_unique (t ++ j ∷ []) ≡ true
unfolding hashes_unique
hashes_unique-append [] j n h = refl
hashes_unique-append (k ∷ t) j n h =
    let rest : hashes_unique (t ++ j ∷ []) ≡ true =
      hashes_unique-append t j (or_false (clash j k) _ n).1 (ground arith) in
    rw (any-append (λ x. clash k x) t j, rest, clash_sym k j, (or_false (clash j k) _ n).0)
      (unique_step (clashes k t) _ h)

-- An insertion that succeeds keeps both constraints, and puts the row behind the others.
pub insert_row-some :
    (j : Job) (t t' : Table)
    → insert_row j t ≡ some t'
    → ids_unique t ≡ true
    → hashes_unique t ≡ true
    → (t' ≡ t ++ j ∷ []) × (ids_unique t' ≡ true) × (hashes_unique t' ≡ true)
unfolding insert_row
insert_row-some j t t' h i u = elim (Bool-cases (has_id j.id t || clashes j t)) [
  | inl bad ↦ cc (rw bad at h)
  | inr good ↦
      let e : t ++ j ∷ [] ≡ t' = some_eq (rw good at h) in
      let (new_id, free) = or_false (has_id j.id t) _ good in
      (
        sym e,
        subst (λ x. ids_unique x ≡ true) e (ids_unique-append t j new_id i),
        subst (λ x. hashes_unique x ≡ true) e (hashes_unique-append t j free u),
      )
]
