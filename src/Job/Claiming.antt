-- ===== src/Job/Claiming.antt =====
-- Which rows a claim changes.
use modo.Base.{
  ℕ, zero, suc, ◌≡◌, refl, ap, sym, ◌∙◌, Bool, true, false, ◌||◌, List, [], ◌∷◌, arith, Bool-cases,
  inl, inr, nat_eq, ◌==◌, leb, ==_sym,
}
use modo.Base.Lists.{take, filter, All, All-map, All-map₂, any_none, contains, list_eq}
use modo.Encoding.Bytes.{Bytes}
use modo.Job.Table.{Job, Table, has_id, ids_unique}
use modo.Job.Worker.{eligible, insert_by_run_at, order_by_run_at, selected, ids}

contains-ids : (i : Bytes) (l : Table) → contains (ids l) i ≡ has_id i l
unfolding contains
contains-ids i [] = refl
contains-ids i (j ∷ l) = rw (contains-ids i l)

has_id-take : (n : ℕ) (i : Bytes) (l : Table) → has_id i (take n l) ≡ true → has_id i l ≡ true
has_id-take zero i l h = cc
has_id-take (suc n) i [] h = h
has_id-take (suc n) i (j ∷ l) h = elim (Bool-cases (j.id == i)) [
  | inl e ↦ rw e
  | inr n' ↦ rw n' (has_id-take n i l (rw n' at h))
]

or_swap : (a b c : Bool) → (a || (b || c)) ≡ (b || (a || c))
or_swap true true c = refl
or_swap true false c = refl
or_swap false b c = refl

has_id-insert :
    (i : Bytes) (j : Job) (l : Table)
    → has_id i (insert_by_run_at j l) ≡ ((j.id == i) || has_id i l)
unfolding insert_by_run_at
has_id-insert i j [] = refl
has_id-insert i j (k ∷ l) = elim (Bool-cases (leb j.run_at k.run_at)) [
  | inl e ↦ rw e
  | inr n ↦ rw (n, has_id-insert i j l) (or_swap (k.id == i) (j.id == i) (has_id i l))
]

has_id-order : (i : Bytes) (l : Table) → has_id i (order_by_run_at l) ≡ has_id i l
unfolding order_by_run_at
has_id-order i [] = refl
has_id-order i (j ∷ l) = has_id-insert i j (order_by_run_at l) ∙ rw (has_id-order i l)

has_id-filter :
    (p : Job → Bool) (i : Bytes) (t : Table) → has_id i (filter p t) ≡ true → has_id i t ≡ true
has_id-filter p i [] h = h
has_id-filter p i (j ∷ t) h = elim (Bool-cases (p j)) [
  | inl e ↦ elim (Bool-cases (j.id == i)) [
    | inl same ↦ rw same
    | inr other ↦ rw other (has_id-filter p i t (rw (e, other) at h))
  ]
  | inr n ↦ elim (Bool-cases (j.id == i)) [
    | inl same ↦ rw same
    | inr other ↦ rw other (has_id-filter p i t (rw n at h))
  ]
]

later :
    (k j : Job) (l : Table)
    → (j.id == k.id) ≡ false
    → has_id j.id (k ∷ l) ≡ true
    → has_id j.id l ≡ true
later k j l other h = rw (==_sym k.id j.id, other) at h

-- With unique ids, a row whose id stands among the rows that pass a test passes it itself.
filter_own :
    (p : Job → Bool) (t : Table)
    → ids_unique t ≡ true
    → All (λ j. has_id j.id (filter p t) ≡ true → p j ≡ true) t
unfolding ids_unique
filter_own p [] u = tt
filter_own p (k ∷ t) u =
    let fresh : has_id k.id t ≡ false = ground arith in
    elim (Bool-cases (p k)) [
      | inl e ↦
          let kept : filter p (k ∷ t) ≡ k ∷ filter p t = rw e in
          (
            (λ h. e),
            All-map₂ t (λ j other own h. own (later k j _ other (sym (ap (has_id j.id) kept) ∙ h)))
                (any_none (λ j. j.id == k.id) t fresh) (filter_own p t (ground arith)),
          )
      | inr n ↦
          let dropped : filter p (k ∷ t) ≡ filter p t = rw n in
          (
            (λ h. cc (has_id-filter p k.id t (sym (ap (has_id k.id) dropped) ∙ h), fresh)),
            All-map t (λ j own h. own (sym (ap (has_id j.id) dropped) ∙ h))
                (filter_own p t (ground arith)),
          )
    ]

module _ (names : List Bytes) (queue : Bytes) (slots now : ℕ) (t : Table) where
  abbrev chosen : List Bytes
  chosen = ids (selected names queue slots now t)

  -- With unique ids, the rows that a claim changes are eligible.
  pub chosen-eligible :
      ids_unique t ≡ true
      → All (λ j. contains chosen j.id ≡ true → eligible names queue now j ≡ true) t
  unfolding selected
  chosen-eligible u =
      All-map t
        (λ j own h. own (
          sym (has_id-order j.id (filter (eligible names queue now) t))
          ∙ has_id-take slots j.id _ (sym (contains-ids j.id _) ∙ h)))
        (filter_own (eligible names queue now) t u)
