-- ===== src/Base/Rows/Members.antt =====
-- The rows of selections, sorted and cut, are rows of the table.
use modo.Base.{
  ℕ, zero, suc, ◌≡◌, ◌≤◌, refl, ap, sym, ◌∙◌, subst, Bool, true, false, List, [], ◌∷◌, ◌++◌, arith,
  Bool-cases, inl, inr, Eq, ◌==◌, ==_sym, leb,
}
use modo.Base.Lists.{any, filter, take, length, All}
use modo.Base.Rows.{delete_rows, update_rows, insert_row_by, sort_rows, ascending}
use modo.Base.Rows.Keys.{IsIn, any-IsIn, keys_unique}

module _ {Row : Type 0} where
  pub IsIn-take : (n : ℕ) (t : List Row) (r : Row) → IsIn r (take n t) → IsIn r t
  IsIn-take zero t r m = absurd m
  IsIn-take (suc n) [] r m = absurd m
  IsIn-take (suc n) (s ∷ t) r (inl e) = inl e
  IsIn-take (suc n) (s ∷ t) r (inr m) = inr (IsIn-take n t r m)

  IsIn-insert :
      (before : Row → Row → Bool) (s : Row) (t : List Row) (r : Row)
      → IsIn r (insert_row_by before s t)
      → IsIn r (s ∷ t)
  unfolding insert_row_by
  IsIn-insert before s [] r m = m
  IsIn-insert before s (q ∷ t) r m = elim (Bool-cases (before s q)) [
    | inl first ↦ rw first at m
    | inr later ↦ elim (rw later at m) [
      | inl e ↦ inr (inl e)
      | inr n ↦ elim (IsIn-insert before s t r n) [ inl e ↦ inl e | inr k ↦ inr (inr k) ]
    ]
  ]

  pub IsIn-sort :
      (before : Row → Row → Bool) (t : List Row) (r : Row) → IsIn r (sort_rows before t) → IsIn r t
  unfolding sort_rows
  IsIn-sort before [] r m = m
  IsIn-sort before (s ∷ t) r m = elim (IsIn-insert before s (sort_rows before t) r m) [
    | inl e ↦ inl e
    | inr n ↦ inr (IsIn-sort before t r n)
  ]

  pub IsIn-filter :
      (test : Row → Bool) (t : List Row) (r : Row)
      → IsIn r (filter test t)
      → IsIn r t × (test r ≡ true)
  IsIn-filter test [] r m = absurd m
  IsIn-filter test (s ∷ t) r m = elim (Bool-cases (test s)) [
    | inl hit ↦ elim (rw hit at m) [
      | inl e ↦ (inl e, subst (λ x. test x ≡ true) e hit)
      | inr n ↦ let (k, h) = IsIn-filter test t r n in (inr k, h)
    ]
    | inr miss ↦ let (k, h) = IsIn-filter test t r (rw miss at m) in (inr k, h)
  ]

  pub All-IsIn : {P : Row → Type 0} (t : List Row) → ((r : Row) → IsIn r t → P r) → All P t
  All-IsIn [] h = tt
  All-IsIn (r ∷ t) h = (h r (inl refl), All-IsIn t (λ s m. h s (inr m)))

  pub IsIn-All : (P : Row → Type 0) (t : List Row) (r : Row) → All P t → IsIn r t → P r
  IsIn-All P [] r h m = absurd m
  IsIn-All P (s ∷ t) r (p, h) (inl e) = subst P e p
  IsIn-All P (s ∷ t) r (p, h) (inr m) = IsIn-All P t r h m

  pub any_no :
      (test : Row → Bool) (t : List Row)
      → ((r : Row) → IsIn r t → test r ≡ false)
      → any test t ≡ false
  any_no test [] h = refl
  any_no test (s ∷ t) h = rw (h s (inl refl)) (any_no test t (λ r m. h r (inr m)))

  -- Deletion of rows that a selection does not have.
  pub delete_none :
      (gone : Row → Bool) (t : List Row) → All (λ r. gone r ≡ false) t → delete_rows gone t ≡ t
  unfolding delete_rows
  delete_none gone [] h = refl
  delete_none gone (r ∷ t) (e, h) = rw e (ap (◌∷◌ r) (delete_none gone t h))

  -- What a selection does not have may be deleted or changed.
  pub filter-delete_other :
      (test gone : Row → Bool) (t : List Row)
      → ((r : Row) → test r ≡ true → gone r ≡ false)
      → filter test (delete_rows gone t) ≡ filter test t
  unfolding delete_rows
  filter-delete_other test gone [] h = refl
  filter-delete_other test gone (r ∷ t) h = ground (arith, h r, filter-delete_other test gone t h)

  pub filter-delete_all :
      (test gone : Row → Bool) (t : List Row)
      → ((r : Row) → test r ≡ true → gone r ≡ true)
      → filter test (delete_rows gone t) ≡ []
  unfolding delete_rows
  filter-delete_all test gone [] h = refl
  filter-delete_all test gone (r ∷ t) h = ground (arith, h r, filter-delete_all test gone t h)

  pub filter-update_other :
      (test q : Row → Bool) (change : Row → Row) (t : List Row)
      → ((r : Row) → test r ≡ true → (q r ≡ false) × (q (change r) ≡ false))
      → filter q (update_rows test change t) ≡ filter q t
  unfolding update_rows
  filter-update_other test q change [] h = refl
  filter-update_other test q change (r ∷ t) h = elim (Bool-cases (test r)) [
    | inl hit ↦
        let (before, after) = h r hit in
        rw (hit, before, after) (filter-update_other test q change t h)
    | inr miss ↦ let rest = filter-update_other test q change t h in rw miss (ground (arith, rest))
  ]

  pub take-append-le : (n : ℕ) (s t : List Row) → n ≤ length s → take n (s ++ t) ≡ take n s
  take-append-le zero s t h = refl
  take-append-le (suc n) [] t h = absurd (omega arith)
  take-append-le (suc n) (x ∷ s) t h = ap (◌∷◌ x) (take-append-le n s t (omega arith))

module _ {κ} {Row : Type 0} {Key : Type κ} ⦃eq : Eq Key⦄ (key : Row → Key) where
  -- Rows of one key are one row.
  pub keys_unique-eq :
      (t : List Row) (r s : Row)
      → keys_unique key t ≡ true
      → IsIn r t
      → IsIn s t
      → (key r == key s) ≡ true
      → r ≡ s
  unfolding keys_unique
  keys_unique-eq [] r s u m n h = absurd m
  keys_unique-eq (q ∷ t) r s u (inl e) (inl d) h = sym e ∙ d
  keys_unique-eq (q ∷ t) r s u (inl e) (inr n) h =
      let clash = any-IsIn (λ x. key x == key q) t s n (rw e (==_sym (key s) (key r) ∙ h)) in
      absurd (ground arith)
  keys_unique-eq (q ∷ t) r s u (inr m) (inl d) h =
      let clash = any-IsIn (λ x. key x == key q) t r m (rw d h) in absurd (ground arith)
  keys_unique-eq (q ∷ t) r s u (inr m) (inr n) h = keys_unique-eq t r s (ground arith) m n h

module _ {Row : Type 0} (key : Row → ℕ) where
  insert-append_last :
      (s : Row) (t : List Row) (r : Row)
      → leb (key s) (key r) ≡ true
      → insert_row_by (ascending key) s (t ++ r ∷ []) ≡ insert_row_by (ascending key) s t ++ r ∷ []
  unfolding insert_row_by
  insert-append_last s [] r h = rw h refl
  insert-append_last s (q ∷ t) r h = ground (arith, insert-append_last s t r h)

  -- A row with a key above all others is sorted last.
  pub sort-append_last :
      (t : List Row) (r : Row)
      → All (λ s. leb (key s) (key r) ≡ true) t
      → sort_rows (ascending key) (t ++ r ∷ []) ≡ sort_rows (ascending key) t ++ r ∷ []
  unfolding sort_rows insert_row_by
  sort-append_last [] r h = refl
  sort-append_last (s ∷ t) r (k, h) =
      ap (insert_row_by (ascending key) s) (sort-append_last t r h)
      ∙ insert-append_last s (sort_rows (ascending key) t) r k
