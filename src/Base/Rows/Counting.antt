-- ===== src/Base/Rows/Counting.antt =====
-- Deleting the first rows of a sorted selection.
use modo.Base.{
  ℕ, zero, suc, ◌-◌, ◌≡◌, ◌≤◌, refl, ap, sym, ◌∙◌, Bool, true, List, [], ◌∷◌, ◌++◌, arith,
}
use modo.Base.Lists.{length, take, drop, filter, count, take-append-drop, All}
use modo.Base.Rows.{delete_rows, insert_row_by, sort_rows}

module _ {ℓ} {Row : Type ℓ} (gone : Row → Bool) where
  pub delete-append :
      (s t : List Row) → delete_rows gone (s ++ t) ≡ delete_rows gone s ++ delete_rows gone t
  unfolding delete_rows
  delete-append [] t = refl
  delete-append (r ∷ s) t = ground (arith, delete-append s t)

  length-delete-le : (t : List Row) → length (delete_rows gone t) ≤ length t
  unfolding delete_rows
  length-delete-le [] = omega arith
  length-delete-le (r ∷ t) = ground (arith, length-delete-le t)

  -- The rows of a selection that are left are the selection of what is left.
  pub filter-delete :
      (test : Row → Bool) (t : List Row)
      → filter test (delete_rows gone t) ≡ delete_rows gone (filter test t)
  unfolding delete_rows
  filter-delete test [] = refl
  filter-delete test (r ∷ t) = ground (arith, filter-delete test t)

  length-delete-insert :
      (before : Row → Row → Bool) (r : Row) (t : List Row)
      → length (delete_rows gone (insert_row_by before r t)) ≡ length (delete_rows gone (r ∷ t))
  unfolding delete_rows insert_row_by
  length-delete-insert before r [] = refl
  length-delete-insert before r (s ∷ t) = ground (arith, length-delete-insert before r t)

  length-delete-cons :
      (r : Row) (s t : List Row)
      → length (delete_rows gone s) ≡ length (delete_rows gone t)
      → length (delete_rows gone (r ∷ s)) ≡ length (delete_rows gone (r ∷ t))
  unfolding delete_rows
  length-delete-cons r s t h = ground arith

  -- Sorting changes nothing in how many rows a deletion leaves.
  length-delete-sort :
      (before : Row → Row → Bool) (t : List Row)
      → length (delete_rows gone (sort_rows before t)) ≡ length (delete_rows gone t)
  unfolding sort_rows
  length-delete-sort before [] = refl
  length-delete-sort before (r ∷ t) =
      length-delete-insert before r (sort_rows before t)
      ∙ length-delete-cons r (sort_rows before t) t (length-delete-sort before t)

  delete_everything : (t : List Row) → All (λ r. gone r ≡ true) t → delete_rows gone t ≡ []
  unfolding delete_rows
  delete_everything [] h = refl
  delete_everything (r ∷ t) (g, h) = rw g (delete_everything t h)

length-drop {ℓ} : {A : Type ℓ} (n : ℕ) (xs : List A) → length (drop n xs) ≡ length xs - n
length-drop zero xs = omega arith
length-drop (suc n) [] = omega arith
length-drop (suc n) (x ∷ xs) = omega (arith, length-drop n xs)

module _ {ℓ} {Row : Type ℓ} (before : Row → Row → Bool) where
  length-insert : (r : Row) (t : List Row) → length (insert_row_by before r t) ≡ suc (length t)
  unfolding insert_row_by
  length-insert r [] = refl
  length-insert r (s ∷ t) = ground (arith, length-insert r t)

  pub length-sort : (t : List Row) → length (sort_rows before t) ≡ length t
  unfolding sort_rows
  length-sort [] = refl
  length-sort (r ∷ t) = length-insert r (sort_rows before t) ∙ ap suc (length-sort t)

  -- When the first n rows of a sorted selection are deleted, at least n fewer rows are selected.
  pub count-delete_first :
      (gone test : Row → Bool) (n : ℕ) (t : List Row)
      → All (λ r. gone r ≡ true) (take n (sort_rows before (filter test t)))
      → count test (delete_rows gone t) ≤ count test t - n
  count-delete_first gone test n t h =
      let sorted = sort_rows before (filter test t) in
      let cut : delete_rows gone sorted ≡ delete_rows gone (drop n sorted) =
        ap (delete_rows gone) (sym (take-append-drop n sorted))
        ∙ delete-append gone (take n sorted) (drop n sorted)
        ∙ ap (λ x. x ++ delete_rows gone (drop n sorted))
            (delete_everything gone (take n sorted) h) in
      omega (
        arith,
        ap length (filter-delete gone test t),
        length-delete-sort gone before (filter test t),
        ap length cut,
        length-delete-le gone (drop n sorted),
        length-drop n sorted,
        length-sort (filter test t),
      )
