-- ===== src/Base/Rows.antt =====
-- A table of a database as the list of its rows, in the order in which SQLite walks it, with the effect
-- of SQL's statements on it. Where SQL leaves the order of rows open, they keep the table's order.
pub mod Counting
pub mod Keys
pub mod Members
use modo.Base.{
  ℕ, suc, ◌≡◌, refl, Bool, true, false, List, [], ◌∷◌, Option, none, some, if◌then◌else◌, leb, ltb,
}

module _ {ℓ} {Row : Type ℓ} where
  -- `UPDATE … SET … WHERE …`
  unfoldable pub update_rows : (Row → Bool) → (Row → Row) → List Row → List Row
  update_rows test change [] = []
  update_rows test change (r ∷ t) = (if test r then change r else r) ∷ update_rows test change t

  -- `DELETE FROM … WHERE …`
  unfoldable pub delete_rows : (Row → Bool) → List Row → List Row
  delete_rows test [] = []
  delete_rows test (r ∷ t) = if test r then delete_rows test t else r ∷ delete_rows test t

  -- `SELECT … WHERE …`, of which the first row is read.
  unfoldable pub first_row : (Row → Bool) → List Row → Option Row
  first_row test [] = none
  first_row test (r ∷ t) = if test r then some r else first_row test t

  -- `ORDER BY key ASC` and `ORDER BY key DESC`
  unfoldable pub insert_row_by : (Row → Row → Bool) → Row → List Row → List Row
  insert_row_by before r [] = r ∷ []
  insert_row_by before r (s ∷ t) = if before r s then r ∷ s ∷ t else s ∷ insert_row_by before r t

  unfoldable pub sort_rows : (Row → Row → Bool) → List Row → List Row
  unfolding insert_row_by
  sort_rows before [] = []
  sort_rows before (r ∷ t) = insert_row_by before r (sort_rows before t)

  abbrev pub ascending : (Row → ℕ) → Row → Row → Bool
  ascending key r s = leb (key r) (key s)

  abbrev pub descending : (Row → ℕ) → Row → Row → Bool
  descending key r s = leb (key s) (key r)
