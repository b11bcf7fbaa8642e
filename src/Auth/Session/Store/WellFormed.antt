-- ===== src/Auth/Session/Store/WellFormed.antt =====
-- The table's two constraints, and how insertions, updates, deletions and rotations keep them.
use modo.Base.{
  ℕ, ◌≡◌, refl, ap, Bool, true, false, ◌||◌, [], ◌∷◌, ◌++◌, arith, Bool-cases, inl, inr, nat_eq,
  sym, ◌∙◌, subst,
}
use modo.Base.Lists.{list_eq}
use modo.Base.Text.{Text, codes}
use modo.Base.Rows.{update_rows, delete_rows}
use modo.Base.Rows.Keys.{
  has_key, keys_unique, keys_unique-delete, keys_unique-update, keys_unique-append,
}
use modo.Base.Errors.{Result, ok, err}
use modo.Encoding.Bytes.{Bytes}
use modo.Auth.Session.Token.{SessionToken, hash}
use modo.Auth.Session.Store.{
  SessionRow, Table, row_id, has_id, insert_row, set_token, rotate_token, issued,
}

-- No two rows have an identifier or a token's hash in common.
abbrev pub IsWellFormed : Table → Type 0
IsWellFormed t = (keys_unique row_id t ≡ true) × (keys_unique (λ r. r.token_hash) t ≡ true)

pub delete-IsWellFormed :
    (gone : SessionRow → Bool) (t : Table) → IsWellFormed t → IsWellFormed (delete_rows gone t)
delete-IsWellFormed gone t (i, u) =
    (keys_unique-delete row_id gone t i, keys_unique-delete (λ r. r.token_hash) gone t u)

-- An update of other columns than these two.
pub update-IsWellFormed :
    (test : SessionRow → Bool) (change : SessionRow → SessionRow) (t : Table)
    → ((r : SessionRow) → row_id (change r) ≡ row_id r)
    → ((r : SessionRow) → (change r).token_hash ≡ r.token_hash)
    → IsWellFormed t
    → IsWellFormed (update_rows test change t)
update-IsWellFormed test change t k l (i, u) = (
  keys_unique-update row_id test change t k i,
  keys_unique-update (λ r. r.token_hash) test change t l u,
)

module _ (violation : Text) where
  -- A row inserted stands behind the others, of which none has its identifier or its hash.
  pub insert_row-eq-ok :
      (r : SessionRow) (t t' : Table)
      → insert_row violation r t ≡ ok t'
      → (t' ≡ t ++ r ∷ [])
        × (has_key row_id (row_id r) t ≡ false)
        × (has_key (λ s. s.token_hash) r.token_hash t ≡ false)
  insert_row-eq-ok r t t' h =
      elim (Bool-cases
        (has_key row_id (row_id r) t || has_key (λ s. s.token_hash) r.token_hash t)) [
          | inl bad ↦ let clash : Result.err _ ≡ ok t' = rw bad at h in cc
          | inr good ↦
              let e : ok (t ++ r ∷ []) ≡ ok t' = rw good at h in (cc, ground arith, ground arith)
        ]

  pub insert_row-IsWellFormed :
      (r : SessionRow) (t t' : Table)
      → insert_row violation r t ≡ ok t'
      → IsWellFormed t
      → IsWellFormed t'
  insert_row-IsWellFormed r t t' h (i, u) =
      let (e, n, m) = insert_row-eq-ok r t t' h in
      subst IsWellFormed (sym e)
        (keys_unique-append row_id t r n i, keys_unique-append (λ s. s.token_hash) t r m u)

  pub set_token-IsWellFormed :
      (context id new_hash : Text) (now : ℕ) (t : Table)
      → IsWellFormed t
      → IsWellFormed (set_token violation context id new_hash now t).1
  set_token-IsWellFormed context id new_hash now t (i, u) =
      let change : SessionRow → SessionRow = λ r. record {
        token_hash = new_hash;
        columns = record r.columns { last_active_at = now };
      } in
      elim (Bool-cases (keys_unique (λ s. s.token_hash) (update_rows (has_id id) change t))) [
        | inl kept ↦ rw kept (keys_unique-update row_id (has_id id) change t (λ r. refl) i, kept)
        | inr broken ↦ rw broken (i, u)
      ]

  issued-table :
      (new_token : SessionToken) (o : Result (Unit {0}) × Table)
      → (issued violation new_token o).1 ≡ o.1
  issued-table new_token (ok _, t) = refl
  issued-table new_token (err e, t) = refl

module _ (violation : Text) (digest : Bytes → Bytes) where
  pub rotate_token-IsWellFormed :
      (id : Text) (generated : SessionToken) (now : ℕ) (t t' : Table) (g : SessionToken)
      → IsWellFormed t
      → ◌≡◌ {A = Result SessionToken × Table}
          (rotate_token violation digest id generated now t)
          (ok g, t')
      → IsWellFormed t'
  unfolding rotate_token keys_unique
  rotate_token-IsWellFormed id generated now t t' g w h =
      subst IsWellFormed
        (sym (
            issued-table violation generated
              (set_token violation (codes "rotate token: ") id (hash digest generated) now t))
          ∙ ap (λ x. x.1) h)
        (set_token-IsWellFormed violation (codes "rotate token: ") id (hash digest generated) now t
          w)
