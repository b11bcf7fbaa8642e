-- ===== src/Base/Rows/Keys.antt =====
-- Keys of a table's rows: no two rows share a key, and what that gives for statements that name one.
use modo.Base.{
  ◌≡◌, ◌⊎◌, refl, ap, ◌∙◌, subst, Bool, true, false, not, ◌&&◌, List, [], ◌∷◌, ◌++◌, none, some,
  arith, if◌then◌else◌, Bool-cases, inl, inr, Eq, ◌==◌, ==_sym,
}
use modo.Base.Lists.{any, any-append}
use modo.Base.Rows.{update_rows, delete_rows, first_row}

module _ {Row : Type 0} where
  -- The row stands in the table.
  abbrev pub IsIn : Row → List Row → Type 0
  IsIn r [] = ⊥
  IsIn r (s ∷ t) = (s ≡ r) ⊎ IsIn r t

  pub first_row-IsIn :
      (test : Row → Bool) (t : List Row) (r : Row)
      → first_row test t ≡ some r
      → IsIn r t × (test r ≡ true)
  unfolding first_row
  first_row-IsIn test [] r h = cc
  first_row-IsIn test (s ∷ t) r h = elim (Bool-cases (test s)) [
    | inl hit ↦
        let same : some s ≡ some r = rw hit at h in
        let e : s ≡ r = cc in (inl e, subst (λ x. test x ≡ true) e hit)
    | inr miss ↦ let (m, e) = first_row-IsIn test t r (rw miss at h) in (inr m, e)
  ]

  pub IsIn-delete :
      (gone : Row → Bool) (t : List Row) (r : Row)
      → IsIn r t
      → gone r ≡ false
      → IsIn r (delete_rows gone t)
  unfolding delete_rows
  IsIn-delete gone [] r m k = absurd m
  IsIn-delete gone (s ∷ t) r (inl e) k = rw (ap gone e ∙ k) (inl e)
  IsIn-delete gone (s ∷ t) r (inr m) k = elim (Bool-cases (gone s)) [
    | inl hit ↦ rw hit (IsIn-delete gone t r m k)
    | inr miss ↦ rw miss (inr (IsIn-delete gone t r m k))
  ]

  pub IsIn-delete_inv :
      (gone : Row → Bool) (t : List Row) (r : Row)
      → IsIn r (delete_rows gone t)
      → IsIn r t × (gone r ≡ false)
  unfolding delete_rows
  IsIn-delete_inv gone [] r m = absurd m
  IsIn-delete_inv gone (s ∷ t) r m = elim (Bool-cases (gone s)) [
    | inl hit ↦ let (n, k) = IsIn-delete_inv gone t r (rw hit at m) in (inr n, k)
    | inr miss ↦ elim (rw miss at m) [
      | inl e ↦ (inl e, subst (λ x. gone x ≡ false) e miss)
      | inr n ↦ let (n', k) = IsIn-delete_inv gone t r n in (inr n', k)
    ]
  ]

  pub IsIn-update :
      (test : Row → Bool) (change : Row → Row) (t : List Row) (r : Row)
      → IsIn r t
      → test r ≡ true
      → IsIn (change r) (update_rows test change t)
  unfolding update_rows
  IsIn-update test change [] r m k = absurd m
  IsIn-update test change (s ∷ t) r (inl e) k = rw (ap test e ∙ k) (inl (ap change e))
  IsIn-update test change (s ∷ t) r (inr m) k = inr (IsIn-update test change t r m k)

  pub IsIn-update_inv :
      (test : Row → Bool) (change : Row → Row) (t : List Row) (r : Row)
      → IsIn r (update_rows test change t)
      → (s : Row) × IsIn s t × ((if test s then change s else s) ≡ r)
  unfolding update_rows
  IsIn-update_inv test change [] r m = absurd m
  IsIn-update_inv test change (s ∷ t) r (inl e) = (s, inl refl, e)
  IsIn-update_inv test change (s ∷ t) r (inr m) =
      let (q, n, e) = IsIn-update_inv test change t r m in (q, inr n, e)

  pub IsIn-append : (t : List Row) (r : Row) → IsIn r (t ++ r ∷ [])
  IsIn-append [] r = inl refl
  IsIn-append (s ∷ t) r = inr (IsIn-append t r)

  pub IsIn-before : (t : List Row) (r s : Row) → IsIn r t → IsIn r (t ++ s ∷ [])
  IsIn-before [] r s m = absurd m
  IsIn-before (q ∷ t) r s (inl e) = inl e
  IsIn-before (q ∷ t) r s (inr m) = inr (IsIn-before t r s m)

  pub first_row-no :
      (test : Row → Bool) (t : List Row) → any test t ≡ false → first_row test t ≡ none
  unfolding first_row
  first_row-no test [] h = refl
  first_row-no test (s ∷ t) h = ground (arith, first_row-no test t)

  -- A selection that only rows pass which the deletion leaves.
  pub first_row-delete :
      (test gone : Row → Bool) (t : List Row)
      → ((r : Row) → test r ≡ true → gone r ≡ false)
      → first_row test (delete_rows gone t) ≡ first_row test t
  unfolding first_row delete_rows
  first_row-delete test gone [] h = refl
  first_row-delete test gone (s ∷ t) h = ground (arith, h s, first_row-delete test gone t h)

  pub any-IsIn :
      (test : Row → Bool) (t : List Row) (r : Row) → IsIn r t → test r ≡ true → any test t ≡ true
  any-IsIn test [] r m k = absurd m
  any-IsIn test (s ∷ t) r (inl e) k = rw (ap test e ∙ k) refl
  any-IsIn test (s ∷ t) r (inr m) k = ground (arith, any-IsIn test t r m k)

  pub any-delete :
      (test gone : Row → Bool) (t : List Row)
      → any test t ≡ false
      → any test (delete_rows gone t) ≡ false
  unfolding delete_rows
  any-delete test gone [] h = refl
  any-delete test gone (s ∷ t) h = ground (arith, any-delete test gone t)

  any-update :
      (test q : Row → Bool) (change : Row → Row) (t : List Row)
      → ((r : Row) → q (change r) ≡ q r)
      → any q (update_rows test change t) ≡ any q t
  unfolding update_rows
  any-update test q change [] h = refl
  any-update test q change (s ∷ t) h = ground (arith, h s, any-update test q change t h)

module _ {κ} {Row : Type 0} {Key : Type κ} ⦃eq : Eq Key⦄ (key : Row → Key) where
  abbrev pub has_key : Key → List Row → Bool
  has_key k = any (λ r. key r == k)

  -- A primary key or a unique index holds.
  unfoldable pub keys_unique : List Row → Bool
  keys_unique [] = true
  keys_unique (r ∷ t) = not (has_key (key r) t) && keys_unique t

  pub keys_unique-delete :
      (gone : Row → Bool) (t : List Row)
      → keys_unique t ≡ true
      → keys_unique (delete_rows gone t) ≡ true
  unfolding keys_unique delete_rows
  keys_unique-delete gone [] h = refl
  keys_unique-delete gone (r ∷ t) h =
      ground (arith, keys_unique-delete gone t, any-delete (λ s. key s == key r) gone t)

  -- An update that leaves every row its key.
  pub keys_unique-update :
      (test : Row → Bool) (change : Row → Row) (t : List Row)
      → ((r : Row) → key (change r) ≡ key r)
      → keys_unique t ≡ true
      → keys_unique (update_rows test change t) ≡ true
  unfolding keys_unique update_rows
  keys_unique-update test change [] k h = refl
  keys_unique-update test change (r ∷ t) k h =
      let head : key (if test r then change r else r) ≡ key r = elim (Bool-cases (test r)) [
        | inl hit ↦ rw hit (k r)
        | inr miss ↦ rw miss refl
      ] in
      rw (head, any-update test (λ s. key s == key r) change t (λ s. ap (λ x. x == key r) (k s)))
        (ground (arith, keys_unique-update test change t k))

  pub keys_unique-append :
      (t : List Row) (r : Row)
      → has_key (key r) t ≡ false
      → keys_unique t ≡ true
      → keys_unique (t ++ r ∷ []) ≡ true
  unfolding keys_unique
  keys_unique-append [] r n h = refl
  keys_unique-append (s ∷ t) r n h =
      let rest : keys_unique (t ++ r ∷ []) ≡ true =
        keys_unique-append t r (ground arith) (ground arith) in
      rw (any-append (λ x. key x == key s) t r, rest, ==_sym (key r) (key s)) (ground arith)

  -- A row is the one that a test finds when the test passes rows of its key only.
  pub first_row-key :
      (test : Row → Bool) (t : List Row) (r : Row)
      → keys_unique t ≡ true
      → IsIn r t
      → test r ≡ true
      → ((s : Row) → test s ≡ true → (key s == key r) ≡ true)
      → first_row test t ≡ some r
  unfolding keys_unique first_row
  first_row-key test [] r u m p h = absurd m
  first_row-key test (s ∷ t) r u (inl e) p h = rw (ap test e ∙ p) (ap some e)
  first_row-key test (s ∷ t) r u (inr m) p h = elim (Bool-cases (test s)) [
    | inl hit ↦
        let clash : has_key (key s) t ≡ true =
          any-IsIn (λ x. key x == key s) t r m (==_sym (key r) (key s) ∙ h s hit) in
        absurd (ground arith)
    | inr miss ↦ rw miss (first_row-key test t r (ground arith) m p h)
  ]

  -- Without a row of the key, a test that passes only rows of it finds none.
  pub first_row-lost :
      (test : Row → Bool) (k : Key) (t : List Row)
      → has_key k t ≡ false
      → ((s : Row) → test s ≡ true → (key s == k) ≡ true)
      → first_row test t ≡ none
  unfolding first_row
  first_row-lost test k [] n h = refl
  first_row-lost test k (s ∷ t) n h = ground (arith, h s, first_row-lost test k t)
