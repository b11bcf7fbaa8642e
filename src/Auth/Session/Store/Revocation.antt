-- ===== src/Auth/Session/Store/Revocation.antt =====
-- `destroy`, `destroy_all_for_user` and `destroy_all_except`: what they end, and what they leave.
use modo.Base.{
  ℕ, ◌≡◌, ◌≢◌, refl, ap, sym, ◌∙◌, Bool, true, false, not, ◌&&◌, [], ◌∷◌, some, none, arith, nat_eq,
  ◌==◌, ==_refl, ==_ne, subst, Bool-cases, inl, inr,
}
use modo.Base.Lists.{filter, list_eq}
use modo.Base.Text.{Text}
use modo.Base.Rows.{delete_rows, sort_rows, descending}
use modo.Base.Rows.Keys.{IsIn, IsIn-delete, keys_unique-delete, IsIn-delete_inv, has_key}
use modo.Base.Rows.Members.{filter-delete_other, filter-delete_all, any_no, keys_unique-eq}
use modo.Base.Errors.{ok}
use modo.Auth.Session.Store.{
  Serde, SessionData, SessionRow, Table, row_id, has_id, last_active, is_live_of, collected,
  destroy, destroy_all_for_user, destroy_all_except, list_for_user, read_by_token_hash,
}
use modo.Auth.Session.Store.WellFormed.{IsWellFormed}
use modo.Auth.Session.Store.Rotation.{
  read_by_token_hash-eq-ok, read_by_token_hash-row, read_by_token_hash-lost,
}

-- A text that is one text is not another.
==_other : (a b c : Text) → a ≢ b → (c == a) ≡ true → (c == b) ≡ false
==_other a b c h e =
    let same : c ≡ a = (list_eq.equals_iff c a).0 e in ap (λ x. x == b) same ∙ ==_ne a b h

module _ (serde : Serde) where
  -- After `destroy_all_for_user`, `list_for_user` lists nothing for the user at any time, and for every
  -- other user what it listed before.
  pub destroy_all_for_user-list_for_user :
      (user_id other : Text) (now : ℕ) (t : Table)
      → other ≢ user_id
      → (list_for_user serde user_id now (destroy_all_for_user user_id t) ≡ ok [])
        × (list_for_user serde other now (destroy_all_for_user user_id t)
            ≡ list_for_user serde other now t)
  unfolding list_for_user destroy_all_for_user sort_rows
  destroy_all_for_user-list_for_user user_id other now t differs =
      let gone : SessionRow → Bool = λ r. r.columns.user_id == user_id in
      (
        ap (λ x. collected serde (sort_rows (descending last_active) x))
            (filter-delete_all (is_live_of user_id now) gone t (λ r h. ground arith)),
        ap (λ x. collected serde (sort_rows (descending last_active) x))
            (filter-delete_other (is_live_of other now) gone t
              (λ r h. ==_other other user_id r.columns.user_id differs (ground arith))),
      )

  pub destroyed-lost :
      (t : Table) (r : SessionRow)
      → IsWellFormed t
      → IsIn r t
      → has_key (λ x. x.token_hash) r.token_hash (destroy (row_id r) t) ≡ false
  unfolding destroy
  destroyed-lost t r (i, u) m =
      any_no (λ x. x.token_hash == r.token_hash) _
        (λ x n.
          let (n', left) = IsIn-delete_inv (has_id (row_id r)) t x n in
          elim (Bool-cases (x.token_hash == r.token_hash)) [
            | inl same ↦
                let x_is : x ≡ r = keys_unique-eq (λ z. z.token_hash) t x r u n' m same in
                let clash : has_id (row_id r) x ≡ true =
                  ap (has_id (row_id r)) x_is ∙ ==_refl (row_id r) in
                absurd (ground arith)
            | inr differ ↦ differ
          ])

  pub destroy-lost :
      (digest_text : Text) (now later : ℕ) (t : Table) (s : SessionData serde.Value)
      → IsWellFormed t
      → read_by_token_hash serde digest_text now t ≡ ok (some s)
      → read_by_token_hash serde digest_text later (destroy s.id t) ≡ ok none
  destroy-lost digest_text now later t s w found =
      let (r, m, live, read, same) = read_by_token_hash-eq-ok serde digest_text now t s found in
      let hash_is : r.token_hash ≡ digest_text = (list_eq.equals_iff _ _).0 (ground arith) in
      let id_is : row_id r ≡ s.id = ap (λ x. x.id) same in
      read_by_token_hash-lost serde digest_text later _ (
        subst (λ x. has_key (λ y. y.token_hash) digest_text (destroy x t) ≡ false) id_is
          (subst (λ x. has_key (λ y. y.token_hash) x (destroy (row_id r) t) ≡ false) hash_is
            (destroyed-lost t r w m)))

  -- After `destroy` of a session that its token's hash found, the hash finds none at any time, and a
  -- hash that finds a session of another identifier still finds that session, when no two rows share
  -- an identifier or a hash.
  pub destroy-read_by_token_hash :
      (digest_text other : Text) (now later : ℕ) (t : Table) (s o : SessionData serde.Value)
      → IsWellFormed t
      → read_by_token_hash serde digest_text now t ≡ ok (some s)
      → read_by_token_hash serde other later t ≡ ok (some o)
      → o.id ≢ s.id
      → (read_by_token_hash serde digest_text later (destroy s.id t) ≡ ok none)
        × (read_by_token_hash serde other later (destroy s.id t) ≡ ok (some o))
  unfolding destroy
  destroy-read_by_token_hash digest_text other now later t s o (i, u) found found_other differs =
      let (q, m', live', read', same') =
        read_by_token_hash-eq-ok serde other later t o found_other in
      let other_id : row_id q ≡ o.id = ap (λ x. x.id) same' in
      let left : has_id s.id q ≡ false = ==_ne (row_id q) s.id (λ e. differs (sym other_id ∙ e)) in
      (
        destroy-lost digest_text now later t s (i, u) found,
        read_by_token_hash-row serde other later _ q
              (keys_unique-delete (λ x. x.token_hash) (has_id s.id) t u)
              (IsIn-delete (has_id s.id) t q m' left) live'
            ∙ sym (read_by_token_hash-row serde other later t q u m' live')
            ∙ found_other,
      )

  -- `destroy_all_except` leaves the user's rows of the identifier kept, and all rows of other users.
  pub destroy_all_except-rows :
      (user_id keep_id : Text) (t : Table)
      → (filter (λ r. r.columns.user_id == user_id) (destroy_all_except user_id keep_id t)
          ≡ filter (λ r. r.columns.user_id == user_id && row_id r == keep_id) t)
        × (filter (λ r. not (r.columns.user_id == user_id)) (destroy_all_except user_id keep_id t)
            ≡ filter (λ r. not (r.columns.user_id == user_id)) t)
  unfolding destroy_all_except delete_rows
  destroy_all_except-rows user_id keep_id [] = (refl, refl)
  destroy_all_except-rows user_id keep_id (r ∷ t) =
      let rest = destroy_all_except-rows user_id keep_id t in
      (ground (arith, rest.0), ground (arith, rest.1))
