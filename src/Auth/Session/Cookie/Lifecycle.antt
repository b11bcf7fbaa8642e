-- ===== src/Auth/Session/Cookie/Lifecycle.antt =====
-- Signing in ends the session before, and revoking reaches the user's own sessions only.
use modo.Base.{
  ℕ, ◌≡◌, ◌≢◌, refl, ap, sym, ◌∙◌, subst, Bool, true, false, not, Option, some, none, arith,
  Bool-cases, inl, inr, nat_eq, ◌==◌, ==_ne,
}
use modo.Base.Lists.{any-append, filter, list_eq}
use modo.Base.Text.{Text, codes}
use modo.Base.Rows.{first_row}
use modo.Base.Rows.Keys.{IsIn, has_key, any-delete, first_row-IsIn}
use modo.Base.Rows.Members.{keys_unique-eq, delete_none, All-IsIn, IsIn-filter}
use modo.Base.Rows.Counting.{filter-delete}
use modo.Base.Errors.{Result, ok, err, ◌>>=◌}
use modo.Base.Errors.Http.{error_of, unauthorized, not_found}
use modo.Encoding.Bytes.{Bytes}
use modo.Client.{ClientInfo}
use modo.Auth.Session.Token.{SessionToken, hash}
use modo.Auth.Session.Store.{
  Outcome, done, failed, data_of, with_data, transposed, row_to_session_data, Serde, SessionData,
  SessionRow, Table, CookieSessionsConfig, session_limit, row_id, has_id, evict_excess, row_of,
  create, destroy, read, read_by_token_hash,
}
use modo.Auth.Session.Store.WellFormed.{IsWellFormed, insert_row-eq-ok}
use modo.Auth.Session.Store.Limit.{is_evicted, Created, create-eq-ok}
use modo.Auth.Session.Store.Rotation.{read_by_token_hash-eq-ok, read_by_token_hash-lost}
use modo.Auth.Session.Store.Revocation.{destroyed-lost}
use modo.Auth.Session.Cookie.Extractor.{
  SessionState, World, set_to, remove, authenticated, authenticate_with, destroy_current, logout,
  logout_all, logout_other, list_my_sessions, revoke, rotate, user_id,
}
use modo.Auth.Session.Cookie.Service.{revoke_found}

module _ (violation : Text) (digest : Bytes → Bytes) (serde : Serde)
    (config : CookieSessionsConfig) where
  authenticated-eq-ok :
      (st st' : SessionState serde) (o : Result (SessionData serde.Value × SessionToken) × Table)
      (t' : Table)
      → ◌≡◌ {A = Result (Unit {0}) × World serde}
          (authenticated violation digest serde config st o)
          (ok tt, (st', t'))
      → (s : SessionData serde.Value) × (g : SessionToken) × ◌≡◌
          {A = Result (SessionData serde.Value × SessionToken) × Table} o
          (ok (s, g), t')
        × (record st { current_data = some s; action = set_to g; dirty = false } ≡ st')
  authenticated-eq-ok st st' (ok (s, g), t) t' h = (s, g, cc, cc)
  authenticated-eq-ok st st' (err e, t) t' h = cc

  -- After a creation, only the new row may have a hash that no row had.
  create-lost :
      (info : ClientInfo) (user : Text) (json : serde.Value) (id : Text) (generated : SessionToken)
      (now : ℕ) (t t' : Table) (s : SessionData serde.Value) (g : SessionToken) (old : Text)
      → ◌≡◌ {A = Created violation serde config digest}
          (create violation serde config digest info user (some json) id generated now t)
          (ok (s, g), t')
      → hash digest generated ≢ old
      → has_key (λ r. r.token_hash) old t ≡ false
      → has_key (λ r. r.token_hash) old t' ≡ false
  unfolding evict_excess
  create-lost info user json id generated now t t' s g old h differs absent =
      let (text, t₁, o, e, same, token_same, left) =
        create-eq-ok violation serde config digest info user (some json) id generated now t t' s g
          h in
      let r = row_of serde s text (hash digest g) in
      let (whole, _, _) = insert_row-eq-ok violation r t t₁ e in
      let new : (hash digest g == old) ≡ false =
        subst (λ x. (hash digest x == old) ≡ false) token_same
          (==_ne (hash digest generated) old differs) in
      let absent' : has_key (λ x. x.token_hash) old t₁ ≡ false =
        ap (has_key (λ x. x.token_hash) old) whole
        ∙ any-append (λ x. x.token_hash == old) t r
        ∙ rw (absent, new) refl in
      subst (λ x. has_key (λ y. y.token_hash) old x ≡ false) left
        (any-delete (λ x. x.token_hash == old) (is_evicted (session_limit config) user now t₁) t₁
          absent')

  -- Signing in with `authenticate_with` when the request has a session that the hash of its token
  -- found: if it succeeds, the old hash finds no session at any time, the request's session is one of
  -- the user given, and the cookie is to be set to the new token; when the new token has another hash
  -- and no two rows share an identifier or a hash.
  pub authenticate_with_lem :
      (old user : Text) (earlier now later : ℕ) (json : serde.Value) (id : Text)
      (generated : SessionToken) (st st' : SessionState serde) (t t' : Table)
      (s c : SessionData serde.Value)
      → IsWellFormed t
      → read_by_token_hash serde old earlier t ≡ ok (some s)
      → st.current_data ≡ some c
      → c.id ≡ s.id
      → hash digest generated ≢ old
      → ◌≡◌ {A = Result (Unit {0}) × World serde}
          (authenticate_with violation digest serde config user json id generated now (st, t))
          (ok tt, (st', t'))
      → (read_by_token_hash serde old later t' ≡ ok none)
        × (user_id serde st' ≡ some user)
        × (st'.action ≡ set_to generated)
  unfolding authenticate_with
  authenticate_with_lem old user earlier now later json id generated st st' t t' s c w found holds
        same_id differs h =
      let made =
        create violation serde config digest st.info user (some json) id generated now
          (destroy_current serde st.current_data t) in
      let (s', g, o, e) = authenticated-eq-ok st st' made t' h in
      let (r, m, live, json_is, same) = read_by_token_hash-eq-ok serde old earlier t s found in
      let hash_is : r.token_hash ≡ old = (list_eq.equals_iff _ _).0 (ground arith) in
      let id_is : row_id r ≡ c.id = ap (λ x. x.id) same ∙ sym same_id in
      let gone : has_key (λ y. y.token_hash) old (destroy_current serde st.current_data t) ≡ false =
        subst (λ x. has_key (λ y. y.token_hash) old (destroy_current serde x t) ≡ false) (sym holds)
          (subst (λ x. has_key (λ y. y.token_hash) old (destroy x t) ≡ false) id_is
            (subst (λ x. has_key (λ y. y.token_hash) x (destroy (row_id r) t) ≡ false) hash_is
              (destroyed-lost serde t r w m))) in
      let (_, _, _, _, fresh, token_same, _) =
        create-eq-ok violation serde config digest st.info user (some json) id generated now _ t' s'
          g o in
      (
        read_by_token_hash-lost serde old later t'
            (create-lost st.info user json id generated now _ t' s' g old o differs gone),
        ap (user_id serde) (sym e) ∙ ap (λ x. some x.user_id) (sym fresh),
        ap (λ x. x.action) (sym e) ∙ ap set_to (sym token_same),
      )

module _ (serde : Serde) where
  -- The rows of other users than the one whose row an identifier names are not deleted with it.
  destroy-others :
      (t : Table) (r : SessionRow) (user : Text)
      → IsWellFormed t
      → IsIn r t
      → r.columns.user_id ≡ user
      → filter (λ x. not (x.columns.user_id == user)) (destroy (row_id r) t)
        ≡ filter (λ x. not (x.columns.user_id == user)) t
  unfolding destroy
  destroy-others t r user (i, u) m owner =
      let other : SessionRow → Bool = λ x. not (x.columns.user_id == user) in
      filter-delete (has_id (row_id r)) other t
      ∙ delete_none (has_id (row_id r)) (filter other t) (
          All-IsIn (filter other t) (λ x n.
            let (n', differs) = IsIn-filter other t x n in
            elim (Bool-cases (has_id (row_id r) x)) [
              | inl same ↦
                  let e : x ≡ r = keys_unique-eq row_id t x r i n' m same in
                  let own : (x.columns.user_id == user) ≡ true =
                    ap (λ z. z.columns.user_id == user) e ∙ (list_eq.equals_iff _ _).1 owner in
                  absurd (ground arith)
              | inr miss ↦ miss
            ]))

  -- What `revoke` does with the row that it has looked up.
  revoked-others :
      (user id : Text) (t : Table) (o : Option SessionRow)
      → ((r : SessionRow) → o ≡ some r → IsIn r t × (has_id id r ≡ true))
      → IsWellFormed t
      → filter
          (λ r. not (r.columns.user_id == user))
          (revoke_found serde (error_of not_found) user id (transposed serde o) t).1
        ≡ filter (λ r. not (r.columns.user_id == user)) t
  unfolding row_to_session_data
  revoked-others user id t none h w = refl
  revoked-others user id t (some r) h w = found (serde.from_str r.columns.json_data)
    where
      found :
          (json : Outcome serde.Value)
          → filter
              (λ x. not (x.columns.user_id == user))
              (revoke_found serde
                (error_of not_found)
                user
                id
                ((data_of (codes "deserialize session data: ") json >>= λ v.
                    ok (with_data r.columns v))
                  >>= λ s. ok (some s))
                t).1
            ≡ filter (λ x. not (x.columns.user_id == user)) t
      found (failed e) = refl
      found (done v) = elim (Bool-cases (r.columns.user_id == user)) [
        | inl owner ↦
            let (m, e) = h r refl in
            rw owner (
              subst
                (λ x.
                  filter (λ y. not (y.columns.user_id == user)) (destroy x t)
                  ≡ filter (λ y. not (y.columns.user_id == user)) t)
                ((list_eq.equals_iff (row_id r) id).0 e)
                (destroy-others t r user w m ((list_eq.equals_iff r.columns.user_id user).0 owner)))
        | inr stranger ↦ rw stranger refl
      ]

  -- `revoke` leaves all rows of other users than the current session's as they are, whether it succeeds
  -- or fails, and leaves the request's state unchanged, when no two rows share an identifier.
  pub revoke-others :
      (id : Text) (st : SessionState serde) (t : Table) (c : SessionData serde.Value)
      → IsWellFormed t
      → st.current_data ≡ some c
      → ((revoke serde id (st, t)).1.0 ≡ st)
        × (filter (λ r. not (r.columns.user_id == c.user_id)) (revoke serde id (st, t)).1.1
            ≡ filter (λ r. not (r.columns.user_id == c.user_id)) t)
  unfolding revoke read
  revoke-others id st t c w holds = rw holds (
    refl,
    revoked-others c.user_id id t (first_row (has_id id) t)
        (λ r e. first_row-IsIn (has_id id) t r e) w,
  )

  -- Without a session, `rotate`, `logout_other`, `list_my_sessions` and `revoke` answer 401 Unauthorized,
  -- `logout` and `logout_all` succeed and are to remove the cookie, and none changes the table.
  pub signed_out_lem :
      (violation : Text) (digest : Bytes → Bytes) (config : CookieSessionsConfig) (id : Text)
      (generated : SessionToken) (rotating touching now : ℕ) (st : SessionState serde) (t : Table)
      → st.current_data ≡ none
      → ◌≡◌ {A = Result (Unit {0}) × World serde}
          (rotate violation digest serde config generated rotating touching (st, t))
          (err (error_of unauthorized), (st, t))
        × ◌≡◌ {A = Result (Unit {0}) × World serde}
            (logout_other serde (st, t))
            (err (error_of unauthorized), (st, t))
        × (list_my_sessions serde now (st, t) ≡ err (error_of unauthorized))
        × ◌≡◌ {A = Result (Unit {0}) × World serde}
            (revoke serde id (st, t))
            (err (error_of unauthorized), (st, t))
        × ◌≡◌ {A = Result (Unit {0}) × World serde}
            (logout serde (st, t))
            (ok tt, (record st { action = remove }, t))
        × ◌≡◌ {A = Result (Unit {0}) × World serde}
            (logout_all serde (st, t))
            (ok tt, (record st { action = remove }, t))
  unfolding rotate logout_other list_my_sessions revoke logout logout_all
  signed_out_lem violation digest config id generated rotating touching now st t absent =
      rw absent (refl, refl, refl, refl, refl, refl)
