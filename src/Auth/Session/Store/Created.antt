-- ===== src/Auth/Session/Store/Created.antt =====
-- `create`: the session created is the one read back by its token, and nobody else's is lost.
use modo.Base.{
  ℕ, ◌+◌, ◌^◌, ◌-◌, ◌≡◌, ◌≤◌, ◌<◌, refl, ap, sym, ◌∙◌, subst, Bool, true, false, not, [], ◌∷◌, ◌++◌,
  Option, some, arith, leb, nat_eq, ◌==◌, ==_refl,
}
use modo.Base.Lists.{
  any, any_none, count, filter, take, length, All, All-map, All-filter, list_eq, filter-append,
  length-append,
}
use modo.Base.Text.{Text}
use modo.Base.Rows.{delete_rows, sort_rows, ascending}
use modo.Base.Rows.Counting.{length-sort}
use modo.Base.Rows.Keys.{IsIn, has_key, IsIn-append, IsIn-delete, first_row-key}
use modo.Base.Rows.Members.{
  IsIn-take, IsIn-sort, IsIn-filter, IsIn-All, any_no, take-append-le, sort-append_last,
}
use modo.Base.Errors.{ok}
use modo.Encoding.Bytes.{Bytes}
use modo.Auth.Session.Token.{SessionToken, hash}
use modo.Client.{ClientInfo}
use modo.Auth.Session.Store.{
  done, Serde, SessionData, SessionRow, Table, CookieSessionsConfig, seconds, expiry, session_limit,
  row_id, last_active, has_id, is_live_of, is_live_hash, insert_row, excess, evict_excess, row_of,
  new_session, unwrap_or_object, create, read_by_token, read_by_token_hash, row_to_session_data,
  transposed,
}
use modo.Auth.Session.Store.WellFormed.{
  IsWellFormed, insert_row-eq-ok, insert_row-IsWellFormed, delete-IsWellFormed,
}
use modo.Auth.Session.Store.Limit.{is_evicted, Created, create-eq-ok, evict_excess-others}

append_nil : (t : Table) → t ++ [] ≡ t
append_nil [] = refl
append_nil (r ∷ t) = ap (◌∷◌ r) (append_nil t)

-- An active row inserted after all others were last active is not among those evicted.
newest-stays :
    (most : ℕ) (user_id : Text) (now : ℕ) (t : Table) (r : SessionRow)
    → 0 < most
    → is_live_of user_id now r ≡ true
    → has_id (row_id r) r ≡ true
    → has_key row_id (row_id r) t ≡ false
    → All (λ s. leb (last_active s) (last_active r) ≡ true) t
    → is_evicted most user_id now (t ++ r ∷ []) r ≡ false
newest-stays most user_id now t r some_allowed live own fresh earlier =
    let test = is_live_of user_id now in
    let kept : filter test (t ++ r ∷ []) ≡ filter test t ++ r ∷ [] =
      filter-append test t (r ∷ []) ∙ rw live refl in
    let order : sort_rows (ascending last_active) (filter test (t ++ r ∷ []))
        ≡ sort_rows (ascending last_active) (filter test t) ++ r ∷ [] =
      ap (sort_rows (ascending last_active)) kept
      ∙ sort-append_last last_active (filter test t) r (All-filter _ test t earlier) in
    let n = count test (t ++ r ∷ []) - most in
    let fewer : n ≤ length (sort_rows (ascending last_active) (filter test t)) = omega (
      arith,
      ap length kept,
      length-append (filter test t) (r ∷ []),
      length-sort (ascending last_active) (filter test t),
    ) in
    let cut : excess most user_id now (t ++ r ∷ [])
        ≡ take n (sort_rows (ascending last_active) (filter test t)) =
      ap (take n) order ∙ take-append-le n _ (r ∷ []) fewer in
    let gone : any (has_id (row_id r)) (take n (sort_rows (ascending last_active) (filter test t)))
        ≡ false =
      any_no (has_id (row_id r)) _ (λ s m.
        let m' = IsIn-sort (ascending last_active) (filter test t) s (IsIn-take n _ s m) in
        IsIn-All (λ x. has_id (row_id r) x ≡ false) t s (any_none (has_id (row_id r)) t fresh)
          (IsIn-filter test t s m').0) in
    ap (any (has_id (row_id r))) cut ∙ gone

module _ (violation : Text) (serde : Serde) (config : CookieSessionsConfig)
    (digest : Bytes → Bytes) where
  -- The row of a live hash is read as its session.
  pub read_by_token-row :
      (generated : SessionToken) (now : ℕ) (t : Table) (r : SessionRow)
      → IsWellFormed t
      → IsIn r t
      → is_live_hash (hash digest generated) now r ≡ true
      → read_by_token serde digest generated now t ≡ transposed serde (some r)
  unfolding read_by_token read_by_token_hash
  read_by_token-row generated now t r (i, u) m live = ap (transposed serde) (
      first_row-key (λ s. s.token_hash) (is_live_hash (hash digest generated) now) t r u m live
        (λ s other.
          let e : (s.token_hash == hash digest generated) ≡ true = ground arith in
          let d : (r.token_hash == hash digest generated) ≡ true = ground arith in
          let same : r.token_hash ≡ hash digest generated = (list_eq.equals_iff _ _).0 d in
          subst (λ x. (s.token_hash == x) ≡ true) (sym same) e))

  -- What is written can be read: the row's data is the session's.
  pub row_of-read :
      (s : SessionData serde.Value) (text digest_text : Text)
      → serde.from_str text ≡ done s.json_data
      → transposed serde (some (row_of serde s text digest_text)) ≡ ok (some s)
  unfolding row_to_session_data
  row_of-read s text digest_text e = rw e refl

  inserted-read :
      (s : SessionData serde.Value) (text : Text) (generated : SessionToken) (now : ℕ)
      (t t₁ : Table)
      → serde.from_str text ≡ done s.json_data
      → 0 < session_limit config
      → s.last_active_at ≡ now
      → now < s.expires_at
      → IsWellFormed t
      → All (λ r. last_active r < now) t
      → insert_row violation (row_of serde s text (hash digest generated)) t ≡ ok t₁
      → read_by_token serde digest generated now
          (evict_excess (session_limit config) s.user_id now t₁)
        ≡ ok (some s)
  unfolding evict_excess
  inserted-read s text generated now t t₁ round_trip some_allowed active lives w earlier e =
      let r = row_of serde s text (hash digest generated) in
      let (whole, fresh, _) = insert_row-eq-ok violation r t t₁ e in
      let gone = is_evicted (session_limit config) s.user_id now in
      let live : is_live_of s.user_id now r ≡ true = rw (==_refl s.user_id) (ground arith) in
      let read_live : is_live_hash (hash digest generated) now r ≡ true =
        rw (==_refl (hash digest generated)) (ground arith) in
      let before : All (λ x. leb (last_active x) s.last_active_at ≡ true) t =
        All-map t (λ x k. ground arith) earlier in
      let stays : gone (t ++ r ∷ []) r ≡ false =
        newest-stays (session_limit config) s.user_id now t r some_allowed live (==_refl s.id) fresh
          before in
      let kept : IsIn r (delete_rows (gone (t ++ r ∷ [])) (t ++ r ∷ [])) =
        IsIn-delete (gone (t ++ r ∷ [])) (t ++ r ∷ []) r (IsIn-append t r) stays in
      read_by_token-row generated now _ r
        (delete-IsWellFormed (gone t₁) t₁ (insert_row-IsWellFormed violation r t t₁ e w))
        (subst (λ x. IsIn r (delete_rows (gone x) x)) (sym whole) kept) read_live
      ∙ row_of-read s text (hash digest generated) round_trip

  lasting :
      (now : ℕ)
      → 0 < config.session_ttl_secs
      → now + seconds config.session_ttl_secs < seconds 253402300800
      → now < expiry config.session_ttl_secs now
  lasting now lives early = ground arith

  allowed :
      0 < config.max_sessions_per_user
      → config.max_sessions_per_user < 2 ^ 63
      → 0 < session_limit config
  allowed some_allowed few = ground arith

  -- A session that `create` returns is the one that `read_by_token` finds at that instant by the token
  -- returned: when the limit is not zero and below 2 ^ 63, the lifetime is not zero and ends before the
  -- year 10000, the identifiers and the token hashes of the table are unique, all its rows were last
  -- active before, and the JSON that is written is read back as it was.
  pub create-read_by_token :
      (round_trip : (v : serde.Value) (text : Text)
        → serde.to_string v ≡ done text
        → serde.from_str text ≡ done v)
      (info : ClientInfo) (user_id : Text) (json : Option serde.Value) (id : Text)
      (generated : SessionToken) (now : ℕ) (t t' : Table) (s : SessionData serde.Value)
      (g : SessionToken)
      → 0 < config.max_sessions_per_user
      → config.max_sessions_per_user < 2 ^ 63
      → 0 < config.session_ttl_secs
      → now + seconds config.session_ttl_secs < seconds 253402300800
      → IsWellFormed t
      → All (λ r. last_active r < now) t
      → ◌≡◌ {A = Created violation serde config digest}
          (create violation serde config digest info user_id json id generated now t)
          (ok (s, g), t')
      → read_by_token serde digest g now t' ≡ ok (some s)
  create-read_by_token round_trip info user_id json id generated now t t' s g some_allowed few lives
        early w earlier h =
      let (text, t₁, o, e, same, token_same, left) =
        create-eq-ok violation serde config digest info user_id json id generated now t t' s g h in
      let fresh = new_session serde config info user_id (unwrap_or_object serde json) id now in
      let found : read_by_token serde digest g now
            (evict_excess (session_limit config) user_id now t₁)
          ≡ ok (some fresh) =
        inserted-read fresh text g now t t₁ (round_trip _ text o) (allowed some_allowed few) refl
          (lasting now lives early) w earlier
          (subst (λ x. insert_row violation (row_of serde x text (hash digest g)) t ≡ ok t₁)
            (sym same) e) in
      ap (read_by_token serde digest g now) (sym left) ∙ found ∙ ap (λ x. ok (some x)) same

  -- A creation that succeeds, with a lifetime that is not zero and ends before the year 10000, leaves all rows but the user's active
  -- ones as they were, when the identifiers and the token hashes of the table are unique.
  pub create-others :
      (info : ClientInfo) (user_id : Text) (json : Option serde.Value) (id : Text)
      (generated : SessionToken) (now : ℕ) (t t' : Table) (s : SessionData serde.Value)
      (g : SessionToken)
      → 0 < config.session_ttl_secs
      → now + seconds config.session_ttl_secs < seconds 253402300800
      → IsWellFormed t
      → ◌≡◌ {A = Created violation serde config digest}
          (create violation serde config digest info user_id json id generated now t)
          (ok (s, g), t')
      → filter (λ r. not (is_live_of user_id now r)) t'
        ≡ filter (λ r. not (is_live_of user_id now r)) t
  create-others info user_id json id generated now t t' s g lives early w h =
      let (text, t₁, o, e, same, token_same, left) =
        create-eq-ok violation serde config digest info user_id json id generated now t t' s g h in
      let r = row_of serde s text (hash digest g) in
      let (whole, _, _) = insert_row-eq-ok violation r t t₁ e in
      let other : SessionRow → Bool = λ x. not (is_live_of user_id now x) in
      let fresh = new_session serde config info user_id (unwrap_or_object serde json) id now in
      let live : is_live_of user_id now (row_of serde fresh text (hash digest g)) ≡ true =
        let lasts = lasting now lives early in rw (==_refl user_id) (ground (arith, lasts)) in
      let out : other r ≡ false =
        subst (λ x. other (row_of serde x text (hash digest g)) ≡ false) same (ap not live) in
      ap (filter other) (sym left)
      ∙ evict_excess-others (session_limit config) user_id now t₁
          (insert_row-IsWellFormed violation r t t₁ e w)
      ∙ ap (filter other) whole
      ∙ filter-append other t (r ∷ [])
      ∙ rw out (append_nil (filter other t))
