-- ===== src/Auth/Session/Store/Rotation.antt =====
-- `rotate_token_to` and `rotate_token`: the old token is worth nothing, the new one is the session's.
use modo.Base.{
  ℕ, ◌≡◌, ◌≢◌, ◌<◌, refl, ap, sym, ◌∙◌, subst, true, false, not, Option, some, none, arith,
  Bool-cases, inl, inr, nat_eq, ◌==◌, ==_refl, ==_ne,
}
use modo.Base.Lists.{filter, list_eq}
use modo.Base.Text.{Text, codes}
use modo.Base.Rows.{update_rows, first_row}
use modo.Base.Rows.Keys.{
  IsIn, has_key, keys_unique, IsIn-update, IsIn-update_inv, first_row-IsIn, first_row-key,
  first_row-lost,
}
use modo.Base.Rows.Members.{any_no, keys_unique-eq, filter-update_other}
use modo.Base.Errors.{Result, ok, err, >>=-eq-ok_iff}
use modo.Encoding.Bytes.{Bytes}
use modo.Auth.Session.Token.{SessionToken, hash}
use modo.Auth.Session.Store.{
  Outcome, done, failed, Serde, SessionData, SessionRow, Table, row_id, has_id, is_live_hash,
  set_token, data_of, with_data, read_by_token, read_by_token_hash, row_to_session_data, transposed,
  rotate_token_to, rotate_token, issued,
}
use modo.Auth.Session.Store.WellFormed.{IsWellFormed}

module _ (serde : Serde) where
  data_of-eq-ok :
      {A : Type 0} (context : Text) (o : Outcome A) (v : A) → data_of context o ≡ ok v → o ≡ done v
  data_of-eq-ok context (done w) v h = cc
  data_of-eq-ok context (failed e) v h = cc

  -- What a row that reads as a session holds.
  pub row_to_session_data-eq-ok :
      (r : SessionRow) (s : SessionData serde.Value)
      → row_to_session_data serde r ≡ ok s
      → (serde.from_str r.columns.json_data ≡ done s.json_data)
        × (with_data r.columns s.json_data ≡ s)
  unfolding row_to_session_data
  row_to_session_data-eq-ok r s h =
      let (v, o, e) =
        (>>=-eq-ok_iff
            (data_of (codes "deserialize session data: ") (serde.from_str r.columns.json_data))
            (λ x. ok (with_data r.columns x)) s).0
          h in
      let read =
        data_of-eq-ok (codes "deserialize session data: ") (serde.from_str r.columns.json_data) v
          o in
      let same : with_data r.columns v ≡ s = cc in
      subst
        (λ x.
          (serde.from_str r.columns.json_data ≡ done x.json_data)
          × (with_data r.columns x.json_data ≡ x))
        same (read, refl)

  transposed-eq-ok :
      (o : Option SessionRow) (s : SessionData serde.Value)
      → transposed serde o ≡ ok (some s)
      → (r : SessionRow) × (o ≡ some r) × (row_to_session_data serde r ≡ ok s)
  transposed-eq-ok none s h = cc
  transposed-eq-ok (some r) s h =
      let (s', o, e) =
        (>>=-eq-ok_iff (row_to_session_data serde r) (λ x. ok (some x)) (some s)).0 h in
      let same : s' ≡ s = cc in (r, refl, o ∙ ap ok same)

  -- The row that a session is read from by its token's hash.
  pub read_by_token_hash-eq-ok :
      (digest_text : Text) (now : ℕ) (t : Table) (s : SessionData serde.Value)
      → read_by_token_hash serde digest_text now t ≡ ok (some s)
      → (r : SessionRow) × IsIn r t
        × (is_live_hash digest_text now r ≡ true)
        × (serde.from_str r.columns.json_data ≡ done s.json_data)
        × (with_data r.columns s.json_data ≡ s)
  unfolding read_by_token_hash
  read_by_token_hash-eq-ok digest_text now t s h =
      let (r, o, e) = transposed-eq-ok (first_row (is_live_hash digest_text now) t) s h in
      let (m, live) = first_row-IsIn (is_live_hash digest_text now) t r o in
      let (read, same) = row_to_session_data-eq-ok r s e in (r, m, live, read, same)

  -- A row with the hash, unexpired, is what the hash reads.
  pub read_by_token_hash-row :
      (digest_text : Text) (now : ℕ) (t : Table) (r : SessionRow)
      → keys_unique (λ x. x.token_hash) t ≡ true
      → IsIn r t
      → is_live_hash digest_text now r ≡ true
      → read_by_token_hash serde digest_text now t ≡ transposed serde (some r)
  unfolding read_by_token_hash
  read_by_token_hash-row digest_text now t r u m live = ap (transposed serde) (
      first_row-key (λ s. s.token_hash) (is_live_hash digest_text now) t r u m live
        (λ s other.
          let e : (s.token_hash == digest_text) ≡ true = ground arith in
          let d : (r.token_hash == digest_text) ≡ true = ground arith in
          let same : r.token_hash ≡ digest_text = (list_eq.equals_iff _ _).0 d in
          subst (λ x. (s.token_hash == x) ≡ true) (sym same) e))

  pub read_by_token_hash-lost :
      (digest_text : Text) (now : ℕ) (t : Table)
      → has_key (λ r. r.token_hash) digest_text t ≡ false
      → read_by_token_hash serde digest_text now t ≡ ok none
  unfolding read_by_token_hash
  read_by_token_hash-lost digest_text now t gone = ap (transposed serde) (
      first_row-lost (λ r. r.token_hash) (is_live_hash digest_text now) digest_text t gone
        (λ s h. ground arith))

  module _ (violation : Text) (digest : Bytes → Bytes) where
    -- The row with the new token.
    abbrev rotated : Text → ℕ → SessionRow → SessionRow
    rotated new_hash now r = record {
      token_hash = new_hash;
      columns = record r.columns { last_active_at = now };
    }

    set_token-eq-ok :
        (context id new_hash : Text) (now : ℕ) (t t' : Table)
        → ◌≡◌ {A = Result (Unit {0}) × Table}
            (set_token violation context id new_hash now t)
            (ok tt, t')
        → (update_rows (has_id id) (rotated new_hash now) t ≡ t')
          × (keys_unique (λ r. r.token_hash) t' ≡ true)
    set_token-eq-ok context id new_hash now t t' h =
        elim (Bool-cases
          (keys_unique (λ r. r.token_hash) (update_rows (has_id id) (rotated new_hash now) t))) [
            | inl kept ↦
                let e : ◌≡◌ {A = Result (Unit {0}) × Table}
                    (ok tt, update_rows (has_id id) (rotated new_hash now) t) (ok tt, t') =
                  rw kept at h in
                let same : update_rows (has_id id) (rotated new_hash now) t ≡ t' = cc in
                (same, subst (λ x. keys_unique (λ r. r.token_hash) x ≡ true) same kept)
            | inr broken ↦
                let e : ◌≡◌ {A = Result (Unit {0}) × Table} (err _, t) (ok tt, t') =
                  rw broken at h in
                cc
          ]

    -- Of the rows of the table, only the one rotated had the old hash.
    old-lost :
        (new_hash : Text) (now : ℕ) (t : Table) (r : SessionRow)
        → IsWellFormed t
        → IsIn r t
        → new_hash ≢ r.token_hash
        → has_key
            (λ x. x.token_hash)
            r.token_hash
            (update_rows (has_id (row_id r)) (rotated new_hash now) t)
          ≡ false
    old-lost new_hash now t r (i, u) m differs =
        any_no (λ x. x.token_hash == r.token_hash) _
          (λ y n.
            let (x, n', e) = IsIn-update_inv (has_id (row_id r)) (rotated new_hash now) t y n in
            elim (Bool-cases (has_id (row_id r) x)) [
              | inl hit ↦
                  let e' : rotated new_hash now x ≡ y = rw hit at e in
                  ap (λ z. z.token_hash == r.token_hash) (sym e')
                  ∙ ==_ne new_hash r.token_hash differs
              | inr miss ↦
                  let e' : x ≡ y = rw miss at e in
                  elim (Bool-cases (x.token_hash == r.token_hash)) [
                    | inl same ↦
                        let x_is : x ≡ r = keys_unique-eq (λ z. z.token_hash) t x r u n' m same in
                        let clash : has_id (row_id r) x ≡ true =
                          ap (has_id (row_id r)) x_is ∙ ==_refl (row_id r) in
                        absurd (ground arith)
                    | inr other ↦ ap (λ z. z.token_hash == r.token_hash) (sym e') ∙ other
                  ]
            ])

    rotated-lem :
        (context : Text) (now later : ℕ) (r : SessionRow) (v : serde.Value) (given : SessionToken)
        (t t' : Table)
        → IsWellFormed t
        → IsIn r t
        → serde.from_str r.columns.json_data ≡ done v
        → hash digest given ≢ r.token_hash
        → later < r.columns.expires_at
        → ◌≡◌ {A = Result (Unit {0}) × Table}
            (set_token violation context r.columns.id (hash digest given) now t)
            (ok tt, t')
        → (read_by_token_hash serde r.token_hash later t' ≡ ok none)
          × (read_by_token serde digest given later t'
              ≡ ok (some (record (with_data r.columns v) { last_active_at = now })))
          × (filter (λ x. not (has_id (row_id r) x)) t' ≡ filter (λ x. not (has_id (row_id r) x)) t)
    unfolding read_by_token row_to_session_data
    rotated-lem context now later r v given t t' w m read differs live h =
        let new_hash = hash digest given in
        let (whole, u') = set_token-eq-ok context (row_id r) new_hash now t t' h in
        let m' : IsIn (rotated new_hash now r) t' =
          subst (IsIn (rotated new_hash now r)) whole
            (IsIn-update (has_id (row_id r)) (rotated new_hash now) t r m (==_refl (row_id r))) in
        let lost =
          subst (λ x. has_key (λ y. y.token_hash) r.token_hash x ≡ false) whole
            (old-lost new_hash now t r w m differs) in
        let live' : is_live_hash new_hash later (rotated new_hash now r) ≡ true =
          rw (==_refl new_hash) (ground arith) in
        (
          read_by_token_hash-lost r.token_hash later t' lost,
          read_by_token_hash-row new_hash later t' (rotated new_hash now r) u' m' live'
              ∙ rw read refl,
          ap (filter (λ x. not (has_id (row_id r) x))) (sym whole)
              ∙ filter-update_other (has_id (row_id r)) (λ x. not (has_id (row_id r) x))
                  (rotated new_hash now) t (λ x e. (ap not e, ap not e)),
        )

    set_token_lem :
        (context old : Text) (earlier now later : ℕ) (s : SessionData serde.Value)
        (given : SessionToken) (t t' : Table)
        → IsWellFormed t
        → read_by_token_hash serde old earlier t ≡ ok (some s)
        → hash digest given ≢ old
        → later < s.expires_at
        → ◌≡◌ {A = Result (Unit {0}) × Table}
            (set_token violation context s.id (hash digest given) now t)
            (ok tt, t')
        → (read_by_token_hash serde old later t' ≡ ok none)
          × (read_by_token serde digest given later t'
              ≡ ok (some (record s { last_active_at = now })))
          × (filter (λ r. not (has_id s.id r)) t' ≡ filter (λ r. not (has_id s.id r)) t)
    set_token_lem context old earlier now later s given t t' w found differs live h =
        let (r, m, live_before, read, same) = read_by_token_hash-eq-ok old earlier t s found in
        let e : r.token_hash ≡ old = (list_eq.equals_iff _ _).0 (ground arith) in
        subst
          (λ x.
            later < x.expires_at
            → ◌≡◌ {A = Result (Unit {0}) × Table}
                (set_token violation context x.id (hash digest given) now t) (ok tt, t')
            → (read_by_token_hash serde old later t' ≡ ok none)
              × (read_by_token serde digest given later t'
                  ≡ ok (some (record x { last_active_at = now })))
              × (filter (λ y. not (has_id x.id y)) t' ≡ filter (λ y. not (has_id x.id y)) t))
          same
          (λ alive done_so.
            subst
              (λ z.
                (read_by_token_hash serde z later t' ≡ ok none)
                × (read_by_token serde digest given later t'
                    ≡ ok (some (record (with_data r.columns s.json_data) { last_active_at = now })))
                × (filter (λ y. not (has_id (row_id r) y)) t'
                    ≡ filter (λ y. not (has_id (row_id r) y)) t))
              e
              (rotated-lem context now later r s.json_data given t t' w m read
                (λ k. differs (k ∙ e)) alive done_so))
          live h

    -- The old hash finds nothing at any time, also after the session's expiry.
    pub rotate_token_to_lost :
        (old : Text) (earlier now later : ℕ) (s : SessionData serde.Value) (given : SessionToken)
        (t t' : Table)
        → IsWellFormed t
        → read_by_token_hash serde old earlier t ≡ ok (some s)
        → hash digest given ≢ old
        → ◌≡◌ {A = Result (Unit {0}) × Table}
            (rotate_token_to violation digest s.id given now t)
            (ok tt, t')
        → read_by_token_hash serde old later t' ≡ ok none
    unfolding keys_unique rotate_token_to
    rotate_token_to_lost old earlier now later s given t t' w found differs h =
        let (r, m, live, read, same) = read_by_token_hash-eq-ok old earlier t s found in
        let e : r.token_hash ≡ old = (list_eq.equals_iff _ _).0 (ground arith) in
        let new_hash = hash digest given in
        let (whole, _) = set_token-eq-ok (codes "rotate token to: ") s.id new_hash now t t' h in
        let lost = old-lost new_hash now t r w m (λ k. differs (k ∙ e)) in
        read_by_token_hash-lost old later t' (
          subst (λ x. has_key (λ y. y.token_hash) old x ≡ false) whole
            (subst
              (λ x.
                has_key (λ y. y.token_hash) old (update_rows (has_id x) (rotated new_hash now) t)
                ≡ false)
              (ap (λ x. x.id) same)
              (subst
                (λ x.
                  has_key (λ y. y.token_hash) x
                    (update_rows (has_id (row_id r)) (rotated new_hash now) t)
                  ≡ false)
                e lost)))

    -- A token rotated by `rotate_token_to`: when the session was read by the hash of its token, the new
    -- token has another hash and no two rows of the table share an identifier or a hash, the old hash
    -- finds no session at any time, the new token finds the same session with its last activity
    -- updated until it expires, and the rows of other sessions are unchanged.
    pub rotate_token_to_lem :
        (old : Text) (earlier now later any_time : ℕ) (s : SessionData serde.Value)
        (given : SessionToken) (t t' : Table)
        → IsWellFormed t
        → read_by_token_hash serde old earlier t ≡ ok (some s)
        → hash digest given ≢ old
        → later < s.expires_at
        → ◌≡◌ {A = Result (Unit {0}) × Table}
            (rotate_token_to violation digest s.id given now t)
            (ok tt, t')
        → (read_by_token_hash serde old any_time t' ≡ ok none)
          × (read_by_token serde digest given later t'
              ≡ ok (some (record s { last_active_at = now })))
          × (filter (λ r. not (has_id s.id r)) t' ≡ filter (λ r. not (has_id s.id r)) t)
    unfolding keys_unique rotate_token_to
    rotate_token_to_lem old earlier now later any_time s given t t' w found differs live h =
        let (_, renewed, others) =
          set_token_lem (codes "rotate token to: ") old earlier now later s given t t' w found
            differs live h in
        (
          rotate_token_to_lost old earlier now any_time s given t t' w found differs h,
          renewed,
          others,
        )

    issued-eq-ok :
        (new_token g : SessionToken) (o : Result (Unit {0}) × Table) (t' : Table)
        → ◌≡◌ {A = Result SessionToken × Table} (issued violation new_token o) (ok g, t')
        → ◌≡◌ {A = Result (Unit {0}) × Table} o (ok tt, t') × (new_token ≡ g)
    issued-eq-ok new_token g (ok tt, t) t' h = (cc, cc)
    issued-eq-ok new_token g (err e, t) t' h = cc

    -- The same of `rotate_token`, with the token that it generates and returns.
    pub rotate_token_lem :
        (old : Text) (earlier now later : ℕ) (s : SessionData serde.Value)
        (generated g : SessionToken) (t t' : Table)
        → IsWellFormed t
        → read_by_token_hash serde old earlier t ≡ ok (some s)
        → hash digest generated ≢ old
        → later < s.expires_at
        → ◌≡◌ {A = Result SessionToken × Table}
            (rotate_token violation digest s.id generated now t)
            (ok g, t')
        → (read_by_token_hash serde old later t' ≡ ok none)
          × (read_by_token serde digest generated later t'
              ≡ ok (some (record s { last_active_at = now })))
          × (filter (λ r. not (has_id s.id r)) t' ≡ filter (λ r. not (has_id s.id r)) t)
    unfolding rotate_token
    rotate_token_lem old earlier now later s generated g t t' w found differs live h =
        let (done_so, _) = issued-eq-ok generated g _ t' h in
        set_token_lem (codes "rotate token: ") old earlier now later s generated t t' w found
          differs live done_so
