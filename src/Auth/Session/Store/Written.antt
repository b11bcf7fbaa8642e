-- ===== src/Auth/Session/Store/Written.antt =====
-- `flush` and `touch`: what the next read of the session's token finds.
use modo.Base.{ℕ, ◌≡◌, ◌<◌, refl, ap, sym, ◌∙◌, subst, true, some, arith, nat_eq, ◌==◌, ==_refl}
use modo.Base.Lists.{list_eq}
use modo.Base.Text.{Text, codes}
use modo.Base.Rows.{update_rows}
use modo.Base.Rows.Keys.{IsIn, IsIn-update}
use modo.Base.Errors.{Result, ok}
use modo.Auth.Session.Store.{
  Outcome, done, failed, Serde, SessionData, SessionRow, Table, row_id, has_id, is_live_hash,
  data_of, transposed, read_by_token_hash, row_to_session_data, flush, flushed, flush_text, touch,
}
use modo.Auth.Session.Store.WellFormed.{IsWellFormed, update-IsWellFormed}
use modo.Auth.Session.Store.Rotation.{read_by_token_hash-eq-ok, read_by_token_hash-row}

module _ (serde : Serde) where
  -- A change of the row of a session that keeps the row's hash and identifier.
  changed-read :
      (change : SessionRow → SessionRow)
      → ((x : SessionRow) → row_id (change x) ≡ row_id x)
      → ((x : SessionRow) → (change x).token_hash ≡ x.token_hash)
      → (digest_text : Text) (later : ℕ) (t : Table) (r : SessionRow) → IsWellFormed t
      → IsIn r t
      → (r.token_hash == digest_text) ≡ true
      → later < (change r).columns.expires_at
      → read_by_token_hash serde digest_text later (update_rows (has_id (row_id r)) change t)
        ≡ transposed serde (some (change r))
  changed-read change k l digest_text later t r w m same live =
      let (_, u) = update-IsWellFormed (has_id (row_id r)) change t k l w in
      let alive : is_live_hash digest_text later (change r) ≡ true =
        rw (l r, same) (ground arith) in
      read_by_token_hash-row serde digest_text later _ (change r) u
        (IsIn-update (has_id (row_id r)) change t r m (==_refl (row_id r))) alive

  -- After `touch` of a session that its token's hash found, the hash finds it until the new expiry with
  -- the new times and everything else unchanged, when no two rows share an identifier or a hash.
  pub touch-read_by_token_hash :
      (digest_text : Text) (earlier now expires_at later : ℕ) (t : Table)
      (s : SessionData serde.Value)
      → IsWellFormed t
      → read_by_token_hash serde digest_text earlier t ≡ ok (some s)
      → later < expires_at
      → read_by_token_hash serde digest_text later (touch s.id now expires_at t)
        ≡ ok (some (record s { last_active_at = now; expires_at = expires_at }))
  unfolding touch row_to_session_data
  touch-read_by_token_hash digest_text earlier now expires_at later t s w found live =
      let (r, m, before, read, same) =
        read_by_token_hash-eq-ok serde digest_text earlier t s found in
      subst
        (λ x.
          read_by_token_hash serde digest_text later (touch x.id now expires_at t)
          ≡ ok (some (record x { last_active_at = now; expires_at = expires_at })))
        same
        (changed-read _ (λ x. refl) (λ x. refl) digest_text later t r w m (ground arith) live
          ∙ rw read refl)

  flushed-eq-ok :
      (id : Text) (o : Outcome Text) (now expires_at : ℕ) (t t' : Table)
      → ◌≡◌ {A = Result (Unit {0}) × Table}
          (flushed serde id (data_of (codes "serialize session data: ") o) now expires_at t)
          (ok tt, t')
      → (text : Text) × (o ≡ done text) × (flush_text id text now expires_at t ≡ t')
  flushed-eq-ok id (done text) now expires_at t t' h = (text, refl, cc)
  flushed-eq-ok id (failed e) now expires_at t t' h = cc

  -- After a `flush` that succeeds, of a session that its token's hash found, the hash finds it until the
  -- new expiry with the data and the times flushed and everything else unchanged, when no two rows share
  -- an identifier or a hash and the JSON that is written is read back as it was.
  pub flush-read_by_token_hash :
      (round_trip : (v : serde.Value) (text : Text)
        → serde.to_string v ≡ done text
        → serde.from_str text ≡ done v)
      (digest_text : Text) (earlier now expires_at later : ℕ) (t t' : Table)
      (s : SessionData serde.Value) (v : serde.Value)
      → IsWellFormed t
      → read_by_token_hash serde digest_text earlier t ≡ ok (some s)
      → later < expires_at
      → ◌≡◌ {A = Result (Unit {0}) × Table} (flush serde s.id v now expires_at t) (ok tt, t')
      → read_by_token_hash serde digest_text later t'
        ≡ ok (some (record s { json_data = v; last_active_at = now; expires_at = expires_at }))
  unfolding flush flush_text row_to_session_data
  flush-read_by_token_hash round_trip digest_text earlier now expires_at later t t' s v w found live
        h =
      let (r, m, before, read, same) =
        read_by_token_hash-eq-ok serde digest_text earlier t s found in
      let (text, o, e) = flushed-eq-ok s.id (serde.to_string v) now expires_at t t' h in
      ap (read_by_token_hash serde digest_text later) (sym e)
      ∙ subst
          (λ x.
            read_by_token_hash serde digest_text later (flush_text x.id text now expires_at t)
            ≡ ok (some (record x { json_data = v; last_active_at = now; expires_at = expires_at })))
          same
          (changed-read _ (λ x. refl) (λ x. refl) digest_text later t r w m (ground arith) live
            ∙ rw (round_trip v text o) refl)
