-- ===== src/Auth/ApiKey/Store/Verified.antt =====
-- `verify`: which keys it accepts, and what a creation and a revocation mean for it.
use modo.Base.{
  ℕ, ◌≡◌, ◌≢◌, ◌↔◌, ◌⊎◌, refl, ap, sym, ◌∙◌, subst, true, false, [], ◌∷◌, ◌++◌, Option, none, some,
  arith, Bool-cases, Option-cases, inl, inr, nat_eq, ◌==◌, ==_refl,
}
use modo.Base.Dict.{is_some}
use modo.Base.Lists.{list_eq}
use modo.Base.Text.{Text}
use modo.Base.Rows.{first_row}
use modo.Base.Rows.Keys.{has_key, IsIn-update_inv, first_row-IsIn}
use modo.Base.Errors.{Error, Result, ok, err, >>=-eq-ok_iff}
use modo.Encoding.Bytes.{Bytes}
use modo.Auth.ApiKey.Token.{
  ParsedToken, parsed, nothing, panicked, format_token, parse_token, hash_secret,
}
use modo.Auth.ApiKey.TokenText.{AreParts, parse_token_iff}
use modo.Auth.ApiKey.Store.{
  CreateKeyRequest, ApiKeyCreated, ApiKeyMeta, ApiKeyRecord, ApiKeyRow, Reading, readable,
  unreadable, ScopesJson, with_scopes, from_row, into_meta, Table, ApiKeyConfig, record_id,
  insert_record, lookup, mark_revoked, verify_hash, returns, invalid_key, expires_at_passed,
  check_request, created, create_checked, create, unusable, decide, verify_parsed, verify,
  revoke_found, revoke,
}

module _ (parse_time : Text → Option ℕ) (json : ScopesJson) (digest : Bytes → Bytes) where
  Result-cases : {A : Type 0} (r : Result A) → ((a : A) × (r ≡ ok a)) ⊎ ((e : Error) × (r ≡ err e))
  Result-cases (ok a) = inl (a, refl)
  Result-cases (err e) = inr (e, refl)

  -- The row that a record is read from.
  lookup-eq-ok :
      (fault : Option Error) (id : Text) (t : Table) (r : ApiKeyRecord)
      → lookup json fault id t ≡ ok (some r)
      → (x : ApiKeyRow) × (first_row (λ y. y.id == id) t ≡ some x) × (x.revoked_at ≡ r.revoked_at)
  unfolding lookup
  lookup-eq-ok (some e) id t r h = cc
  lookup-eq-ok none id t r h = elim (Option-cases (first_row (λ y. y.id == id) t)) [
    | inl missing ↦ let e : ok none ≡ ok (some r) = rw missing at h in cc
    | inr (x, found) ↦
        let (r', read, same) =
          (>>=-eq-ok_iff (from_row json x) (λ y. ok (some y)) (some r)).0 (rw found at h) in
        let e : r' ≡ r = cc in
        (x, found, read_columns x (json.from_str x.scopes) r' read ∙ ap (λ y. y.revoked_at) e)
  ]
    where
      read_columns :
          (x : ApiKeyRow) (scopes : Reading) (r' : ApiKeyRecord)
          → with_scopes x scopes ≡ ok r'
          → x.revoked_at ≡ r'.revoked_at
      read_columns x (readable s) r' h =
          let e : record {
            id = x.id;
            key_hash = x.key_hash;
            tenant_id = x.tenant_id;
            name = x.name;
            scopes = s;
            expires_at = x.expires_at;
            last_used_at = x.last_used_at;
            created_at = x.created_at;
            revoked_at = x.revoked_at;
          }
              ≡ r' =
            cc in
          ap (λ y. y.revoked_at) e
      read_columns x (unreadable e) r' h = cc

  -- A record that a secret opens at an instant.
  pub record IsOpenedBy (secret : Text) (now : ℕ) (r : ApiKeyRecord) : Type 0 where
    pub unrevoked : r.revoked_at ≡ none
    pub unexpired : expires_at_passed parse_time json r.expires_at now ≡ false
    pub matching : hash_secret digest secret ≡ r.key_hash

  is_some-false : {A : Type 0} (o : Option A) → is_some o ≡ false → o ≡ none
  is_some-false none h = refl
  is_some-false (some a) h = cc

  decide_opened :
      (secret : Text) (now : ℕ) (r : ApiKeyRecord)
      → IsOpenedBy secret now r
      → decide parse_time json digest secret (some r) now ≡ returns (ok (into_meta r))
  decide_opened secret now r o =
      let fits : verify_hash digest secret r.key_hash ≡ true =
        (list_eq.equals_iff _ _).1 o.matching in
      rw (o.unrevoked, o.unexpired, fits) refl

  -- Either the record is opened, or the answer is the one refusal.
  decide-cases :
      (secret : Text) (now : ℕ) (found : Option ApiKeyRecord)
      → ((r : ApiKeyRecord) × (found ≡ some r) × IsOpenedBy secret now r)
        ⊎ (decide parse_time json digest secret found now ≡ returns (err invalid_key))
  decide-cases secret now none = inr refl
  decide-cases secret now (some r) = elim (Bool-cases (unusable parse_time json (some r) now)) [
    | inl shut ↦ inr (rw shut refl)
    | inr usable ↦ elim (Bool-cases (verify_hash digest secret r.key_hash)) [
      | inl fits ↦ inl (
        r,
        refl,
        record {
          unrevoked = is_some-false r.revoked_at (ground arith);
          unexpired = ground arith;
          matching = (list_eq.equals_iff _ _).0 fits;
        },
      )
      | inr other ↦ inr (rw (usable, other) refl)
    ]
  ]

  -- `verify` accepts a text, with a key's data, exactly when it is the text of an identifier and a
  -- secret with the configured prefix whose record is not revoked and not expired, has the secret's
  -- hash, and has that data.
  pub verify_iff :
      (config : ApiKeyConfig) (fault : Option Error) (raw_token : Text) (now : ℕ) (t : Table)
      (meta : ApiKeyMeta)
      → (verify parse_time json digest config fault raw_token now t ≡ returns (ok meta)) ↔ (
          (id secret : Text) × (r : ApiKeyRecord) × (raw_token
            ≡ format_token config.prefix id secret)
          × AreParts config.prefix id secret
          × (lookup json fault id t ≡ ok (some r))
          × IsOpenedBy secret now r
          × (into_meta r ≡ meta))
  unfolding verify
  verify_iff config fault raw_token now t meta = (
    λ h. parsed_of (parse_token raw_token config.prefix) refl h,
    λ (id, secret, r, e, parts, found, opened, same).
        rw
          (
            (parse_token_iff raw_token config.prefix id secret).1 (e, parts),
            found,
            decide_opened secret now r opened,
            same,
          )
          refl,
  )
    where
      parsed_of :
          (p : ParsedToken)
          → parse_token raw_token config.prefix ≡ p
          → verify_parsed parse_time json digest fault p now t ≡ returns (ok meta)
          → (id secret : Text) × (r : ApiKeyRecord) × (raw_token
              ≡ format_token config.prefix id secret)
            × AreParts config.prefix id secret
            × (lookup json fault id t ≡ ok (some r))
            × IsOpenedBy secret now r
            × (into_meta r ≡ meta)
      parsed_of (parsed id secret) e h = elim (Result-cases (lookup json fault id t)) [
        | inr (f, failed) ↦ let clash : returns (err f) ≡ returns (ok meta) = rw failed at h in cc
        | inl (found, read) ↦
            let g : decide parse_time json digest secret found now ≡ returns (ok meta) =
              rw read at h in
            elim (decide-cases secret now found) [
              | inl (r, is_r, opened) ↦
                  let (is_text, parts) = (parse_token_iff raw_token config.prefix id secret).0 e in
                  let d =
                    sym (decide_opened secret now r opened)
                    ∙ ap (λ o. decide parse_time json digest secret o now) (sym is_r)
                    ∙ g in
                  (id, secret, r, is_text, parts, read ∙ ap ok is_r, opened, cc)
              | inr refused ↦ let clash = sym refused ∙ g in cc
            ]
      ]
      parsed_of nothing e h = cc
      parsed_of panicked e h = cc

  -- Every text that `verify` does not accept it refuses with one and the same error, whether the key is
  -- malformed, unknown, revoked, expired or has another secret, unless the lookup of the identifier in
  -- the text fails, whose error is passed on, or cutting the text would split a character.
  pub verify-cases :
      (config : ApiKeyConfig) (fault : Option Error) (raw_token : Text) (now : ℕ) (t : Table)
      → parse_token raw_token config.prefix ≢ panicked
      → ((meta : ApiKeyMeta) × (verify parse_time json digest config fault raw_token now t
            ≡ returns (ok meta)))
        ⊎ (verify parse_time json digest config fault raw_token now t ≡ returns (err invalid_key))
        ⊎ ((id secret : Text) × (e : Error) × (parse_token raw_token config.prefix
              ≡ parsed id secret)
            × (lookup json fault id t ≡ err e)
            × (verify parse_time json digest config fault raw_token now t ≡ returns (err e)))
  unfolding verify
  verify-cases config fault raw_token now t whole =
      outcome (parse_token raw_token config.prefix) refl whole
    where
      outcome :
          (p : ParsedToken)
          → parse_token raw_token config.prefix ≡ p
          → p ≢ panicked
          → ((meta : ApiKeyMeta) × (verify_parsed parse_time json digest fault p now t
                ≡ returns (ok meta)))
            ⊎ (verify_parsed parse_time json digest fault p now t ≡ returns (err invalid_key))
            ⊎ ((id secret : Text) × (e : Error) × (parse_token raw_token config.prefix
                  ≡ parsed id secret)
                × (lookup json fault id t ≡ err e)
                × (verify_parsed parse_time json digest fault p now t ≡ returns (err e)))
      outcome (parsed id secret) is n = elim (Result-cases (lookup json fault id t)) [
        | inr (e, failed) ↦ inr (inr (id, secret, e, is, failed, rw failed refl))
        | inl (found, read) ↦ elim (decide-cases secret now found) [
          | inl (r, is_r, opened) ↦
              inl (into_meta r, rw (read, is_r) (decide_opened secret now r opened))
          | inr refused ↦ inr (inl (rw read refused))
        ]
      ]
      outcome nothing is n = inr (inl refl)
      outcome panicked is n = absurd (n refl)

  created-eq-ok :
      (violation : Error) (c c' : ApiKeyCreated) (r : ApiKeyRow) (t t' : Table)
      → ◌≡◌ {A = Result ApiKeyCreated × Table}
          (created parse_time json c (insert_record violation r t))
          (ok c', t')
      → (has_key record_id r.id t ≡ false) × (c ≡ c') × (t ++ r ∷ [] ≡ t')
  created-eq-ok violation c c' r t t' h = elim (Bool-cases (has_key record_id r.id t)) [
    | inl clash ↦
        let e : ◌≡◌ {A = Result ApiKeyCreated × Table} (err violation, t) (ok c', t') =
          rw clash at h in
        cc
    | inr free ↦
        let e : ◌≡◌ {A = Result ApiKeyCreated × Table} (ok c, t ++ r ∷ []) (ok c', t') =
          rw free at h in
        (free, cc, cc)
  ]

  first_row-append :
      (id : Text) (t : Table) (r : ApiKeyRow)
      → has_key record_id id t ≡ false
      → (r.id == id) ≡ true
      → first_row (λ x. x.id == id) (t ++ r ∷ []) ≡ some r
  unfolding first_row
  first_row-append id [] r n e = rw e refl
  first_row-append id (s ∷ t) r n e = ground (arith, first_row-append id t r)

  -- A key that `create` returns is accepted by `verify`, with the data asked for, as long as it has not
  -- expired, when the prefix, the identifier and the secret generated are parts of a key, the JSON of the
  -- scopes is read back as they were, and the lookup does not fail.
  pub create-verify :
      (violation : Error) (config : ApiKeyConfig) (req : CreateKeyRequest)
      (id secret now_text : Text) (now : ℕ) (t t' : Table) (c : ApiKeyCreated)
      → AreParts config.prefix id secret
      → json.from_str (json.to_string req.scopes) ≡ readable req.scopes
      → expires_at_passed parse_time json req.expires_at now ≡ false
      → ◌≡◌ {A = Result ApiKeyCreated × Table}
          (create parse_time json violation digest config req id secret now_text t)
          (ok c, t')
      → verify parse_time json digest config none c.raw_token now t'
        ≡ returns (
            ok (record {
              id = id;
              tenant_id = req.tenant_id;
              name = req.name;
              scopes = req.scopes;
              expires_at = req.expires_at;
              last_used_at = none;
              created_at = now_text;
            }))
  unfolding create lookup
  create-verify violation config req id secret now_text now t t' c parts round_trip unexpired h =
      checked (check_request parse_time json req) h
    where
      checked :
          (check : Result (Unit {0}))
          → ◌≡◌ {A = Result ApiKeyCreated × Table}
              (create_checked parse_time json violation digest config req id secret now_text check
                t)
              (ok c, t')
          → verify parse_time json digest config none c.raw_token now t'
            ≡ returns (
                ok (record {
                  id = id;
                  tenant_id = req.tenant_id;
                  name = req.name;
                  scopes = req.scopes;
                  expires_at = req.expires_at;
                  last_used_at = none;
                  created_at = now_text;
                }))
      checked (err e) g = cc
      checked (ok tt) g =
          let r : ApiKeyRecord = record {
            id = id;
            key_hash = hash_secret digest secret;
            tenant_id = req.tenant_id;
            name = req.name;
            scopes = req.scopes;
            expires_at = req.expires_at;
            last_used_at = none;
            created_at = now_text;
            revoked_at = none;
          } in
          let x : ApiKeyRow = record {
            id = id;
            key_hash = hash_secret digest secret;
            tenant_id = req.tenant_id;
            name = req.name;
            scopes = json.to_string req.scopes;
            expires_at = req.expires_at;
            last_used_at = none;
            created_at = now_text;
            revoked_at = none;
          } in
          let (free, same, whole) = created-eq-ok violation _ c x t t' g in
          let found : first_row (λ y. y.id == id) t' ≡ some x =
            ap (first_row (λ y. y.id == id)) (sym whole)
            ∙ first_row-append id t x free (==_refl id) in
          (verify_iff config none c.raw_token now t' (into_meta r)).1 (
            id,
            secret,
            r,
            ap (λ x. x.raw_token) (sym same),
            parts,
            rw (found, round_trip) refl,
            record { unrevoked = refl; unexpired = unexpired; matching = refl },
            refl,
          )

  revoke_found-eq-ok :
      (o : Result (Option ApiKeyRecord)) (write_fault : Option Error) (id now_text : Text)
      (t t' : Table)
      → ◌≡◌ {A = Result (Unit {0}) × Table}
          (revoke_found parse_time json o write_fault id now_text t)
          (ok tt, t')
      → mark_revoked id now_text t ≡ t'
  revoke_found-eq-ok (err e) write_fault id now_text t t' h = cc
  revoke_found-eq-ok (ok none) write_fault id now_text t t' h = cc
  revoke_found-eq-ok (ok (some r)) (some e) id now_text t t' h = cc
  revoke_found-eq-ok (ok (some r)) none id now_text t t' h = cc

  -- No row of the identifier is left unrevoked.
  revoked-shut :
      (id now_text : Text) (t : Table) (r : ApiKeyRow)
      → first_row (λ x. x.id == id) (mark_revoked id now_text t) ≡ some r
      → r.revoked_at ≢ none
  unfolding mark_revoked
  revoked-shut id now_text t r found free =
      let (m, hit) = first_row-IsIn (λ x. x.id == id) (mark_revoked id now_text t) r found in
      let (s, n, e) =
        IsIn-update_inv (λ x. x.id == id) (λ x. record x { revoked_at = some now_text }) t r m in
      elim (Bool-cases (s.id == id)) [
        | inl own ↦
            let e' : record s { revoked_at = some now_text } ≡ r = rw own at e in
            let d : some now_text ≡ r.revoked_at = ap (λ x. x.revoked_at) e' in cc
        | inr other ↦
            let e' : s ≡ r = rw other at e in
            let d : (s.id == id) ≡ (r.id == id) = ap (λ x. x.id == id) e' in cc
      ]

  -- After a revocation that succeeds, `verify` accepts no key of the identifier revoked, with any secret
  -- and at any time.
  pub revoke-verify :
      (config : ApiKeyConfig) (fault write_fault later_fault : Option Error)
      (id secret now_text : Text) (later : ℕ) (t t' : Table) (meta : ApiKeyMeta)
      → AreParts config.prefix id secret
      → ◌≡◌ {A = Result (Unit {0}) × Table}
          (revoke parse_time json fault write_fault id now_text t)
          (ok tt, t')
      → verify parse_time json digest config later_fault
          (format_token config.prefix id secret)
          later
          t'
        ≢ returns (ok meta)
  unfolding revoke lookup mark_revoked
  revoke-verify config fault write_fault later_fault id secret now_text later t t' meta parts h
        accepts =
      let (id', secret', r, e, parts', found, opened, _) =
        (verify_iff config later_fault (format_token config.prefix id secret) later t' meta).0
          accepts in
      let both : parsed id secret ≡ parsed id' secret' =
        sym (
          (parse_token_iff (format_token config.prefix id secret) config.prefix id secret).1
            (refl, parts))
        ∙ (parse_token_iff (format_token config.prefix id secret) config.prefix id' secret').1
            (e, parts') in
      let same : id' ≡ id = cc in
      let (x, first, columns) =
        lookup-eq-ok later_fault id t' r
          (subst (λ y. lookup json later_fault y t' ≡ ok (some r)) same found) in
      let found' : first_row (λ y. y.id == id) (mark_revoked id now_text t) ≡ some x =
        ap (first_row (λ y. y.id == id))
          (revoke_found-eq-ok (lookup json fault id t) write_fault id now_text t t' h)
        ∙ first in
      revoked-shut id now_text t x found' (columns ∙ opened.unrevoked)
