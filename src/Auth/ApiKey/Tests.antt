-- ===== src/Auth/ApiKey/Tests.antt =====
-- The theorems at work on one key.
use modo.Base.{
  ℕ, ◌≡◌, ◌≢◌, ◌↔◌, ◌⊎◌, refl, sym, ◌∙◌, arith, [], ◌∷◌, Option, some, none, if◌then◌else◌, nat_eq,
  ◌==◌,
}
use modo.Base.Lists.{list_eq}
use modo.Base.Errors.{Error, Result, ok, err, internal}
use modo.Encoding.Bytes.{Bytes}
use modo.Base.Text.{Text, codes}
use modo.Auth.ApiKey.Token.{parse_token, parsed, panicked, format_token, hash_secret}
use modo.Auth.ApiKey.Store.{
  CreateKeyRequest, ApiKeyCreated, ApiKeyMeta, ApiKeyRecord, ApiKeyRow, ScopesJson, readable,
  unreadable, into_meta, Table, ApiKeyConfig, lookup, returns, invalid_key, create, verify, revoke,
}
use modo.Auth.ApiKey.Store.Verified.{
  IsOpenedBy, verify_iff, verify-cases, create-verify, revoke-verify,
}
use modo.Auth.ApiKey.TokenText.{AreParts, parse_token_iff}

abbrev id : Text
id = codes "01JQXK5M3N8R4T6V2W9Y0ZABCD"

abbrev config : ApiKeyConfig
config = record { prefix = codes "modo"; secret_length = 16; touch_threshold_secs = 60 }

abbrev req : CreateKeyRequest
req = record {
  tenant_id = codes "acme";
  name = codes "ci";
  scopes = codes "read" ∷ [];
  expires_at = none;
}

abbrev same : Bytes → Bytes
same bytes = bytes

abbrev no_time : Text → Option ℕ
no_time s = none

abbrev full : Error
full = internal (codes "UNIQUE")

parts : AreParts (codes "modo") id (codes "secret")
parts = record { plain_prefix = refl; id_size = refl; secret_size = omega arith; boundary = refl }

-- One list of scopes and its text.
abbrev json : ScopesJson
json = record {
  to_string = λ scopes. codes "[\"read\"]";
  from_str = λ s.
      if s == codes "[\"read\"]" then readable (codes "read" ∷ []) else unreadable (codes "EOF");
}

abbrev key_record : ApiKeyRecord
key_record = record {
  id = id;
  key_hash = hash_secret same (codes "secret");
  tenant_id = codes "acme";
  name = codes "ci";
  scopes = codes "read" ∷ [];
  expires_at = none;
  last_used_at = none;
  created_at = codes "2026";
  revoked_at = none;
}

abbrev row : ApiKeyRow
row = record {
  id = id;
  key_hash = hash_secret same (codes "secret");
  tenant_id = codes "acme";
  name = codes "ci";
  scopes = codes "[\"read\"]";
  expires_at = none;
  last_used_at = none;
  created_at = codes "2026";
  revoked_at = none;
}

abbrev key : ApiKeyCreated
key = record {
  id = id;
  raw_token = format_token (codes "modo") id (codes "secret");
  name = codes "ci";
  scopes = codes "read" ∷ [];
  tenant_id = codes "acme";
  expires_at = none;
  created_at = codes "2026";
}

creates :
    ◌≡◌ {A = Result ApiKeyCreated × Table}
      (create no_time json full same config req id (codes "secret") (codes "2026") [])
      (ok key, row ∷ [])
unfolding create
creates = refl

create-verify_example :
    verify no_time json same config none key.raw_token 7 (row ∷ [])
    ≡ returns (ok (into_meta key_record))
create-verify_example =
    create-verify no_time json same full config req id (codes "secret") (codes "2026") 7 []
      (row ∷ []) key parts refl refl creates

verify_iff_example :
    (verify no_time json same config none key.raw_token 7 (row ∷ [])
      ≡ returns (ok (into_meta key_record)))
    ↔ ((i secret : Text) × (r : ApiKeyRecord) × (key.raw_token
          ≡ format_token (codes "modo") i secret)
        × AreParts (codes "modo") i secret
        × (lookup json none i (row ∷ []) ≡ ok (some r))
        × IsOpenedBy no_time json same secret 7 r
        × (into_meta r ≡ into_meta key_record))
verify_iff_example =
    verify_iff no_time json same config none key.raw_token 7 (row ∷ []) (into_meta key_record)

-- The driver fails.
not_panicked : parse_token key.raw_token (codes "modo") ≢ panicked
not_panicked e =
    let is_key : parse_token key.raw_token (codes "modo") ≡ parsed id (codes "secret") =
      (parse_token_iff key.raw_token (codes "modo") id (codes "secret")).1 (refl, parts) in
    let clash : parsed id (codes "secret") ≡ panicked = sym is_key ∙ e in cc

verify-cases_example :
    ((meta : ApiKeyMeta) × (verify no_time json same config (some full) key.raw_token 7 (row ∷ [])
        ≡ returns (ok meta)))
    ⊎ (verify no_time json same config (some full) key.raw_token 7 (row ∷ [])
        ≡ returns (err invalid_key))
    ⊎ ((i secret : Text) × (e : Error) × (parse_token key.raw_token (codes "modo")
          ≡ parsed i secret)
        × (lookup json (some full) i (row ∷ []) ≡ err e)
        × (verify no_time json same config (some full) key.raw_token 7 (row ∷ [])
            ≡ returns (err e)))
verify-cases_example =
    verify-cases no_time json same config (some full) key.raw_token 7 (row ∷ []) not_panicked

revokes :
    ◌≡◌ {A = Result (Unit {0}) × Table}
      (revoke no_time json none none id (codes "2027") (row ∷ []))
      (ok tt, record row { revoked_at = some (codes "2027") } ∷ [])
unfolding revoke
revokes = refl

revoke-verify_example :
    verify no_time json same config none
      (format_token (codes "modo") id (codes "secret"))
      9
      (record row { revoked_at = some (codes "2027") } ∷ [])
    ≢ returns (ok (into_meta key_record))
revoke-verify_example =
    revoke-verify no_time json same config none none none id (codes "secret") (codes "2027") 9
      (row ∷ []) (record row { revoked_at = some (codes "2027") } ∷ []) (into_meta key_record) parts
      revokes
