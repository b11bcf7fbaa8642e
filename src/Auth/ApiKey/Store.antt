-- ===== src/Auth/ApiKey/Store.antt =====
-- auth/apikey/types.rs, config.rs, sqlite.rs and store.rs: the table `api_keys` (its columns stand in
-- auth/apikey/README.md) and the store's operations. A time is kept as its text, which `parse_time`
-- reads as nanoseconds. The identifier, the secret, the clock, the digest, the JSON of the scopes and the
-- driver's errors are arguments. A text is its UTF-8 bytes.
pub mod Verified
use modo.Base.{
  ℕ, ◌-◌, ◌/◌, Bool, true, false, not, ◌&&◌, ◌||◌, List, [], ◌∷◌, ◌++◌, Option, none, some,
  if◌then◌else◌, leb, ltb, ◌=ℕ◌, nat_eq, ◌==◌, map,
}
use modo.Base.Dict.{is_some}
use modo.Base.Lists.{all, filter, length, list_eq}
use modo.Base.Text.{Text, codes, is_empty, is_ascii_alphanumeric, strip_prefix}
use modo.Base.Rows.{update_rows, first_row, sort_rows}
use modo.Base.Rows.Keys.{has_key}
use modo.Base.Errors.{
  Error, Result, ok, err, bad_request, not_found, unauthorized, internal, ◌>>=◌, ◌>>◌,
}
use modo.Encoding.Bytes.{Bytes}
use modo.Http.{HeaderValue, visible, opaque, Parts, header}
use modo.Auth.ApiKey.Token.{
  ParsedToken, parsed, nothing, panicked, format_token, parse_token, hash_secret,
}

pub record CreateKeyRequest : Type 0 where
  pub tenant_id : Text
  pub name : Text
  pub scopes : List Text
  pub expires_at : Option Text

pub record ApiKeyCreated : Type 0 where
  pub id : Text
  pub raw_token : Text
  pub name : Text
  pub scopes : List Text
  pub tenant_id : Text
  pub expires_at : Option Text
  pub created_at : Text

pub record ApiKeyMeta : Type 0 where
  pub id : Text
  pub tenant_id : Text
  pub name : Text
  pub scopes : List Text
  pub expires_at : Option Text
  pub last_used_at : Option Text
  pub created_at : Text

-- The columns of a key: a row has the scopes as JSON, a record as a list.
pub record KeyColumns (Scopes : Type 0) : Type 0 where
  pub id : Text
  pub key_hash : Text
  pub tenant_id : Text
  pub name : Text
  pub scopes : Scopes
  pub expires_at : Option Text
  pub last_used_at : Option Text
  pub created_at : Text
  pub revoked_at : Option Text

abbrev pub ApiKeyRecord : Type 0
ApiKeyRecord = KeyColumns (List Text)

abbrev pub ApiKeyRow : Type 0
ApiKeyRow = KeyColumns Text

-- What `serde_json` reads, or the text of its error.
pub data Reading : Type 0 where
  readable : List Text → Reading
  unreadable : Text → Reading

-- `serde_json` on a list of texts, which it always writes.
pub record ScopesJson : Type 0 where
  pub to_string : List Text → Text
  pub from_str : Text → Reading

abbrev pub into_meta : ApiKeyRecord → ApiKeyMeta
into_meta r = record {
  id = r.id;
  tenant_id = r.tenant_id;
  name = r.name;
  scopes = r.scopes;
  expires_at = r.expires_at;
  last_used_at = r.last_used_at;
  created_at = r.created_at;
}

abbrev pub Table : Type 0
Table = List ApiKeyRow

pub record ApiKeyConfig : Type 0 where
  pub prefix : Text
  pub secret_length : ℕ
  pub touch_threshold_secs : ℕ

-- `ApiKeyConfig::validate`
abbrev pub validate : ApiKeyConfig → Result (Unit {0})
validate c =
    if is_empty c.prefix || ltb 20 (length c.prefix)
    then err (bad_request (codes "apikey prefix must be 1-20 characters"))
    else if not (all is_ascii_alphanumeric c.prefix)
    then err (bad_request (codes "apikey prefix must contain only ASCII alphanumeric characters"))
    else if ltb c.secret_length 16
    then err (bad_request (codes "apikey secret_length must be at least 16"))
    else ok tt

-- The statements of `SqliteBackend`. A statement that reads gets what the driver fails with, if it does.
abbrev pub with_scopes : ApiKeyRow → Reading → Result ApiKeyRecord
with_scopes r (unreadable e) = err (internal (codes "deserialize api_keys.scopes: " ++ e))
with_scopes r (readable scopes) = ok (record {
  id = r.id;
  key_hash = r.key_hash;
  tenant_id = r.tenant_id;
  name = r.name;
  scopes = scopes;
  expires_at = r.expires_at;
  last_used_at = r.last_used_at;
  created_at = r.created_at;
  revoked_at = r.revoked_at;
})

abbrev pub from_row : ScopesJson → ApiKeyRow → Result ApiKeyRecord
from_row json r = with_scopes r (json.from_str r.scopes)

abbrev pub from_optional : ScopesJson → Option ApiKeyRow → Result (Option ApiKeyRecord)
from_optional json none = ok none
from_optional json (some r) = from_row json r >>= λ found. ok (some found)

abbrev pub from_all : ScopesJson → Table → Result (List ApiKeyRecord)
from_all json [] = ok []
from_all json (r ∷ t) = from_row json r >>= λ found. from_all json t >>= λ rest. ok (found ∷ rest)

abbrev pub unless_failed : {A : Type 0} → Option Error → Result A → Result A
unless_failed (some e) r = err e
unless_failed none r = r

-- A statement that writes, from a table to the next: it leaves the table when the driver fails.
abbrev pub written : Option Error → Table → Table → Result (Unit {0}) × Table
written (some e) t t' = (err e, t)
written none t t' = (ok tt, t')

abbrev pub record_id : ApiKeyRow → Text
record_id r = r.id

abbrev pub insert_record : Error → ApiKeyRow → Table → Result (Unit {0}) × Table
insert_record violation r t =
    if has_key record_id r.id t then (err violation, t) else (ok tt, t ++ r ∷ [])

unfoldable pub lookup : ScopesJson → Option Error → Text → Table → Result (Option ApiKeyRecord)
unfolding first_row
lookup json fault id t = unless_failed fault (from_optional json (first_row (λ r. r.id == id) t))

unfoldable pub mark_revoked : Text → Text → Table → Table
unfolding update_rows
mark_revoked id revoked_at t =
    update_rows (λ r. r.id == id) (λ r. record r { revoked_at = some revoked_at }) t

unfoldable pub update_last_used : Text → Text → Table → Table
unfolding update_rows
update_last_used id timestamp t =
    update_rows (λ r. r.id == id) (λ r. record r { last_used_at = some timestamp }) t

unfoldable pub update_expires_at : Text → Option Text → Table → Table
unfolding update_rows
update_expires_at id expires_at t =
    update_rows (λ r. r.id == id) (λ r. record r { expires_at = expires_at }) t

-- SQL's order of texts, byte by byte.
abbrev pub text_leb : Text → Text → Bool
text_leb [] y = true
text_leb (a ∷ x) [] = false
text_leb (a ∷ x) (b ∷ y) = ltb a b || (a =ℕ b && text_leb x y)

unfoldable pub list_records : ScopesJson → Option Error → Text → Table → Result (List ApiKeyRecord)
unfolding sort_rows
list_records json fault tenant_id t = unless_failed fault (
    from_all json (
      sort_rows (λ r s. text_leb s.created_at r.created_at)
        (filter (λ r. r.tenant_id == tenant_id && not (is_some r.revoked_at)) t)))

abbrev pub verify_hash : (Bytes → Bytes) → Text → Text → Bool
verify_hash digest secret stored_hash = hash_secret digest secret == stored_hash

-- A call that returns, or panics.
pub data Outcome : Type 0 where
  returns : Result ApiKeyMeta → Outcome
  panics : Outcome

abbrev pub dummy_hash : Text
dummy_hash = codes "0000000000000000000000000000000000000000000000000000000000000000"

abbrev pub invalid_key : Error
invalid_key = unauthorized (codes "invalid API key")

module _ (parse_time : Text → Option ℕ) (json : ScopesJson) where
  abbrev pub passed : Option ℕ → ℕ → Bool
  passed none now = true
  passed (some dt) now = leb dt now

  abbrev pub expires_at_passed : Option Text → ℕ → Bool
  expires_at_passed none now = false
  expires_at_passed (some s) now = passed (parse_time s) now

  abbrev pub check_time : Option Text → Result (Unit {0})
  check_time none = ok tt
  check_time (some s) =
      if is_some (parse_time s)
      then ok tt
      else err (bad_request (codes "expires_at must be a valid RFC 3339 timestamp"))

  abbrev pub check_request : CreateKeyRequest → Result (Unit {0})
  check_request req =
      if is_empty req.tenant_id
      then err (bad_request (codes "tenant_id is required"))
      else if is_empty req.name
      then err (bad_request (codes "name is required"))
      else check_time req.expires_at

  abbrev pub created : ApiKeyCreated → Result (Unit {0}) × Table → Result ApiKeyCreated × Table
  created c (ok _, t) = (ok c, t)
  created c (err e, t) = (err e, t)

  abbrev pub create_checked :
      Error
      → (Bytes → Bytes)
      → ApiKeyConfig
      → CreateKeyRequest
      → Text
      → Text
      → Text
      → Result (Unit {0})
      → Table
      → Result ApiKeyCreated × Table
  create_checked violation digest config req ulid secret now (err e) t = (err e, t)
  create_checked violation digest config req ulid secret now (ok _) t =
      created
        (record {
          id = ulid;
          raw_token = format_token config.prefix ulid secret;
          name = req.name;
          scopes = req.scopes;
          tenant_id = req.tenant_id;
          expires_at = req.expires_at;
          created_at = now;
        })
        (insert_record violation
          (record {
            id = ulid;
            key_hash = hash_secret digest secret;
            tenant_id = req.tenant_id;
            name = req.name;
            scopes = json.to_string req.scopes;
            expires_at = req.expires_at;
            last_used_at = none;
            created_at = now;
            revoked_at = none;
          })
          t)

  -- `now` is the text of `now_utc`.
  unfoldable pub create :
      Error
      → (Bytes → Bytes)
      → ApiKeyConfig
      → CreateKeyRequest
      → Text
      → Text
      → Text
      → Table
      → Result ApiKeyCreated × Table
  unfolding format_token hash_secret
  create violation digest config req ulid secret now t =
      create_checked violation digest config req ulid secret now (check_request req) t

  abbrev pub unusable : Option ApiKeyRecord → ℕ → Bool
  unusable none now = true
  unusable (some r) now = is_some r.revoked_at || expires_at_passed r.expires_at now

  abbrev pub hash_of : Option ApiKeyRecord → Text
  hash_of none = dummy_hash
  hash_of (some r) = r.key_hash

  -- `record.expect(…)`
  abbrev pub accepted : Option ApiKeyRecord → Outcome
  accepted none = panics
  accepted (some r) = returns (ok (into_meta r))

  abbrev pub decide : (Bytes → Bytes) → Text → Option ApiKeyRecord → ℕ → Outcome
  decide digest secret found now =
      if unusable found now || not (verify_hash digest secret (hash_of found))
      then returns (err invalid_key)
      else accepted found

  abbrev pub decide_read : (Bytes → Bytes) → Text → Result (Option ApiKeyRecord) → ℕ → Outcome
  decide_read digest secret (err e) now = returns (err e)
  decide_read digest secret (ok found) now = decide digest secret found now

  abbrev pub verify_parsed : (Bytes → Bytes) → Option Error → ParsedToken → ℕ → Table → Outcome
  verify_parsed digest fault (parsed id secret) now t =
      decide_read digest secret (lookup json fault id t) now
  verify_parsed digest fault nothing now t = decide digest [] none now
  verify_parsed digest fault panicked now t = panics

  -- The update of `last_used_at` is spawned: `is_due` and `update_last_used` are that.
  unfoldable pub verify : (Bytes → Bytes) → ApiKeyConfig → Option Error → Text → ℕ → Table → Outcome
  unfolding parse_token hash_secret lookup
  verify digest config fault raw_token now t =
      verify_parsed digest fault (parse_token raw_token config.prefix) now t

  -- Whole seconds, cut toward zero, against a threshold below 2 ^ 63.
  abbrev pub elapsed : Option ℕ → ℕ → ℕ → Bool
  elapsed none now threshold_secs = true
  elapsed (some last) now threshold_secs =
      if leb last now
      then leb threshold_secs ((now - last) / 1000000000)
      else ltb (last - now) 1000000000 && threshold_secs =ℕ 0

  abbrev pub is_due : ApiKeyConfig → Option Text → ℕ → Bool
  is_due config none now = true
  is_due config (some last) now = elapsed (parse_time last) now config.touch_threshold_secs

  -- `fault` is what the lookup fails with, and `write_fault` what the update fails with.
  abbrev pub revoke_found :
      Result (Option ApiKeyRecord) → Option Error → Text → Text → Table → Result (Unit {0}) × Table
  revoke_found (err e) write_fault key_id now t = (err e, t)
  revoke_found (ok none) write_fault key_id now t = (err (not_found (codes "API key not found")), t)
  revoke_found (ok (some _)) write_fault key_id now t =
      written write_fault t (mark_revoked key_id now t)

  unfoldable pub revoke :
      Option Error → Option Error → Text → Text → Table → Result (Unit {0}) × Table
  unfolding lookup mark_revoked
  revoke fault write_fault key_id now t =
      revoke_found (lookup json fault key_id t) write_fault key_id now t

  unfoldable pub list : Option Error → Text → Table → Result (List ApiKeyMeta)
  unfolding list_records
  list fault tenant_id t =
      list_records json fault tenant_id t >>= λ records. ok (map into_meta records)

  abbrev pub refresh_found :
      Result (Option ApiKeyRecord)
      → Option Error
      → Text
      → Option Text
      → Table
      → Result (Unit {0}) × Table
  refresh_found (err e) write_fault key_id expires_at t = (err e, t)
  refresh_found (ok none) write_fault key_id expires_at t =
      (err (not_found (codes "API key not found")), t)
  refresh_found (ok (some _)) write_fault key_id expires_at t =
      written write_fault t (update_expires_at key_id expires_at t)

  abbrev pub refresh_checked :
      Result (Unit {0})
      → Option Error
      → Option Error
      → Text
      → Option Text
      → Table
      → Result (Unit {0}) × Table
  refresh_checked (err e) fault write_fault key_id expires_at t = (err e, t)
  refresh_checked (ok _) fault write_fault key_id expires_at t =
      refresh_found (lookup json fault key_id t) write_fault key_id expires_at t

  unfoldable pub refresh :
      Option Error → Option Error → Text → Option Text → Table → Result (Unit {0}) × Table
  unfolding lookup update_expires_at
  refresh fault write_fault key_id expires_at t =
      refresh_checked (check_time expires_at) fault write_fault key_id expires_at t

-- auth/apikey/middleware.rs: where a request carries its key.
pub data HeaderSource : Type 0 where
  authorization : HeaderSource
  custom : Text → HeaderSource

abbrev pub header_value : Option HeaderValue → Result Text
header_value none = err (unauthorized (codes "missing API key"))
header_value (some opaque) = err invalid_key
header_value (some (visible s)) = ok s

abbrev pub without_scheme : Option Text → Result Text
without_scheme none = err invalid_key
without_scheme (some s) = ok s

unfoldable pub extract_token : Parts → HeaderSource → Result Text
unfolding strip_prefix
extract_token parts authorization = header_value (header (codes "authorization") parts) >>= λ v.
    without_scheme (strip_prefix (codes "Bearer ") v)
extract_token parts (custom name) = header_value (header name parts)
