-- ===== src/Auth/Session/Store.antt =====
-- auth/session/store.rs: the rows of the table `authenticated_sessions` (its columns stand in
-- auth/session/README.md) and the store's operations. A time is a number of nanoseconds: the RFC 3339
-- texts of the source sort as the times do up to the year 9999 (see `expiry`). Identifiers, tokens, the clock and the digest are
-- arguments; an operation on the table returns its result and the table.
pub mod Created
pub mod Limit
pub mod Revocation
pub mod Rotation
pub mod WellFormed
pub mod Written
mod Tests
use modo.Base.{
  ℕ, ◌+◌, ◌-◌, ◌*◌, ◌^◌, Bool, true, false, not, ◌||◌, ◌&&◌, List, [], ◌∷◌, ◌++◌, Option, none,
  some, if◌then◌else◌, ltb, nat_eq, ◌==◌,
}
use modo.Base.Lists.{any, count, filter, take, list_eq}
use modo.Base.Text.{Text, codes}
use modo.Base.Rows.{update_rows, delete_rows, first_row, sort_rows, ascending, descending}
use modo.Base.Rows.Keys.{has_key, keys_unique}
use modo.Base.Errors.{Result, ok, err, internal, ◌>>=◌}
use modo.Encoding.Bytes.{Bytes}
use modo.Auth.Session.Token.{SessionToken, hash}
use modo.Client.{ClientInfo, unwrap_or_empty}
use modo.Cookies.{CookieConfig}

-- A value of another crate, or the text of its error.
pub data Outcome (A : Type 0) : Type 0 where
  done : A → Outcome A
  failed : Text → Outcome A

-- What the source uses of `serde_json::Value`. `insert` and `remove` are those of the map of an object:
-- `remove` is `none` on a value of another kind, and when the key is absent.
pub record Serde : Type 1 where
  pub Value : Type 0
  pub empty_object : Value
  pub to_string : Value → Outcome Text
  pub from_str : Text → Outcome Value
  pub get : Text → Value → Option Value
  pub is_object : Value → Bool
  pub insert : Text → Value → Value → Value
  pub remove : Text → Value → Option Value

pub record SessionData (Value : Type 0) : Type 0 where
  pub id : Text
  pub user_id : Text
  pub ip_address : Text
  pub user_agent : Text
  pub device_name : Text
  pub device_type : Text
  pub fingerprint : Text
  pub json_data : Value
  pub created_at : ℕ
  pub last_active_at : ℕ
  pub expires_at : ℕ

-- A row has the serialised data.
pub record SessionRow : Type 0 where
  pub token_hash : Text
  pub columns : SessionData Text

abbrev pub Table : Type 0
Table = List SessionRow

pub record CookieSessionsConfig : Type 0 where
  pub session_ttl_secs : ℕ
  pub cookie_name : Text
  pub validate_fingerprint : Bool
  pub touch_interval_secs : ℕ
  pub max_sessions_per_user : ℕ
  pub cookie : CookieConfig

-- `chrono::Duration::seconds`
abbrev pub seconds : ℕ → ℕ
seconds n = n * 1000000000

-- `now + chrono::Duration::seconds(ttl as i64)` with its rank among the texts: `as i64` makes a lifetime of
-- 2 ^ 63 or more negative, and the text of a time from the year 10000 on starts with '+', so that it
-- sorts before every time of the clock, like the start of 1970. A time before 1970 has that rank too. The
-- lifetimes with which chrono panics are outside the model.
abbrev pub expiry : ℕ → ℕ → ℕ
expiry ttl now =
    let time = if ltb ttl (2 ^ 63) then now + seconds ttl else now - seconds (2 ^ 64 - ttl) in
    if ltb time (seconds 253402300800) then time else 0

-- `max_sessions_per_user as i64` in the LIMIT of the eviction: from 2 ^ 63 on it is negative, and every
-- active session is one too many, as with 0.
abbrev pub session_limit : CookieSessionsConfig → ℕ
session_limit config =
    if ltb config.max_sessions_per_user (2 ^ 63) then config.max_sessions_per_user else 0

abbrev pub row_id : SessionRow → Text
row_id r = r.columns.id

abbrev pub last_active : SessionRow → ℕ
last_active r = r.columns.last_active_at

-- `session_token_hash = ?1 AND expires_at > ?2`
abbrev pub is_live_hash : Text → ℕ → SessionRow → Bool
is_live_hash digest_text now r = r.token_hash == digest_text && ltb now r.columns.expires_at

-- `user_id = ?1 AND expires_at > ?2`
abbrev pub is_live_of : Text → ℕ → SessionRow → Bool
is_live_of user_id now r = r.columns.user_id == user_id && ltb now r.columns.expires_at

abbrev pub has_id : Text → SessionRow → Bool
has_id id r = row_id r == id

abbrev pub with_columns : (SessionData Text → SessionData Text) → SessionRow → SessionRow
with_columns f r = record r { columns = f r.columns }

-- The columns with the data read.
abbrev pub with_data : {Value : Type 0} → SessionData Text → Value → SessionData Value
with_data c v = record {
  id = c.id;
  user_id = c.user_id;
  ip_address = c.ip_address;
  user_agent = c.user_agent;
  device_name = c.device_name;
  device_type = c.device_type;
  fingerprint = c.fingerprint;
  json_data = v;
  created_at = c.created_at;
  last_active_at = c.last_active_at;
  expires_at = c.expires_at;
}

abbrev pub data_of : {A : Type 0} → Text → Outcome A → Result A
data_of context (done v) = ok v
data_of context (failed e) = err (internal (context ++ e))

-- The rows to evict: the first of the user's active rows, the least recently active ones before.
abbrev pub excess : ℕ → Text → ℕ → Table → Table
excess most user_id now t =
    take (count (is_live_of user_id now) t - most)
      (sort_rows (ascending last_active) (filter (is_live_of user_id now) t))

unfoldable pub evict_excess : ℕ → Text → ℕ → Table → Table
unfolding delete_rows sort_rows
evict_excess most user_id now t =
    delete_rows (λ r. any (has_id (row_id r)) (excess most user_id now t)) t

-- `Result<Option<SessionRow>>` to `Result<Option<SessionData>>`, row by row.
module _ (serde : Serde) where
  abbrev pub Session : Type 0
  Session = SessionData serde.Value

  unfoldable pub row_to_session_data : SessionRow → Result (SessionData serde.Value)
  row_to_session_data r =
      data_of (codes "deserialize session data: ") (serde.from_str r.columns.json_data) >>= λ v.
      ok (with_data r.columns v)

  abbrev pub transposed : Option SessionRow → Result (Option (SessionData serde.Value))
  transposed none = ok none
  transposed (some r) = row_to_session_data r >>= λ s. ok (some s)

  abbrev pub collected : Table → Result (List (SessionData serde.Value))
  collected [] = ok []
  collected (r ∷ t) = row_to_session_data r >>= λ s. collected t >>= λ ss. ok (s ∷ ss)

  unfoldable pub read_by_token_hash : Text → ℕ → Table → Result (Option (SessionData serde.Value))
  unfolding row_to_session_data first_row
  read_by_token_hash digest_text now t = transposed (first_row (is_live_hash digest_text now) t)

  unfoldable pub read_by_token :
      (Bytes → Bytes) → SessionToken → ℕ → Table → Result (Option (SessionData serde.Value))
  unfolding read_by_token_hash
  read_by_token digest token now t = read_by_token_hash (hash digest token) now t

  unfoldable pub read : Text → Table → Result (Option (SessionData serde.Value))
  unfolding row_to_session_data first_row
  read id t = transposed (first_row (has_id id) t)

  unfoldable pub list_for_user : Text → ℕ → Table → Result (List (SessionData serde.Value))
  unfolding row_to_session_data sort_rows
  list_for_user user_id now t =
      collected (sort_rows (descending last_active) (filter (is_live_of user_id now) t))

  abbrev pub unwrap_or_object : Option serde.Value → serde.Value
  unwrap_or_object none = serde.empty_object
  unwrap_or_object (some v) = v

  abbrev pub new_session :
      CookieSessionsConfig → ClientInfo → Text → serde.Value → Text → ℕ → SessionData serde.Value
  new_session config info user_id json_data id now = record {
    id = id;
    user_id = user_id;
    ip_address = unwrap_or_empty info.ip_value;
    user_agent = unwrap_or_empty info.user_agent_value;
    device_name = unwrap_or_empty info.device_name_value;
    device_type = unwrap_or_empty info.device_type_value;
    fingerprint = unwrap_or_empty info.fingerprint_value;
    json_data = json_data;
    created_at = now;
    last_active_at = now;
    expires_at = expiry config.session_ttl_secs now;
  }

  -- The row inserted: the session's columns, with the data's text.
  abbrev pub row_of : SessionData serde.Value → Text → Text → SessionRow
  row_of s data_text digest_text = record {
    token_hash = digest_text;
    columns = record {
      id = s.id;
      user_id = s.user_id;
      ip_address = s.ip_address;
      user_agent = s.user_agent;
      device_name = s.device_name;
      device_type = s.device_type;
      fingerprint = s.fingerprint;
      json_data = data_text;
      created_at = s.created_at;
      last_active_at = s.last_active_at;
      expires_at = s.expires_at;
    };
  }

-- `violation` is the driver's text for a broken constraint.
module _ (violation : Text) where
  -- `INSERT`: the primary key and the unique index refuse a row.
  abbrev pub insert_row : SessionRow → Table → Result Table
  insert_row r t =
      if has_key row_id (row_id r) t || has_key (λ s. s.token_hash) r.token_hash t
      then err (internal (codes "insert session: " ++ violation))
      else ok (t ++ r ∷ [])

  -- An update that may break the unique index is undone if it does.
  abbrev pub set_token : Text → Text → Text → ℕ → Table → Result (Unit {0}) × Table
  set_token context id new_hash now t =
      let t' =
        update_rows (has_id id)
          (λ r. record {
            token_hash = new_hash;
            columns = record r.columns { last_active_at = now };
          })
          t in
      if keys_unique (λ s. s.token_hash) t'
      then (ok tt, t')
      else (err (internal (context ++ violation)), t)

  unfoldable pub rotate_token_to :
      (Bytes → Bytes) → Text → SessionToken → ℕ → Table → Result (Unit {0}) × Table
  unfolding update_rows keys_unique
  rotate_token_to digest id new_token now t =
      set_token (codes "rotate token to: ") id (hash digest new_token) now t

  abbrev pub issued : SessionToken → Result (Unit {0}) × Table → Result SessionToken × Table
  issued new_token (ok _, t) = (ok new_token, t)
  issued new_token (err e, t) = (err e, t)

  -- `generated` is what `SessionToken::generate` returns.
  unfoldable pub rotate_token :
      (Bytes → Bytes) → Text → SessionToken → ℕ → Table → Result SessionToken × Table
  unfolding update_rows keys_unique
  rotate_token digest id generated now t =
      issued generated (set_token (codes "rotate token: ") id (hash digest generated) now t)

  module _ (serde : Serde) (config : CookieSessionsConfig) where
    abbrev pub trimmed :
        SessionData serde.Value
        → SessionToken
        → Table
        → Result Table
        → Result (SessionData serde.Value × SessionToken) × Table
    trimmed s generated t (err e) = (err e, t)
    trimmed s generated t (ok t') =
        (ok (s, generated), evict_excess (session_limit config) s.user_id s.created_at t')

    abbrev pub inserted :
        (Bytes → Bytes)
        → SessionData serde.Value
        → SessionToken
        → Result Text
        → Table
        → Result (SessionData serde.Value × SessionToken) × Table
    inserted digest s generated (err e) t = (err e, t)
    inserted digest s generated (ok data_text) t =
        trimmed s generated t (insert_row (row_of serde s data_text (hash digest generated)) t)

    unfoldable pub create :
        (Bytes → Bytes)
        → ClientInfo
        → Text
        → Option serde.Value
        → Text
        → SessionToken
        → ℕ
        → Table
        → Result (SessionData serde.Value × SessionToken) × Table
    unfolding evict_excess
    create digest info user_id json_data id generated now t =
        let value = unwrap_or_object serde json_data in
        inserted digest (new_session serde config info user_id value id now) generated
          (data_of (codes "serialize session data: ") (serde.to_string value)) t

unfoldable pub destroy : Text → Table → Table
unfolding delete_rows
destroy id t = delete_rows (has_id id) t

unfoldable pub destroy_all_for_user : Text → Table → Table
unfolding delete_rows
destroy_all_for_user user_id t = delete_rows (λ r. r.columns.user_id == user_id) t

unfoldable pub destroy_all_except : Text → Text → Table → Table
unfolding delete_rows
destroy_all_except user_id keep_id t =
    delete_rows (λ r. r.columns.user_id == user_id && not (row_id r == keep_id)) t

unfoldable pub flush_text : Text → Text → ℕ → ℕ → Table → Table
unfolding update_rows
flush_text id data_text now expires_at t =
    update_rows (has_id id)
      (with_columns
        (λ c. record c { json_data = data_text; last_active_at = now; expires_at = expires_at }))
      t

unfoldable pub touch : Text → ℕ → ℕ → Table → Table
unfolding update_rows
touch id now expires_at t =
    update_rows (has_id id)
      (with_columns (λ c. record c { last_active_at = now; expires_at = expires_at })) t

module _ (serde : Serde) where
  abbrev pub flushed : Text → Result Text → ℕ → ℕ → Table → Result (Unit {0}) × Table
  flushed id (err e) now expires_at t = (err e, t)
  flushed id (ok data_text) now expires_at t = (ok tt, flush_text id data_text now expires_at t)

  unfoldable pub flush : Text → serde.Value → ℕ → ℕ → Table → Result (Unit {0}) × Table
  unfolding flush_text
  flush id json_data now expires_at t =
      flushed id (data_of (codes "serialize session data: ") (serde.to_string json_data)) now
        expires_at t

-- The number of rows deleted, and the table.
unfoldable pub cleanup_expired : ℕ → Table → ℕ × Table
unfolding delete_rows
cleanup_expired now t =
    let is_past : SessionRow → Bool = λ r. ltb r.columns.expires_at now in
    (count is_past t, delete_rows is_past t)
