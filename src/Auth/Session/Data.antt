-- ===== src/Auth/Session/Data.antt =====
-- auth/session/data.rs: the snapshot of a session that handlers read. `from_request_parts` reads it
-- from the request's extensions, which are an argument.
use modo.Base.{ℕ, Option, some}
use modo.Base.Text.{Text, codes}
use modo.Base.Errors.{Error, Result, ok, unauthorized, ok_or}
use modo.Auth.Session.Store.{SessionData}

pub record Session (Value : Type 0) : Type 0 where
  pub id : Text
  pub user_id : Text
  pub ip_address : Text
  pub user_agent : Text
  pub device_name : Text
  pub device_type : Text
  pub fingerprint : Text
  pub json_data : Value
  pub created_at : ℕ
  pub last_active_at : ℕ
  pub expires_at : ℕ

-- `Error::with_code`
abbrev pub with_code : Error → Text → Error
with_code e code = record e { error_code = some code }

module _ {Value : Type 0} where
  unfoldable pub from : SessionData Value → Session Value
  from raw = record {
    id = raw.id;
    user_id = raw.user_id;
    ip_address = raw.ip_address;
    user_agent = raw.user_agent;
    device_name = raw.device_name;
    device_type = raw.device_type;
    fingerprint = raw.fingerprint;
    json_data = raw.json_data;
    created_at = raw.created_at;
    last_active_at = raw.last_active_at;
    expires_at = raw.expires_at;
  }

  -- `Session` as an extractor, and `Option<Session>`.
  abbrev pub from_request_parts : Option (Session Value) → Result (Session Value)
  from_request_parts extension =
      ok_or extension
        (with_code (unauthorized (codes "unauthorized")) (codes "auth:session_not_found"))

  abbrev pub optional_from_request_parts : Option (Session Value) → Result (Option (Session Value))
  optional_from_request_parts extension = ok extension
