-- ===== src/Auth/Session/Samples.antt =====
-- Data for the tests: a table of two sessions of two users, a JSON of texts, and a cookie's crate.
use modo.Base.{ℕ, zero, suc, ◌≡◌, ap, true, [], ◌∷◌, ◌++◌, none, some}
use modo.Base.Text.{Text, codes}
use modo.Encoding.Bytes.{Bytes}
use modo.Cookies.{Jar, new}
use modo.Client.{ClientInfo}
use modo.Http.{Parts, visible}
use modo.Auth.Session.Token.{SessionToken, hash, as_hex}
use modo.Auth.Session.Store.{done, Serde, SessionData, Table, CookieSessionsConfig, row_of}

-- Values are texts, and every value is an object.
abbrev pub texts : Serde
texts = record {
  Value = Text;
  empty_object = [];
  to_string = done;
  from_str = done;
  get = λ key v. none;
  is_object = λ v. true;
  insert = λ key v old. key ++ v;
  remove = λ key v. none;
}

pub texts_round_trip :
    (v text : Text) → texts.to_string v ≡ done text → texts.from_str text ≡ done v
texts_round_trip v text h = let same : v ≡ text = cc in ap done (cc)

abbrev pub same : Bytes → Bytes
same bytes = bytes

abbrev pub repeated : ℕ → ℕ → Bytes
repeated zero b = []
repeated (suc n) b = b ∷ repeated n b

abbrev pub old_token : SessionToken
old_token = repeated 32 0x3a

abbrev pub new_token : SessionToken
new_token = repeated 32 0x7f

abbrev pub config : CookieSessionsConfig
config = record {
  session_ttl_secs = 60;
  cookie_name = codes "_session";
  validate_fingerprint = true;
  touch_interval_secs = 5;
  max_sessions_per_user = 1;
  cookie = new [];
}

abbrev pub info : ClientInfo
info = record {
  ip_value = none;
  user_agent_value = none;
  device_name_value = none;
  device_type_value = none;
  fingerprint_value = none;
}

abbrev pub session : Text → Text → Text → SessionData Text
session id user print = record {
  id = id;
  user_id = user;
  ip_address = [];
  user_agent = [];
  device_name = [];
  device_type = [];
  fingerprint = print;
  json_data = codes "{}";
  created_at = 1;
  last_active_at = 1;
  expires_at = 1000;
}

-- The fingerprint of a request with no header that it looks at, and no digest.
abbrev pub mine : SessionData Text
mine = session (codes "01A") (codes "ada") (codes "0000")

abbrev pub theirs : SessionData Text
theirs = session (codes "01B") (codes "bob") (codes "beef")

abbrev pub table : Table
table =
    row_of texts mine (codes "{}") (hash same old_token)
    ∷ row_of texts theirs (codes "{}") (codes "c0de")
    ∷ []

abbrev pub jar : Jar
jar = record { sign = λ n v. v; verify = λ n v. some v; print = λ c. some c.value }

abbrev pub request : Parts
request = record {
  headers = (codes "cookie", visible (codes "a=b; _session=" ++ as_hex old_token)) ∷ [];
  path = codes "/";
  query = none;
}
