-- ===== src/Auth/Session/Jwt/Claims.antt =====
-- auth/session/jwt/claims.rs, error.rs, validation.rs, config.rs and tokens.rs. What the clock shows, in
-- seconds, is an argument.
use modo.Base.{ℕ, Bool, false, Option, none, some, ltb, [], max}
use modo.Base.Text.{Text, codes}
use modo.Base.Errors.{Error, unauthorized, internal}
use modo.Cookies.{default}
use modo.Auth.Session.Data.{with_code}
use modo.Auth.Session.Store.{CookieSessionsConfig}

pub record Claims : Type 0 where
  pub iss : Option Text
  pub sub : Option Text
  pub aud : Option Text
  pub exp : Option ℕ
  pub nbf : Option ℕ
  pub iat : Option ℕ
  pub jti : Option Text

abbrev pub new : Claims
new = record { iss = none; sub = none; aud = none; exp = none; nbf = none; iat = none; jti = none }

abbrev pub with_iss : Text → Claims → Claims
with_iss iss c = record c { iss = some iss }

abbrev pub with_sub : Text → Claims → Claims
with_sub sub c = record c { sub = some sub }

abbrev pub with_aud : Text → Claims → Claims
with_aud aud c = record c { aud = some aud }

abbrev pub with_exp : ℕ → Claims → Claims
with_exp exp c = record c { exp = some exp }

abbrev pub with_nbf : ℕ → Claims → Claims
with_nbf nbf c = record c { nbf = some nbf }

abbrev pub with_iat_now : ℕ → Claims → Claims
with_iat_now now c = record c { iat = some now }

abbrev pub with_jti : Text → Claims → Claims
with_jti jti c = record c { jti = some jti }

abbrev pub exceeded : Option ℕ → ℕ → Bool
exceeded none now = false
exceeded (some exp) now = ltb exp now

abbrev pub is_expired : ℕ → Claims → Bool
is_expired now c = exceeded c.exp now

abbrev pub ahead : Option ℕ → ℕ → Bool
ahead none now = false
ahead (some nbf) now = ltb now nbf

abbrev pub is_not_yet_valid : ℕ → Claims → Bool
is_not_yet_valid now c = ahead c.nbf now

pub data JwtError : Type 0 where
  missing_token invalid_header malformed_token deserialization_failed invalid_signature expired :
      JwtError
  not_yet_valid invalid_issuer invalid_audience algorithm_mismatch : JwtError
  signing_failed serialization_failed : JwtError

abbrev pub code : JwtError → Text
code missing_token = codes "jwt:missing_token"
code invalid_header = codes "jwt:invalid_header"
code malformed_token = codes "jwt:malformed_token"
code deserialization_failed = codes "jwt:deserialization_failed"
code invalid_signature = codes "jwt:invalid_signature"
code expired = codes "jwt:expired"
code not_yet_valid = codes "jwt:not_yet_valid"
code invalid_issuer = codes "jwt:invalid_issuer"
code invalid_audience = codes "jwt:invalid_audience"
code algorithm_mismatch = codes "jwt:algorithm_mismatch"
code signing_failed = codes "jwt:signing_failed"
code serialization_failed = codes "jwt:serialization_failed"

-- The error's `source` is not modelled, as nowhere.
abbrev pub status_error : JwtError → Error
status_error signing_failed = internal (codes "unauthorized")
status_error serialization_failed = internal (codes "unauthorized")
status_error _ = unauthorized (codes "unauthorized")

abbrev pub jwt_err : JwtError → Error
jwt_err kind = with_code (status_error kind) (code kind)

abbrev pub auth_err : Text → Error
auth_err c = with_code (unauthorized (codes "unauthorized")) c

pub record ValidationConfig : Type 0 where
  pub leeway : ℕ
  pub require_issuer : Option Text
  pub require_audience : Option Text

pub record JwtSessionsConfig : Type 0 where
  pub signing_secret : Text
  pub issuer : Option Text
  pub access_ttl_secs : ℕ
  pub refresh_ttl_secs : ℕ
  pub max_per_user : ℕ
  pub touch_interval_secs : ℕ
  pub stateful_validation : Bool

-- The validation of `from_config`.
abbrev pub validation_of : JwtSessionsConfig → ValidationConfig
validation_of config = record {
  leeway = 0;
  require_issuer = config.issuer;
  require_audience = none;
}

-- The configuration of the store.
abbrev pub store_config : JwtSessionsConfig → CookieSessionsConfig
store_config config = record {
  session_ttl_secs = config.refresh_ttl_secs;
  touch_interval_secs = config.touch_interval_secs;
  max_sessions_per_user = max config.max_per_user 1;
  cookie_name = [];
  validate_fingerprint = false;
  cookie = default;
}

pub record TokenPair : Type 0 where
  pub access_token : Text
  pub refresh_token : Text
  pub access_expires_at : ℕ
  pub refresh_expires_at : ℕ
