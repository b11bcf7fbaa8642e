-- ===== src/Auth/Session/Jwt/Middleware.antt =====
-- auth/session/jwt/middleware.rs: what a request must carry, and what the service inside is given.
use modo.Base.{ℕ, not, List, Option, none, some, if◌then◌else◌}
use modo.Base.Text.{codes}
use modo.Base.Errors.{Result, ok, err, ◌>>=◌, ok_or}
use modo.Encoding.Bytes.{Bytes}
use modo.Http.{Parts}
use modo.Auth.Session.Token.{hash}
use modo.Auth.Session.Store.{Serde, SessionData, Table, read_by_token_hash}
use modo.Auth.Session.Data.{Session, from}
use modo.Auth.Session.Jwt.Claims.{
  Claims, missing_token, jwt_err, auth_err, JwtSessionsConfig, validation_of,
}
use modo.Auth.Session.Jwt.Codec.{TokenJson, decode, is_text}
use modo.Auth.Session.Jwt.Source.{TokenSource, find_token}
use modo.Auth.Session.Jwt.Service.{aud_access, refusal, raw_of}

module _ (json : TokenJson) (mac : Bytes → Bytes) (config : JwtSessionsConfig)
    (digest : Bytes → Bytes) (serde : Serde) where
  abbrev pub session_of : Result (Option (SessionData serde.Value)) → Result (Session serde.Value)
  session_of (err e) = err e
  session_of (ok none) = err refusal
  session_of (ok (some row)) = ok (from row)

  -- With the service: the audience, then the session when the validation is stateful.
  abbrev pub with_service : ℕ → Table → Claims → Result (Claims × Option (Session serde.Value))
  with_service reading t claims =
      if not (is_text claims.aud aud_access)
      then err (auth_err (codes "auth:aud_mismatch"))
      else if config.stateful_validation
      then (ok_or (raw_of claims.jti) refusal >>= λ token.
          session_of (read_by_token_hash serde (hash digest token) reading t) >>= λ s.
          ok (claims, some s))
      else ok (claims, none)

  -- `from_service`: an error is the response; else the service inside is given the extensions.
  unfoldable pub admit :
      List TokenSource → ℕ → ℕ → Parts → Table → Result (Claims × Option (Session serde.Value))
  unfolding find_token decode read_by_token_hash from
  admit sources seconds reading parts t =
      ok_or (find_token sources parts) (jwt_err missing_token) >>= λ token.
      decode json mac (validation_of config) seconds token >>= with_service reading t
