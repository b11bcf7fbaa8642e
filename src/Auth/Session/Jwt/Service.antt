-- ===== src/Auth/Session/Jwt/Service.antt =====
-- auth/session/jwt/service.rs: signing in, rotating a refresh token and logging out. An operation takes
-- the table and returns its result with it.
use modo.Base.{ℕ, not, Option, none, some, if◌then◌else◌, nat_eq}
use modo.Base.Lists.{list_eq}
use modo.Base.Text.{Text, codes, is_empty}
use modo.Base.Errors.{Error, Result, ok, err, internal, ◌>>=◌, ok_or}
use modo.Encoding.Bytes.{Bytes}
use modo.Client.{ClientInfo}
use modo.Auth.Session.Token.{SessionToken, hash, expose, from_raw}
use modo.Auth.Session.Store.{
  Serde, SessionData, Table, create, read_by_token_hash, rotate_token_to, destroy,
}
use modo.Auth.Session.Jwt.Claims.{
  Claims, new, with_iss, with_sub, with_aud, with_exp, with_iat_now, with_jti, auth_err,
  JwtSessionsConfig, validation_of, store_config, TokenPair,
}
use modo.Auth.Session.Jwt.Codec.{TokenJson, encode, decode, is_text, add_u64}

abbrev pub aud_access : Text
aud_access = codes "access"

abbrev pub aud_refresh : Text
aud_refresh = codes "refresh"

-- What the clock shows in `mint_pair`: at its start, and at the two `with_iat_now`.
pub record Mint : Type 0 where
  pub minting : ℕ
  pub access_issued : ℕ
  pub refresh_issued : ℕ

abbrev pub issued_by : Option Text → Claims → Claims
issued_by none c = c
issued_by (some iss) c = with_iss iss c

abbrev pub claims_for : Option Text → Text → Text → Text → ℕ → ℕ → Claims
claims_for issuer user_id aud jti exp issued =
    issued_by issuer
      (with_iat_now issued (with_exp exp (with_jti jti (with_aud aud (with_sub user_id new)))))

abbrev pub refusal : Error
refusal = auth_err (codes "auth:session_not_found")

-- The session token of the claims, of the audience required.
abbrev pub raw_of : Option Text → Option SessionToken
raw_of none = none
raw_of (some jti) = from_raw jti

abbrev pub token_of : Text → Claims → Result SessionToken
token_of aud claims =
    if not (is_text claims.aud aud)
    then err (auth_err (codes "auth:aud_mismatch"))
    else ok_or (raw_of claims.jti) refusal

-- `JwtSessionService::new` refuses an empty secret.
abbrev pub check_config : JwtSessionsConfig → Result JwtSessionsConfig
check_config config =
    if is_empty config.signing_secret
    then err (internal (codes "jwt: signing_secret must be set"))
    else ok config

module _ (json : TokenJson) (mac : Bytes → Bytes) (config : JwtSessionsConfig) where
  abbrev pub mint_pair : Text → Text → Mint → Result TokenPair
  mint_pair user_id jti clock =
      let access_exp = add_u64 clock.minting config.access_ttl_secs in
      let refresh_exp = add_u64 clock.minting config.refresh_ttl_secs in
      encode json mac config.access_ttl_secs clock.minting
        (claims_for config.issuer user_id aud_access jti access_exp clock.access_issued)
      >>= λ access.
          encode json mac config.access_ttl_secs clock.minting
            (claims_for config.issuer user_id aud_refresh jti refresh_exp clock.refresh_issued)
          >>= λ refresh. ok (record {
            access_token = access;
            refresh_token = refresh;
            access_expires_at = access_exp;
            refresh_expires_at = refresh_exp;
          })

  module _ (violation : Text) (digest : Bytes → Bytes) (serde : Serde) where
    abbrev pub minted :
        Result (SessionData serde.Value × SessionToken) × Table → Mint → Result TokenPair × Table
    minted (err e, t) clock = (err e, t)
    minted (ok (raw, token), t) clock = (mint_pair raw.user_id (expose token) clock, t)

    unfoldable pub authenticate :
        Text → ClientInfo → Text → SessionToken → ℕ → Mint → Table → Result TokenPair × Table
    unfolding create encode
    authenticate user_id info id generated now clock t =
        minted
          (create violation serde (store_config config) digest info user_id none id generated now t)
          clock

    abbrev pub reminted :
        Text → SessionToken → Mint → Result (Unit {0}) × Table → Result TokenPair × Table
    reminted user_id new_token clock (err e, t) = (err e, t)
    reminted user_id new_token clock (ok _, t) = (mint_pair user_id (expose new_token) clock, t)

    abbrev pub rotate_found :
        Result (Option (SessionData serde.Value))
        → SessionToken
        → ℕ
        → Mint
        → Table
        → Result TokenPair × Table
    rotate_found (err e) new_token now clock t = (err e, t)
    rotate_found (ok none) new_token now clock t = (err refusal, t)
    rotate_found (ok (some raw)) new_token now clock t =
        reminted raw.user_id new_token clock
          (rotate_token_to violation digest raw.id new_token now t)

    abbrev pub rotate_token_of :
        Result SessionToken → SessionToken → ℕ → ℕ → Mint → Table → Result TokenPair × Table
    rotate_token_of (err e) new_token reading now clock t = (err e, t)
    rotate_token_of (ok old_token) new_token reading now clock t =
        rotate_found (read_by_token_hash serde (hash digest old_token) reading t) new_token now
          clock t

    -- The clock is read, in seconds, when the token is decoded, then when the row is read and changed.
    unfoldable pub rotate :
        Text → SessionToken → ℕ → ℕ → ℕ → Mint → Table → Result TokenPair × Table
    unfolding decode encode read_by_token_hash rotate_token_to
    rotate refresh_token new_token seconds reading now clock t =
        rotate_token_of
          (decode json mac (validation_of config) seconds refresh_token >>= token_of aud_refresh)
          new_token reading now clock t

    abbrev pub logout_found :
        Result (Option (SessionData serde.Value)) → Table → Result (Unit {0}) × Table
    logout_found (err e) t = (err e, t)
    logout_found (ok none) t = (ok tt, t)
    logout_found (ok (some raw)) t = (ok tt, destroy raw.id t)

    abbrev pub logout_token : Result SessionToken → ℕ → Table → Result (Unit {0}) × Table
    logout_token (err e) reading t = (err e, t)
    logout_token (ok token) reading t =
        logout_found (read_by_token_hash serde (hash digest token) reading t) t

    unfoldable pub logout : Text → ℕ → ℕ → Table → Result (Unit {0}) × Table
    unfolding decode read_by_token_hash destroy
    logout access_token seconds reading t =
        logout_token
          (decode json mac (validation_of config) seconds access_token >>= token_of aud_access)
          reading t
