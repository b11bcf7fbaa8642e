-- ===== src/Cookies.antt =====
-- cookie/: the security attributes of cookies. Signing, verifying and printing a cookie are the crate
-- `cookie`'s, and parameters.
use modo.Base.{ℕ, Bool, true, [], Option, ltb, if◌then◌else◌}
use modo.Base.Text.{Text, codes, byte_len}
use modo.Base.Errors.{Result, ok, err, internal}

pub record CookieConfig : Type 0 where
  pub secret : Text
  pub secure : Bool
  pub http_only : Bool
  pub same_site : Text

abbrev pub new : Text → CookieConfig
new secret = record { secret = secret; secure = true; http_only = true; same_site = codes "lax" }

abbrev pub default : CookieConfig
default = new []

-- `key_from_config`: `derive` is `Key::from` on the secret's bytes.
unfoldable pub key_from_config : {Key : Type 0} → (Text → Key) → CookieConfig → Result Key
unfolding byte_len
key_from_config derive config =
    if ltb (byte_len config.secret) 64
    then err (internal (codes "cookie secret must be at least 64 characters"))
    else ok (derive config.secret)

pub data SameSite : Type 0 where
  strict lax unrestricted : SameSite

-- What `Cookie::build` is given. Its path is "/" throughout.
pub record SetCookie : Type 0 where
  pub name : Text
  pub value : Text
  pub is_secure : Bool
  pub is_http_only : Bool
  pub site : SameSite
  pub max_age : ℕ

-- The crate with a key: a value signed under a name, the value of one that verifies, and the header's
-- text, if it is one.
pub record Jar : Type 0 where
  pub sign : Text → Text → Text
  pub verify : Text → Text → Option Text
  pub print : SetCookie → Option Text
