-- ===== src/Csrf.antt =====
-- middleware/csrf.rs: the double-submit cookie. The service inside is an arbitrary function of the token
-- in the extensions of its request, `fresh` is the identifier that is minted, and `Jar` the crate `cookie`.
pub mod Checked
mod Tests
use modo.Base.{
  ℕ, ◌%◌, ◌^◌, Bool, true, false, List, [], ◌∷◌, ◌++◌, Option, none, some, if◌then◌else◌, map,
  nat_eq, ◌==◌,
}
use modo.Base.Lists.{any, list_eq}
use modo.Base.Dict.{lookup}
use modo.Base.Text.{Text, codes, split, split_once, trim, to_lowercase}
use modo.Base.Errors.{Error, forbidden}
use modo.Http.{HeaderMap, shown}
use modo.Cookies.{Jar, lax}

pub record CsrfConfig : Type 0 where
  pub cookie_name : Text
  pub header_name : Text
  pub field_name : Text
  pub ttl_secs : ℕ
  pub exempt_methods : List Text

abbrev pub default : CsrfConfig
default = record {
  cookie_name = codes "_csrf";
  header_name = codes "X-CSRF-Token";
  field_name = codes "_csrf_token";
  ttl_secs = 21600;
  exempt_methods = codes "GET" ∷ codes "HEAD" ∷ codes "OPTIONS" ∷ [];
}

abbrev pub CsrfToken : Type 0
CsrfToken = Text

-- What the layer changes in a response: the Set-Cookie headers and the token of its extensions.
pub record Response (Body : Type 0) : Type 0 where
  pub set_cookies : List Text
  pub csrf_token : Option CsrfToken
  pub body : Body

-- What the service inside gives: its response or its error.
pub data Outcome (Body Failure : Type 0) : Type 0 where
  answered : Response Body → Outcome Body Failure
  failed : Failure → Outcome Body Failure

-- What the layer gives: that, or the response of an error of its own.
pub data Answer (Body Failure : Type 0) : Type 0 where
  passed_on : Outcome Body Failure → Answer Body Failure
  refused : Error → Answer Body Failure

-- `eq_ignore_ascii_case`
abbrev pub eq_ignore_ascii_case : Text → Text → Bool
eq_ignore_ascii_case s t = to_lowercase s == to_lowercase t

-- The first pair of the cookie's name decides.
abbrev pub or_pair : Text → Option (Text × Text) → Option Text → Option Text
or_pair cookie_name none rest = rest
or_pair cookie_name (some (name, value)) rest =
    if trim name == cookie_name then some (trim value) else rest

unfoldable pub first_value : Text → List Text → Option Text
unfolding split_once trim
first_value cookie_name [] = none
first_value cookie_name (pair ∷ pairs) =
    or_pair cookie_name (split_once b'=' (trim pair)) (first_value cookie_name pairs)

abbrev pub value_in : Text → Option Text → Option Text
value_in cookie_name none = none
value_in cookie_name (some cookie_str) = first_value cookie_name (split b';' cookie_str)

module _ (jar : Jar) (config : CsrfConfig) where
  abbrev pub sign_token : CsrfToken → Text
  sign_token token = jar.sign config.cookie_name token

  abbrev pub verify_token : Option Text → Option CsrfToken
  verify_token none = none
  verify_token (some signed_value) = jar.verify config.cookie_name signed_value

  -- `ttl_secs as i64` keeps the 64 bits.
  abbrev pub build_set_cookie : Text → Option Text
  build_set_cookie signed_value = jar.print (record {
    name = config.cookie_name;
    value = signed_value;
    is_secure = false;
    is_http_only = true;
    site = lax;
    max_age = config.ttl_secs % 2 ^ 64;
  })

  unfoldable pub is_exempt : Text → Bool
  is_exempt method = any (λ m. eq_ignore_ascii_case m method) config.exempt_methods

  -- A header is looked up by its name in lower case.
  unfoldable pub extract_submitted_token : HeaderMap → Option Text
  unfolding lookup
  extract_submitted_token headers = shown (lookup (to_lowercase config.header_name) headers)

  unfoldable pub extract_cookie_value : HeaderMap → Option Text
  unfolding lookup first_value split
  extract_cookie_value headers =
      value_in config.cookie_name (shown (lookup (codes "cookie") headers))

  -- The token of an exempt request, with the cookie to set when it is minted. The second is `none` too
  -- when the text of the cookie is no header value.
  abbrev pub token_or_minted : CsrfToken → Option CsrfToken → CsrfToken × Option Text
  token_or_minted fresh (some t) = (t, none)
  token_or_minted fresh none = (fresh, build_set_cookie (sign_token fresh))

  abbrev pub appended : Option Text → List Text → List Text
  appended none headers = headers
  appended (some v) headers = headers ++ v ∷ []

  -- `.zip(submitted_token).is_some_and(ct_eq)`
  abbrev pub matches : Option CsrfToken → Option Text → Bool
  matches none submitted_token = false
  matches (some cookie_token) none = false
  matches (some cookie_token) (some header_token) = cookie_token == header_token

  module _ {Body Failure : Type 0} (inner : Option CsrfToken → Outcome Body Failure) where
    abbrev pub finished : CsrfToken → Option Text → Outcome Body Failure → Outcome Body Failure
    finished token set_cookie_value (failed e) = failed e
    finished token set_cookie_value (answered r) = answered (record r {
      set_cookies = appended set_cookie_value r.set_cookies;
      csrf_token = some token;
    })

    abbrev pub exempted : CsrfToken × Option Text → Outcome Body Failure
    exempted (token, set_cookie_value) = finished token set_cookie_value (inner (some token))

    unfoldable pub call : Text → HeaderMap → CsrfToken → Answer Body Failure
    unfolding is_exempt extract_cookie_value extract_submitted_token
    call method headers fresh =
        if is_exempt method
        then passed_on
            (exempted (token_or_minted fresh (verify_token (extract_cookie_value headers))))
        else if matches (verify_token (extract_cookie_value headers))
            (extract_submitted_token headers)
        then passed_on (inner none)
        else refused
            (forbidden (codes "CSRF validation failed: missing or invalid " ++ config.header_name))
