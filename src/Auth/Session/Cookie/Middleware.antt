-- ===== src/Auth/Session/Cookie/Middleware.antt =====
-- auth/session/cookie/middleware.rs: one request through the session layer. The service inside is an
-- arbitrary function of the request's state and the table, and what the clock shows is given.
use modo.Base.{
  ℕ, ◌+◌, Bool, true, false, not, ◌&&◌, ◌||◌, List, [], ◌∷◌, ◌++◌, Option, none, some,
  if◌then◌else◌, leb, nat_eq, ◌==◌,
}
use modo.Base.Dict.{is_some}
use modo.Base.Lists.{list_eq}
use modo.Base.Text.{Text, codes, split, trim, split_once}
use modo.Base.Errors.{Result, ok, err}
use modo.Encoding.Bytes.{Bytes}
use modo.Http.{Parts, header_text}
use modo.Client.{ClientInfo, from_headers, header_str}
use modo.Cookies.{CookieConfig, SameSite, strict, lax, unrestricted, Jar}
use modo.Auth.Session.Token.{SessionToken, as_hex, from_raw}
use modo.Auth.Session.Store.{
  Serde, SessionData, Table, CookieSessionsConfig, expiry, seconds, read_by_token, destroy, flush,
  touch,
}
use modo.Auth.Session.Data.{Session, from}
use modo.Auth.Session.Cookie.Extractor.{
  SessionAction, unchanged, remove, set_to, SessionState, snapshot,
}

module _ (jar : Jar) where
  -- `SessionToken::from_hex(verified.value()).ok()`
  abbrev pub token_of : Option Text → Option SessionToken
  token_of none = none
  token_of (some s) = from_raw s

  -- The first pair of the cookie's name decides.
  abbrev pub or_pair : Text → Option (Text × Text) → Option SessionToken → Option SessionToken
  or_pair cookie_name none rest = rest
  or_pair cookie_name (some (name, value)) rest =
      if trim name == cookie_name then token_of (jar.verify cookie_name (trim value)) else rest

  unfoldable pub first_signed : Text → List Text → Option SessionToken
  unfolding split_once trim from_raw
  first_signed cookie_name [] = none
  first_signed cookie_name (pair ∷ pairs) =
      or_pair cookie_name (split_once b'=' (trim pair)) (first_signed cookie_name pairs)

  abbrev pub read_cookies : Text → Option Text → Option SessionToken
  read_cookies cookie_name none = none
  read_cookies cookie_name (some cookie_str) = first_signed cookie_name (split b';' cookie_str)

  unfoldable pub read_signed_cookie : Text → Parts → Option SessionToken
  unfolding first_signed split
  read_signed_cookie cookie_name parts =
      read_cookies cookie_name (header_text (codes "cookie") parts)

  abbrev pub same_site_of : Text → SameSite
  same_site_of s =
      if s == codes "strict" then strict else if s == codes "none" then unrestricted else lax

  -- The response's Set-Cookie headers. A text that is no header value is left out.
  abbrev pub appended : Option Text → List Text → List Text
  appended none headers = headers
  appended (some v) headers = headers ++ v ∷ []

  unfoldable pub set_signed_cookie : Text → Text → ℕ → CookieConfig → List Text → List Text
  set_signed_cookie name value max_age_secs config headers =
      appended
        (jar.print (record {
          name = name;
          value = jar.sign name value;
          is_secure = config.secure;
          is_http_only = config.http_only;
          site = same_site_of config.same_site;
          max_age = max_age_secs;
        }))
        headers

  unfoldable pub remove_signed_cookie : Text → CookieConfig → List Text → List Text
  unfolding set_signed_cookie
  remove_signed_cookie name config headers = set_signed_cookie name [] 0 config headers

abbrev pub or_unknown : Option Text → Option Text → Text
or_unknown (some client_ip) peer = client_ip
or_unknown none (some ip) = ip
or_unknown none none = codes "unknown"

-- What the clock shows when the session is read, when its age is taken, and at the response.
pub record Clock : Type 0 where
  pub reading : ℕ
  pub checking : ℕ
  pub writing : ℕ

-- A request: its headers, the address of the extension `ClientIp`, and the peer's.
pub record Incoming : Type 0 where
  pub parts : Parts
  pub client_ip : Option Text
  pub peer : Option Text

module _ (serde : Serde) (digest : Bytes → Bytes) (jar : Jar) (config : CookieSessionsConfig) where
  abbrev pub client_info : Incoming → ClientInfo
  client_info request =
      from_headers digest (some (or_unknown request.client_ip request.peer))
        (header_str (codes "user-agent") request.parts)
        (header_str (codes "accept-language") request.parts)
        (header_str (codes "accept-encoding") request.parts)

  -- The session read, and whether the read failed.
  abbrev pub loaded :
      Result (Option (SessionData serde.Value)) → Option (SessionData serde.Value) × Bool
  loaded (ok session) = (session, false)
  loaded (err e) = (none, true)

  abbrev pub load : Option SessionToken → ℕ → Table → Option (SessionData serde.Value) × Bool
  load none now t = (none, false)
  load (some session_token) now t = loaded (read_by_token serde digest session_token now t)

  abbrev pub is_fingerprint : Option Text → Text → Bool
  is_fingerprint none stored = false
  is_fingerprint (some f) stored = f == stored

  -- A session of another browser is destroyed.
  abbrev pub check_fingerprint :
      ClientInfo
      → Option (SessionData serde.Value)
      → Table
      → Option (SessionData serde.Value) × Table
  check_fingerprint info none t = (none, t)
  check_fingerprint info (some session) t =
      if config.validate_fingerprint
        && not (is_fingerprint info.fingerprint_value session.fingerprint)
      then (none, destroy session.id t)
      else (some session, t)

  abbrev pub should_touch : Option (SessionData serde.Value) → ℕ → Bool
  should_touch none now = false
  should_touch (some s) now = leb (s.last_active_at + seconds config.touch_interval_secs) now

  -- What the response phase knows of the request.
  pub record Opened : Type 0 where
    pub session_token : Option SessionToken
    pub session : Option (SessionData serde.Value)
    pub read_failed : Bool
    pub is_due : Bool

  abbrev pub opened :
      Option SessionToken → Bool → Option (SessionData serde.Value) × Table → ℕ → Opened × Table
  opened session_token read_failed (session, t) checking = (
    record {
      session_token = session_token;
      session = session;
      read_failed = read_failed;
      is_due = should_touch session checking;
    },
    t,
  )

  -- The request phase, up to the call of the service.
  unfoldable pub open_request : Clock → Incoming → Table → Opened × Table
  unfolding read_signed_cookie read_by_token destroy from_headers
  open_request clock request t =
      let session_token = read_signed_cookie jar config.cookie_name request.parts in
      let (found, read_failed) = load session_token clock.reading t in
      opened session_token read_failed (check_fingerprint (client_info request) found t)
        clock.checking

  abbrev pub initial_state : ClientInfo → Option (SessionData serde.Value) → SessionState serde
  initial_state info session = record {
    info = info;
    current_data = session;
    dirty = false;
    action = unchanged;
  }

  -- An error of `flush` is logged.
  abbrev pub flush_data : Text → Option (SessionData serde.Value) → ℕ → ℕ → Table → Table
  flush_data id none now expires_at t = t
  flush_data id (some s) now expires_at t = (flush serde id s.json_data now expires_at t).1

  abbrev pub save : Option (SessionData serde.Value) → Bool → SessionState serde → ℕ → Table → Table
  save none is_due st now t = t
  save (some session) is_due st now t =
      let new_expires = expiry config.session_ttl_secs now in
      if st.dirty
      then flush_data session.id st.current_data now new_expires t
      else if is_due
      then touch session.id now new_expires t
      else t

  abbrev pub set_again : Option SessionToken → List Text → List Text
  set_again none headers = headers
  set_again (some session_token) headers =
      set_signed_cookie jar config.cookie_name (as_hex session_token) config.session_ttl_secs
        config.cookie headers

  -- The cookie when no action is pending: renewed, or removed when it leads nowhere.
  abbrev pub renew :
      Opened → Option (SessionData serde.Value) → SessionState serde → List Text → List Text
  renew o (some session) st headers =
      if st.dirty || o.is_due then set_again o.session_token headers else headers
  renew o none st headers =
      if is_some o.session_token && not o.read_failed
      then remove_signed_cookie jar config.cookie_name config.cookie headers
      else headers

  abbrev pub close_with :
      SessionAction → Opened → SessionState serde → ℕ → List Text → Table → List Text × Table
  close_with (set_to new_token) o st now headers t = (
    set_signed_cookie jar config.cookie_name (as_hex new_token) config.session_ttl_secs
        config.cookie headers,
    t,
  )
  close_with remove o st now headers t =
      (remove_signed_cookie jar config.cookie_name config.cookie headers, t)
  close_with unchanged o st now headers t =
      (renew o o.session st headers, save o.session o.is_due st now t)

  -- The response phase.
  unfoldable pub close_request :
      Opened → SessionState serde → ℕ → List Text → Table → List Text × Table
  unfolding set_signed_cookie remove_signed_cookie flush touch
  close_request o st now headers t = close_with st.action o st now headers t

  -- The service inside: its Set-Cookie headers, or `none` when it fails.
  abbrev pub Inner : Type 0
  Inner =
      Option (Session serde.Value)
      → SessionState serde
      → Table
      → Option (List Text) × (SessionState serde × Table)

  abbrev pub finished :
      Opened → ℕ → Option (List Text) × (SessionState serde × Table) → Option (List Text) × Table
  finished o now (none, (st, t)) = (none, t)
  finished o now (some headers, (st, t)) =
      let (headers', t') = close_request o st now headers t in (some headers', t')

  unfoldable pub call : Clock → Incoming → Inner → Table → Option (List Text) × Table
  unfolding open_request close_request from from_headers
  call clock request inner t =
      let (o, t') = open_request clock request t in
      finished o clock.writing
        (inner (snapshot serde o.session) (initial_state (client_info request) o.session) t')
