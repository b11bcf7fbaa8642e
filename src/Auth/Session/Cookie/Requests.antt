-- ===== src/Auth/Session/Cookie/Requests.antt =====
-- Whole requests: what the session layer and a handler do to the table together.
use modo.Base.{
  ℕ, ◌≡◌, ◌≢◌, ◌<◌, refl, ap, Bool, true, false, not, ◌&&◌, ◌||◌, List, Option, some, none, arith,
  nat_eq,
}
use modo.Base.Lists.{list_eq}
use modo.Base.Text.{Text}
use modo.Base.Errors.{Result, ok}
use modo.Encoding.Bytes.{Bytes}
use modo.Cookies.{Jar}
use modo.Auth.Session.Token.{SessionToken, hash}
use modo.Auth.Session.Store.{
  done, Serde, SessionData, Table, CookieSessionsConfig, expiry, read_by_token, destroy, flush,
  rotate_token,
}
use modo.Auth.Session.Store.WellFormed.{IsWellFormed, rotate_token-IsWellFormed}
use modo.Auth.Session.Store.Rotation.{rotate_token_lem}
use modo.Auth.Session.Store.Revocation.{destroy-lost}
use modo.Auth.Session.Store.Written.{flush-read_by_token_hash, touch-read_by_token_hash}
use modo.Auth.Session.Data.{from}
use modo.Auth.Session.Cookie.Extractor.{World, snapshot, set, logout, rotate}
use modo.Auth.Session.Cookie.Middleware.{
  Clock, Incoming, Opened, Inner, read_signed_cookie, remove_signed_cookie, client_info,
  is_fingerprint, should_touch, open_request, initial_state, close_request, finished, call,
}

destroyed-read :
    (serde : Serde) (digest : Bytes → Bytes) (tok : SessionToken) (now later : ℕ) (t : Table)
    (s : SessionData serde.Value)
    → IsWellFormed t
    → read_by_token serde digest tok now t ≡ ok (some s)
    → read_by_token serde digest tok later (destroy s.id t) ≡ ok none
unfolding read_by_token
destroyed-read serde digest tok now later t s w found =
    destroy-lost serde (hash digest tok) now later t s w found

flush-done :
    (serde : Serde) (id : Text) (v : serde.Value) (text : Text) (now expires_at : ℕ) (t : Table)
    → serde.to_string v ≡ done text
    → ◌≡◌ {A = Result (Unit {0}) × Table}
        (flush serde id v now expires_at t)
        (ok tt, (flush serde id v now expires_at t).1)
unfolding flush
flush-done serde id v text now expires_at t writes = rw writes refl

module _ (serde : Serde) (digest : Bytes → Bytes) (jar : Jar) (config : CookieSessionsConfig) where
  -- What the request phase knows when the cookie's token found a session.
  abbrev pub with_session :
      SessionToken → Option (SessionData serde.Value) → ℕ → Opened serde digest jar config
  with_session tok session checking = record {
    session_token = some tok;
    session = session;
    read_failed = false;
    is_due = should_touch serde digest jar config session checking;
  }

  -- The session belongs to the browser, or the layer does not look.
  abbrev pub matches : Incoming → SessionData serde.Value → Bool
  matches request s =
      not config.validate_fingerprint
      || is_fingerprint serde digest jar config
          (client_info serde digest jar config request).fingerprint_value s.fingerprint

  opens_with :
      (clock : Clock) (request : Incoming) (t : Table) (tok : SessionToken)
      (s : SessionData serde.Value)
      → read_signed_cookie jar config.cookie_name request.parts ≡ some tok
      → read_by_token serde digest tok clock.reading t ≡ ok (some s)
      → matches request s ≡ true
      → ◌≡◌ {A = Opened serde digest jar config × Table}
          (open_request serde digest jar config clock request t)
          (with_session tok (some s) clock.checking, t)
  unfolding open_request
  opens_with clock request t tok s cookie found fits =
      let fine : (config.validate_fingerprint
            && not (
                is_fingerprint serde digest jar config
                  (client_info serde digest jar config request).fingerprint_value s.fingerprint))
          ≡ false =
        ground (arith, fits) in
      rw (cookie, found, fine) refl

  -- Handlers: one that logs out, one that sets a value, and one that then rotates the token.
  abbrev pub logs_out : List Text → Inner serde digest jar config
  logs_out headers _ st t = (some headers, (logout serde (st, t)).1)

  abbrev pub sets : List Text → Text → serde.Value → Inner serde digest jar config
  sets headers key v _ st t = (some headers, ((set serde key (done v) st).1, t))

  abbrev pub sets_and_rotates :
      Text → List Text → Text → serde.Value → SessionToken → ℕ → ℕ → Inner serde digest jar config
  sets_and_rotates violation headers key v generated rotating touching _ st t = (
    some headers,
    (rotate violation digest serde config generated rotating touching
        ((set serde key (done v) st).1, t)).1,
  )

  -- The request with its session: the service inside, then the response phase.
  calls_inner :
      (clock : Clock) (request : Incoming) (t : Table) (tok : SessionToken)
      (s : SessionData serde.Value) (inner : Inner serde digest jar config)
      → read_signed_cookie jar config.cookie_name request.parts ≡ some tok
      → read_by_token serde digest tok clock.reading t ≡ ok (some s)
      → matches request s ≡ true
      → ◌≡◌ {A = Option (List Text) × Table} (call serde digest jar config clock request inner t) (
          finished serde digest jar config
            (with_session tok (some s) clock.checking)
            clock.writing
            (inner
              (some (from s))
              (initial_state serde digest jar config
                (client_info serde digest jar config request)
                (some s))
              t))
  unfolding call
  calls_inner clock request t tok s inner cookie found fits =
      ap
        (λ (o : Opened serde digest jar config × Table).
          finished serde digest jar config o.0 clock.writing (
            inner (snapshot serde o.0.session)
              (initial_state serde digest jar config (client_info serde digest jar config request)
                o.0.session)
              o.1))
        (opens_with clock request t tok s cookie found fits)

  -- A request whose browser does not have the session's fingerprint, when that is validated: the layer
  -- destroys the session and the service inside sees none; if that answers without an action, the
  -- response removes the cookie, and from the table on which it answers nothing is changed.
  pub call-mismatch :
      (clock : Clock) (request : Incoming) (t : Table) (tok : SessionToken)
      (s : SessionData serde.Value) (inner : Inner serde digest jar config) (headers : List Text)
      (t' : Table)
      → read_signed_cookie jar config.cookie_name request.parts ≡ some tok
      → read_by_token serde digest tok clock.reading t ≡ ok (some s)
      → matches request s ≡ false
      → ◌≡◌ {A = Option (List Text) × World serde}
          (inner none
            (initial_state serde digest jar config
              (client_info serde digest jar config request)
              none)
            (destroy s.id t))
          (
            some headers,
            (
              initial_state serde digest jar config
                  (client_info serde digest jar config request)
                  none,
              t',
            ),
          )
      → ◌≡◌ {A = Option (List Text) × Table}
          (call serde digest jar config clock request inner t)
          (some (remove_signed_cookie jar config.cookie_name config.cookie headers), t')
  unfolding call open_request close_request
  call-mismatch clock request t tok s inner headers t' cookie found differs answers =
      let wrong : (config.validate_fingerprint
            && not (
                is_fingerprint serde digest jar config
                  (client_info serde digest jar config request).fingerprint_value s.fingerprint))
          ≡ true =
        ground (arith, differs) in
      rw (cookie, found, wrong, answers) refl

  -- Logging out in a request whose session is the browser's: the response removes the cookie, and the
  -- cookie's token finds no session at any time, when no two rows share an identifier or a hash.
  pub call-logout :
      (clock : Clock) (request : Incoming) (t : Table) (tok : SessionToken)
      (s : SessionData serde.Value) (headers : List Text) (later : ℕ)
      → IsWellFormed t
      → read_signed_cookie jar config.cookie_name request.parts ≡ some tok
      → read_by_token serde digest tok clock.reading t ≡ ok (some s)
      → matches request s ≡ true
      → ((call serde digest jar config clock request (logs_out headers) t).0
          ≡ some (remove_signed_cookie jar config.cookie_name config.cookie headers))
        × (read_by_token serde digest tok later
              (call serde digest jar config clock request (logs_out headers) t).1
            ≡ ok none)
  unfolding close_request logout
  call-logout clock request t tok s headers later w cookie found fits =
      let start = calls_inner clock request t tok s (logs_out headers) cookie found fits in
      rw start (refl, destroyed-read serde digest tok clock.reading later t s w found)

  -- A value set in a request whose session is the browser's is in the session's data when the next
  -- request reads the same token before it expires, when the data is an object, what is set can be
  -- serialised and is read back as it was, and no two rows share an identifier or a hash.
  pub call-set :
      (round_trip : (v : serde.Value) (text : Text)
        → serde.to_string v ≡ done text
        → serde.from_str text ≡ done v)
      (clock : Clock) (request : Incoming) (t : Table) (tok : SessionToken)
      (s : SessionData serde.Value) (headers : List Text) (later : ℕ) (key : Text) (v : serde.Value)
      (text : Text)
      → IsWellFormed t
      → read_signed_cookie jar config.cookie_name request.parts ≡ some tok
      → read_by_token serde digest tok clock.reading t ≡ ok (some s)
      → matches request s ≡ true
      → serde.is_object s.json_data ≡ true
      → serde.to_string (serde.insert key v s.json_data) ≡ done text
      → later < expiry config.session_ttl_secs clock.writing
      → read_by_token serde digest tok later
          (call serde digest jar config clock request (sets headers key v) t).1
        ≡ ok (
            some (record s {
              json_data = serde.insert key v s.json_data;
              last_active_at = clock.writing;
              expires_at = expiry config.session_ttl_secs clock.writing;
            }))
  unfolding close_request set read_by_token
  call-set round_trip clock request t tok s headers later key v text w cookie found fits object
        writes alive =
      let start = calls_inner clock request t tok s (sets headers key v) cookie found fits in
      let expires_at = expiry config.session_ttl_secs clock.writing in
      let value = serde.insert key v s.json_data in
      rw (start, object)
        (flush-read_by_token_hash serde round_trip (hash digest tok) clock.reading clock.writing
          expires_at later t _ s value w found alive
          (flush-done serde s.id value text clock.writing expires_at t writes))

  -- A value set in a request that also rotates the token is lost: the new token finds the session's
  -- data as it was before the request. The conditions are those of a rotation that succeeds.
  pub call-set_rotate :
      (violation : Text) (clock : Clock) (request : Incoming) (t t₁ : Table)
      (tok generated : SessionToken) (s : SessionData serde.Value) (headers : List Text)
      (rotating touching later : ℕ) (key : Text) (v : serde.Value)
      → IsWellFormed t
      → read_signed_cookie jar config.cookie_name request.parts ≡ some tok
      → read_by_token serde digest tok clock.reading t ≡ ok (some s)
      → matches request s ≡ true
      → serde.is_object s.json_data ≡ true
      → hash digest generated ≢ hash digest tok
      → ◌≡◌ {A = Result SessionToken × Table}
          (rotate_token violation digest s.id generated rotating t)
          (ok generated, t₁)
      → touching < s.expires_at
      → later < expiry config.session_ttl_secs touching
      → read_by_token serde digest generated later
          (call serde digest jar config clock request
            (sets_and_rotates violation headers key v generated rotating touching)
            t).1
        ≡ ok (
            some (record s {
              last_active_at = touching;
              expires_at = expiry config.session_ttl_secs touching;
            }))
  unfolding close_request set rotate read_by_token
  call-set_rotate violation clock request t t₁ tok generated s headers rotating touching later key v
        w cookie found fits object differs turned alive later_alive =
      let start =
        calls_inner clock request t tok s
          (sets_and_rotates violation headers key v generated rotating touching) cookie found
          fits in
      let (_, now_found, _) =
        rotate_token_lem serde violation digest (hash digest tok) clock.reading rotating touching s
          generated generated t t₁ w found differs alive turned in
      rw (start, object, turned)
        (touch-read_by_token_hash serde (hash digest generated) touching touching
          (expiry config.session_ttl_secs touching) later t₁
          (record s { last_active_at = rotating })
          (rotate_token-IsWellFormed violation digest s.id generated rotating t t₁ generated w
            turned)
          now_found later_alive)
