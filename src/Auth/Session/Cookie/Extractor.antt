-- ===== src/Auth/Session/Cookie/Extractor.antt =====
-- auth/session/cookie/extractor.rs: a request's session. An operation takes the request's state and the
-- table and returns its result with both; identifiers, tokens and the clock are arguments.
use modo.Base.{ℕ, Bool, true, false, List, Option, none, some, if◌then◌else◌, nat_eq, ◌++◌}
use modo.Base.Dict.{is_some}
use modo.Base.Text.{Text, codes}
use modo.Base.Errors.{Result, ok, err, ◌>>=◌}
use modo.Base.Errors.Http.{error_of, unauthorized, not_found}
use modo.Encoding.Bytes.{Bytes}
use modo.Client.{ClientInfo}
use modo.Auth.Session.Token.{SessionToken}
use modo.Auth.Session.Store.{
  Outcome, Serde, SessionData, Table, CookieSessionsConfig, expiry, data_of, create, destroy,
  destroy_all_for_user, destroy_all_except, rotate_token, touch, read,
}
use modo.Auth.Session.Data.{Session, from}
use modo.Auth.Session.Cookie.Service.{list, revoke_found}

pub data SessionAction : Type 0 where
  unchanged remove : SessionAction
  set_to : SessionToken → SessionAction

module _ (serde : Serde) where
  pub record SessionState : Type 0 where
    pub info : ClientInfo
    pub current_data : Option (SessionData serde.Value)
    pub dirty : Bool
    pub action : SessionAction

-- The state of the request and the table.
abbrev pub World : Serde → Type 0
World serde = SessionState serde × Table

module _ (serde : Serde) where
  abbrev pub snapshot : Option (SessionData serde.Value) → Option (Session serde.Value)
  snapshot none = none
  snapshot (some raw) = some (from raw)

  abbrev pub current : SessionState serde → Option (Session serde.Value)
  current st = snapshot st.current_data

  abbrev pub is_authenticated : SessionState serde → Bool
  is_authenticated st = is_some st.current_data

  abbrev pub user_of : Option (SessionData serde.Value) → Option Text
  user_of none = none
  user_of (some s) = some s.user_id

  abbrev pub user_id : SessionState serde → Option Text
  user_id st = user_of st.current_data

  abbrev pub value_of :
      {T : Type 0} → (serde.Value → Outcome T) → Text → Option serde.Value → Result (Option T)
  value_of from_value key none = ok none
  value_of from_value key (some v) =
      data_of (codes "deserialize session key '" ++ (key ++ codes "': ")) (from_value v) >>= λ a.
      ok (some a)

  abbrev pub get_from :
      {T : Type 0}
      → (serde.Value → Outcome T)
      → Text
      → Option (SessionData serde.Value)
      → Result (Option T)
  get_from from_value key none = ok none
  get_from from_value key (some s) = value_of from_value key (serde.get key s.json_data)

  -- `from_value` is `serde_json::from_value` at the type read.
  abbrev pub get :
      {T : Type 0} → (serde.Value → Outcome T) → Text → SessionState serde → Result (Option T)
  get from_value key st = get_from from_value key st.current_data

  -- `to_value` is what `serde_json::to_value` makes of the value.
  abbrev pub set_in :
      Text
      → Result serde.Value
      → SessionData serde.Value
      → SessionState serde
      → Result (Unit {0}) × SessionState serde
  set_in key (err e) s st = (err e, st)
  set_in key (ok v) s st = (
    ok tt,
    record st {
      current_data = some (record s { json_data = serde.insert key v s.json_data });
      dirty = true;
    },
  )

  abbrev pub set_on :
      Text
      → Outcome serde.Value
      → Option (SessionData serde.Value)
      → SessionState serde
      → Result (Unit {0}) × SessionState serde
  set_on key to_value none st = (ok tt, st)
  set_on key to_value (some s) st =
      if serde.is_object s.json_data
      then set_in key (data_of (codes "serialize session value: ") to_value) s st
      else (ok tt, st)

  unfoldable pub set :
      Text → Outcome serde.Value → SessionState serde → Result (Unit {0}) × SessionState serde
  set key to_value st = set_on key to_value st.current_data st

  abbrev pub removed_from :
      Option serde.Value → SessionData serde.Value → SessionState serde → SessionState serde
  removed_from none s st = st
  removed_from (some v) s st = record st {
    current_data = some (record s { json_data = v });
    dirty = true;
  }

  abbrev pub remove_on :
      Text → Option (SessionData serde.Value) → SessionState serde → SessionState serde
  remove_on key none st = st
  remove_on key (some s) st = removed_from (serde.remove key s.json_data) s st

  unfoldable pub remove_key : Text → SessionState serde → SessionState serde
  remove_key key st = remove_on key st.current_data st

  -- The row of the current session is deleted, when there is one.
  abbrev pub destroy_current : Option (SessionData serde.Value) → Table → Table
  destroy_current none t = t
  destroy_current (some s) t = destroy s.id t

  abbrev pub destroy_users : Option (SessionData serde.Value) → Table → Table
  destroy_users none t = t
  destroy_users (some s) t = destroy_all_for_user s.user_id t

  abbrev pub signed_out : SessionState serde → SessionState serde
  signed_out st = record st { action = remove; current_data = none }

  unfoldable pub logout : World serde → Result (Unit {0}) × World serde
  unfolding destroy
  logout (st, t) = (ok tt, (signed_out st, destroy_current st.current_data t))

  unfoldable pub logout_all : World serde → Result (Unit {0}) × World serde
  unfolding destroy_all_for_user
  logout_all (st, t) = (ok tt, (signed_out st, destroy_users st.current_data t))

  abbrev pub logout_other_of :
      Option (SessionData serde.Value) → World serde → Result (Unit {0}) × World serde
  logout_other_of none w = (err (error_of unauthorized), w)
  logout_other_of (some s) (st, t) = (ok tt, (st, destroy_all_except s.user_id s.id t))

  unfoldable pub logout_other : World serde → Result (Unit {0}) × World serde
  unfolding destroy_all_except
  logout_other (st, t) = logout_other_of st.current_data (st, t)

  abbrev pub list_of :
      Option (SessionData serde.Value) → ℕ → Table → Result (List (Session serde.Value))
  list_of none now t = err (error_of unauthorized)
  list_of (some s) now t = list serde s.user_id now t

  unfoldable pub list_my_sessions : ℕ → World serde → Result (List (Session serde.Value))
  unfolding list
  list_my_sessions now (st, t) = list_of st.current_data now t

  abbrev pub revoked :
      SessionState serde → Result (Unit {0}) × Table → Result (Unit {0}) × World serde
  revoked st (r, t) = (r, (st, t))

  abbrev pub revoke_of :
      Option (SessionData serde.Value) → Text → World serde → Result (Unit {0}) × World serde
  revoke_of none id w = (err (error_of unauthorized), w)
  revoke_of (some s) id (st, t) =
      revoked st (revoke_found serde (error_of not_found) s.user_id id (read serde id t) t)

  unfoldable pub revoke : Text → World serde → Result (Unit {0}) × World serde
  unfolding read destroy
  revoke id (st, t) = revoke_of st.current_data id (st, t)

-- `violation` is the driver's text for a broken constraint.
module _ (violation : Text) (digest : Bytes → Bytes) (serde : Serde)
    (config : CookieSessionsConfig) where
  abbrev pub authenticated :
      SessionState serde
      → Result (SessionData serde.Value × SessionToken) × Table
      → Result (Unit {0}) × World serde
  authenticated st (err e, t) = (err e, (st, t))
  authenticated st (ok (session_data, token), t) = (
    ok tt,
    (record st { current_data = some session_data; action = set_to token; dirty = false }, t),
  )

  unfoldable pub authenticate_with :
      Text → serde.Value → Text → SessionToken → ℕ → World serde → Result (Unit {0}) × World serde
  unfolding create destroy
  authenticate_with user json id generated now (st, t) = authenticated st (
      create violation serde config digest st.info user (some json) id generated now
        (destroy_current serde st.current_data t))

  unfoldable pub authenticate :
      Text → Text → SessionToken → ℕ → World serde → Result (Unit {0}) × World serde
  unfolding authenticate_with
  authenticate user id generated now w =
      authenticate_with user serde.empty_object id generated now w

  abbrev pub rotated :
      Text → ℕ → SessionState serde → Result SessionToken × Table → Result (Unit {0}) × World serde
  rotated id now st (err e, t) = (err e, (st, t))
  rotated id now st (ok new_token, t) = (
    ok tt,
    (record st { action = set_to new_token }, touch id now (expiry config.session_ttl_secs now) t),
  )

  abbrev pub rotate_of :
      Option (SessionData serde.Value)
      → SessionToken
      → ℕ
      → ℕ
      → World serde
      → Result (Unit {0}) × World serde
  rotate_of none generated rotating touching w = (err (error_of unauthorized), w)
  rotate_of (some s) generated rotating touching (st, t) =
      rotated s.id touching st (rotate_token violation digest s.id generated rotating t)

  -- The clock is read when the token is rotated and when the row is touched.
  unfoldable pub rotate : SessionToken → ℕ → ℕ → World serde → Result (Unit {0}) × World serde
  unfolding rotate_token touch
  rotate generated rotating touching (st, t) =
      rotate_of st.current_data generated rotating touching (st, t)
