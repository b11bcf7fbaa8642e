-- ===== src/Auth/Session/Cookie/Service.antt =====
-- auth/session/cookie/service.rs: the operations that need no current session.
use modo.Base.{ℕ, List, not, Option, none, some, if◌then◌else◌, nat_eq, ◌==◌, map}
use modo.Base.Lists.{list_eq}
use modo.Base.Text.{Text, codes}
use modo.Base.Errors.{Error, Result, ok, err, not_found, ◌>>=◌}
use modo.Auth.Session.Store.{
  Serde, SessionData, Table, read, list_for_user, destroy, destroy_all_for_user, destroy_all_except,
  cleanup_expired,
}
use modo.Auth.Session.Data.{Session, from, with_code}

abbrev pub session_not_found : Error
session_not_found =
    with_code (not_found (codes "session not found")) (codes "auth:session_not_found")

module _ (serde : Serde) where
  unfoldable pub list : Text → ℕ → Table → Result (List (Session serde.Value))
  unfolding list_for_user from
  list user_id now t = list_for_user serde user_id now t >>= λ raws. ok (map from raws)

  -- What follows the row's lookup.
  abbrev pub revoke_found :
      Error
      → Text
      → Text
      → Result (Option (SessionData serde.Value))
      → Table
      → Result (Unit {0}) × Table
  revoke_found refusal user_id id (err e) t = (err e, t)
  revoke_found refusal user_id id (ok none) t = (err refusal, t)
  revoke_found refusal user_id id (ok (some row)) t =
      if not (row.user_id == user_id) then (err refusal, t) else (ok tt, destroy id t)

  unfoldable pub revoke : Text → Text → Table → Result (Unit {0}) × Table
  unfolding read destroy
  revoke user_id id t = revoke_found session_not_found user_id id (read serde id t) t

unfoldable pub revoke_all : Text → Table → Table
unfolding destroy_all_for_user
revoke_all user_id t = destroy_all_for_user user_id t

unfoldable pub revoke_all_except : Text → Text → Table → Table
unfolding destroy_all_except
revoke_all_except user_id keep_id t = destroy_all_except user_id keep_id t

unfoldable pub cleanup : ℕ → Table → ℕ × Table
unfolding cleanup_expired
cleanup now t = cleanup_expired now t
