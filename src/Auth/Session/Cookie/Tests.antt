-- ===== src/Auth/Session/Cookie/Tests.antt =====
-- The theorems on requests at work on a request with a cookie. Without a digest, the fingerprint of its
-- headers is that of two separators.
use modo.Base.{
  ap, ◌≡◌, ◌≢◌, refl, arith, true, false, not, List, [], ◌∷◌, Option, some, none, nat_eq, ◌==◌,
}
use modo.Base.Lists.{filter, list_eq}
use modo.Base.Text.{Text, codes, trim_start, is_whitespace}
use modo.Base.Dict.{lookup}
use modo.Base.Rows.Keys.{keys_unique}
use modo.Base.Errors.{Result, ok}
use modo.Encoding.Hex.{sha256, encode}
use modo.Client.{from_headers}
use modo.Auth.Session.Token.{SessionToken, hash, from_hex}
use modo.Auth.Session.Samples.{
  texts, texts_round_trip, same, old_token, new_token, config, info, mine, theirs, table, jar,
  request,
}
use modo.Auth.Session.Store.{
  SessionData, Table, row_of, new_session, read_by_token, read_by_token_hash, destroy, rotate_token,
  row_to_session_data,
}
use modo.Auth.Session.Store.WellFormed.{IsWellFormed}
use modo.Auth.Session.Cookie.Extractor.{
  SessionState, World, set_to, unchanged, user_id, authenticate_with, revoke,
}
use modo.Auth.Session.Cookie.Lifecycle.{authenticate_with_lem, revoke-others}
use modo.Auth.Session.Cookie.Middleware.{
  Clock, Incoming, read_signed_cookie, remove_signed_cookie, call,
}
use modo.Auth.Session.Cookie.Requests.{
  matches, logs_out, call-logout, sets, sets_and_rotates, call-mismatch, call-set, call-set_rotate,
}

table-IsWellFormed : IsWellFormed table
unfolding keys_unique sha256 encode
table-IsWellFormed = (refl, refl)

found : read_by_token_hash texts (hash same old_token) 2 table ≡ ok (some mine)
unfolding read_by_token_hash row_to_session_data sha256 encode
found = refl

other_hash : hash same new_token ≢ hash same old_token
unfolding sha256 encode
other_hash e =
    let d : (hash same new_token == hash same old_token)
        ≡ (hash same old_token == hash same old_token) =
      ap (λ x. x == hash same old_token) e in
    cc

-- The state of a request whose session is `mine`.
abbrev signed_in : SessionState texts
signed_in = record { info = info; current_data = some mine; dirty = false; action = unchanged }

abbrev fresh : SessionData texts.Value
fresh = new_session texts config info (codes "eve") (codes "{}") (codes "01C") 2

abbrev admitted : Table
admitted =
    row_of texts theirs (codes "{}") (codes "c0de")
    ∷ row_of texts fresh (codes "{}") (hash same new_token)
    ∷ []

abbrev as_eve : SessionState texts
as_eve = record { info = info; current_data = some fresh; dirty = false; action = set_to new_token }

authenticates :
    ◌≡◌ {A = Result (Unit {0}) × World texts}
      (authenticate_with [] same texts config
        (codes "eve")
        (codes "{}")
        (codes "01C")
        new_token
        2
        (signed_in, table))
      (ok tt, (as_eve, admitted))
unfolding authenticate_with sha256 encode
authenticates = refl

authenticate_with_lem_example :
    (read_by_token_hash texts (hash same old_token) 9 admitted ≡ ok none)
    × (user_id texts as_eve ≡ some (codes "eve"))
    × (as_eve.action ≡ set_to new_token)
authenticate_with_lem_example =
    authenticate_with_lem [] same texts config (hash same old_token) (codes "eve") 2 2 9
      (codes "{}") (codes "01C") new_token signed_in as_eve table admitted mine mine
      table-IsWellFormed found refl refl other_hash authenticates

revoke-others_example :
    ((revoke texts (codes "01B") (signed_in, table)).1.0 ≡ signed_in)
    × (filter
          (λ r. not (r.columns.user_id == mine.user_id))
          (revoke texts (codes "01B") (signed_in, table)).1.1
        ≡ filter (λ r. not (r.columns.user_id == mine.user_id)) table)
revoke-others_example =
    revoke-others texts (codes "01B") signed_in table mine table-IsWellFormed refl

abbrev signed_out : SessionState texts
signed_out = record { info = info; current_data = none; dirty = false; action = unchanged }

abbrev clock : Clock
clock = record { reading = 2; checking = 3; writing = 4 }

abbrev arriving : Incoming
arriving = record { parts = request; client_ip = none; peer = none }

cookie_read : read_signed_cookie jar (codes "_session") request ≡ some old_token
unfolding read_signed_cookie trim_start is_whitespace lookup encode from_hex
cookie_read = refl

read_old : read_by_token texts same old_token 2 table ≡ ok (some mine)
unfolding read_by_token row_to_session_data sha256 encode
read_old = refl

fits : matches texts same jar config arriving mine ≡ true
unfolding from_headers lookup encode
fits = refl

call-logout_example :
    ((call texts same jar config clock arriving (logs_out texts same jar config []) table).0
      ≡ some (remove_signed_cookie jar config.cookie_name config.cookie []))
    × (read_by_token texts same old_token 9
          (call texts same jar config clock arriving (logs_out texts same jar config []) table).1
        ≡ ok none)
call-logout_example =
    call-logout texts same jar config clock arriving table old_token mine [] 9 table-IsWellFormed
      cookie_read read_old fits

call-set_example :
    read_by_token texts same old_token 9
      (call texts same jar config clock arriving
        (sets texts same jar config [] (codes "k") (codes "v"))
        table).1
    ≡ ok (
        some (record mine { json_data = codes "kv"; last_active_at = 4; expires_at = 60000000004 }))
call-set_example =
    call-set texts same jar config texts_round_trip clock arriving table old_token mine [] 9
      (codes "k") (codes "v") (codes "kv") table-IsWellFormed cookie_read read_old fits refl refl
      (omega arith)

-- A session of another browser.
abbrev foreign : SessionData Text
foreign = record mine { fingerprint = codes "beef" }

abbrev foreign_table : Table
foreign_table = row_of texts foreign (codes "{}") (hash same old_token) ∷ []

read_foreign : read_by_token texts same old_token 2 foreign_table ≡ ok (some foreign)
unfolding read_by_token row_to_session_data sha256 encode
read_foreign = refl

differs : matches texts same jar config arriving foreign ≡ false
unfolding from_headers lookup encode
differs = refl

call-mismatch_example :
    ◌≡◌ {A = Option (List Text) × Table}
      (call texts same jar config clock arriving (λ _ st t. (some [], (st, t))) foreign_table)
      (
        some (remove_signed_cookie jar (codes "_session") config.cookie []),
        destroy (codes "01A") foreign_table,
      )
call-mismatch_example =
    call-mismatch texts same jar config clock arriving foreign_table old_token foreign
      (λ _ st t. (some [], (st, t))) [] (destroy (codes "01A") foreign_table) cookie_read
      read_foreign differs refl

-- The table after the rotation, before the handler touches the row.
abbrev turned : Table
turned =
    row_of texts (record mine { last_active_at = 3 }) (codes "{}") (hash same new_token)
    ∷ row_of texts theirs (codes "{}") (codes "c0de")
    ∷ []

rotates :
    ◌≡◌ {A = Result SessionToken × Table}
      (rotate_token [] same mine.id new_token 3 table)
      (ok new_token, turned)
unfolding rotate_token sha256 encode
rotates = refl

call-set_rotate_example :
    read_by_token texts same new_token 9
      (call texts same jar config clock arriving
        (sets_and_rotates texts same jar config [] [] (codes "k") (codes "v") new_token 3 4)
        table).1
    ≡ ok (some (record mine { last_active_at = 4; expires_at = 60000000004 }))
call-set_rotate_example =
    call-set_rotate texts same jar config [] clock arriving table turned old_token new_token mine []
      3 4 9 (codes "k") (codes "v") table-IsWellFormed cookie_read read_old fits refl other_hash
      rotates (omega arith) (omega arith)
