-- ===== src/Auth/Session/Store/Tests.antt =====
-- The store's theorems at work on a table of two sessions.
use modo.Base.{ap, ◌≡◌, ◌≢◌, ◌≤◌, refl, arith, not, [], ◌∷◌, some, none, nat_eq, ◌==◌}
use modo.Base.Lists.{count, filter, list_eq}
use modo.Base.Text.{codes}
use modo.Base.Rows.Keys.{keys_unique}
use modo.Base.Errors.{Result, ok}
use modo.Encoding.Hex.{sha256, encode}
use modo.Auth.Session.Token.{hash}
use modo.Auth.Session.Samples.{
  texts, texts_round_trip, same, old_token, new_token, config, info, mine, theirs, table,
}
use modo.Auth.Session.Store.{
  SessionData, Table, row_of, new_session, is_live_of, has_id, evict_excess, create, read_by_token,
  read_by_token_hash, rotate_token_to, flush, row_to_session_data,
}
use modo.Auth.Session.Store.WellFormed.{IsWellFormed}
use modo.Auth.Session.Store.Limit.{Created, create-limit}
use modo.Auth.Session.Store.Created.{create-read_by_token}
use modo.Auth.Session.Store.Rotation.{rotate_token_to_lem}

table-IsWellFormed : IsWellFormed table
unfolding keys_unique sha256 encode
table-IsWellFormed = (refl, refl)

abbrev fresh : SessionData texts.Value
fresh = new_session texts config info (codes "ada") (codes "{}") (codes "01C") 2

-- The table after `create`, from which the user's session before is evicted.
abbrev grown : Table
grown =
    row_of texts theirs (codes "{}") (codes "c0de")
    ∷ row_of texts fresh (codes "{}") (hash same new_token)
    ∷ []

created :
    ◌≡◌ {A = Created [] texts config same}
      (create [] texts config same info
        (codes "ada")
        (some (codes "{}"))
        (codes "01C")
        new_token
        2
        table)
      (ok (fresh, new_token), grown)
unfolding create evict_excess sha256 encode
created = refl

create-limit_example : count (is_live_of (codes "ada") 2) grown ≤ 1
create-limit_example =
    create-limit [] texts config same info (codes "ada") (some (codes "{}")) (codes "01C") new_token
      2 table grown fresh new_token created

create-read_by_token_example : read_by_token texts same new_token 2 grown ≡ ok (some fresh)
create-read_by_token_example =
    create-read_by_token [] texts config same texts_round_trip info (codes "ada")
      (some (codes "{}")) (codes "01C") new_token 2 table grown fresh new_token (omega arith)
      (omega arith) (omega arith) (omega arith) table-IsWellFormed (omega arith, (omega arith, tt))
      created

found : read_by_token_hash texts (hash same old_token) 2 table ≡ ok (some mine)
unfolding read_by_token_hash row_to_session_data sha256 encode
found = refl

found_other : read_by_token_hash texts (codes "c0de") 3 table ≡ ok (some theirs)
unfolding read_by_token_hash row_to_session_data sha256 encode
found_other = refl

other_hash : hash same new_token ≢ hash same old_token
unfolding sha256 encode
other_hash e =
    let d : (hash same new_token == hash same old_token)
        ≡ (hash same old_token == hash same old_token) =
      ap (λ x. x == hash same old_token) e in
    cc

-- The table after `rotate_token_to`.
abbrev turned : Table
turned =
    row_of texts (record mine { last_active_at = 5 }) (codes "{}") (hash same new_token)
    ∷ row_of texts theirs (codes "{}") (codes "c0de")
    ∷ []

rotated_to :
    ◌≡◌ {A = Result (Unit {0}) × Table}
      (rotate_token_to [] same (codes "01A") new_token 5 table)
      (ok tt, turned)
unfolding rotate_token_to sha256 encode
rotated_to = refl

rotate_token_to_lem_example :
    (read_by_token_hash texts (hash same old_token) 99 turned ≡ ok none)
    × (read_by_token texts same new_token 9 turned ≡ ok (some (record mine { last_active_at = 5 })))
    × (filter (λ r. not (has_id (codes "01A") r)) turned
        ≡ filter (λ r. not (has_id (codes "01A") r)) table)
rotate_token_to_lem_example =
    rotate_token_to_lem texts [] same (hash same old_token) 2 5 9 99 mine new_token table turned
      table-IsWellFormed found other_hash (omega arith) rotated_to

other_id : theirs.id ≢ mine.id
other_id e = let d = ap (λ x. x == mine.id) e in cc

other_user : codes "bob" ≢ codes "ada"
other_user e = let d = ap (λ x. x == codes "ada") e in cc

-- The table after `flush`.
abbrev written : Table
written =
    row_of texts (record mine { last_active_at = 3; expires_at = 63 }) (codes "{1}")
      (hash same old_token)
    ∷ row_of texts theirs (codes "{}") (codes "c0de")
    ∷ []

flushes_to :
    ◌≡◌ {A = Result (Unit {0}) × Table}
      (flush texts mine.id (codes "{1}") 3 63 table)
      (ok tt, written)
unfolding flush
flushes_to = refl
