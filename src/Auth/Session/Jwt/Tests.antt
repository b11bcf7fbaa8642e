-- ===== src/Auth/Session/Jwt/Tests.antt =====
-- The theorems on tokens at work on a table of two sessions. Every text of JSON stands for the claims
-- that a test chooses, and the tag is empty.
use modo.Base.{
  ap, ℕ, ◌≡◌, ◌⊎◌, false, ◌≢◌, ◌≤◌, refl, true, [], ◌∷◌, ◌++◌, Option, some, none, nat_eq, ◌==◌,
  if◌then◌else◌,
}
use modo.Base.Lists.{list_eq}
use modo.Base.Text.{Text, codes, split, split_once, trim_start, is_whitespace, to_ascii_lowercase}
use modo.Base.Dict.{lookup}
use modo.Base.Rows.Keys.{keys_unique}
use modo.Base.Errors.{Result, ok, err}
use modo.Encoding.Bytes.{Bytes}
use modo.Encoding.Base64url
use modo.Encoding.Hex.{sha256, encode}
use modo.Http.{Parts, visible}
use modo.Auth.Session.Token.{SessionToken, hash, as_hex, from_raw}
use modo.Auth.Session.Samples.{texts, same, old_token, new_token, mine, theirs, table}
use modo.Auth.Session.Store.{SessionData, Table, row_of, read_by_token_hash, row_to_session_data}
use modo.Auth.Session.Store.WellFormed.{IsWellFormed}
use modo.Auth.Session.Data.{Session, from}
use modo.Auth.Session.Jwt.Claims.{Claims, JwtSessionsConfig, validation_of, TokenPair}
use modo.Auth.Session.Jwt.Codec.{TokenJson, decode, signed, add_u64}
use modo.Auth.Session.Jwt.Source.{bearer, find_token}
use modo.Auth.Session.Jwt.Service.{
  Mint, claims_for, aud_access, aud_refresh, refusal, raw_of, token_of, rotate, logout,
}
use modo.Auth.Session.Jwt.Middleware.{admit}
use modo.Auth.Session.Jwt.Replay.{Rotated, rotate-replay, logout-admit, admit-eq-ok}
use modo.Auth.Session.Jwt.Signed.{decode-eq-ok}

abbrev reads : Claims → TokenJson
reads claims = record {
  Value = Claims;
  from_slice = λ bytes. some claims;
  str_at = λ key v. if key == codes "alg" then some (codes "HS256") else v.iss;
  u64_at = λ key v. if key == codes "exp" then v.exp else none;
  from_value = some;
  to_value = some;
  has = λ key v. true;
  set_number = λ key n v. v;
  to_vec = λ v. some [];
}

abbrev untagged : Bytes → Bytes
untagged bytes = []

abbrev config : JwtSessionsConfig
config = record {
  signing_secret = codes "secret";
  issuer = none;
  access_ttl_secs = 10;
  refresh_ttl_secs = 60;
  max_per_user = 1;
  touch_interval_secs = 5;
  stateful_validation = true;
}

abbrev refreshing : Claims
refreshing = claims_for none (codes "ada") aud_refresh (as_hex old_token) 100 1

abbrev accessing : Claims
accessing = claims_for none (codes "ada") aud_access (as_hex old_token) 100 1

abbrev token : Text
token = codes "e30.e30."

decodes :
    (claims : Claims)
    → claims.exp ≡ some 100
    → decode (reads claims) untagged (validation_of config) 50 token ≡ ok claims
unfolding decode Base64url.decode split
decodes claims h = rw h refl

refresh_token_of : token_of aud_refresh refreshing ≡ ok old_token
unfolding from_raw encode
refresh_token_of = refl

access_token_of : token_of aud_access accessing ≡ ok old_token
unfolding from_raw encode
access_token_of = refl

table-IsWellFormed : IsWellFormed table
unfolding keys_unique sha256 encode
table-IsWellFormed = (refl, refl)

found : read_by_token_hash texts (hash same old_token) 2 table ≡ ok (some mine)
unfolding read_by_token_hash row_to_session_data sha256 encode
found = refl

other_hash : hash same new_token ≢ hash same old_token
unfolding sha256 encode
other_hash e =
    let d : (hash same new_token == hash same old_token)
        ≡ (hash same old_token == hash same old_token) =
      ap (λ x. x == hash same old_token) e in
    cc

abbrev clock : Mint
clock = record { minting = 50; access_issued = 50; refresh_issued = 50 }

abbrev pair : TokenPair
pair = record {
  access_token = signed (reads refreshing) untagged [];
  refresh_token = signed (reads refreshing) untagged [];
  access_expires_at = 60;
  refresh_expires_at = 110;
}

abbrev turned : Table
turned =
    row_of texts (record mine { last_active_at = 3 }) (codes "{}") (hash same new_token)
    ∷ row_of texts theirs (codes "{}") (codes "c0de")
    ∷ []

rotates :
    ◌≡◌ {A = Rotated (reads refreshing) untagged config [] same texts}
      (rotate (reads refreshing) untagged config [] same texts token new_token 50 2 3 clock table)
      (ok pair, turned)
unfolding rotate Base64url.encode Base64url.decode sha256 encode split from_raw
rotates = refl

rotate-replay_example :
    ◌≡◌ {A = Rotated (reads refreshing) untagged config [] same texts}
      (rotate
        (reads refreshing)
        untagged
        config
        []
        same
        texts
        token
        (codes "x")
        50
        4
        5
        clock
        turned)
      (err refusal, turned)
rotate-replay_example =
    rotate-replay (reads refreshing) untagged config [] same texts token refreshing old_token
      new_token (codes "x") 50 2 3 50 4 5 clock clock table turned pair table-IsWellFormed
      (decodes refreshing refl) refresh_token_of (decodes refreshing refl) other_hash rotates

abbrev carrying : Parts
carrying = record {
  headers = (codes "authorization", visible (codes "Bearer " ++ token)) ∷ [];
  path = codes "/";
  query = none;
}

carried : find_token (bearer ∷ []) carrying ≡ some token
unfolding find_token lookup split_once trim_start is_whitespace to_ascii_lowercase
carried = refl

logout-admit_example :
    admit
      (reads accessing)
      untagged
      config
      same
      texts
      (bearer ∷ [])
      50
      9
      carrying
      (logout (reads accessing) untagged config [] same texts token 50 2 table).1
    ≡ err refusal
logout-admit_example =
    logout-admit (reads accessing) untagged config same texts token accessing old_token 50 2 50 9
      (bearer ∷ []) carrying table mine table-IsWellFormed refl (decodes accessing refl)
      access_token_of found carried (decodes accessing refl)

decode-eq-ok_example :
    (header body signature_b64 : Text) × (bytes : Bytes) × (payload : Claims) × (exp : ℕ) × (split
        b'.' token
      ≡ header ∷ body ∷ signature_b64 ∷ [])
    × (Base64url.decode signature_b64 ≡ ok [])
    × (Base64url.decode body ≡ ok bytes)
    × (some accessing ≡ some payload)
    × (payload.exp ≡ some exp)
    × (50 ≤ add_u64 exp 0)
    × (some payload ≡ some accessing)
decode-eq-ok_example =
    decode-eq-ok (reads accessing) untagged (validation_of config) 50 token accessing
      (decodes accessing refl)

admitted :
    ◌≡◌ {A = Result (Claims × Option (Session Text))}
      (admit (reads accessing) untagged config same texts (bearer ∷ []) 50 2 carrying table)
      (ok (accessing, some (from mine)))
unfolding admit read_by_token_hash row_to_session_data sha256 encode decode Base64url.decode split
    from_raw find_token lookup split_once trim_start is_whitespace to_ascii_lowercase from
admitted = refl

admit-eq-ok_example :
    (tok : Text) × (find_token (bearer ∷ []) carrying ≡ some tok)
    × (decode (reads accessing) untagged (validation_of config) 50 tok ≡ ok accessing)
    × (accessing.aud ≡ some aud_access)
    × (((true ≡ false) × (◌≡◌ {A = Option (Session Text)} (some (from mine)) none))
        ⊎ ((true ≡ true)
            × (old : SessionToken) × (s : SessionData Text) × (raw_of accessing.jti ≡ some old)
            × (read_by_token_hash texts (hash same old) 2 table ≡ ok (some s))
            × (◌≡◌ {A = Option (Session Text)} (some (from mine)) (some (from s)))))
admit-eq-ok_example =
    admit-eq-ok (reads accessing) untagged config same texts (bearer ∷ []) 50 2 carrying table
      accessing (some (from mine)) admitted
