-- ===== src/Auth/Session/Jwt/Replay.antt =====
-- What a token is worth after a rotation and after a logout, and which audience opens which door.
use modo.Base.{
  ℕ, ◌≡◌, ◌≢◌, ◌⊎◌, refl, ap, sym, ◌∙◌, subst, true, false, List, Option, none, some, [],
  Bool-cases, inl, inr, nat_eq,
}
use modo.Base.Lists.{list_eq}
use modo.Base.Text.{Text}
use modo.Base.Errors.{Error, Result, ok, err, ◌>>=◌, ok_or, >>=-eq-ok_iff}
use modo.Encoding.Bytes.{Bytes}
use modo.Http.{Parts}
use modo.Auth.Session.Token.{SessionToken, hash, expose}
use modo.Auth.Session.Store.{Serde, SessionData, Table, read_by_token_hash, rotate_token_to}
use modo.Auth.Session.Store.WellFormed.{IsWellFormed}
use modo.Auth.Session.Store.Rotation.{rotate_token_to_lost}
use modo.Auth.Session.Store.Revocation.{destroy-lost}
use modo.Auth.Session.Data.{Session, from}
use modo.Auth.Session.Jwt.Claims.{
  Claims, JwtSessionsConfig, TokenPair, validation_of, jwt_err, missing_token,
}
use modo.Auth.Session.Jwt.Codec.{TokenJson, decode, is_text}
use modo.Auth.Session.Jwt.Source.{TokenSource, find_token}
use modo.Auth.Session.Jwt.Service.{
  Mint, aud_access, aud_refresh, refusal, raw_of, token_of, mint_pair, reminted, rotate_found,
  rotate, logout,
}
use modo.Auth.Session.Jwt.Middleware.{session_of, with_service, admit}

module _ (json : TokenJson) (mac : Bytes → Bytes) (config : JwtSessionsConfig) (violation : Text)
    (digest : Bytes → Bytes) (serde : Serde) where
  abbrev pub Rotated : Type 0
  Rotated = Result TokenPair × Table

  -- What a rotation that succeeds has read and written.
  rotate_found-eq-ok :
      (r : Result (Option (SessionData serde.Value))) (new_token : SessionToken) (now : ℕ)
      (clock : Mint) (t t' : Table) (pair : TokenPair)
      → ◌≡◌ {A = Rotated}
          (rotate_found json mac config violation digest serde r new_token now clock t)
          (ok pair, t')
      → (raw : SessionData serde.Value) × (r ≡ ok (some raw))
        × ◌≡◌ {A = Result (Unit {0}) × Table}
            (rotate_token_to violation digest raw.id new_token now t)
            (ok tt, t')
        × (mint_pair json mac config raw.user_id (expose new_token) clock ≡ ok pair)
  rotate_found-eq-ok (err e) new_token now clock t t' pair h = cc
  rotate_found-eq-ok (ok none) new_token now clock t t' pair h = cc
  rotate_found-eq-ok (ok (some raw)) new_token now clock t t' pair h =
      let (made, same) =
        reminted-eq-ok raw.user_id new_token clock
          (rotate_token_to violation digest raw.id new_token now t) t' pair h in
      (raw, refl, made, same)
    where
      reminted-eq-ok :
          (user_id : Text) (new_token : SessionToken) (clock : Mint) (o : Result (Unit {0}) × Table)
          (t' : Table) (pair : TokenPair)
          → ◌≡◌ {A = Rotated}
              (reminted json mac config violation digest serde user_id new_token clock o)
              (ok pair, t')
          → ◌≡◌ {A = Result (Unit {0}) × Table} o (ok tt, t')
            × (mint_pair json mac config user_id (expose new_token) clock ≡ ok pair)
      reminted-eq-ok user_id new_token clock (ok tt, t) t' pair h = (cc, cc)
      reminted-eq-ok user_id new_token clock (err e, t) t' pair h = cc

  rotate_found-none :
      (r : Result (Option (SessionData serde.Value))) (new_token : SessionToken) (now : ℕ)
      (clock : Mint) (t : Table)
      → r ≡ ok none
      → ◌≡◌ {A = Rotated}
          (rotate_found json mac config violation digest serde r new_token now clock t)
          (err refusal, t)
  rotate_found-none r new_token now clock t h = rw h refl

  -- A refresh token serves once: when `rotate` has succeeded with it, a later call of `rotate` on that
  -- table refuses it and leaves the table as it is, provided that the token still decodes to the same
  -- claims at that call, that the new token has another hash than the old one, and that no two rows share
  -- an identifier or a hash.
  pub rotate-replay :
      (refresh_token : Text) (claims : Claims) (old new_token next_token : SessionToken)
      (seconds reading now later_seconds later_reading later_now : ℕ) (clock later_clock : Mint)
      (t t' : Table) (pair : TokenPair)
      → IsWellFormed t
      → decode json mac (validation_of config) seconds refresh_token ≡ ok claims
      → token_of aud_refresh claims ≡ ok old
      → decode json mac (validation_of config) later_seconds refresh_token ≡ ok claims
      → hash digest new_token ≢ hash digest old
      → ◌≡◌ {A = Rotated}
          (rotate json mac config violation digest serde refresh_token new_token seconds reading now
            clock t)
          (ok pair, t')
      → ◌≡◌ {A = Rotated}
          (rotate json mac config violation digest serde refresh_token next_token later_seconds
            later_reading later_now later_clock t')
          (err refusal, t')
  unfolding rotate
  rotate-replay refresh_token claims old new_token next_token seconds reading now later_seconds
        later_reading later_now clock later_clock t t' pair w read_once names read_again differs h =
      let first : ◌≡◌ {A = Rotated}
          (rotate_found json mac config violation digest serde
            (read_by_token_hash serde (hash digest old) reading t) new_token now clock t)
          (ok pair, t') =
        rw (read_once, names) at h in
      let (raw, found, done_so, _) =
        rotate_found-eq-ok (read_by_token_hash serde (hash digest old) reading t) new_token now
          clock t t' pair first in
      let lost =
        rotate_token_to_lost serde violation digest (hash digest old) reading now later_reading raw
          new_token t t' w found differs done_so in
      rw (read_again, names)
        (rotate_found-none (read_by_token_hash serde (hash digest old) later_reading t') next_token
          later_now later_clock t' lost)

ok_or-eq-ok : {A : Type 0} (o : Option A) (e : Error) (a : A) → ok_or o e ≡ ok a → o ≡ some a
ok_or-eq-ok none e a h = cc
ok_or-eq-ok (some b) e a h = cc

ok_pair :
    {A B : Type 0} (a c : A) (b d : B)
    → ◌≡◌ {A = Result (A × B)} (ok (a, b)) (ok (c, d))
    → (a ≡ c) × (b ≡ d)
ok_pair a c b d h = (cc, cc)

is_text-eq : (o : Option Text) (required : Text) → is_text o required ≡ true → o ≡ some required
is_text-eq none required h = cc
is_text-eq (some found) required h = ap some ((list_eq.equals_iff found required).0 h)

token_of-eq-ok :
    (aud : Text) (claims : Claims) (old : SessionToken)
    → token_of aud claims ≡ ok old
    → (is_text claims.aud aud ≡ true) × (raw_of claims.jti ≡ some old)
token_of-eq-ok aud claims old h = elim (Bool-cases (is_text claims.aud aud)) [
  | inl fits ↦ (fits, ok_or-eq-ok (raw_of claims.jti) refusal old (rw fits at h))
  | inr other ↦ let e : Result.err _ ≡ ok old = rw other at h in cc
]

module _ (json : TokenJson) (mac : Bytes → Bytes) (config : JwtSessionsConfig)
    (digest : Bytes → Bytes) (serde : Serde) where
  session_of-eq-ok :
      (r : Result (Option (SessionData serde.Value))) (s : Session serde.Value)
      → session_of json mac config digest serde r ≡ ok s
      → (raw : SessionData serde.Value) × (r ≡ ok (some raw)) × (from raw ≡ s)
  session_of-eq-ok (err e) s h = cc
  session_of-eq-ok (ok none) s h = cc
  session_of-eq-ok (ok (some raw)) s h = (raw, refl, cc)

  with_service-eq-ok :
      (reading : ℕ) (t : Table) (given claims : Claims) (session : Option (Session serde.Value))
      → ◌≡◌ {A = Result (Claims × Option (Session serde.Value))}
          (with_service json mac config digest serde reading t given)
          (ok (claims, session))
      → (given ≡ claims)
        × (given.aud ≡ some aud_access)
        × (((config.stateful_validation ≡ false) × (session ≡ none))
            ⊎ ((config.stateful_validation ≡ true)
                × (old : SessionToken) × (s : SessionData serde.Value) × (raw_of given.jti
                    ≡ some old)
                × (read_by_token_hash serde (hash digest old) reading t ≡ ok (some s))
                × (session ≡ some (from s))))
  with_service-eq-ok reading t given claims session h =
      elim (Bool-cases (is_text given.aud aud_access)) [
        | inr other ↦ let e : Result.err _ ≡ ok (claims, session) = rw other at h in cc
        | inl fits ↦ elim (Bool-cases config.stateful_validation) [
          | inr stateless ↦
              let pair : ◌≡◌ {A = Result (Claims × Option (Session serde.Value))} (ok (given, none))
                  (ok (claims, session)) =
                rw (fits, stateless) at h in
              let (e, d) = ok_pair given claims none session pair in
              (e, is_text-eq given.aud aud_access fits, inl (stateless, sym d))
          | inl stateful ↦
              let rest = rw (fits, stateful) at h in
              let (old, names, chain) =
                (>>=-eq-ok_iff (ok_or (raw_of given.jti) refusal)
                    (λ token.
                      session_of json mac config digest serde
                        (read_by_token_hash serde (hash digest token) reading t)
                      >>= λ s. ok (given, some s))
                    (claims, session)).0
                  rest in
              let (snapshot, read, pair) =
                (>>=-eq-ok_iff
                    (session_of json mac config digest serde
                      (read_by_token_hash serde (hash digest old) reading t))
                    (λ s. ok (given, some s)) (claims, session)).0
                  chain in
              let (raw, found, same) = session_of-eq-ok _ snapshot read in
              let (e, d) = ok_pair given claims (some snapshot) session pair in
              (
                e,
                is_text-eq given.aud aud_access fits,
                inr (
                  stateful,
                  old,
                  raw,
                  ok_or-eq-ok (raw_of given.jti) refusal old names,
                  found,
                  sym d ∙ ap some (sym same),
                ),
              )
        ]
      ]

  -- After `logout` with an access token whose session the store found, the layer of the service refuses a
  -- later request that carries the token, provided that the token still decodes to the same claims at
  -- that request, that the validation is stateful, and that no two rows share an identifier or a hash.
  pub logout-admit :
      (access_token : Text) (claims : Claims) (old : SessionToken)
      (seconds reading later_seconds later_reading : ℕ) (sources : List TokenSource) (parts : Parts)
      (t : Table) (s : SessionData serde.Value)
      → IsWellFormed t
      → config.stateful_validation ≡ true
      → decode json mac (validation_of config) seconds access_token ≡ ok claims
      → token_of aud_access claims ≡ ok old
      → read_by_token_hash serde (hash digest old) reading t ≡ ok (some s)
      → find_token sources parts ≡ some access_token
      → decode json mac (validation_of config) later_seconds access_token ≡ ok claims
      → admit json mac config digest serde sources later_seconds later_reading parts
          (logout json mac config [] digest serde access_token seconds reading t).1
        ≡ err refusal
  unfolding admit logout
  logout-admit access_token claims old seconds reading later_seconds later_reading sources parts t s
        w stateful read names found carried read_again =
      let (fits, raw_is) = token_of-eq-ok aud_access claims old names in
      let lost = destroy-lost serde (hash digest old) reading later_reading t s w found in
      rw (read, names, found, carried, read_again, fits, stateful, raw_is, lost) refl

  -- The layer that is made from the service admits a request only with a token that decodes to claims of
  -- the audience "access". If the validation is stateful, the store then has an unexpired session of the
  -- claims' token, and that session is what the service inside is given; if not, it is given none.
  pub admit-eq-ok :
      (sources : List TokenSource) (seconds reading : ℕ) (parts : Parts) (t : Table)
      (claims : Claims) (session : Option (Session serde.Value))
      → ◌≡◌ {A = Result (Claims × Option (Session serde.Value))}
          (admit json mac config digest serde sources seconds reading parts t)
          (ok (claims, session))
      → (token : Text) × (find_token sources parts ≡ some token)
        × (decode json mac (validation_of config) seconds token ≡ ok claims)
        × (claims.aud ≡ some aud_access)
        × (((config.stateful_validation ≡ false) × (session ≡ none))
            ⊎ ((config.stateful_validation ≡ true)
                × (old : SessionToken) × (s : SessionData serde.Value) × (raw_of claims.jti
                    ≡ some old)
                × (read_by_token_hash serde (hash digest old) reading t ≡ ok (some s))
                × (session ≡ some (from s))))
  unfolding admit
  admit-eq-ok sources seconds reading parts t claims session h =
      let (token, carried, chain) =
        (>>=-eq-ok_iff (ok_or (find_token sources parts) (jwt_err missing_token))
            (λ token.
              decode json mac (validation_of config) seconds token
              >>= with_service json mac config digest serde reading t)
            (claims, session)).0
          h in
      let (given, read, rest) =
        (>>=-eq-ok_iff (decode json mac (validation_of config) seconds token)
            (with_service json mac config digest serde reading t) (claims, session)).0
          chain in
      let (same, fits, outcome) = with_service-eq-ok reading t given claims session rest in
      (
        token,
        ok_or-eq-ok (find_token sources parts) (jwt_err missing_token) token carried,
        read ∙ ap ok same,
        subst (λ x. x.aud ≡ some aud_access) same fits,
        subst
            (λ x.
              ((config.stateful_validation ≡ false) × (session ≡ none))
              ⊎ ((config.stateful_validation ≡ true)
                  × (old : SessionToken) × (s : SessionData serde.Value) × (raw_of x.jti ≡ some old)
                  × (read_by_token_hash serde (hash digest old) reading t ≡ ok (some s))
                  × (session ≡ some (from s))))
            same outcome,
      )
