-- ===== src/Csrf/Checked.antt =====
-- What the layer lets through, and the token it keeps.
use modo.Base.{
  [], ◌∷◌, ◌%◌, ◌^◌, ==_refl, ◌≡◌, ◌↔◌, refl, ap, sym, ◌∙◌, Bool, true, false, ◌++◌, Option, none,
  some, Bool-cases, Option-cases, inl, inr, nat_eq, ◌==◌, if◌then◌else◌,
}
use modo.Base.Lists.{list_eq}
use modo.Base.Text.Pieces.{split-absent, split_once-append}
use modo.Base.Dict.{lookup}
use modo.Base.Text.{split_once, trim, contains_char, to_lowercase, Text, codes}
use modo.Base.Errors.{forbidden}
use modo.Http.{visible, shown, HeaderMap}
use modo.Cookies.{lax, Jar}
use modo.Csrf.{
  CsrfConfig, CsrfToken, Outcome, Response, answered, Answer, first_value, or_pair, value_in,
  passed_on, refused, verify_token, is_exempt, extract_submitted_token, extract_cookie_value,
  token_or_minted, matches, finished, exempted, call,
}

if_true : {A : Type 0} (b : Bool) (x y : A) → b ≡ true → (if b then x else y) ≡ x
if_true b x y h = rw h refl

if_false : {A : Type 0} (b : Bool) (x y : A) → b ≡ false → (if b then x else y) ≡ y
if_false b x y h = rw h refl

module _ (jar : Jar) (config : CsrfConfig) where
  matches_iff :
      (cookie submitted : Option Text)
      → (matches jar config (verify_token jar config cookie) submitted ≡ true) ↔ (
          (signed token : Text) × (cookie ≡ some signed)
          × (jar.verify config.cookie_name signed ≡ some token)
          × (submitted ≡ some token))
  matches_iff none submitted = (λ h. cc, λ (signed, token, c, v, s). cc)
  matches_iff (some signed) submitted = (
    to,
    λ (signed', token, c, v, s).
        let same : signed ≡ signed' = cc in
        rw (ap (jar.verify config.cookie_name) same ∙ v, s)
          ((list_eq.equals_iff token token).1 refl),
  )
    where
      to :
          matches jar config (jar.verify config.cookie_name signed) submitted ≡ true
          → (signed' token : Text) × (some signed ≡ some signed')
            × (jar.verify config.cookie_name signed' ≡ some token)
            × (submitted ≡ some token)
      to h = elim (Option-cases (jar.verify config.cookie_name signed)) [
        | inl bad ↦ let e : false ≡ true = rw bad at h in cc
        | inr (token, v) ↦ elim (Option-cases submitted) [
          | inl missing ↦ let e : false ≡ true = rw (v, missing) at h in cc
          | inr (header_token, s) ↦
              let e : (token == header_token) ≡ true = rw (v, s) at h in
              (
                signed,
                token,
                refl,
                v,
                s ∙ ap some (sym ((list_eq.equals_iff token header_token).0 e)),
              )
        ]
      ]

  module _ {Body Failure : Type 0} (inner : Option CsrfToken → Outcome Body Failure) where
    call-exempt :
        (method : Text) (headers : HeaderMap) (fresh : CsrfToken)
        → is_exempt jar config method ≡ true
        → call jar config inner method headers fresh
          ≡ passed_on (
              exempted jar config inner (
                token_or_minted jar config fresh
                  (verify_token jar config (extract_cookie_value jar config headers))))
    unfolding call
    call-exempt method headers fresh safe = if_true _ _ _ safe

    call-checked :
        (method : Text) (headers : HeaderMap) (fresh : CsrfToken)
        → is_exempt jar config method ≡ false
        → call jar config inner method headers fresh ≡ (
            if matches jar config
              (verify_token jar config (extract_cookie_value jar config headers))
              (extract_submitted_token jar config headers)
            then passed_on (inner none)
            else refused (
                forbidden
                  (codes "CSRF validation failed: missing or invalid " ++ config.header_name)))
    unfolding call
    call-checked method headers fresh unsafe = if_false _ _ _ unsafe

    -- A request of a method that is not exempt reaches the service inside exactly if it has a cookie
    -- that verifies and a header with the token of that cookie.
    pub call_iff :
        (method : Text) (headers : HeaderMap) (fresh : CsrfToken)
        → is_exempt jar config method ≡ false
        → (call jar config inner method headers fresh ≡ passed_on (inner none)) ↔ (
            (signed token : Text) × (extract_cookie_value jar config headers ≡ some signed)
            × (jar.verify config.cookie_name signed ≡ some token)
            × (extract_submitted_token jar config headers ≡ some token))
    call_iff method headers fresh unsafe =
        let cookie = extract_cookie_value jar config headers in
        let submitted = extract_submitted_token jar config headers in
        let (matched, found) = matches_iff cookie submitted in
        let checked = call-checked method headers fresh unsafe in
        (
          λ h. elim (Bool-cases (matches jar config (verify_token jar config cookie) submitted)) [
            | inl hit ↦ matched hit
            | inr miss ↦
                let e : Answer.refused (forbidden _) ≡ passed_on (inner none) =
                  sym (checked ∙ if_false _ _ _ miss) ∙ h in
                cc
          ],
          λ parts. checked ∙ if_true _ _ _ (found parts),
        )

    -- The cookie of the layer's name in a request whose Cookie header is that cookie alone.
    sent-extract :
        (headers : HeaderMap) (value : Text)
        → lookup (codes "cookie") headers ≡ some (visible (config.cookie_name ++ b'=' ∷ value))
        → contains_char b'=' config.cookie_name ≡ false
        → contains_char b';' (config.cookie_name ++ b'=' ∷ value) ≡ false
        → trim config.cookie_name ≡ config.cookie_name
        → trim value ≡ value
        → trim (config.cookie_name ++ b'=' ∷ value) ≡ config.cookie_name ++ b'=' ∷ value
        → extract_cookie_value jar config headers ≡ some value
    unfolding extract_cookie_value first_value
    sent-extract headers value sent no_equals no_semicolon name_trim value_trim pair_trim =
        let name = config.cookie_name in
        ap (λ o. value_in name (shown o)) sent
        ∙ ap (first_value name) (split-absent b';' (name ++ b'=' ∷ value) no_semicolon)
        ∙ ap (λ p. or_pair name (split_once b'=' p) none) pair_trim
        ∙ ap (λ o. or_pair name o none) (split_once-append b'=' name value no_equals)
        ∙ ap (λ n. if n == name then some (trim value) else none) name_trim
        ∙ if_true _ _ _ (==_refl name)
        ∙ ap some value_trim

    -- A browser that sends the layer's cookie back. A first request of an exempt method whose cookie is
    -- missing or does not verify is answered with what the service inside answers to the new token, with
    -- that token and its signed cookie, HttpOnly and SameSite=Lax, behind the other cookies. A later
    -- request of an exempt method, whose Cookie header is that cookie alone, is answered with the same
    -- token and no cookie of the layer's, and one of another method, with the token in its header, reaches
    -- the service inside; when the service has the same answer to the token each time, the cookie can
    -- be printed and verifies, its name has no '=', neither name nor value has a ';', and neither begins
    -- or ends with a blank.
    pub call-browse :
        (safe_method unsafe_method : Text) (first second : HeaderMap) (token fresh : CsrfToken)
        (page : Response Body) (text : Text)
        → is_exempt jar config safe_method ≡ true
        → is_exempt jar config unsafe_method ≡ false
        → verify_token jar config (extract_cookie_value jar config first) ≡ none
        → inner (some token) ≡ answered page
        → jar.print (record {
          name = config.cookie_name;
          value = jar.sign config.cookie_name token;
          is_secure = false;
          is_http_only = true;
          site = lax;
          max_age = config.ttl_secs % 2 ^ 64;
        })
          ≡ some text
        → jar.verify config.cookie_name (jar.sign config.cookie_name token) ≡ some token
        → lookup (codes "cookie") second
          ≡ some (visible (config.cookie_name ++ b'=' ∷ jar.sign config.cookie_name token))
        → contains_char b'=' config.cookie_name ≡ false
        → contains_char b';' (config.cookie_name ++ b'=' ∷ jar.sign config.cookie_name token)
          ≡ false
        → trim config.cookie_name ≡ config.cookie_name
        → trim (jar.sign config.cookie_name token) ≡ jar.sign config.cookie_name token
        → trim (config.cookie_name ++ b'=' ∷ jar.sign config.cookie_name token)
          ≡ config.cookie_name ++ b'=' ∷ jar.sign config.cookie_name token
        → lookup (to_lowercase config.header_name) second ≡ some (visible token)
        → (call jar config inner safe_method first token
            ≡ passed_on (
                answered (record {
                  set_cookies = page.set_cookies ++ text ∷ [];
                  csrf_token = some token;
                  body = page.body;
                })))
          × (call jar config inner safe_method second fresh
              ≡ passed_on (
                  answered (record {
                    set_cookies = page.set_cookies;
                    csrf_token = some token;
                    body = page.body;
                  })))
          × (call jar config inner unsafe_method second fresh ≡ passed_on (inner none))
    unfolding extract_submitted_token
    call-browse safe_method unsafe_method first second token fresh page text safe unsafe unknown
          answers prints verifies sent no_equals no_semicolon name_trim value_trim pair_trim
          submits =
        let found =
          sent-extract second (jar.sign config.cookie_name token) sent no_equals no_semicolon
            name_trim value_trim pair_trim in
        (
          call-exempt safe_method first token safe
              ∙ ap (λ o. passed_on (exempted jar config inner (token_or_minted jar config token o)))
                  unknown
              ∙ ap (λ c. passed_on (finished jar config inner token c (inner (some token)))) prints
              ∙ ap (λ o. passed_on (finished jar config inner token (some text) o)) answers,
          call-exempt safe_method second fresh safe
              ∙ ap (λ o. passed_on (exempted jar config inner (token_or_minted jar config fresh o)))
                  (ap (verify_token jar config) found ∙ verifies)
              ∙ ap (λ o. passed_on (finished jar config inner token none o)) answers,
          (call_iff unsafe_method second fresh unsafe).1
              (jar.sign config.cookie_name token, token, found, verifies, ap shown submits),
        )
