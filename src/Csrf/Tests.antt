-- ===== src/Csrf/Tests.antt =====
-- The theorems on the layer, on a request whose cookie verifies.
use modo.Base.{◌≡◌, ◌↔◌, refl, [], ◌∷◌, ◌++◌, Option, none, some, if◌then◌else◌, nat_eq, ◌==◌}
use modo.Base.Lists.{list_eq}
use modo.Base.Dict.{lookup}
use modo.Base.Text.{Text, codes, trim, trim_start, is_whitespace, to_ascii_lowercase}
use modo.Http.{HeaderMap, visible}
use modo.Cookies.{Jar}
use modo.Csrf.{
  CsrfToken, Response, Outcome, answered, passed_on, default, is_exempt, extract_submitted_token,
  extract_cookie_value, call,
}
use modo.Csrf.Checked.{call_iff, call-browse}

-- One token verifies.
abbrev jar : Jar
jar = record {
  sign = λ name value. value ++ codes ".tag";
  verify = λ name signed. if signed == codes "t.tag" then some (codes "t") else none;
  print = λ cookie. some cookie.value;
}

abbrev inner : Option CsrfToken → Outcome Text Text
inner token = answered (record { set_cookies = []; csrf_token = none; body = codes "page" })

abbrev headers : HeaderMap
headers =
    (codes "cookie", visible (codes "a=b; _csrf=t.tag"))
    ∷ (codes "x-csrf-token", visible (codes "t"))
    ∷ []

call_iff_example :
    (call jar default inner (codes "POST") headers (codes "u") ≡ passed_on (inner none)) ↔ (
      (signed token : Text) × (extract_cookie_value jar default headers ≡ some signed)
      × (jar.verify default.cookie_name signed ≡ some token)
      × (extract_submitted_token jar default headers ≡ some token))
unfolding is_exempt to_ascii_lowercase
call_iff_example = call_iff jar default inner (codes "POST") headers (codes "u") refl

abbrev page : Response Text
page = record { set_cookies = []; csrf_token = none; body = codes "page" }

abbrev sent : HeaderMap
sent =
    (codes "cookie", visible (codes "_csrf=t.tag"))
    ∷ (codes "x-csrf-token", visible (codes "t"))
    ∷ []

call-browse_example :
    (call jar default inner (codes "get") [] (codes "t")
      ≡ passed_on (
          answered (record {
            set_cookies = codes "t.tag" ∷ [];
            csrf_token = some (codes "t");
            body = codes "page";
          })))
    × (call jar default inner (codes "get") sent (codes "u")
        ≡ passed_on (
            answered
              (record { set_cookies = []; csrf_token = some (codes "t"); body = codes "page" })))
    × (call jar default inner (codes "POST") sent (codes "u") ≡ passed_on (inner none))
unfolding is_exempt to_ascii_lowercase extract_cookie_value lookup trim trim_start is_whitespace
call-browse_example =
    call-browse jar default inner (codes "get") (codes "POST") [] sent (codes "t") (codes "u") page
      (codes "t.tag") refl refl refl refl refl refl refl refl refl refl refl refl refl
