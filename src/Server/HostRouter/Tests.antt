-- ===== src/Server/HostRouter/Tests.antt =====
-- Runs of the host router, and its theorems at concrete inputs.
use Prim.Native.String.{String}
use modo.Base.{ℕ, ◌≡◌, refl, [], ◌∷◌, none, some, nat_eq, subst}
use modo.Base.Lists.{list_eq}
use modo.Base.Text.{
  codes, rfind, find, to_ascii_lowercase, trim, strip_prefix, starts_with, split, to_lowercase,
}
use modo.Base.Dict.{lookup, insert}
use modo.Base.Errors.{ok}
use modo.Http.{Parts, visible, header_text}
use modo.Server.HostRouter.{
  HostRouter, exactly, wildcard, strip_port, new, host, with_fallback, match_host, resolve_host,
  forwarded_host, star_dot,
}
use modo.Server.HostRouter.Registration.{IsValid, new-IsValid, host-IsValid}
use modo.Server.HostRouter.Matching.{Serves, match_host-Serves, Serves-unique}

abbrev site : HostRouter ℕ
site = record {
  exact = (codes "acme.com", 1) ∷ [];
  wildcard = (codes "acme.com", (codes "*.acme.com", 2)) ∷ [];
  fallback = none;
}

-- A pattern may carry a port and blanks, and any case.
host-site : host (codes " *.Acme.com:80") 2 (record site { wildcard = [] }) ≡ some site
unfolding host strip_port rfind to_ascii_lowercase trim strip_prefix lookup insert
host-site = refl

match_site :
    (match_host (codes "app.acme.com") site ≡ wildcard 2 (codes "app") (codes "*.acme.com"))
    × (match_host (codes "acme.com") site ≡ exactly 1)
unfolding match_host find lookup
match_site = (refl, refl)

abbrev request : String → Parts
request h = record {
  headers = (codes "host", visible (codes h)) ∷ [];
  path = codes "/";
  query = none;
}

resolve_forwarded :
    resolve_host (record (request "a.b") {
      headers =
          (codes "forwarded", visible (codes "proto=https; Host=App.acme.com:8443, host=x")) ∷ [];
    })
    ≡ ok (codes "app.acme.com")
unfolding resolve_host lookup split trim forwarded_host strip_port rfind to_ascii_lowercase
resolve_forwarded = refl

abbrev named : HostRouter ℕ
named = record site { wildcard = [] }

add_named : host (codes "Acme.com") 1 new ≡ some named
unfolding host strip_port rfind to_ascii_lowercase trim strip_prefix lookup insert starts_with
add_named = refl

named_plain : strip_prefix star_dot (to_lowercase (strip_port (trim (codes "Acme.com")))) ≡ none
unfolding strip_port rfind to_ascii_lowercase trim strip_prefix
named_plain = refl

host-IsValid_example : IsValid named × IsValid (with_fallback 1 named)
host-IsValid_example = host-IsValid (codes "Acme.com") 1 new named new-IsValid add_named

site_starred :
    strip_prefix star_dot (to_lowercase (strip_port (trim (codes " *.Acme.com:80"))))
    ≡ some (codes "acme.com")
unfolding strip_port rfind to_ascii_lowercase trim strip_prefix
site_starred = refl

app_unnamed : lookup (codes "app.acme.com") named.exact ≡ none
unfolding lookup
app_unnamed = refl

ported : header_text (codes "host") (request "Acme.com:80") ≡ some (codes "Acme.com:80")
unfolding lookup
ported = refl

unported :
    (header_text (codes "forwarded") (request "Acme.com:80") ≡ none)
    × (header_text (codes "x-forwarded-host") (request "Acme.com:80") ≡ none)
unfolding lookup
unported = (refl, refl)

trimmed : trim (codes "Acme.com:80") ≡ codes "Acme.com:80"
unfolding trim
trimmed = refl

match_host-Serves_example : Serves site (codes "acme.com") (match_host (codes "acme.com") site)
match_host-Serves_example = match_host-Serves site (codes "acme.com")

acme_by_name : Serves site (codes "acme.com") (exactly 1)
acme_by_name =
    subst (Serves site (codes "acme.com")) match_site.1 (match_host-Serves site (codes "acme.com"))

Serves-unique_example : match_host (codes "acme.com") site ≡ exactly 1
Serves-unique_example = Serves-unique site (codes "acme.com") acme_by_name
