-- ===== src/Tenant/Strategy/Tests.antt =====
-- Runs of the strategies, and their theorems at concrete inputs.
use Prim.Native.String.{String}
use modo.Base.{ℕ, suc, ◌≡◌, ◌≢◌, ◌↔◌, refl, false, [], ◌∷◌, Option, none, some, nat_eq, inr}
use modo.Base.Lists.{list_eq, take, drop}
use modo.Base.Text.{Text, codes, rfind, find, to_ascii_lowercase, strip_prefix, ends_with}
use modo.Base.Dict.{lookup}
use modo.Base.Errors.{ok}
use modo.Http.{Parts, visible}
use modo.Tenant.Strategy.{
  slug, domain, Uri, built, host_from_parts, extract_subdomain, extract_subdomain_or_domain,
  extract_path_prefix,
}
use modo.Tenant.Strategy.Hosts.{IsTenantHost, extract_subdomain_or_domain_iff}
use modo.Tenant.Strategy.Prefix.{HasSlug}

abbrev request : String → String → Parts
request host path = record {
  headers = (codes "host", visible (codes host)) ∷ [];
  path = codes path;
  query = some (codes "q=1");
}

subdomain_tests :
    (extract_subdomain (codes "app.com") (request "Acme.App.com:80" "/") ≡ ok (slug (codes "acme")))
    × (extract_subdomain_or_domain (codes "app.com") (request "shop.org" "/")
        ≡ ok (domain (codes "shop.org")))
unfolding extract_subdomain extract_subdomain_or_domain host_from_parts lookup rfind
    to_ascii_lowercase ends_with
subdomain_tests = (refl, refl)

acme_host : host_from_parts (request "acme.app.com" "/") ≡ ok (codes "acme.app.com")
unfolding host_from_parts lookup rfind to_ascii_lowercase
acme_host = refl

extract_subdomain_or_domain_iff_example :
    ((s : Text)
      → (extract_subdomain_or_domain (codes "app.com") (request "acme.app.com" "/") ≡ ok (slug s))
        ↔ ((codes "acme.app.com" ≢ codes "app.com")
            × IsTenantHost (codes "acme.app.com") s (codes "app.com")))
    × ((d : Text)
        → (extract_subdomain_or_domain (codes "app.com") (request "acme.app.com" "/")
            ≡ ok (domain d))
          ↔ ((codes "acme.app.com" ≡ d)
              × (codes "acme.app.com" ≢ codes "app.com")
              × (ends_with (codes ".app.com") (codes "acme.app.com") ≡ false)))
extract_subdomain_or_domain_iff_example =
    extract_subdomain_or_domain_iff (codes "app.com") (request "acme.app.com" "/")
      (codes "acme.app.com") acme_host

-- A builder that takes the text apart at the first `?`, as the crate does for plain text.
cut_query : Text → Option ℕ → Uri
cut_query t none = built t none
cut_query t (some pos) = built (take pos t) (some (drop (suc pos) t))

abbrev plain_uri : Text → Uri
plain_uri t = cut_query t (find b'?' t)

abbrev parts : Parts
parts = request "app.com" "/org/acme/users"

acme_path : HasSlug (codes "/org") parts.path (codes "acme") (codes "/users")
acme_path = record {
  joined = refl;
  full = refl;
  one_segment = refl;
  boundary = inr (codes "users", refl);
}

abbrev moved : Parts
moved = record parts { path = codes "/users" }

extract_acme : extract_path_prefix plain_uri (codes "/org") parts ≡ ok (slug (codes "acme"), moved)
unfolding extract_path_prefix strip_prefix find cut_query
extract_acme = refl
