-- ===== src/Tenant/Domain/Tests.antt =====
-- The theorems at work on one name and one row.
use modo.Base.{◌≡◌, ◌↔◌, ◌⊎◌, refl, Bool, true, false, [], ◌∷◌, none, some}
use modo.Base.Lists.{All}
use modo.Base.Text.{
  Text, codes, trim, to_lowercase, to_ascii_lowercase, split, starts_with, ends_with, byte_len,
}
use modo.Base.Errors.{Error, Result, ok, internal}
use modo.Tenant.Domain.{validate_domain, check_domain, check_labels, check_label}
use modo.Tenant.Domain.Names.{IsDomain, validate_domain_iff}
use modo.Tenant.Domain.Service.{
  failed, DomainClaim, Claims, list, pending, verified, first_where, update_where, by_id,
  for_routing, lookup_routing_domain, verify, as_verified,
}
use modo.Tenant.Domain.Listing.{IsListedAs, list_iff}
use modo.Base.Rows.Keys.{IsIn}
use modo.Tenant.Domain.Lookups.{In, Routes, WasProved, lookup_routing_domain_lem, verify-WasProved}

validate_domain_iff_example :
    (validate_domain to_lowercase (codes " App.Example.com ") ≡ ok (codes "app.example.com")) ↔ (
      (to_lowercase (trim (codes " App.Example.com ")) ≡ codes "app.example.com")
      × IsDomain (codes "app.example.com"))
validate_domain_iff_example =
    validate_domain_iff to_lowercase (codes " App.Example.com ") (codes "app.example.com")

abbrev row : DomainClaim
row = record {
  id = codes "c1";
  tenant_id = codes "acme";
  domain = codes "acme.com";
  verification_token = codes "token";
  status = verified;
  use_for_email = false;
  use_for_routing = true;
  created_at = 10;
  verified_at = some 20;
}

abbrev open_row : DomainClaim
open_row = record row { status = pending; use_for_routing = false; verified_at = none }

abbrev any_claims : Claims → Bool
any_claims t = true

abbrev broken : Error
broken = internal (codes "constraint")

acme_valid : validate_domain to_lowercase (codes "Acme.com") ≡ ok (codes "acme.com")
unfolding validate_domain check_domain trim to_ascii_lowercase check_labels check_label split
    starts_with ends_with byte_len
acme_valid = refl

lookup_routing_domain_lem_example :
    ((c : DomainClaim) × In c (row ∷ [])
      × Routes (codes "acme.com") c
      × (lookup_routing_domain to_lowercase 3600 any_claims broken (codes "Acme.com") (row ∷ [])
          ≡ ok (some (record { tenant_id = c.tenant_id; domain = codes "acme.com" }))))
    ⊎ (All
          (λ c. for_routing to_lowercase 3600 any_claims broken (codes "acme.com") c ≡ false)
          (row ∷ [])
        × (lookup_routing_domain to_lowercase 3600 any_claims broken (codes "Acme.com") (row ∷ [])
            ≡ ok none))
lookup_routing_domain_lem_example =
    lookup_routing_domain_lem to_lowercase 3600 any_claims broken (codes "Acme.com")
      (codes "acme.com") (row ∷ []) acme_valid

-- A DNS that has every token.
abbrev confirm : Text → Text → Result Bool
confirm domain token = ok true

abbrev proved : DomainClaim
proved = as_verified to_lowercase 3600 any_claims broken 50 open_row

verified_now :
    verify to_lowercase 3600 any_claims broken confirm (codes "c1") 50 (open_row ∷ [])
    ≡ (ok proved, proved ∷ [])
unfolding verify first_where update_where
verified_now = refl

verify-WasProved_example :
    (old : DomainClaim) × In old (open_row ∷ [])
    × (by_id (codes "c1") old ≡ true)
    × WasProved to_lowercase 3600 any_claims broken confirm
        (codes "c1")
        50
        (open_row ∷ [])
        proved
        (proved ∷ [])
        old
verify-WasProved_example =
    verify-WasProved to_lowercase 3600 any_claims broken confirm (codes "c1") 50 (open_row ∷ [])
      proved (proved ∷ []) verified_now

list_iff_example :
    IsIn
      (record open_row { status = failed })
      (list to_lowercase 1 any_claims broken (codes "acme") 100 (row ∷ open_row ∷ []))
    ↔ ((d : DomainClaim) × IsIn d (row ∷ open_row ∷ [])
        × (d.tenant_id ≡ codes "acme")
        × IsListedAs to_lowercase 1 any_claims broken 100 d (record open_row { status = failed }))
list_iff_example =
    list_iff to_lowercase 1 any_claims broken 100 (codes "acme") (row ∷ open_row ∷ [])
      (record open_row { status = failed })
