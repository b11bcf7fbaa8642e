-- ===== src/Tenant/Strategy.antt =====
-- tenant/strategy.rs and tenant/id.rs: the strategies that read a tenant from a request. A strategy
-- returns the identifier and the request that goes on; only the path prefix changes it.
pub mod Hosts
pub mod Prefix
mod Tests
use modo.Base.{
  ℕ, suc, ◌-◌, ◌+◌, Bool, true, false, not, ◌&&◌, List, [], ◌∷◌, ◌++◌, Option, none, some,
  if◌then◌else◌, nat_eq,
}
use modo.Base.Lists.{take, drop, length, list_eq, list_beq}
use modo.Base.Text.{
  Text, codes, is_empty, to_lowercase, strip_prefix, starts_with, ends_with, find, rfind,
  contains_char,
}
use modo.Base.Errors.{Error, Result, ok, err, ◌>>=◌, ok_or, bad_request, internal}
use modo.Http.{Parts, HeaderValue, header, to_str}
use modo.Server.HostRouter.{cut_port}

pub data TenantId : Type 0 where
  slug domain id api_key : Text → TenantId

abbrev pub as_str : TenantId → Text
as_str (slug s) = s
as_str (domain s) = s
as_str (id s) = s
as_str (api_key s) = s

-- `Display`: an API key is never shown.
unfoldable pub display : TenantId → Text
display (slug s) = codes "slug:" ++ s
display (domain s) = codes "domain:" ++ s
display (id s) = codes "id:" ++ s
display (api_key s) = codes "apikey:[REDACTED]"

unfoldable pub host_from_parts : Parts → Result Text
host_from_parts parts = do
  value ← ok_or (header (codes "host") parts) (bad_request (codes "missing Host header"))
  host ← ok_or (to_str value) (bad_request (codes "invalid Host header"))
  ok (to_lowercase (cut_port host (rfind b':' host)))

-- What stands in front of the suffix must be one label.
abbrev pub one_label : Text → Result TenantId
one_label subdomain =
    if is_empty subdomain
    then err (bad_request (codes "no subdomain in host"))
    else if contains_char b'.' subdomain
    then err (bad_request (codes "multi-level subdomains not allowed"))
    else ok (slug subdomain)

abbrev pub before : Text → Text → Text
before suffix host = take (length host - length suffix) host

-- The base domain is kept in lower case by `new`.
abbrev pub in_subdomain : Text → Text → Result TenantId
in_subdomain base_domain host =
    if not (ends_with (b'.' ∷ base_domain) host)
    then err (bad_request (codes "host is not a subdomain of base domain"))
    else one_label (before (b'.' ∷ base_domain) host)

unfoldable pub extract_subdomain : Text → Parts → Result TenantId
extract_subdomain base_domain parts = do host ← host_from_parts parts; in_subdomain base_domain host

unfoldable pub extract_domain : Parts → Result TenantId
extract_domain parts = do host ← host_from_parts parts; ok (domain host)

abbrev pub in_subdomain_or_domain : Text → Text → Result TenantId
in_subdomain_or_domain base_domain host =
    if list_beq host base_domain
    then err (bad_request (codes "base domain is not a valid tenant identifier"))
    else if ends_with (b'.' ∷ base_domain) host
    then one_label (before (b'.' ∷ base_domain) host)
    else ok (domain host)

unfoldable pub extract_subdomain_or_domain : Text → Parts → Result TenantId
extract_subdomain_or_domain base_domain parts = do
  host ← host_from_parts parts
  in_subdomain_or_domain base_domain host

-- `HeaderStrategy` and `ApiKeyHeaderStrategy` read a header of a configured name.
abbrev pub header_value : Text → Parts → Result Text
header_value name parts = do
  value ← ok_or (header name parts) (bad_request (codes "missing " ++ name ++ codes " header"))
  ok_or (to_str value) (bad_request (codes "invalid " ++ name ++ codes " header value"))

unfoldable pub extract_header : Text → Parts → Result TenantId
extract_header name parts = do value ← header_value name parts; ok (id value)

unfoldable pub extract_api_key_header : Text → Parts → Result TenantId
extract_api_key_header name parts = do value ← header_value name parts; ok (api_key value)

-- A URI as `http::Uri::builder()` makes it, or the text of its refusal.
pub data Uri : Type 0 where
  built : Text → Option Text → Uri
  refused : Text → Uri

abbrev pub cut_slug : Text → Option ℕ → Text × Text
cut_slug after (some pos) = (take pos after, drop pos after)
cut_slug after none = (after, codes "/")

abbrev pub path_and_query : Text → Option Text → Text
path_and_query remaining (some q) = remaining ++ b'?' ∷ q
path_and_query remaining none = remaining

-- The path behind the prefix and a slash.
abbrev pub after_prefix : Text → Text → Result Text
after_prefix prefix path = do
  after ←
      ok_or (strip_prefix prefix path)
        (bad_request (codes "path does not start with prefix '" ++ prefix ++ codes "'"))
  ok_or (strip_prefix (b'/' ∷ []) after) (bad_request (codes "no tenant segment after prefix"))

-- `PathPrefixStrategy`; `uri` is the builder of the crate `http`.
module _ (uri : Text → Uri) where
  abbrev pub rewrite : Uri → Text → Parts → Result (TenantId × Parts)
  rewrite (refused e) name parts = err (internal (codes "failed to rewrite URI: " ++ e))
  rewrite (built path query) name parts =
      ok (slug name, record parts { path = path; query = query })

  abbrev pub take_slug : Text → Parts → Result (TenantId × Parts)
  take_slug after parts =
      let (name, remaining) = cut_slug after (find b'/' after) in
      if is_empty after
      then err (bad_request (codes "no tenant segment after prefix"))
      else if is_empty name
      then err (bad_request (codes "empty tenant slug in path"))
      else rewrite (uri (path_and_query remaining parts.query)) name parts

  unfoldable pub extract_path_prefix : Text → Parts → Result (TenantId × Parts)
  extract_path_prefix prefix parts = do
    after ← after_prefix prefix parts.path
    take_slug after parts

-- What one poll of `RawPathParams::from_request_parts` gives.
pub data RawPathParams : Type 0 where
  ready : List (Text × Text) → RawPathParams
  rejected pending : RawPathParams

unfoldable pub param_value : Text → List (Text × Text) → Result TenantId
param_value name [] =
    err (internal (codes "path parameter '" ++ name ++ codes "' not found in route"))
param_value name ((key, value) ∷ params) =
    if list_beq key name then ok (slug value) else param_value name params

unfoldable pub extract_path_param : Text → RawPathParams → Result TenantId
unfolding param_value
extract_path_param name (ready params) = param_value name params
extract_path_param name rejected =
    err (internal (codes "path parameters not available (use route_layer instead of layer)"))
extract_path_param name pending =
    err (internal (codes "unexpected pending state extracting path params"))
