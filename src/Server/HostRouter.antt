-- ===== src/Server/HostRouter.antt =====
-- server/host_router.rs: routers by exact host, by wildcard (`*.suffix`) and a fallback. A router is a
-- value of another crate, the parameter `Router`; a panic of `host` is `none`.
pub mod Resolve
pub mod Registration
pub mod Matching
mod Tests
use modo.Base.{
  ℕ, suc, ◌+◌, Bool, true, false, not, ◌&&◌, ◌||◌, List, [], ◌∷◌, ◌++◌, Option, none, some,
  if◌then◌else◌, leb, ◌=ℕ◌, nat_eq,
}
use modo.Base.Lists.{take, drop, all, length, list_eq, list_beq}
use modo.Base.Text.{
  Text, codes, is_empty, is_ascii_digit, to_lowercase, trim, strip_prefix, starts_with, find, rfind,
  split, contains_char,
}
use modo.Base.Dict.{lookup, contains_key, insert}
use modo.Base.Errors.{Error, Result, ok, err, bad_request, not_found as error_not_found, ◌>>=◌}
use modo.Http.{Parts, HeaderValue, header, header_text}

pub record HostRouter (Router : Type 0) : Type 0 where
  pub exact : List (Text × Router)
  pub wildcard : List (Text × (Text × Router))
  pub fallback : Option Router

pub data Match (Router : Type 0) : Type 0 where
  exactly : Router → Match Router
  wildcard : Router → Text → Text → Match Router
  fallback : Router → Match Router
  not_found : Match Router

abbrev pub cut_port : Text → Option ℕ → Text
cut_port host none = host
cut_port host (some pos) = if all is_ascii_digit (drop (suc pos) host) then take pos host else host

unfoldable pub strip_port : Text → Text
strip_port host = cut_port host (rfind b':' host)

abbrev pub star_dot : Text
star_dot = b'*' ∷ b'.' ∷ []

module _ {Router : Type 0} where
  abbrev pub new : HostRouter Router
  new = record { exact = []; wildcard = []; fallback = none }

  -- The two branches of `host`, on the normalised pattern.
  abbrev pub host_wildcard : Text → Router → HostRouter Router → Option (HostRouter Router)
  host_wildcard suffix router r =
      if is_empty suffix || not (contains_char b'.' suffix)
      then none
      else if contains_key suffix r.wildcard
      then none
      else some (record r { wildcard = insert suffix (star_dot ++ suffix, router) r.wildcard })

  abbrev pub host_exact : Text → Router → HostRouter Router → Option (HostRouter Router)
  host_exact pattern router r =
      if is_empty pattern || starts_with (b'*' ∷ []) pattern
      then none
      else if contains_key pattern r.exact
      then none
      else some (record r { exact = insert pattern router r.exact })

  abbrev pub host_by : Option Text → Text → Router → HostRouter Router → Option (HostRouter Router)
  host_by (some suffix) pattern router r = host_wildcard suffix router r
  host_by none pattern router r = host_exact pattern router r

  unfoldable pub host : Text → Router → HostRouter Router → Option (HostRouter Router)
  host pattern router r =
      let pattern' = to_lowercase (strip_port (trim pattern)) in
      host_by (strip_prefix star_dot pattern') pattern' router r

  unfoldable pub with_fallback : Router → HostRouter Router → HostRouter Router
  with_fallback router r = record r { fallback = some router }

  abbrev pub match_fallback : Option Router → Match Router
  match_fallback (some router) = Match.fallback router
  match_fallback none = Match.not_found

  -- `if let Some((pattern, router)) = self.wildcard.get(suffix)`
  abbrev pub match_suffix : Text → Option (Text × Router) → Match Router → Match Router
  match_suffix subdomain (some (pattern, router)) otherwise =
      Match.wildcard router subdomain pattern
  match_suffix subdomain none otherwise = otherwise

  abbrev pub match_wildcard : Text → Option ℕ → HostRouter Router → Match Router
  match_wildcard name (some dot) r =
      match_suffix (take dot name) (lookup (drop (suc dot) name) r.wildcard)
        (match_fallback r.fallback)
  match_wildcard name none r = match_fallback r.fallback

  abbrev pub match_exact : Option Router → Match Router → Match Router
  match_exact (some router) otherwise = exactly router
  match_exact none otherwise = otherwise

  unfoldable pub match_host : Text → HostRouter Router → Match Router
  match_host name r = match_exact (lookup name r.exact) (match_wildcard name (find b'.' name) r)

abbrev pub host_directive : Text
host_directive = codes "host="

-- `directive.len() >= 5 && directive[..5].eq_ignore_ascii_case("host=")`
abbrev pub is_host_directive : Text → Bool
is_host_directive directive =
    leb (length host_directive) (length directive)
    && list_beq (to_lowercase (take (length host_directive) directive)) host_directive

-- The loop over the directives: the first `host=` with a value that is not blank.
unfoldable pub forwarded_host : List Text → Option Text
forwarded_host [] = none
forwarded_host (d ∷ directives) =
    let value = trim (drop (length host_directive) (trim d)) in
    if is_host_directive (trim d) && not (is_empty value)
    then some value
    else forwarded_host directives

-- `fwd_str.split(',').next()`
abbrev pub first_element : List Text → Text
first_element [] = []
first_element (e ∷ _) = e

abbrev pub from_forwarded : Option Text → Option Text
from_forwarded none = none
from_forwarded (some fwd) = forwarded_host (split b';' (first_element (split b',' fwd)))

-- A header that holds the host itself, not blank.
abbrev pub from_plain : Option Text → Option Text
from_plain none = none
from_plain (some h) = if is_empty (trim h) then none else some (trim h)

abbrev pub first_of_three : Option Text → Option Text → Option Text → Option Text
first_of_three (some a) b c = some a
first_of_three none (some b) c = some b
first_of_three none none c = c

abbrev pub normalized : Option Text → Result Text
normalized (some h) = ok (to_lowercase (strip_port h))
normalized none = err (bad_request (codes "missing or invalid Host header"))

unfoldable pub resolve_host : Parts → Result Text
unfolding forwarded_host
resolve_host parts = normalized (
    first_of_three (from_forwarded (header_text (codes "forwarded") parts))
      (from_plain (header_text (codes "x-forwarded-host") parts))
      (from_plain (header_text (codes "host") parts)))

pub record MatchedHost : Type 0 where
  pub subdomain : Text
  pub pattern : Text

-- What `call` does with a request: an error response, or a router with the extension that it finds.
abbrev pub Routed : Type 0 → Type 0
Routed Router = Router × Option MatchedHost

module _ {Router : Type 0} where
  abbrev pub route : Match Router → Result (Routed Router)
  route (exactly router) = ok (router, none)
  route (fallback router) = ok (router, none)
  route (wildcard router subdomain pattern) =
      ok (router, some (record { subdomain = subdomain; pattern = pattern }))
  route not_found = err (error_not_found (codes "no route for host"))

  unfoldable pub call : Parts → HostRouter Router → Result (Routed Router)
  call parts r = do name ← resolve_host parts; route (match_host name r)
