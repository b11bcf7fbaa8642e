-- ===== src/Auth/Session/Jwt/Source.antt =====
-- auth/session/jwt/source.rs: where a request carries its token.
use modo.Base.{not, ◌&&◌, List, [], ◌∷◌, Option, none, some, if◌then◌else◌, nat_eq, ◌==◌}
use modo.Base.Lists.{list_eq}
use modo.Base.Text.{Text, codes, is_empty, split, split_once, trim, trim_start, to_lowercase}
use modo.Http.{Parts, header_text}

-- `BearerSource`, the sources by name, and the owned ones of `TokenSourceConfig`.
pub data TokenSource : Type 0 where
  bearer : TokenSource
  query cookie header : Text → TokenSource

pub data TokenSourceConfig : Type 0 where
  bearer_kind : TokenSourceConfig
  cookie_kind header_kind query_kind body_kind : Text → TokenSourceConfig

abbrev pub build : TokenSourceConfig → TokenSource
build bearer_kind = bearer
build (cookie_kind name) = cookie name
build (header_kind name) = header name
build (query_kind name) = query name
build (body_kind field) = bearer

abbrev pub non_empty : Text → Option Text
non_empty s = if is_empty s then none else some s

abbrev pub bearer_parts : Option (Text × Text) → Option Text
bearer_parts none = none
bearer_parts (some (scheme, rest)) =
    if not (to_lowercase scheme == codes "bearer") then none else non_empty (trim_start rest)

abbrev pub bearer_value : Option Text → Option Text
bearer_value none = none
bearer_value (some value) = bearer_parts (split_once b' ' value)

abbrev pub query_pair : Text → Option (Text × Text) → Option Text → Option Text
query_pair name none rest = rest
query_pair name (some (key, value)) rest =
    if key == name && not (is_empty value) then some value else rest

unfoldable pub in_query : Text → List Text → Option Text
unfolding split_once
in_query name [] = none
in_query name (pair ∷ pairs) = query_pair name (split_once b'=' pair) (in_query name pairs)

abbrev pub cookie_pair : Text → Option (Text × Text) → Option Text → Option Text
cookie_pair name none rest = rest
cookie_pair name (some (cname, value)) rest =
    if trim cname == name && not (is_empty value) then some (trim value) else rest

unfoldable pub in_cookies : Text → List Text → Option Text
unfolding split_once trim
in_cookies name [] = none
in_cookies name (pair ∷ pairs) =
    cookie_pair name (split_once b'=' (trim pair)) (in_cookies name pairs)

abbrev pub extract_query : Text → Option Text → Option Text
extract_query name none = none
extract_query name (some q) = in_query name (split b'&' q)

abbrev pub extract_cookie : Text → Option Text → Option Text
extract_cookie name none = none
extract_cookie name (some value) = in_cookies name (split b';' value)

abbrev pub extract_header : Option Text → Option Text
extract_header none = none
extract_header (some value) = non_empty value

unfoldable pub extract : TokenSource → Parts → Option Text
unfolding in_query in_cookies split trim_start
extract bearer parts = bearer_value (header_text (codes "authorization") parts)
extract (query name) parts = extract_query name parts.query
extract (cookie name) parts = extract_cookie name (header_text (codes "cookie") parts)
extract (header name) parts = extract_header (header_text (to_lowercase name) parts)

abbrev pub or_next : Option Text → Option Text → Option Text
or_next none rest = rest
or_next (some token) rest = some token

-- `sources.iter().find_map(…)`
unfoldable pub find_token : List TokenSource → Parts → Option Text
unfolding extract
find_token [] parts = none
find_token (s ∷ ss) parts = or_next (extract s parts) (find_token ss parts)
