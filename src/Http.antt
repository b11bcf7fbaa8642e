-- ===== src/Http.antt =====
-- What the source reads of a request. The types are of the crate `http`: a header has a value that
-- `to_str` shows (visible ASCII) or refuses, and names are compared in lower case.
use modo.Base.{List, Option, none, some}
use modo.Base.Text.{Text}
use modo.Base.Lists.{list_eq}
use modo.Base.Dict.{lookup}
use modo.Base.{nat_eq}

pub data HeaderValue : Type 0 where
  visible : Text → HeaderValue
  opaque : HeaderValue

abbrev pub to_str : HeaderValue → Option Text
to_str (visible s) = some s
to_str opaque = none

abbrev pub HeaderMap : Type 0
HeaderMap = List (Text × HeaderValue)

-- `parts.uri.path()` and `parts.uri.query()`
pub record Parts : Type 0 where
  pub headers : HeaderMap
  pub path : Text
  pub query : Option Text

abbrev pub header : Text → Parts → Option HeaderValue
header name parts = lookup name parts.headers

-- `headers.get(name).and_then(|v| v.to_str().ok())`
abbrev pub shown : Option HeaderValue → Option Text
shown none = none
shown (some v) = to_str v

abbrev pub header_text : Text → Parts → Option Text
header_text name parts = shown (header name parts)
