-- ===== src/Client.antt =====
-- client/: the context of a request's client, with its device and its fingerprint. The texts are those
-- of headers, which `to_str` shows as visible ASCII.
pub mod Boundaries
use modo.Base.{Bool, true, false, not, ◌||◌, ◌&&◌, [], ◌∷◌, ◌++◌, Option, none, some, if◌then◌else◌}
use modo.Base.Text.{Text, codes, starts_with, to_lowercase}
use modo.Encoding.Bytes.{Bytes}
use modo.Encoding.Hex
use modo.Http.{Parts, header_text}

-- `str::contains`
unfoldable pub contains : Text → Text → Bool
unfolding starts_with
contains part [] = starts_with part []
contains part (c ∷ s) = starts_with part (c ∷ s) || contains part s

unfoldable pub parse_browser : Text → Text
unfolding contains
parse_browser ua =
    if contains (codes "OPR/") ua || contains (codes "Opera") ua
    then codes "Opera"
    else if contains (codes "Edg/") ua
    then codes "Edge"
    else if contains (codes "Firefox/") ua
    then codes "Firefox"
    else if contains (codes "Chromium/") ua
    then codes "Chromium"
    else if contains (codes "Chrome/") ua
    then codes "Chrome"
    else if contains (codes "Safari/") ua
    then codes "Safari"
    else codes "Unknown"

unfoldable pub parse_os : Text → Text
unfolding contains
parse_os ua =
    if contains (codes "iPhone") ua
    then codes "iPhone"
    else if contains (codes "iPad") ua
    then codes "iPad"
    else if contains (codes "HarmonyOS") ua
    then codes "HarmonyOS"
    else if contains (codes "Android") ua
    then codes "Android"
    else if contains (codes "CrOS") ua
    then codes "ChromeOS"
    else if contains (codes "Mac OS X") ua
        || contains (codes "Macintosh") ua
        || contains (codes "OS X") ua
    then codes "macOS"
    else if contains (codes "Windows") ua
    then codes "Windows"
    else if contains (codes "FreeBSD") ua
    then codes "FreeBSD"
    else if contains (codes "OpenBSD") ua
    then codes "OpenBSD"
    else if contains (codes "Linux") ua
    then codes "Linux"
    else codes "Unknown"

unfoldable pub parse_device_name : Text → Text
unfolding parse_browser parse_os
parse_device_name user_agent = parse_browser user_agent ++ codes " on " ++ parse_os user_agent

abbrev pub device_type_of : Text → Text
device_type_of ua =
    if contains (codes "tablet") ua || contains (codes "ipad") ua
    then codes "tablet"
    else if contains (codes "mobile") ua
        || contains (codes "iphone") ua
        || (contains (codes "android") ua && not (contains (codes "tablet") ua))
    then codes "mobile"
    else codes "desktop"

unfoldable pub parse_device_type : Text → Text
unfolding contains
parse_device_type user_agent = device_type_of (to_lowercase user_agent)

-- What the hasher is fed.
abbrev pub fingerprint_input : Text → Text → Text → Bytes
fingerprint_input user_agent accept_language accept_encoding =
    user_agent ++ 0 ∷ (accept_language ++ 0 ∷ accept_encoding)

unfoldable pub compute_fingerprint : (Bytes → Bytes) → Text → Text → Text → Text
compute_fingerprint digest user_agent accept_language accept_encoding =
    Hex.encode (digest (fingerprint_input user_agent accept_language accept_encoding))

-- The fields `ip`, … with the getters `ip_value`, …
pub record ClientInfo : Type 0 where
  pub ip_value : Option Text
  pub user_agent_value : Option Text
  pub device_name_value : Option Text
  pub device_type_value : Option Text
  pub fingerprint_value : Option Text

abbrev pub empty_info : ClientInfo
empty_info = record {
  ip_value = none;
  user_agent_value = none;
  device_name_value = none;
  device_type_value = none;
  fingerprint_value = none;
}

-- `o.unwrap_or("")`
abbrev pub unwrap_or_empty : Option Text → Text
unwrap_or_empty none = []
unwrap_or_empty (some s) = s

unfoldable pub from_headers : (Bytes → Bytes) → Option Text → Text → Text → Text → ClientInfo
unfolding parse_device_name parse_device_type compute_fingerprint
from_headers digest ip user_agent accept_language accept_encoding = record {
  ip_value = ip;
  user_agent_value = some user_agent;
  device_name_value = some (parse_device_name user_agent);
  device_type_value = some (parse_device_type user_agent);
  fingerprint_value = some (compute_fingerprint digest user_agent accept_language accept_encoding);
}

abbrev pub header_str : Text → Parts → Text
header_str name parts = unwrap_or_empty (header_text name parts)

abbrev pub mapped : (Text → Text) → Option Text → Option Text
mapped f none = none
mapped f (some s) = some (f s)

-- `from_request_parts`, with the address of the extension `ClientIp`.
unfoldable pub from_request_parts : (Bytes → Bytes) → Option Text → Parts → ClientInfo
unfolding parse_device_name parse_device_type compute_fingerprint
from_request_parts digest ip parts =
    let user_agent = header_text (codes "user-agent") parts in
    record {
      ip_value = ip;
      user_agent_value = user_agent;
      device_name_value = mapped parse_device_name user_agent;
      device_type_value = mapped parse_device_type user_agent;
      fingerprint_value = some (
          compute_fingerprint digest (unwrap_or_empty user_agent)
            (header_str (codes "accept-language") parts)
            (header_str (codes "accept-encoding") parts));
    }
