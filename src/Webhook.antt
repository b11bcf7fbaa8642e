-- ===== src/Webhook.antt =====
-- webhook/signature.rs and secret.rs: signing and verifying the headers of a webhook. `mac` is
-- HMAC-SHA256 with a key, and `Base64` the crate's standard alphabet. A text is its UTF-8 bytes.
pub mod Timestamps
pub mod Signing
pub mod Verifying
mod Tests
use modo.Base.{
  ℕ, zero, suc, ◌+◌, ◌-◌, ◌*◌, ◌/◌, ◌%◌, ◌^◌, Bool, true, false, not, ◌&&◌, ◌||◌, List, [], ◌∷◌,
  ◌++◌, Option, none, some, if◌then◌else◌, leb, ltb, nat_eq, ◌==◌, map,
}
use modo.Base.Lists.{any, all, list_eq}
use modo.Base.Text.{Text, codes, is_ascii_digit, is_empty, split, strip_prefix}
use modo.Base.Text.Pieces.{join}
use modo.Base.Errors.{Error, Result, ok, err, bad_request, ◌>>=◌}
use modo.Encoding.Bytes.{Bytes}
use modo.Http.{HeaderValue, visible, opaque, HeaderMap}
use modo.Base.Dict.{lookup}

pub record Base64 : Type 0 where
  pub encode : Bytes → Text
  pub decode : Text → Option Bytes

-- An `i64`: a number below 2 ^ 63, or the negative of one that is not 0 and at most 2 ^ 63.
pub data Timestamp : Type 0 where
  at_or_after before : ℕ → Timestamp

-- `WebhookSecret` is its key.
abbrev pub WebhookSecret : Type 0
WebhookSecret = Bytes

abbrev pub key_of : Option Bytes → Result WebhookSecret
key_of none = err (bad_request (codes "invalid base64 in webhook secret"))
key_of (some key) = ok key

abbrev pub encoded_key : Base64 → Option Text → Result WebhookSecret
encoded_key base64 none = err (bad_request (codes "webhook secret must start with 'whsec_'"))
encoded_key base64 (some encoded) = key_of (base64.decode encoded)

-- The crate's error at the end of the message is left out.
unfoldable pub from_str : Base64 → Text → Result WebhookSecret
unfolding strip_prefix
from_str base64 s = encoded_key base64 (strip_prefix (codes "whsec_") s)

abbrev pub display : Base64 → WebhookSecret → Text
display base64 secret = codes "whsec_" ++ base64.encode secret

-- `i64` in decimal, of at most twenty digits, and `str::parse::<i64>`.
unfoldable pub digits : ℕ → ℕ → Text → Text
digits zero n rest = rest
digits (suc fuel) n rest =
    let rest' = (n % 10 + b'0') ∷ rest in
    let more = digits fuel (n / 10) rest' in if ltb n 10 then rest' else more

abbrev pub show_timestamp : Timestamp → Text
show_timestamp (at_or_after n) = digits 20 n []
show_timestamp (before n) = b'-' ∷ digits 20 n []

abbrev pub value : ℕ → Text → ℕ
value n [] = n
value n (c ∷ s) = value (n * 10 + (c - b'0')) s

abbrev pub digits_of : Text → Option ℕ
digits_of s = if not (is_empty s) && all is_ascii_digit s then some (value 0 s) else none

abbrev pub positive : Option ℕ → Option Timestamp
positive none = none
positive (some n) = if ltb n (2 ^ 63) then some (at_or_after n) else none

abbrev pub negative : Option ℕ → Option Timestamp
negative none = none
negative (some n) =
    if n == 0 then some (at_or_after 0) else if leb n (2 ^ 63) then some (before n) else none

abbrev pub parse_sign : ℕ → Text → Text → Option Timestamp
parse_sign c s whole =
    if c == b'-'
    then negative (digits_of s)
    else if c == b'+'
    then positive (digits_of s)
    else positive (digits_of whole)

unfoldable pub parse_timestamp : Text → Option Timestamp
parse_timestamp [] = none
parse_timestamp (c ∷ s) = parse_sign c s (c ∷ s)

-- `(now - timestamp).unsigned_abs()` for a clock that shows no negative time; the difference wraps.
abbrev pub distance : ℕ → Timestamp → ℕ
distance now (at_or_after n) = if leb n now then now - n else n - now
distance now (before n) = if ltb (now + n) (2 ^ 63) then now + n else 2 ^ 64 - (now + n)

unfoldable pub build_signed_content : Text → Timestamp → Bytes → Bytes
unfolding digits
build_signed_content id timestamp body = id ++ b'.' ∷ (show_timestamp timestamp ++ b'.' ∷ body)

pub record SignedHeaders : Type 0 where
  pub webhook_id : Text
  pub webhook_timestamp : Timestamp
  pub webhook_signature : Text

abbrev pub header_of : Text → Option HeaderValue → Result Text
header_of name none = err (bad_request (codes "missing " ++ (name ++ codes " header")))
header_of name (some opaque) =
    err (bad_request (codes "invalid " ++ (name ++ codes " header encoding")))
header_of name (some (visible s)) = ok s

unfoldable pub header_str : HeaderMap → Text → Result Text
unfolding lookup
header_str headers name = header_of name (lookup name headers)

abbrev pub timestamp_of : Option Timestamp → Result Timestamp
timestamp_of none = err (bad_request (codes "invalid webhook-timestamp"))
timestamp_of (some ts) = ok ts

module _ (mac : Bytes → Bytes → Bytes) (base64 : Base64) where
  abbrev pub sign : WebhookSecret → Bytes → Text
  sign secret content = base64.encode (mac secret content)

  abbrev pub is_tag : WebhookSecret → Bytes → Option Bytes → Bool
  is_tag secret content none = false
  is_tag secret content (some sig_bytes) = mac secret content == sig_bytes

  abbrev pub verify : WebhookSecret → Bytes → Text → Bool
  verify secret content signature = is_tag secret content (base64.decode signature)

  -- `none` is the panic on an empty list of secrets.
  unfoldable pub sign_headers : List WebhookSecret → Text → Timestamp → Bytes → Option SignedHeaders
  unfolding build_signed_content
  sign_headers [] id timestamp body = none
  sign_headers (s ∷ secrets) id timestamp body = some (record {
    webhook_id = id;
    webhook_timestamp = timestamp;
    webhook_signature = join b' ' (
        map (λ secret. codes "v1," ++ sign secret (build_signed_content id timestamp body))
          (s ∷ secrets));
  })

  -- One entry of the signature header: other versions are skipped.
  abbrev pub is_signed_by_any : List WebhookSecret → Bytes → Option Text → Bool
  is_signed_by_any secrets content none = false
  is_signed_by_any secrets content (some raw_sig) =
      any (λ secret. verify secret content raw_sig) secrets

  unfoldable pub any_entry : List WebhookSecret → Bytes → List Text → Bool
  unfolding strip_prefix
  any_entry secrets content [] = false
  any_entry secrets content (entry ∷ entries) =
      is_signed_by_any secrets content (strip_prefix (codes "v1,") entry)
      || any_entry secrets content entries

  abbrev pub check_signed :
      List WebhookSecret → Text → Bytes → ℕ → ℕ → Text → Timestamp → Result (Unit {0})
  check_signed secrets id body tolerance now sig_header timestamp =
      if ltb tolerance (distance now timestamp)
      then err (bad_request (codes "webhook timestamp outside tolerance"))
      else if any_entry secrets (build_signed_content id timestamp body) (split b' ' sig_header)
      then ok tt
      else err (bad_request (codes "no valid webhook signature found"))

  unfoldable pub verify_headers : List WebhookSecret → HeaderMap → Bytes → ℕ → ℕ → Result (Unit {0})
  unfolding header_str parse_timestamp any_entry build_signed_content split
  verify_headers secrets headers body tolerance now =
      header_str headers (codes "webhook-id") >>= λ id.
      header_str headers (codes "webhook-timestamp") >>= λ ts_str.
      header_str headers (codes "webhook-signature") >>= λ sig_header.
      timestamp_of (parse_timestamp ts_str) >>= λ timestamp.
      check_signed secrets id body tolerance now sig_header timestamp
