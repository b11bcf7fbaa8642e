-- ===== src/Auth/Session/Token.antt =====
-- auth/session/token.rs: the token's bytes, and its hexadecimal text. A text is its UTF-8 bytes; the
-- random bytes of `generate` and the digest of `hash` are arguments.
use modo.Base.{ℕ, ◌+◌, ◌-◌, ◌*◌, not, [], ◌∷◌, Option, none, some, if◌then◌else◌, ◌=ℕ◌}
use modo.Base.Lists.{length}
use modo.Base.Text.{Text, codes, within}
use modo.Encoding.Bytes.{Bytes}
use modo.Encoding.Hex

abbrev pub SessionToken : Type 0
SessionToken = Bytes

-- `Result<SessionToken, &'static str>`
pub data Decoded : Type 0 where
  token : SessionToken → Decoded
  refused : Text → Decoded

unfoldable pub hex_digit : ℕ → Option ℕ
hex_digit b =
    if within b'0' b'9' b
    then some (b - b'0')
    else if within b'a' b'f' b
    then some (b - b'a' + 10)
    else if within b'A' b'F' b
    then some (b - b'A' + 10)
    else none

-- `(hi << 4) | lo`, of two digits.
abbrev pub hex_pair : Option ℕ → Option ℕ → Option ℕ
hex_pair (some hi) (some lo) = some (hi * 16 + lo)
hex_pair _ _ = none

abbrev pub push_byte : Option ℕ → Option Bytes → Option Bytes
push_byte (some b) (some bs) = some (b ∷ bs)
push_byte _ _ = none

-- The loop over `chunks(2)`, of a text of even length.
unfoldable pub read_chunks : Bytes → Option Bytes
unfolding hex_digit
read_chunks (h ∷ l ∷ s) = push_byte (hex_pair (hex_digit h) (hex_digit l)) (read_chunks s)
read_chunks _ = some []

abbrev pub decoded : Option Bytes → Decoded
decoded (some bs) = token bs
decoded none = refused (codes "invalid hex character")

unfoldable pub from_hex : Bytes → Decoded
unfolding read_chunks
from_hex s =
    if not (length s =ℕ 64)
    then refused (codes "token must be 64 hex characters")
    else decoded (read_chunks s)

abbrev pub as_hex : SessionToken → Text
as_hex bs = Hex.encode bs

abbrev pub hash : (Bytes → Bytes) → SessionToken → Text
hash digest bs = Hex.sha256 digest bs

abbrev pub expose : SessionToken → Text
expose = as_hex

abbrev pub from_raw_of : Decoded → Option SessionToken
from_raw_of (token bs) = some bs
from_raw_of (refused _) = none

unfoldable pub from_raw : Bytes → Option SessionToken
unfolding from_hex
from_raw s = from_raw_of (from_hex s)
