-- ===== src/Encoding/Hex.antt =====
-- encoding/hex.rs: lower-case hexadecimal text. `sha256` is a call of the crate `sha2`; the digest is
-- a parameter.
pub mod Laws
use modo.Base.{ℕ, ◌/◌, ◌%◌, List, [], ◌∷◌}
use modo.Base.Text.{Text, codes}
use modo.Encoding.Bytes.{Bytes, at}

abbrev pub hex_table : Text
hex_table = codes "0123456789abcdef"

-- `b >> 4` and `b & 0x0f` index the table.
unfoldable pub encode : Bytes → Text
encode [] = []
encode (b ∷ bs) = at hex_table (b / 16) ∷ at hex_table (b % 16) ∷ encode bs

unfoldable pub sha256 : (Bytes → Bytes) → Bytes → Text
sha256 digest bytes = encode (digest bytes)
