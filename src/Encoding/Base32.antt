-- ===== src/Encoding/Base32.antt =====
-- encoding/base32.rs: RFC 4648 without padding, over a 64-bit buffer.
pub mod RoundTrip
use modo.Base.{
  ℕ, zero, suc, ◌+◌, ◌-◌, ◌*◌, ◌/◌, ◌%◌, ◌^◌, List, [], ◌∷◌, ◌++◌, if◌then◌else◌, leb, ltb,
}
use modo.Base.Text.{Text, codes, within, to_ascii_uppercase}
use modo.Base.Errors.{Result, ok, err, ◌>>=◌, bad_request}
use modo.Encoding.Bytes.{Bytes, at}

abbrev pub alphabet : Text
alphabet = codes "ABCDEFGHIJKLMNOPQRSTUVWXYZ234567"

-- `while bits_left >= 5`: the characters written and the bits left, in at most `bits_left` rounds.
pub drain : ℕ → ℕ → ℕ → Text × ℕ
drain zero buffer bits = ([], bits)
drain (suc fuel) buffer bits =
    let (cs, left) = drain fuel buffer (bits - 5) in
    if leb 5 bits then (at alphabet (buffer / 2 ^ (bits - 5) % 32) ∷ cs, left) else ([], bits)

pub encode_from : ℕ → ℕ → Bytes → Text
encode_from buffer bits [] =
    if ltb 0 bits then at alphabet (buffer * 2 ^ (5 - bits) % 2 ^ 64 % 32) ∷ [] else []
encode_from buffer bits (byte ∷ bytes) =
    let buffer' = buffer * 256 % 2 ^ 64 + byte in
    let (cs, left) = drain (bits + 8) buffer' (bits + 8) in cs ++ encode_from buffer' left bytes

unfoldable pub encode : Bytes → Text
unfolding encode_from drain
encode [] = []
encode bytes = encode_from 0 0 bytes

pub decode_char : ℕ → Result ℕ
decode_char ch =
    if within b'A' b'Z' ch
    then ok (ch - b'A')
    else if within b'2' b'7' ch
    then ok (ch - b'2' + 26)
    else err (bad_request (codes "invalid base32 character: '" ++ (ch ∷ codes "'")))

pub decode_from : ℕ → ℕ → Text → Result Bytes
decode_from buffer bits [] = ok []
decode_from buffer bits (ch ∷ chs) = do
  val ← decode_char (to_ascii_uppercase ch)
  let buffer' = buffer * 32 % 2 ^ 64 + val
  let full = leb 8 (bits + 5)
  rest ← decode_from buffer' (if full then bits + 5 - 8 else bits + 5) chs
  ok (if full then (buffer' / 2 ^ (bits + 5 - 8) % 256) ∷ rest else rest)

unfoldable pub decode : Text → Result Bytes
unfolding decode_from decode_char to_ascii_uppercase
decode [] = ok []
decode encoded = decode_from 0 0 encoded
