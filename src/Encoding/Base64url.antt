-- ===== src/Encoding/Base64url.antt =====
-- encoding/base64url.rs. The 32-bit buffer keeps the bits that were shifted in, wrapping at 2 ^ 32;
-- `bits` counts those not yet written.
pub mod RoundTrip
use modo.Base.{
  ℕ, zero, suc, ◌+◌, ◌-◌, ◌*◌, ◌/◌, ◌%◌, ◌^◌, ◌≡◌, refl, List, [], ◌∷◌, ◌++◌, arith, if◌then◌else◌,
  leb, ltb, ◌=ℕ◌, Bool, true, false,
}
use modo.Base.Text.{Text, codes, within}
use modo.Base.Errors.{Error, Result, ok, err, ◌>>=◌, bad_request}
use modo.Encoding.Bytes.{Bytes, at}

abbrev pub alphabet : Text
alphabet = codes "ABCDEFGHIJKLMNOPQRSTUVWXYZabcdefghijklmnopqrstuvwxyz0123456789-_"

-- `while bits_left >= 6`: the characters written and the bits left. Each round takes six bits, so
-- as many rounds as there are bits are enough.
pub drain : ℕ → ℕ → ℕ → Text × ℕ
drain zero buffer bits = ([], bits)
drain (suc fuel) buffer bits =
    let (cs, left) = drain fuel buffer (bits - 6) in
    if leb 6 bits then (at alphabet (buffer / 2 ^ (bits - 6) % 64) ∷ cs, left) else ([], bits)

pub encode_from : ℕ → ℕ → Bytes → Text
encode_from buffer bits [] =
    if ltb 0 bits then at alphabet (buffer * 2 ^ (6 - bits) % 2 ^ 32 % 64) ∷ [] else []
encode_from buffer bits (byte ∷ bytes) =
    let buffer' = buffer * 256 % 2 ^ 32 + byte in
    let (cs, left) = drain (bits + 8) buffer' (bits + 8) in cs ++ encode_from buffer' left bytes

unfoldable pub encode : Bytes → Text
unfolding encode_from drain
encode [] = []
encode bytes = encode_from 0 0 bytes

pub decode_char : ℕ → Result ℕ
decode_char ch =
    if within b'A' b'Z' ch
    then ok (ch - b'A')
    else if within b'a' b'z' ch
    then ok (ch - b'a' + 26)
    else if within b'0' b'9' ch
    then ok (ch - b'0' + 52)
    else if ch =ℕ b'-'
    then ok 62
    else if ch =ℕ b'_'
    then ok 63
    else err (bad_request (codes "invalid base64url character: '" ++ (ch ∷ codes "'")))

pub decode_from : ℕ → ℕ → Text → Result Bytes
decode_from buffer bits [] = ok []
decode_from buffer bits (ch ∷ chs) = do
  val ← decode_char ch
  let buffer' = buffer * 64 % 2 ^ 32 + val
  let full = leb 8 (bits + 6)
  rest ← decode_from buffer' (if full then bits + 6 - 8 else bits + 6) chs
  ok (if full then (buffer' / 2 ^ (bits + 6 - 8) % 256) ∷ rest else rest)

unfoldable pub decode : Text → Result Bytes
unfolding decode_from decode_char
decode [] = ok []
decode encoded = decode_from 0 0 encoded
