-- ===== src/Auth/ApiKey/Token.antt =====
-- auth/apikey/token.rs: a key's text, `{prefix}_{ulid}{secret}`. A text is its UTF-8 bytes. Random secrets
-- and the comparison of hashes are not modelled here; the digest is an argument.
use modo.Base.{
  ℕ, suc, Bool, true, not, [], ◌∷◌, ◌++◌, Option, none, some, if◌then◌else◌, leb, nat_eq, ◌==◌,
}
use modo.Base.Lists.{length, take, drop, list_eq}
use modo.Base.Text.{Text, find, within}
use modo.Encoding.Bytes.{Bytes}
use modo.Encoding.Hex

abbrev pub ulid_len : ℕ
ulid_len = 26

-- `parse_token` gives the two parts or nothing, or panics where `split_at` would cut a character.
pub data ParsedToken : Type 0 where
  parsed : Bytes → Bytes → ParsedToken
  nothing : ParsedToken
  panicked : ParsedToken

unfoldable pub format_token : Bytes → Bytes → Bytes → Bytes
format_token prefix ulid secret = prefix ++ b'_' ∷ (ulid ++ secret)

-- A text does not start inside a character.
abbrev pub is_boundary : Bytes → Bool
is_boundary [] = true
is_boundary (b ∷ _) = not (within 0x80 0xbf b)

abbrev pub split_body : Bytes → ParsedToken
split_body body =
    if leb (length body) ulid_len
    then nothing
    else if not (is_boundary (drop ulid_len body))
    then panicked
    else parsed (take ulid_len body) (drop ulid_len body)

-- The two parts around the first `_`.
abbrev pub parse_parts : Bytes → Bytes → Bytes → ParsedToken
parse_parts expected_prefix prefix body =
    if not (prefix == expected_prefix) then nothing else split_body body

abbrev pub parse_cut : Bytes → Bytes → Option ℕ → ParsedToken
parse_cut raw expected_prefix none = nothing
parse_cut raw expected_prefix (some i) = parse_parts expected_prefix (take i raw) (drop (suc i) raw)

unfoldable pub parse_token : Bytes → Bytes → ParsedToken
unfolding find
parse_token raw expected_prefix = parse_cut raw expected_prefix (find b'_' raw)

unfoldable pub hash_secret : (Bytes → Bytes) → Bytes → Text
hash_secret digest secret = Hex.sha256 digest secret
