-- ===== src/Auth/Session/Jwt/Codec.antt =====
-- auth/session/jwt/encoder.rs, decoder.rs and signer.rs. The text of a token is ASCII, so its characters
-- are its bytes. `mac` is HMAC-SHA256 with the secret, whose `verify_slice` compares with the tag.
use modo.Base.{
  ℕ, ◌+◌, ◌%◌, ◌^◌, Bool, true, false, not, List, [], ◌∷◌, ◌++◌, Option, none, some, if◌then◌else◌,
  ltb, nat_eq, ◌==◌,
}
use modo.Base.Lists.{list_eq}
use modo.Base.Text.{Text, codes, split}
use modo.Base.Errors.{Error, Result, ok, err, internal, ◌>>=◌, ◌>>◌}
use modo.Encoding.Bytes.{Bytes}
use modo.Encoding.Base64url
use modo.Auth.Session.Data.{with_code}
use modo.Auth.Session.Jwt.Claims.{
  Claims, JwtError, invalid_header, malformed_token, deserialization_failed, invalid_signature,
  expired, not_yet_valid, invalid_issuer, invalid_audience, algorithm_mismatch,
  serialization_failed, code, jwt_err, ValidationConfig,
}

-- What the source uses of serde_json here: `from_slice`, a string and an unsigned number under a key,
-- the claims as a value and back, setting a number, and `to_vec`.
pub record TokenJson : Type 1 where
  pub Value : Type 0
  pub from_slice : Bytes → Option Value
  pub str_at : Text → Value → Option Text
  pub u64_at : Text → Value → Option ℕ
  pub from_value : Value → Option Claims
  pub to_value : Claims → Option Value
  pub has : Text → Value → Bool
  pub set_number : Text → ℕ → Value → Value
  pub to_vec : Value → Option Bytes

-- The sum of two `u64`, which wraps in a release build.
abbrev pub add_u64 : ℕ → ℕ → ℕ
add_u64 a b = (a + b) % 2 ^ 64

-- `.map_err(|_| jwt_err(kind))`, also of an `Option`.
abbrev pub or_jwt : {A : Type 0} → JwtError → Option A → Result A
or_jwt kind none = err (jwt_err kind)
or_jwt kind (some a) = ok a

abbrev pub decoded_or : JwtError → Result Bytes → Result Bytes
decoded_or kind (ok bytes) = ok bytes
decoded_or kind (err e) = err (jwt_err kind)

-- A check that ends the decoding.
abbrev pub refuse_if : Bool → JwtError → Result (Unit {0})
refuse_if true kind = err (jwt_err kind)
refuse_if false kind = ok tt

abbrev pub algorithm_name : Text
algorithm_name = codes "HS256"

abbrev pub is_text : Option Text → Text → Bool
is_text none required = false
is_text (some found) required = found == required

-- A required issuer or audience.
abbrev pub require : Option Text → Option Text → JwtError → Result (Unit {0})
require none found kind = ok tt
require (some required) found kind = refuse_if (not (is_text found required)) kind

abbrev pub is_early : Option ℕ → ℕ → Bool
is_early none now = false
is_early (some nbf) now = ltb now nbf

-- `splitn(4, '.')` with three parts.
abbrev pub three_parts : List Text → Option (Text × (Text × Text))
three_parts (header ∷ payload ∷ signature ∷ []) = some (header, (payload, signature))
three_parts _ = none

module _ (json : TokenJson) (mac : Bytes → Bytes) where
  abbrev pub verify : Bytes → Bytes → Result (Unit {0})
  verify header_payload signature =
      if mac header_payload == signature then ok tt else err (jwt_err invalid_signature)

  -- The claims of a payload that is signed.
  abbrev pub check_times : ValidationConfig → ℕ → json.Value → Result (Unit {0})
  check_times validation now payload = or_jwt expired (json.u64_at (codes "exp") payload) >>= λ exp.
      refuse_if (ltb (add_u64 exp validation.leeway) now) expired
      >> refuse_if (is_early (json.u64_at (codes "nbf") payload) (add_u64 now validation.leeway))
          not_yet_valid

  abbrev pub check_claims : ValidationConfig → ℕ → json.Value → Result Claims
  check_claims validation now payload =
      check_times validation now payload
      >> (require validation.require_issuer (json.str_at (codes "iss") payload) invalid_issuer
          >> (require validation.require_audience (json.str_at (codes "aud") payload)
                invalid_audience
              >> or_jwt deserialization_failed (json.from_value payload)))

  abbrev pub check_header : Text → Result (Unit {0})
  check_header header_b64 = decoded_or invalid_header (Base64url.decode header_b64) >>= λ bytes.
      or_jwt invalid_header (json.from_slice bytes) >>= λ header.
      or_jwt invalid_header (json.str_at (codes "alg") header) >>= λ alg.
      refuse_if (not (alg == algorithm_name)) algorithm_mismatch

  abbrev pub decode_parts : ValidationConfig → ℕ → Text × (Text × Text) → Result Claims
  decode_parts validation now (header_b64, (payload_b64, signature_b64)) =
      check_header header_b64
      >> (decoded_or malformed_token (Base64url.decode signature_b64) >>= λ signature.
          verify (header_b64 ++ b'.' ∷ payload_b64) signature
          >> (decoded_or malformed_token (Base64url.decode payload_b64) >>= λ bytes.
              or_jwt deserialization_failed (json.from_slice bytes) >>= λ payload.
              check_claims validation now payload))

  unfoldable pub decode : ValidationConfig → ℕ → Text → Result Claims
  unfolding split Base64url.decode
  decode validation now token = or_jwt malformed_token (three_parts (split b'.' token)) >>= λ parts.
      decode_parts validation now parts

  abbrev pub serialization_error : Text → Error
  serialization_error message = with_code (internal message) (code serialization_failed)

  -- `.map_err(…)` with the message.
  abbrev pub serialized : {A : Type 0} → Text → Option A → Result A
  serialized message none = err (serialization_error message)
  serialized message (some a) = ok a

  abbrev pub with_default_exp : ℕ → ℕ → json.Value → json.Value
  with_default_exp default_exp now value =
      if json.has (codes "exp") value
      then value
      else json.set_number (codes "exp") (add_u64 now default_exp) value

  -- The text that is signed.
  abbrev pub header_payload : Bytes → Text
  header_payload claims_json =
      Base64url.encode (codes "{\"alg\":\"HS256\",\"typ\":\"JWT\"}")
      ++ b'.' ∷ Base64url.encode claims_json

  abbrev pub signed : Bytes → Text
  signed claims_json =
      header_payload claims_json ++ b'.' ∷ Base64url.encode (mac (header_payload claims_json))

  unfoldable pub encode : ℕ → ℕ → Claims → Result Text
  unfolding Base64url.encode
  encode default_exp now claims =
      serialized (codes "failed to serialize token") (json.to_value claims) >>= λ value.
      serialized (codes "unauthorized") (json.to_vec (with_default_exp default_exp now value))
      >>= λ claims_json. ok (signed claims_json)
