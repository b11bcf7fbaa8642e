-- ===== src/Auth/Session/Jwt/Signed.antt =====
-- What a token that decodes has: a signature of its text, and times and names that are accepted.
use modo.Base.{
  ℕ, ◌≡◌, ◌≤◌, refl, ap, sym, ◌∙◌, Bool, true, false, List, [], ◌∷◌, ◌++◌, Option, none, some,
  arith, ltb, Bool-cases, inl, inr, nat_eq, ◌==◌,
}
use modo.Base.Lists.{list_eq}
use modo.Base.Text.{Text, codes, split}
use modo.Base.Errors.{Result, ok, err, ◌>>=◌, ◌>>◌, >>=-eq-ok_iff}
use modo.Encoding.Bytes.{Bytes}
use modo.Encoding.Base64url
use modo.Auth.Session.Jwt.Claims.{
  Claims, JwtError, malformed_token, deserialization_failed, expired, ValidationConfig,
  not_yet_valid,
}
use modo.Auth.Session.Jwt.Codec.{
  TokenJson, or_jwt, decoded_or, refuse_if, three_parts, verify, check_header, check_claims,
  decode_parts, decode, add_u64, is_early,
}

or_jwt-eq-ok :
    {A : Type 0} (kind : JwtError) (o : Option A) (a : A) → or_jwt kind o ≡ ok a → o ≡ some a
or_jwt-eq-ok kind none a h = cc
or_jwt-eq-ok kind (some b) a h = cc

decoded_or-eq-ok :
    (kind : JwtError) (r : Result Bytes) (b : Bytes) → decoded_or kind r ≡ ok b → r ≡ ok b
decoded_or-eq-ok kind (ok c) b h = h
decoded_or-eq-ok kind (err e) b h = cc

refuse_if-eq-ok : (b : Bool) (kind : JwtError) → refuse_if b kind ≡ ok tt → b ≡ false
refuse_if-eq-ok true kind h = cc
refuse_if-eq-ok false kind h = refl

three_parts-eq-some :
    (ps : List Text) (a b c : Text) → three_parts ps ≡ some (a, (b, c)) → ps ≡ a ∷ b ∷ c ∷ []
three_parts-eq-some [] a b c h = cc
three_parts-eq-some (p ∷ []) a b c h = cc
three_parts-eq-some (p ∷ q ∷ []) a b c h = cc
three_parts-eq-some (p ∷ q ∷ r ∷ []) a b c h =
    let first : p ≡ a = cc in
    let second : q ≡ b = cc in let third : r ≡ c = cc in rw (first, second, third) refl
three_parts-eq-some (p ∷ q ∷ r ∷ s ∷ ps) a b c h = cc

-- The first step of a chain that succeeds.
step-ok :
    {B : Type 0} (m : Result (Unit {0})) (next : Result B) (b : B)
    → (m >> next) ≡ ok b
    → (m ≡ ok tt) × (next ≡ ok b)
step-ok (ok tt) next b h = (refl, h)
step-ok (err e) next b h = cc

module _ (json : TokenJson) (mac : Bytes → Bytes) where
  verify-eq-ok :
      (message signature : Bytes)
      → verify json mac message signature ≡ ok tt
      → mac message ≡ signature
  verify-eq-ok message signature h = elim (Bool-cases (mac message == signature)) [
    | inl same ↦ (list_eq.equals_iff (mac message) signature).0 same
    | inr other ↦ let e : Result.err _ ≡ ok (tt {0}) = rw other at h in cc
  ]

  check_claims-eq-ok :
      (validation : ValidationConfig) (now : ℕ) (payload : json.Value) (claims : Claims)
      → check_claims json mac validation now payload ≡ ok claims
      → (exp : ℕ) × (json.u64_at (codes "exp") payload ≡ some exp)
        × (now ≤ add_u64 exp validation.leeway)
        × (json.from_value payload ≡ some claims)
  check_claims-eq-ok validation now payload claims h =
      let (times, rest) = step-ok _ _ claims h in
      let (exp, is_exp, checks) =
        (>>=-eq-ok_iff (or_jwt expired (json.u64_at (codes "exp") payload))
            (λ exp.
              refuse_if (ltb (add_u64 exp validation.leeway) now) expired
              >> refuse_if
                  (is_early (json.u64_at (codes "nbf") payload) (add_u64 now validation.leeway))
                  not_yet_valid)
            tt).0
          times in
      let (in_time, _) =
        step-ok (refuse_if (ltb (add_u64 exp validation.leeway) now) expired) _ tt checks in
      let late = refuse_if-eq-ok (ltb (add_u64 exp validation.leeway) now) expired in_time in
      let (_, rest') = step-ok _ _ claims rest in
      let (_, last) = step-ok _ _ claims rest' in
      (
        exp,
        or_jwt-eq-ok expired _ exp is_exp,
        ground arith,
        or_jwt-eq-ok deserialization_failed _ claims last,
      )

  -- A token decodes only if it has three parts between its dots, the last is the base64url text of the tag
  -- of the first two with their dot, and the second that of the bytes of a JSON value, the payload, which
  -- has an expiry that, with the leeway, is not before the time of decoding; the claims are the payload's.
  pub decode-eq-ok :
      (validation : ValidationConfig) (now : ℕ) (token : Text) (claims : Claims)
      → decode json mac validation now token ≡ ok claims
      → (header body signature_b64 : Text) × (bytes : Bytes) × (payload : json.Value) × (exp : ℕ)
        × (split b'.' token ≡ header ∷ body ∷ signature_b64 ∷ [])
        × (Base64url.decode signature_b64 ≡ ok (mac (header ++ b'.' ∷ body)))
        × (Base64url.decode body ≡ ok bytes)
        × (json.from_slice bytes ≡ some payload)
        × (json.u64_at (codes "exp") payload ≡ some exp)
        × (now ≤ add_u64 exp validation.leeway)
        × (json.from_value payload ≡ some claims)
  unfolding decode
  decode-eq-ok validation now token claims h =
      let ((header, (body, signature_b64)), parts, chain) =
        (>>=-eq-ok_iff (or_jwt malformed_token (three_parts (split b'.' token)))
            (λ parts. decode_parts json mac validation now parts) claims).0
          h in
      let pieces =
        three_parts-eq-some (split b'.' token) header body signature_b64
          (or_jwt-eq-ok malformed_token _ _ parts) in
      let (_, rest) = step-ok (check_header json mac header) _ claims chain in
      let (signature, signature_is, checks) =
        (>>=-eq-ok_iff (decoded_or malformed_token (Base64url.decode signature_b64))
            (λ signature.
              verify json mac (header ++ b'.' ∷ body) signature
              >> (decoded_or malformed_token (Base64url.decode body) >>= λ bytes.
                  or_jwt deserialization_failed (json.from_slice bytes) >>= λ payload.
                  check_claims json mac validation now payload))
            claims).0
          rest in
      let (tag, last) =
        step-ok (verify json mac (header ++ b'.' ∷ body) signature) _ claims checks in
      let (bytes, bytes_are, read) =
        (>>=-eq-ok_iff (decoded_or malformed_token (Base64url.decode body))
            (λ bytes. or_jwt deserialization_failed (json.from_slice bytes) >>= λ payload.
              check_claims json mac validation now payload)
            claims).0
          last in
      let (payload, payload_is, accepted) =
        (>>=-eq-ok_iff (or_jwt deserialization_failed (json.from_slice bytes))
            (λ payload. check_claims json mac validation now payload) claims).0
          read in
      let (exp, is_exp, in_time, is_claims) =
        check_claims-eq-ok validation now payload claims accepted in
      (
        header,
        body,
        signature_b64,
        bytes,
        payload,
        exp,
        pieces,
        decoded_or-eq-ok malformed_token _ signature signature_is
            ∙ ap ok (sym (verify-eq-ok (header ++ b'.' ∷ body) signature tag)),
        decoded_or-eq-ok malformed_token _ bytes bytes_are,
        or_jwt-eq-ok deserialization_failed _ payload payload_is,
        is_exp,
        in_time,
        is_claims,
      )
