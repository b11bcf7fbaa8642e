-- ===== src/Webhook/Tests.antt =====
-- Webhooks that are accepted, with a tag that is the key: every text stands for itself in base64, or each
-- byte is shifted.
use modo.Base.{
  ◌≡◌, ◌≤◌, refl, [], ◌∷◌, ◌++◌, some, ◌+◌, ◌-◌, map, inr, inl, false, arith, ap, nat_eq,
}
use modo.Base.Rows.Keys.{IsIn}
use modo.Base.Text.{contains_char, Text, codes, split, strip_prefix}
use modo.Base.Dict.{lookup}
use modo.Base.Errors.{ok}
use modo.Encoding.Bytes.{Bytes}
use modo.Http.{HeaderMap, visible}
use modo.Webhook.{
  Base64, Timestamp, at_or_after, WebhookSecret, distance, build_signed_content, digits,
  SignedHeaders, sign_headers, header_str, parse_timestamp, any_entry, verify_headers,
}
use modo.Webhook.Verifying.{verify_headers-eq-ok}
use modo.Webhook.Signing.{sign_headers-verify_headers}

abbrev plain : Base64
plain = record { encode = λ bytes. bytes; decode = λ s. some s }

abbrev keyed : Bytes → Bytes → Bytes
keyed key content = key

abbrev key : WebhookSecret
key = codes "k"

abbrev headers : HeaderMap
headers =
    (codes "webhook-id", visible (codes "msg"))
    ∷ (codes "webhook-timestamp", visible (codes "100"))
    ∷ (codes "webhook-signature", visible (codes "v2,x v1,k"))
    ∷ []

verify_headers-eq-ok_example :
    (id ts_str sig_header raw_sig : Text) × (timestamp : Timestamp) × (secret : WebhookSecret)
    × (header_str headers (codes "webhook-id") ≡ ok id)
    × (header_str headers (codes "webhook-timestamp") ≡ ok ts_str)
    × (header_str headers (codes "webhook-signature") ≡ ok sig_header)
    × (parse_timestamp ts_str ≡ some timestamp)
    × (distance 130 timestamp ≤ 60)
    × IsIn secret (key ∷ [])
    × IsIn (codes "v1," ++ raw_sig) (split b' ' sig_header)
    × (plain.decode raw_sig ≡ some (keyed secret (build_signed_content id timestamp [])))
unfolding verify_headers header_str parse_timestamp any_entry build_signed_content split
    strip_prefix lookup digits
verify_headers-eq-ok_example = verify_headers-eq-ok keyed plain (key ∷ []) headers [] 60 130 refl

-- A text without spaces for every list of bytes.
abbrev shifted : Base64
shifted = record { encode = map (λ b. b + 33); decode = λ s. some (map (λ c. c - 33) s) }

shifted-decode : (bytes : Bytes) → shifted.decode (shifted.encode bytes) ≡ some bytes
shifted-decode bytes = ap some (back bytes)
  where
    back : (bytes : Bytes) → map (λ c. c - 33) (map (λ b. b + 33) bytes) ≡ bytes
    back [] = refl
    back (b ∷ bytes) = let here : b + 33 - 33 ≡ b = omega arith in rw (here, back bytes) refl

shifted-spaceless : (bytes : Bytes) → contains_char b' ' (shifted.encode bytes) ≡ false
shifted-spaceless [] = refl
shifted-spaceless (b ∷ bytes) = ground (arith, shifted-spaceless bytes)

abbrev written : SignedHeaders
written = record {
  webhook_id = codes "msg";
  webhook_timestamp = at_or_after 100;
  webhook_signature = codes "v1,p v1,q";
}

abbrev sent : HeaderMap
sent =
    (codes "webhook-id", visible (codes "msg"))
    ∷ (codes "webhook-timestamp", visible (codes "100"))
    ∷ (codes "webhook-signature", visible (codes "v1,p v1,q"))
    ∷ []

sign_headers-verify_headers_example :
    verify_headers keyed shifted (codes "P" ∷ []) sent [] 60 130 ≡ ok tt
unfolding sign_headers header_str lookup digits
sign_headers-verify_headers_example =
    sign_headers-verify_headers keyed shifted shifted-decode shifted-spaceless
      (codes "O" ∷ codes "P" ∷ []) (codes "P" ∷ []) (codes "P") (codes "msg") 100 [] written sent 60
      130 refl refl refl refl (omega arith) (omega arith) (inr (inl refl)) (inl refl)
