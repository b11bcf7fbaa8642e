-- ===== src/Webhook/Signing.antt =====
-- What sign_headers writes, verify_headers accepts.
use modo.Base.{
  ℕ, ◌≡◌, ◌<◌, ◌≤◌, ◌^◌, refl, ap, sym, ◌∙◌, Bool, true, false, not, ◌||◌, List, [], ◌∷◌, ◌++◌,
  some, arith, ltb, inl, inr, nat_eq, map, subst,
}
use modo.Base.Lists.{any, all, list_eq}
use modo.Base.Rows.Keys.{IsIn}
use modo.Base.Text.{Text, codes, split, strip_prefix, contains_char}
use modo.Base.Text.Cuts.{strip_prefix-append}
use modo.Base.Text.Pieces.{join, split-join}
use modo.Base.Errors.{ok, >>=-eq-ok_iff}
use modo.Encoding.Bytes.{Bytes}
use modo.Http.{HeaderMap}
use modo.Webhook.{
  Base64, Timestamp, at_or_after, SignedHeaders, WebhookSecret, distance, build_signed_content,
  show_timestamp, header_str, timestamp_of, parse_timestamp, sign, verify, is_signed_by_any,
  any_entry, check_signed, sign_headers, verify_headers,
}
use modo.Webhook.Timestamps.{show-parse}

module _ {A : Type 0} (test : A → Bool) where
  any-IsIn : (xs : List A) (x : A) → IsIn x xs → test x ≡ true → any test xs ≡ true
  any-IsIn [] x m h = absurd m
  any-IsIn (y ∷ xs) x (inl e) h = rw (ap test e ∙ h) refl
  any-IsIn (y ∷ xs) x (inr m) h = ground (arith, any-IsIn xs x m h)

module _ (mac : Bytes → Bytes → Bytes) (base64 : Base64)
    (decode-encode : (bytes : Bytes) → base64.decode (base64.encode bytes) ≡ some bytes)
    (no_space : (bytes : Bytes) → contains_char b' ' (base64.encode bytes) ≡ false) where
  verify-sign :
      (secret content : Bytes)
      → verify mac base64 secret content (sign mac base64 secret content) ≡ true
  verify-sign secret content =
      rw (decode-encode (mac secret content))
        ((list_eq.equals_iff (mac secret content) (mac secret content)).1 refl)

  entries-spaceless :
      (secrets : List WebhookSecret) (content : Bytes)
      → all
          (λ s. not (contains_char b' ' s))
          (map (λ secret. codes "v1," ++ sign mac base64 secret content) secrets)
        ≡ true
  entries-spaceless [] content = refl
  entries-spaceless (s ∷ secrets) content =
      rw (no_space (mac s content)) (entries-spaceless secrets content)

  is_signed-sign :
      (known : List WebhookSecret) (secret : WebhookSecret) (content : Bytes)
      → IsIn secret known
      → is_signed_by_any mac base64 known content
          (strip_prefix (codes "v1,") (codes "v1," ++ sign mac base64 secret content))
        ≡ true
  is_signed-sign known secret content m =
      ap (is_signed_by_any mac base64 known content)
        (strip_prefix-append (codes "v1,") (sign mac base64 secret content))
      ∙ any-IsIn (λ k. verify mac base64 k content (sign mac base64 secret content)) known secret m
          (verify-sign secret content)

  any_entry-map :
      (known secrets : List WebhookSecret) (secret : WebhookSecret) (content : Bytes)
      → IsIn secret known
      → IsIn secret secrets
      → any_entry mac base64 known content
          (map (λ secret. codes "v1," ++ sign mac base64 secret content) secrets)
        ≡ true
  unfolding any_entry
  any_entry-map known [] secret content m n = absurd n
  any_entry-map known (s ∷ secrets) secret content m (inl e) =
      ap
        (λ b.
          b
          || any_entry mac base64 known content
              (map (λ secret. codes "v1," ++ sign mac base64 secret content) secrets))
        (is_signed-sign known s content (subst (λ x. IsIn x known) (sym e) m))
  any_entry-map known (s ∷ secrets) secret content m (inr n) =
      ground (arith, any_entry-map known secrets secret content m n)

  accepted :
      (known : List WebhookSecret) (headers : HeaderMap) (body : Bytes) (tolerance now : ℕ)
      (id ts_str sig_header : Text) (timestamp : Timestamp)
      → header_str headers (codes "webhook-id") ≡ ok id
      → header_str headers (codes "webhook-timestamp") ≡ ok ts_str
      → header_str headers (codes "webhook-signature") ≡ ok sig_header
      → parse_timestamp ts_str ≡ some timestamp
      → distance now timestamp ≤ tolerance
      → any_entry mac base64 known (build_signed_content id timestamp body) (split b' ' sig_header)
        ≡ true
      → verify_headers mac base64 known headers body tolerance now ≡ ok tt
  unfolding verify_headers
  accepted known headers body tolerance now id ts_str sig_header timestamp h1 h2 h3 p near signed =
      let in_time : ltb tolerance (distance now timestamp) ≡ false = ground arith in
      let last : check_signed mac base64 known id body tolerance now sig_header timestamp ≡ ok tt =
        rw (in_time, signed) refl in
      (>>=-eq-ok_iff (header_str headers (codes "webhook-id")) _ tt).1 (
        id,
        h1,
        (>>=-eq-ok_iff (header_str headers (codes "webhook-timestamp")) _ tt).1 (
          ts_str,
          h2,
          (>>=-eq-ok_iff (header_str headers (codes "webhook-signature")) _ tt).1 (
            sig_header,
            h3,
            (>>=-eq-ok_iff (timestamp_of (parse_timestamp ts_str)) _ tt).1
                (timestamp, ap timestamp_of p, last),
          ),
        ),
      )

  -- The headers that sign_headers writes for a timestamp that is not negative are accepted, by a receiver
  -- that knows one of the secrets, at a time that is not further from the timestamp than the tolerance.
  pub sign_headers-verify_headers :
      (secrets known : List WebhookSecret) (secret : WebhookSecret) (id : Text) (n : ℕ)
      (body : Bytes) (signed : SignedHeaders) (headers : HeaderMap) (tolerance now : ℕ)
      → sign_headers mac base64 secrets id (at_or_after n) body ≡ some signed
      → header_str headers (codes "webhook-id") ≡ ok signed.webhook_id
      → header_str headers (codes "webhook-timestamp")
        ≡ ok (show_timestamp signed.webhook_timestamp)
      → header_str headers (codes "webhook-signature") ≡ ok signed.webhook_signature
      → n < 2 ^ 63
      → distance now (at_or_after n) ≤ tolerance
      → IsIn secret secrets
      → IsIn secret known
      → verify_headers mac base64 known headers body tolerance now ≡ ok tt
  unfolding sign_headers
  sign_headers-verify_headers [] known secret id n body signed headers tolerance now e h1 h2 h3 b
        near m k =
      absurd m
  sign_headers-verify_headers (s ∷ secrets) known secret id n body signed headers tolerance now e h1
        h2 h3 b near m k =
      let content = build_signed_content id (at_or_after n) body in
      let entries = map (λ secret. codes "v1," ++ sign mac base64 secret content) (s ∷ secrets) in
      let written : SignedHeaders = record {
        webhook_id = id;
        webhook_timestamp = at_or_after n;
        webhook_signature = join b' ' entries;
      } in
      let same : some written ≡ some signed = e in
      let is : written ≡ signed = cc in
      accepted known headers body tolerance now id (show_timestamp (at_or_after n))
        (join b' ' entries) (at_or_after n) (h1 ∙ ap (λ r. ok r.webhook_id) (sym is))
        (h2 ∙ ap (λ r. ok (show_timestamp r.webhook_timestamp)) (sym is))
        (h3 ∙ ap (λ r. ok r.webhook_signature) (sym is)) (show-parse n b) near
        (ap (any_entry mac base64 known content)
            (split-join b' ' _ _ (entries-spaceless (s ∷ secrets) content))
          ∙ any_entry-map known (s ∷ secrets) secret content k m)
