-- ===== src/Webhook/Verifying.antt =====
-- What a webhook that is accepted has.
use modo.Base.{
  ℕ, ◌≡◌, ◌≤◌, refl, ap, sym, Bool, true, ◌||◌, List, [], ◌∷◌, ◌++◌, Option, none, some, arith, ltb,
  Bool-cases, Option-cases, inl, inr, nat_eq,
}
use modo.Base.Lists.{any, list_eq}
use modo.Base.Rows.Keys.{IsIn}
use modo.Base.Text.{Text, codes, split, strip_prefix}
use modo.Base.Text.Cuts.{strip_prefix-eq}
use modo.Base.Errors.{Result, ok, >>=-eq-ok_iff}
use modo.Encoding.Bytes.{Bytes}
use modo.Http.{HeaderMap}
use modo.Webhook.{
  Base64, Timestamp, WebhookSecret, distance, build_signed_content, header_str, timestamp_of,
  parse_timestamp, is_tag, verify, any_entry, check_signed, verify_headers,
}

any-some :
    {A : Type 0} (test : A → Bool) (xs : List A)
    → any test xs ≡ true
    → (x : A) × IsIn x xs × (test x ≡ true)
any-some test [] h = cc
any-some test (x ∷ xs) h = elim (Bool-cases (test x)) [
  | inl hit ↦ (x, inl refl, hit)
  | inr miss ↦ let (y, m, e) = any-some test xs (ground arith) in (y, inr m, e)
]

module _ (mac : Bytes → Bytes → Bytes) (base64 : Base64) where
  is_tag-eq :
      (secret content : Bytes) (o : Option Bytes)
      → is_tag mac base64 secret content o ≡ true
      → o ≡ some (mac secret content)
  is_tag-eq secret content none h = cc
  is_tag-eq secret content (some sig) h =
      ap some (sym ((list_eq.equals_iff (mac secret content) sig).0 h))

  any_entry-some :
      (secrets : List WebhookSecret) (content : Bytes) (entries : List Text)
      → any_entry mac base64 secrets content entries ≡ true
      → (secret : WebhookSecret) × (raw_sig : Text) × IsIn secret secrets
        × IsIn (codes "v1," ++ raw_sig) entries
        × (base64.decode raw_sig ≡ some (mac secret content))
  unfolding any_entry
  any_entry-some secrets content [] h = cc
  any_entry-some secrets content (entry ∷ entries) h =
      let next : (any_entry mac base64 secrets content entries ≡ true)
          → (secret : WebhookSecret) × (raw_sig : Text) × IsIn secret secrets
            × IsIn (codes "v1," ++ raw_sig) (entry ∷ entries)
            × (base64.decode raw_sig ≡ some (mac secret content)) =
        λ r.
          let (secret, raw_sig, m, e, is) = any_entry-some secrets content entries r in
          (secret, raw_sig, m, inr e, is) in
      elim (Option-cases (strip_prefix (codes "v1,") entry)) [
        | inl other ↦ next (rw other at h)
        | inr (raw_sig, stripped) ↦
            let is_version = strip_prefix-eq (codes "v1,") entry raw_sig stripped in
            let signed : (any (λ secret. verify mac base64 secret content raw_sig) secrets
                  || any_entry mac base64 secrets content entries)
                ≡ true =
              rw stripped at h in
            elim (Bool-cases (any (λ secret. verify mac base64 secret content raw_sig) secrets)) [
              | inl hit ↦
                  let (secret, m, e) =
                    any-some (λ secret. verify mac base64 secret content raw_sig) secrets hit in
                  (
                    secret,
                    raw_sig,
                    m,
                    inl is_version,
                    is_tag-eq secret content (base64.decode raw_sig) e,
                  )
              | inr miss ↦ next (rw miss at signed)
            ]
      ]

  timestamp_of-eq-ok :
      (o : Option Timestamp) (ts : Timestamp) → timestamp_of o ≡ ok ts → o ≡ some ts
  timestamp_of-eq-ok none ts h = cc
  timestamp_of-eq-ok (some ts') ts h = cc

  check_signed-eq-ok :
      (secrets : List WebhookSecret) (id : Text) (body : Bytes) (tolerance now : ℕ)
      (sig_header : Text) (timestamp : Timestamp)
      → check_signed mac base64 secrets id body tolerance now sig_header timestamp ≡ ok tt
      → (distance now timestamp ≤ tolerance)
        × (any_entry mac base64 secrets
              (build_signed_content id timestamp body)
              (split b' ' sig_header)
            ≡ true)
  check_signed-eq-ok secrets id body tolerance now sig_header timestamp h =
      elim (Bool-cases (ltb tolerance (distance now timestamp))) [
        | inl late ↦ let e : Result.err _ ≡ ok (tt {0}) = rw late at h in cc
        | inr near ↦
            elim (Bool-cases (
              any_entry mac base64 secrets (build_signed_content id timestamp body)
                (split b' ' sig_header))) [
                  | inl signed ↦ (ground arith, signed)
                  | inr unsigned ↦
                      let e : Result.err _ ≡ ok (tt {0}) = rw (near, unsigned) at h in cc
                ]
      ]

  -- A webhook is accepted only if its three headers are texts, its timestamp is a number that is not
  -- further from the clock than the tolerance, and one of the entries of its signature header is "v1,"
  -- and the base64 text of the tag, under one of the secrets, of its identifier, its timestamp and body.
  pub verify_headers-eq-ok :
      (secrets : List WebhookSecret) (headers : HeaderMap) (body : Bytes) (tolerance now : ℕ)
      → verify_headers mac base64 secrets headers body tolerance now ≡ ok tt
      → (id ts_str sig_header raw_sig : Text) × (timestamp : Timestamp) × (secret : WebhookSecret)
        × (header_str headers (codes "webhook-id") ≡ ok id)
        × (header_str headers (codes "webhook-timestamp") ≡ ok ts_str)
        × (header_str headers (codes "webhook-signature") ≡ ok sig_header)
        × (parse_timestamp ts_str ≡ some timestamp)
        × (distance now timestamp ≤ tolerance)
        × IsIn secret secrets
        × IsIn (codes "v1," ++ raw_sig) (split b' ' sig_header)
        × (base64.decode raw_sig ≡ some (mac secret (build_signed_content id timestamp body)))
  unfolding verify_headers
  verify_headers-eq-ok secrets headers body tolerance now h =
      let (id, is_id, h1) = (>>=-eq-ok_iff (header_str headers (codes "webhook-id")) _ tt).0 h in
      let (ts_str, is_ts, h2) =
        (>>=-eq-ok_iff (header_str headers (codes "webhook-timestamp")) _ tt).0 h1 in
      let (sig_header, is_sig, h3) =
        (>>=-eq-ok_iff (header_str headers (codes "webhook-signature")) _ tt).0 h2 in
      let (timestamp, is_time, last) =
        (>>=-eq-ok_iff (timestamp_of (parse_timestamp ts_str)) _ tt).0 h3 in
      let (near, signed) =
        check_signed-eq-ok secrets id body tolerance now sig_header timestamp last in
      let (secret, raw_sig, known, entry, tag) =
        any_entry-some secrets (build_signed_content id timestamp body) (split b' ' sig_header)
          signed in
      (
        id,
        ts_str,
        sig_header,
        raw_sig,
        timestamp,
        secret,
        is_id,
        is_ts,
        is_sig,
        timestamp_of-eq-ok (parse_timestamp ts_str) timestamp is_time,
        near,
        known,
        entry,
        tag,
      )
