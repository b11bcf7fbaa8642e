-- ===== src/Auth/ApiKey/TokenText.antt =====
-- Which texts are API keys.
use modo.Base.{
  ℕ, zero, suc, ◌≡◌, ◌↔◌, ◌<◌, refl, ap, ap₂, sym, subst, ◌∙◌, true, false, [], ◌∷◌, ◌++◌, arith,
  leb, Bool-cases, Option-cases, inl, inr, nat_eq, ◌==◌, ==_refl,
}
use modo.Base.Lists.{
  length, length-append, take, drop, list_eq, list_beq_iff, take-length-append, drop-length-append,
  drop-suc-append, take-append-drop,
}
use modo.Base.Text.{find, contains_char}
use modo.Base.Text.Cuts.{find-cuts, find-append}
use modo.Encoding.Bytes.{Bytes}
use modo.Auth.ApiKey.Token.{parsed, ulid_len, format_token, is_boundary, split_body, parse_token}

-- The parts of a key: an identifier of 26 bytes, a secret that is not empty and starts a character.
pub record AreParts (prefix id secret : Bytes) : Type 0 where
  pub plain_prefix : contains_char b'_' prefix ≡ false
  pub id_size : length id ≡ 26
  pub secret_size : 0 < length secret
  pub boundary : is_boundary secret ≡ true

cut_sizes :
    (n : ℕ) (xs : Bytes) → n < length xs → (length (take n xs) ≡ n) × (0 < length (drop n xs))
cut_sizes zero xs h = (refl, h)
cut_sizes (suc n) [] h = absurd (omega arith)
cut_sizes (suc n) (x ∷ xs) h =
    let (size, more) = cut_sizes n xs (omega arith) in (ap suc size, more)

parsed_parts : {a b c d : Bytes} → parsed a b ≡ parsed c d → (a ≡ c) × (b ≡ d)
parsed_parts h = (cc, cc)

IsBody : Bytes → Bytes → Bytes → Type 0
IsBody body id secret =
    (body ≡ id ++ secret) × (length id ≡ 26) × (0 < length secret) × (is_boundary secret ≡ true)

split_body_sound :
    (body id secret : Bytes) → split_body body ≡ parsed id secret → IsBody body id secret
unfolding IsBody
split_body_sound body id secret h = elim (Bool-cases (leb (length body) ulid_len)) [
  | inl short ↦ cc (rw short at h)
  | inr long ↦ elim (Bool-cases (is_boundary (drop ulid_len body))) [
    | inr inside ↦ cc (rw (long, inside) at h)
    | inl starts ↦
        let (e, e') = parsed_parts (rw (long, starts) at h) in
        let (size, more) = cut_sizes 26 body (ground arith) in
        (
          sym (take-append-drop 26 body) ∙ ap₂ ◌++◌ e e',
          subst (λ x. length x ≡ 26) e size,
          subst (λ x. 0 < length x) e' more,
          subst (λ x. is_boundary x ≡ true) e' starts,
        )
  ]
]

split_body-append :
    (id secret : Bytes)
    → length id ≡ 26
    → 0 < length secret
    → is_boundary secret ≡ true
    → split_body (id ++ secret) ≡ parsed id secret
split_body-append id secret size more starts =
    let total = length-append id secret in
    let long : leb (length (id ++ secret)) 26 ≡ false = ground arith in
    let front : take 26 (id ++ secret) ≡ id =
      subst (λ n. take n (id ++ secret) ≡ id) size (take-length-append id secret) in
    let back : drop 26 (id ++ secret) ≡ secret =
      subst (λ n. drop n (id ++ secret) ≡ secret) size (drop-length-append id secret) in
    rw (long, back, starts, front)

parse_token_sound :
    (raw prefix id secret : Bytes)
    → parse_token raw prefix ≡ parsed id secret
    → (raw ≡ format_token prefix id secret) × AreParts prefix id secret
unfolding parse_token format_token IsBody
parse_token_sound raw prefix id secret h = elim (Option-cases (find b'_' raw)) [
  | inl absent ↦ cc (rw absent at h)
  | inr (i, found) ↦
      let (cut, plain) = find-cuts b'_' raw i found in
      elim (Bool-cases (take i raw == prefix)) [
        | inr other ↦ cc (rw (found, other) at h)
        | inl own ↦
            let e : take i raw ≡ prefix = (list_beq_iff (take i raw) prefix).0 own in
            let (body, size, more, starts) =
              split_body_sound (drop (suc i) raw) id secret (rw (found, own) at h) in
            (
              cut ∙ ap₂ (λ x y. x ++ b'_' ∷ y) e body,
              record {
                plain_prefix = subst (λ x. contains_char b'_' x ≡ false) e plain;
                id_size = size;
                secret_size = more;
                boundary = starts;
              },
            )
      ]
]

parse_token-format_token :
    (prefix id secret : Bytes)
    → AreParts prefix id secret
    → parse_token (format_token prefix id secret) prefix ≡ parsed id secret
unfolding parse_token format_token
parse_token-format_token prefix id secret p =
    let found = find-append b'_' prefix (id ++ secret) p.plain_prefix in
    rw
      (
        found,
        take-length-append prefix (b'_' ∷ (id ++ secret)),
        drop-suc-append prefix (id ++ secret) b'_',
        ==_refl prefix,
      )
      (split_body-append id secret p.id_size p.secret_size p.boundary)

-- A text is parsed for a prefix into an identifier and a secret exactly when it is the text of these three,
-- the prefix has no `_`, the identifier has 26 bytes, and the secret is not empty and starts a character.
pub parse_token_iff :
    (raw prefix id secret : Bytes)
    → (parse_token raw prefix ≡ parsed id secret)
      ↔ ((raw ≡ format_token prefix id secret) × AreParts prefix id secret)
parse_token_iff raw prefix id secret = (
  parse_token_sound raw prefix id secret,
  λ (e, p).
      subst (λ x. parse_token x prefix ≡ parsed id secret) (sym e)
        (parse_token-format_token prefix id secret p),
)
