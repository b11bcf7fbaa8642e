-- ===== src/Server/HostRouter/Resolve.antt =====
-- Where the host name of a request comes from.
use modo.Base.{
  ℕ, suc, ◌≡◌, ◌⊎◌, inl, inr, refl, ap, ◌∙◌, true, false, [], ◌∷◌, ◌++◌, Option, none, some, arith,
  Bool-cases, Option-cases,
}
use modo.Base.Lists.{drop, all, take-length-append, drop-suc-append}
use modo.Base.Text.{
  Text, codes, is_ascii_digit, is_empty, contains_char, to_lowercase, to_ascii_lowercase, trim,
  rfind,
}
use modo.Base.Text.Cuts.{rfind-append, rfind-cuts}
use modo.Base.Errors.{ok, err, bad_request}
use modo.Http.{Parts, header_text}
use modo.Server.HostRouter.{
  cut_port, strip_port, resolve_host, normalized, first_of_three, from_forwarded, from_plain,
}

digits-no_colon : (s : Text) → all is_ascii_digit s ≡ true → contains_char b':' s ≡ false
digits-no_colon [] h = refl
digits-no_colon (c ∷ s) h = ground (arith, digits-no_colon s)

-- `strip_port` cuts off a port of digits, whatever stands in front of it.
pub strip_port-append :
    (name port : Text) → all is_ascii_digit port ≡ true → strip_port (name ++ b':' ∷ port) ≡ name
unfolding strip_port
strip_port-append name port digits =
    rw (rfind-append b':' name port (digits-no_colon port digits), cut_port)
      (rw (drop-suc-append name port b':', digits) (take-length-append name (b':' ∷ port)))

-- `strip_port` gives the text itself, or what stands in front of a colon and digits at its end.
pub strip_port-cases :
    (host : Text)
    → (strip_port host ≡ host)
      ⊎ ((port : Text) × (all is_ascii_digit port ≡ true) × (host ≡ strip_port host ++ b':' ∷ port))
unfolding strip_port
strip_port-cases host = elim (Option-cases (rfind b':' host)) [
  | inl absent ↦ inl (rw (absent, cut_port))
  | inr (pos, found) ↦ elim (Bool-cases (all is_ascii_digit (drop (suc pos) host))) [
    | inl digits ↦ inr (
      drop (suc pos) host,
      digits,
      (rfind-cuts b':' host pos found).0 ∙ rw (found, cut_port) (rw digits),
    )
    | inr other ↦ inl (rw (found, cut_port) (rw other))
  ]
]

lower_idem : (c : ℕ) → to_ascii_lowercase (to_ascii_lowercase c) ≡ to_ascii_lowercase c
unfolding to_ascii_lowercase
lower_idem c = ground arith

pub to_lowercase_idem : (s : Text) → to_lowercase (to_lowercase s) ≡ to_lowercase s
to_lowercase_idem [] = refl
to_lowercase_idem (c ∷ s) = cc (lower_idem c, to_lowercase_idem s)

-- A resolved name is in lower case, and an error is the one for a request with no usable header:
-- none of the three gives a host that is not blank.
pub resolve_host-cases :
    (parts : Parts)
    → ((name : Text) × (resolve_host parts ≡ ok name) × (to_lowercase name ≡ name))
      ⊎ ((resolve_host parts ≡ err (bad_request (codes "missing or invalid Host header")))
          × (from_forwarded (header_text (codes "forwarded") parts) ≡ none)
          × (from_plain (header_text (codes "x-forwarded-host") parts) ≡ none)
          × (from_plain (header_text (codes "host") parts) ≡ none))
unfolding resolve_host
resolve_host-cases parts =
    go (from_forwarded (header_text (codes "forwarded") parts))
      (from_plain (header_text (codes "x-forwarded-host") parts))
      (from_plain (header_text (codes "host") parts))
  where
    go :
        (a b c : Option Text)
        → ((name : Text) × (normalized (first_of_three a b c) ≡ ok name)
            × (to_lowercase name ≡ name))
          ⊎ ((normalized (first_of_three a b c)
                ≡ err (bad_request (codes "missing or invalid Host header")))
              × (a ≡ none)
              × (b ≡ none)
              × (c ≡ none))
    go (some a) b c = inl (to_lowercase (strip_port a), refl, to_lowercase_idem (strip_port a))
    go none (some b) c = inl (to_lowercase (strip_port b), refl, to_lowercase_idem (strip_port b))
    go none none (some c) =
        inl (to_lowercase (strip_port c), refl, to_lowercase_idem (strip_port c))
    go none none none = inr (refl, refl, refl, refl)

append-nonempty : (s t : Text) → is_empty (s ++ b':' ∷ t) ≡ false
append-nonempty [] t = refl
append-nonempty (c ∷ s) t = refl

-- A request whose only header for the host is a visible `Host` of a name and a port of digits, with no
-- blanks around it, resolves to the name in lower case.
pub resolve_host-port :
    (parts : Parts) (name port : Text)
    → header_text (codes "forwarded") parts ≡ none
    → header_text (codes "x-forwarded-host") parts ≡ none
    → header_text (codes "host") parts ≡ some (name ++ b':' ∷ port)
    → trim (name ++ b':' ∷ port) ≡ name ++ b':' ∷ port
    → all is_ascii_digit port ≡ true
    → resolve_host parts ≡ ok (to_lowercase name)
unfolding resolve_host
resolve_host-port parts name port no_forwarded no_x host trimmed digits =
    rw (no_forwarded, no_x, host, trimmed, append-nonempty name port)
      (ap (λ s. ok (to_lowercase s)) (strip_port-append name port digits))
