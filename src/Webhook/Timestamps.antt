-- ===== src/Webhook/Timestamps.antt =====
-- The decimal text of a timestamp is read back.
use modo.Base.{
  ℕ, zero, suc, ◌+◌, ◌*◌, ◌/◌, ◌%◌, ◌^◌, ◌≡◌, ◌<◌, refl, ap, ◌∙◌, true, false, ◌&&◌, [], ◌∷◌, some,
  arith, ltb, Bool-cases, inl, inr, nat_eq, ◌==◌,
}
use native.Mathlib.Nat.{pow-suc}
use modo.Base.Lists.{all}
use modo.Base.Text.{Text, is_ascii_digit, is_empty, within}
use modo.Webhook.{at_or_after, digits, value, positive, show_timestamp, parse_timestamp}

value-digits :
    (fuel n : ℕ) (rest : Text) → n < 10 ^ fuel → value 0 (digits fuel n rest) ≡ value n rest
unfolding digits
value-digits zero n rest h = ap (λ m. value m rest) (omega arith)
value-digits (suc fuel) n rest h = elim (Bool-cases (ltb n 10)) [
  | inl small ↦ let one : n < 10 = ground arith in rw small (ap (λ m. value m rest) (omega arith))
  | inr large ↦
      let bound : n < 10 ^ fuel * 10 = rw (pow-suc 10 fuel) at h in
      rw large (
        value-digits fuel (n / 10) ((n % 10 + b'0') ∷ rest) (omega arith)
        ∙ ap (λ m. value m rest) (omega arith))
]

all-digits :
    (fuel n : ℕ) (rest : Text)
    → all is_ascii_digit rest ≡ true
    → all is_ascii_digit (digits fuel n rest) ≡ true
unfolding digits
all-digits zero n rest h = h
all-digits (suc fuel) n rest h =
    let here : (within b'0' b'9' (n % 10 + b'0') && all is_ascii_digit rest) ≡ true =
      ground arith in
    ground (arith, here, all-digits fuel (n / 10) ((n % 10 + b'0') ∷ rest) here)

digits-some : (fuel n x : ℕ) (rest : Text) → is_empty (digits fuel n (x ∷ rest)) ≡ false
unfolding digits
digits-some zero n x rest = refl
digits-some (suc fuel) n x rest =
    ground (arith, digits-some fuel (n / 10) (n % 10 + b'0') (x ∷ rest))

digits-some_first : (fuel n : ℕ) → is_empty (digits (suc fuel) n []) ≡ false
unfolding digits
digits-some_first fuel n = ground (arith, digits-some fuel (n / 10) (n % 10 + b'0') [])

parse_timestamp-digits :
    (s : Text)
    → is_empty s ≡ false
    → all is_ascii_digit s ≡ true
    → parse_timestamp s ≡ positive (some (value 0 s))
unfolding parse_timestamp
parse_timestamp-digits [] some-digit h = cc
parse_timestamp-digits (c ∷ s) some-digit h =
    let no_minus : (c == b'-') ≡ false = ground arith in
    let no_plus : (c == b'+') ≡ false = ground arith in rw (no_minus, no_plus, h) refl

pub show-parse :
    (n : ℕ) → n < 2 ^ 63 → parse_timestamp (show_timestamp (at_or_after n)) ≡ some (at_or_after n)
show-parse n h =
    parse_timestamp-digits (digits 20 n []) (digits-some_first 19 n) (all-digits 20 n [] refl)
    ∙ ap (λ m. positive (some m)) (value-digits 20 n [] (omega arith))
    ∙ ground arith
