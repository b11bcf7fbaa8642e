-- ===== src/Auth/Session/TokenText.antt =====
-- The texts that stand for a session token.
use modo.Base.{
  ℕ, ◌+◌, ◌-◌, ◌*◌, ◌/◌, ◌%◌, ◌≡◌, ◌↔◌, ◌<◌, refl, ap, sym, ◌∙◌, Bool, true, false, [], ◌∷◌, Option,
  zero, suc, subst, =ℕ_iff, none, some, arith, ◌=ℕ◌, Bool-cases, inl, inr,
}
use modo.Base.Lists.{All, length}
use modo.Base.Text.{Text, within, to_ascii_lowercase, to_lowercase}
use modo.Encoding.Bytes.{Bytes, IsByte, at, all_below, all_below_sound}
use modo.Encoding.Hex.{hex_table, encode}
use modo.Encoding.Hex.Laws.{length-encode}
use modo.Auth.Session.Token.{
  SessionToken, token, hex_digit, hex_pair, push_byte, read_chunks, decoded, from_hex, as_hex,
}

abbrev is_digit_of : Option ℕ → ℕ → Bool
is_digit_of (some w) v = w =ℕ v
is_digit_of none v = false

is_digit_of-eq : (o : Option ℕ) (v : ℕ) → is_digit_of o v ≡ true → o ≡ some v
is_digit_of-eq (some w) v h = ap some (ground arith)
is_digit_of-eq none v h = cc

digit_table : all_below 16 (λ v. is_digit_of (hex_digit (at hex_table v)) v) ≡ true
unfolding all_below hex_digit
digit_table = refl

hex_digit-at : (v : ℕ) → v < 16 → hex_digit (at hex_table v) ≡ some v
hex_digit-at v h =
    is_digit_of-eq _ v
      (all_below_sound 16 (λ w. is_digit_of (hex_digit (at hex_table w)) w) v digit_table h)

low_table : all_below 10 (λ v. at hex_table v =ℕ v + b'0') ≡ true
unfolding all_below
low_table = refl

high_table : all_below 6 (λ v. at hex_table (v + 10) =ℕ v + b'a') ≡ true
unfolding all_below
high_table = refl

at-low : (v : ℕ) → v < 10 → at hex_table v ≡ v + b'0'
at-low v h = ground (arith, all_below_sound 10 (λ w. at hex_table w =ℕ w + b'0') v low_table h)

at-high : (v : ℕ) → v < 6 → at hex_table (v + 10) ≡ v + b'a'
at-high v h =
    ground (arith, all_below_sound 6 (λ w. at hex_table (w + 10) =ℕ w + b'a') v high_table h)

some_eq : {A : Type 0} {a b : A} → some a ≡ some b → a ≡ b
some_eq h = cc

low_sound :
    (b v : ℕ)
    → within b'0' b'9' b ≡ true
    → b - b'0' ≡ v
    → (v < 16) × (at hex_table v ≡ to_ascii_lowercase b)
unfolding to_ascii_lowercase
low_sound b v h e =
    let small : v < 10 = ground (arith) in (omega arith, at-low v small ∙ ground arith)

high_sound :
    (b v : ℕ)
    → within b'a' b'f' b ≡ true
    → b - b'a' + 10 ≡ v
    → (v < 16) × (at hex_table v ≡ to_ascii_lowercase b)
unfolding to_ascii_lowercase
high_sound b v h e =
    let small : b - b'a' < 6 = ground arith in
    (ground arith, ap (at hex_table) (sym e) ∙ at-high (b - b'a') small ∙ ground arith)

upper_sound :
    (b v : ℕ)
    → within b'A' b'F' b ≡ true
    → b - b'A' + 10 ≡ v
    → (v < 16) × (at hex_table v ≡ to_ascii_lowercase b)
unfolding to_ascii_lowercase
upper_sound b v h e =
    let small : b - b'A' < 6 = ground arith in
    (ground arith, ap (at hex_table) (sym e) ∙ at-high (b - b'A') small ∙ ground arith)

-- A digit that is read is below 16, and its character in the table is the one read, in lower case.
hex_digit_sound :
    (b v : ℕ) → hex_digit b ≡ some v → (v < 16) × (at hex_table v ≡ to_ascii_lowercase b)
unfolding hex_digit
hex_digit_sound b v h = elim (Bool-cases (within b'0' b'9' b)) [
  | inl low ↦ low_sound b v low (some_eq (rw low at h))
  | inr n ↦ elim (Bool-cases (within b'a' b'f' b)) [
    | inl high ↦ high_sound b v high (some_eq (rw (n, high) at h))
    | inr m ↦ elim (Bool-cases (within b'A' b'F' b)) [
      | inl upper ↦ upper_sound b v upper (some_eq (rw (n, m, upper) at h))
      | inr other ↦ cc (rw (n, m, other) at h)
    ]
  ]
]

hex_pair_sound :
    (p q : Option ℕ) (b : ℕ)
    → hex_pair p q ≡ some b
    → (hi lo : ℕ) × (p ≡ some hi) × (q ≡ some lo) × (hi * 16 + lo ≡ b)
hex_pair_sound (some hi) (some lo) b h = (hi, lo, refl, refl, some_eq h)
hex_pair_sound (some hi) none b h = cc
hex_pair_sound none q b h = cc

push_byte_sound :
    (o : Option ℕ) (r : Option Bytes) (bs : Bytes)
    → push_byte o r ≡ some bs
    → (b : ℕ) × (rest : Bytes) × (o ≡ some b) × (r ≡ some rest) × (b ∷ rest ≡ bs)
push_byte_sound (some b) (some rest) bs h = (b, rest, refl, refl, some_eq h)
push_byte_sound (some b) none bs h = cc
push_byte_sound none r bs h = cc

read_chunks-encode : (bs : Bytes) → All IsByte bs → read_chunks (encode bs) ≡ some bs
unfolding read_chunks encode
read_chunks-encode [] h = refl
read_chunks-encode (b ∷ bs) (k, h) =
    rw
      (
        hex_digit-at (b / 16) (omega arith),
        hex_digit-at (b % 16) (omega arith),
        read_chunks-encode bs h,
      )
      (ap (λ x. some (x ∷ bs)) (omega arith))

-- What a text of even length reads as: its bytes, whose text is the text read, in lower case.
read_chunks_sound :
    (n : ℕ) (s bs : Bytes)
    → length s ≡ n * 2
    → read_chunks s ≡ some bs
    → (length bs ≡ n) × All IsByte bs × (encode bs ≡ to_lowercase s)
unfolding read_chunks encode
read_chunks_sound zero [] bs e h =
    subst (λ x. (length x ≡ 0) × All IsByte x × (encode x ≡ [])) (some_eq h) (refl, tt, refl)
read_chunks_sound zero (c ∷ s) bs e h = absurd (omega arith)
read_chunks_sound (suc n) [] bs e h = absurd (omega arith)
read_chunks_sound (suc n) (c ∷ []) bs e h = absurd (omega arith)
read_chunks_sound (suc n) (c ∷ d ∷ s) bs e h =
    let (b, rest, pair, more, whole) =
      push_byte_sound (hex_pair (hex_digit c) (hex_digit d)) (read_chunks s) bs h in
    let (hi, lo, first, second, sum) = hex_pair_sound _ _ b pair in
    let (hi_small, hi_char) = hex_digit_sound c hi first in
    let (lo_small, lo_char) = hex_digit_sound d lo second in
    let (size, small, text) = read_chunks_sound n s rest (omega arith) more in
    let high : b / 16 ≡ hi = omega arith in
    let low : b % 16 ≡ lo = omega arith in
    subst (λ x. (length x ≡ suc n) × All IsByte x × (encode x ≡ to_lowercase (c ∷ d ∷ s))) whole
      (ap suc size, (omega arith, small), rw (high, low, hi_char, lo_char, text))

hex_digit-lower : (c : ℕ) → hex_digit (to_ascii_lowercase c) ≡ hex_digit c
unfolding hex_digit to_ascii_lowercase
hex_digit-lower c = ground arith

read_chunks-lower : (s : Text) → read_chunks (to_lowercase s) ≡ read_chunks s
unfolding read_chunks
read_chunks-lower [] = refl
read_chunks-lower (c ∷ []) = refl
read_chunks-lower (c ∷ d ∷ s) = rw (hex_digit-lower c, hex_digit-lower d, read_chunks-lower s)

length-lower : (s : Text) → length (to_lowercase s) ≡ length s
length-lower [] = refl
length-lower (c ∷ s) = ap suc (length-lower s)

decoded-token : (o : Option Bytes) (bs : Bytes) → decoded o ≡ token bs → o ≡ some bs
decoded-token (some x) bs h = ap some cc
decoded-token none bs h = cc

-- A token of the source: 32 bytes.
abbrev pub IsToken : SessionToken → Type 0
IsToken bs = (length bs ≡ 32) × All IsByte bs

-- `from_hex` gives a token's bytes for a text exactly when they are 32 bytes and `as_hex` of them is the
-- text in lower case.
pub from_hex_iff :
    (s : Text) (bs : SessionToken)
    → (from_hex s ≡ token bs) ↔ (IsToken bs × (as_hex bs ≡ to_lowercase s))
unfolding from_hex
from_hex_iff s bs = (
  λ h. elim (Bool-cases (length s =ℕ 64)) [
    | inl full ↦
        let (size, small, text) =
          read_chunks_sound 32 s bs ((=ℕ_iff _ _).0 full) (decoded-token _ bs (rw full at h)) in
        ((size, small), text)
    | inr other ↦ cc (rw other at h)
  ],
  λ ((size, small), text).
      let sized : length s ≡ 64 =
        sym (length-lower s) ∙ ap length (sym text) ∙ length-encode bs ∙ ap (λ x. x * 2) size in
      let full : (length s =ℕ 64) ≡ true = (=ℕ_iff _ _).1 sized in
      let read : read_chunks s ≡ some bs =
        sym (read_chunks-lower s) ∙ ap read_chunks (sym text) ∙ read_chunks-encode bs small in
      rw (full, read),
)
