-- ===== src/Encoding/Base32/RoundTrip.antt =====
-- Decoding what was encoded, and reading either case.
use modo.Base.{
  ℕ, ◌+◌, ◌-◌, ◌*◌, ◌/◌, ◌%◌, ◌^◌, ◌≡◌, ◌<◌, refl, sym, ◌∙◌, [], ◌∷◌, arith, ◌=ℕ◌, Bool, true,
  false,
}
use modo.Base.Lists.{All}
use modo.Base.Text.{Text, to_ascii_uppercase, to_ascii_lowercase, to_lowercase}
use modo.Base.Errors.{Result, ok, err}
use modo.Encoding.Bytes.{Bytes, IsByte, at, all_below, all_below_sound}
use modo.Encoding.Base32.{alphabet, drain, encode_from, encode, decode_char, decode_from, decode}

abbrev is_ok_at : ℕ → Result ℕ → Bool
is_ok_at n (ok m) = m =ℕ n
is_ok_at n (err _) = false

is_ok_at-eq : (n : ℕ) (r : Result ℕ) → is_ok_at n r ≡ true → r ≡ ok n
is_ok_at-eq n (ok m) h = ground arith
is_ok_at-eq n (err e) h = cc

decode_char-table :
    all_below 32 (λ v. is_ok_at v (decode_char (to_ascii_uppercase (at alphabet v)))) ≡ true
unfolding all_below decode_char to_ascii_uppercase
decode_char-table = refl

-- Each five-bit value is read back from its character.
decode_char-at : (v : ℕ) → v < 32 → decode_char (to_ascii_uppercase (at alphabet v)) ≡ ok v
decode_char-at v h = is_ok_at-eq v _ (all_below_sound 32 _ v decode_char-table h)

-- One character of the decoder, by the bits in hand: with fewer than three it only fills the buffer.
module _ (q v : ℕ) (cs : Text) (bs : Bytes) (h : v < 32) where
  decode_0 :
      decode_from (q * 32 % 2 ^ 64 + v) 5 cs ≡ ok bs → decode_from q 0 (at alphabet v ∷ cs) ≡ ok bs
  unfolding decode_from
  decode_0 e = rw (decode_char-at v h, e)

  decode_1 :
      decode_from (q * 32 % 2 ^ 64 + v) 6 cs ≡ ok bs → decode_from q 1 (at alphabet v ∷ cs) ≡ ok bs
  unfolding decode_from
  decode_1 e = rw (decode_char-at v h, e)

  decode_2 :
      decode_from (q * 32 % 2 ^ 64 + v) 7 cs ≡ ok bs → decode_from q 2 (at alphabet v ∷ cs) ≡ ok bs
  unfolding decode_from
  decode_2 e = rw (decode_char-at v h, e)

  decode_3 :
      decode_from (q * 32 % 2 ^ 64 + v) 0 cs ≡ ok bs
      → decode_from q 3 (at alphabet v ∷ cs) ≡ ok ((q * 32 % 2 ^ 64 + v) / 2 ^ 0 % 256 ∷ bs)
  unfolding decode_from
  decode_3 e = rw (decode_char-at v h, e)

  decode_4 :
      decode_from (q * 32 % 2 ^ 64 + v) 1 cs ≡ ok bs
      → decode_from q 4 (at alphabet v ∷ cs) ≡ ok ((q * 32 % 2 ^ 64 + v) / 2 ^ 1 % 256 ∷ bs)
  unfolding decode_from
  decode_4 e = rw (decode_char-at v h, e)

  decode_5 :
      decode_from (q * 32 % 2 ^ 64 + v) 2 cs ≡ ok bs
      → decode_from q 5 (at alphabet v ∷ cs) ≡ ok ((q * 32 % 2 ^ 64 + v) / 2 ^ 2 % 256 ∷ bs)
  unfolding decode_from
  decode_5 e = rw (decode_char-at v h, e)

  decode_6 :
      decode_from (q * 32 % 2 ^ 64 + v) 3 cs ≡ ok bs
      → decode_from q 6 (at alphabet v ∷ cs) ≡ ok ((q * 32 % 2 ^ 64 + v) / 2 ^ 3 % 256 ∷ bs)
  unfolding decode_from
  decode_6 e = rw (decode_char-at v h, e)

  decode_7 :
      decode_from (q * 32 % 2 ^ 64 + v) 4 cs ≡ ok bs
      → decode_from q 7 (at alphabet v ∷ cs) ≡ ok ((q * 32 % 2 ^ 64 + v) / 2 ^ 4 % 256 ∷ bs)
  unfolding decode_from
  decode_7 e = rw (decode_char-at v h, e)

decode_end : (q m : ℕ) → decode_from q m [] ≡ ok []
unfolding decode_from
decode_end q m = refl

cons_eq : {x y : ℕ} {xs : Bytes} → x ≡ y → ok (x ∷ xs) ≡ ok (y ∷ xs)
cons_eq e = cc

-- The byte that is under way, by the bits that wait in the encoder: `q` holds its upper bits in the
-- decoder's buffer, and `p` its lower ones in the encoder's.
abbrev pending : ℕ → ℕ → ℕ → ℕ
pending k q p = q % 2 ^ (8 - k) * 2 ^ k + p % 2 ^ k

-- The encoder with `k` bits in hand and the decoder with `m` are in step when `k + m` is 0 or 8.
in_step :
    (bs : Bytes)
    → All IsByte bs
    → (p q : ℕ)
    → (decode_from q 0 (encode_from p 0 bs) ≡ ok bs)
      × (decode_from q 5 (encode_from p 3 bs) ≡ ok (pending 3 q p ∷ bs))
      × (decode_from q 7 (encode_from p 1 bs) ≡ ok (pending 1 q p ∷ bs))
      × (decode_from q 4 (encode_from p 4 bs) ≡ ok (pending 4 q p ∷ bs))
      × (decode_from q 6 (encode_from p 2 bs) ≡ ok (pending 2 q p ∷ bs))
unfolding encode_from drain
in_step [] h p q = (
  decode_end q 0,
  decode_5 q (p * 4 % 2 ^ 64 % 32) [] [] (omega arith) (decode_end _ 2) ∙ cons_eq (omega arith),
  decode_7 q (p * 16 % 2 ^ 64 % 32) [] [] (omega arith) (decode_end _ 4) ∙ cons_eq (omega arith),
  decode_4 q (p * 2 % 2 ^ 64 % 32) [] [] (omega arith) (decode_end _ 1) ∙ cons_eq (omega arith),
  decode_6 q (p * 8 % 2 ^ 64 % 32) [] [] (omega arith) (decode_end _ 3) ∙ cons_eq (omega arith),
)
in_step (b ∷ bs) (hb, h) p q =
    let p' : ℕ = p * 256 % 2 ^ 64 + b in
    let (_, next0, _, _, _) = in_step bs h p' (q * 32 % 2 ^ 64 + p' / 8 % 32) in
    let q3 : ℕ = q * 32 % 2 ^ 64 + p' / 64 % 32 in
    let (_, _, next3, _, _) = in_step bs h p' (q3 * 32 % 2 ^ 64 + p' / 2 % 32) in
    let (_, _, _, next1, _) = in_step bs h p' (q * 32 % 2 ^ 64 + p' / 16 % 32) in
    let q4 : ℕ = q * 32 % 2 ^ 64 + p' / 128 % 32 in
    let (_, _, _, _, next4) = in_step bs h p' (q4 * 32 % 2 ^ 64 + p' / 4 % 32) in
    let q2 : ℕ = q * 32 % 2 ^ 64 + p' / 32 % 32 in
    let (next2, _, _, _, _) = in_step bs h p' (q2 * 32 % 2 ^ 64 + p' / 1 % 32) in
    (
      decode_0 q (p' / 8 % 32) (encode_from p' 3 bs) (b ∷ bs) (omega arith)
          (next0 ∙ cons_eq (omega arith)),
      decode_5 q (p' / 64 % 32) _ (b ∷ bs) (omega arith) (
            decode_2 q3 (p' / 2 % 32) (encode_from p' 1 bs) (b ∷ bs) (omega arith)
              (next3 ∙ cons_eq (omega arith)))
          ∙ cons_eq (omega arith),
      decode_7 q (p' / 16 % 32) (encode_from p' 4 bs) (b ∷ bs) (omega arith)
            (next1 ∙ cons_eq (omega arith))
          ∙ cons_eq (omega arith),
      decode_4 q (p' / 128 % 32) _ (b ∷ bs) (omega arith) (
            decode_1 q4 (p' / 4 % 32) (encode_from p' 2 bs) (b ∷ bs) (omega arith)
              (next4 ∙ cons_eq (omega arith)))
          ∙ cons_eq (omega arith),
      decode_6 q (p' / 32 % 32) _ (b ∷ bs) (omega arith) (
            decode_3 q2 (p' / 1 % 32) (encode_from p' 0 bs) bs (omega arith) next2
            ∙ cons_eq (omega arith))
          ∙ cons_eq (omega arith),
    )

decode-eq-decode_from : (t : Text) → decode t ≡ decode_from 0 0 t
unfolding decode
decode-eq-decode_from [] = refl
decode-eq-decode_from (c ∷ t) = refl

encode-eq-encode_from : (bs : Bytes) → encode bs ≡ encode_from 0 0 bs
unfolding encode
encode-eq-encode_from [] = refl
encode-eq-encode_from (b ∷ bs) = refl

-- Decoding base32 text gives back the bytes that were encoded.
pub base32_round_trip : (bs : Bytes) → All IsByte bs → decode (encode bs) ≡ ok bs
base32_round_trip bs h = rw (encode-eq-encode_from bs, decode-eq-decode_from) (in_step bs h 0 0).0

upper-lower : (c : ℕ) → to_ascii_uppercase (to_ascii_lowercase c) ≡ to_ascii_uppercase c
unfolding to_ascii_uppercase to_ascii_lowercase
upper-lower c = ground arith

decode_from-lower : (q m : ℕ) (t : Text) → decode_from q m (to_lowercase t) ≡ decode_from q m t
unfolding decode_from
decode_from-lower q m [] = refl
decode_from-lower q m (c ∷ t) = simp (upper-lower, λ (r n : ℕ). decode_from-lower r n t)

-- Decoding takes either case: text in lower case reads as the same text, errors included.
pub decode-to_lowercase : (t : Text) → decode (to_lowercase t) ≡ decode t
decode-to_lowercase t =
    decode-eq-decode_from (to_lowercase t) ∙ decode_from-lower 0 0 t ∙ sym (decode-eq-decode_from t)
