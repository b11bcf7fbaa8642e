-- ===== src/Encoding/Base64url/RoundTrip.antt =====
-- Decoding what was encoded.
use modo.Base.{
  ℕ, ◌+◌, ◌*◌, ◌/◌, ◌%◌, ◌^◌, ◌≡◌, ◌<◌, refl, ◌∙◌, [], ◌∷◌, arith, ◌=ℕ◌, Bool, true, false,
}
use modo.Base.Lists.{All}
use modo.Base.Text.{Text}
use modo.Base.Errors.{Result, ok, err}
use modo.Encoding.Bytes.{Bytes, IsByte, at, all_below, all_below_sound}
use modo.Encoding.Base64url.{alphabet, drain, encode_from, encode, decode_char, decode_from, decode}

abbrev is_ok_at : ℕ → Result ℕ → Bool
is_ok_at n (ok m) = m =ℕ n
is_ok_at n (err _) = false

is_ok_at-eq : (n : ℕ) (r : Result ℕ) → is_ok_at n r ≡ true → r ≡ ok n
is_ok_at-eq n (ok m) h = ground arith
is_ok_at-eq n (err e) h = cc

decode_char-table : all_below 64 (λ v. is_ok_at v (decode_char (at alphabet v))) ≡ true
unfolding all_below decode_char
decode_char-table = refl

-- Each six-bit value is read back from its character.
decode_char-at : (v : ℕ) → v < 64 → decode_char (at alphabet v) ≡ ok v
decode_char-at v h = is_ok_at-eq v _ (all_below_sound 64 _ v decode_char-table h)

-- One character of the decoder, by the bits in hand: with none it only fills the buffer.
module _ (q v : ℕ) (cs : Text) (bs : Bytes) (h : v < 64) where
  decode_0 :
      decode_from (q * 64 % 2 ^ 32 + v) 6 cs ≡ ok bs → decode_from q 0 (at alphabet v ∷ cs) ≡ ok bs
  unfolding decode_from
  decode_0 e = rw (decode_char-at v h, e)

  decode_6 :
      decode_from (q * 64 % 2 ^ 32 + v) 4 cs ≡ ok bs
      → decode_from q 6 (at alphabet v ∷ cs) ≡ ok ((q * 64 % 2 ^ 32 + v) / 2 ^ 4 % 256 ∷ bs)
  unfolding decode_from
  decode_6 e = rw (decode_char-at v h, e)

  decode_4 :
      decode_from (q * 64 % 2 ^ 32 + v) 2 cs ≡ ok bs
      → decode_from q 4 (at alphabet v ∷ cs) ≡ ok ((q * 64 % 2 ^ 32 + v) / 2 ^ 2 % 256 ∷ bs)
  unfolding decode_from
  decode_4 e = rw (decode_char-at v h, e)

  decode_2 :
      decode_from (q * 64 % 2 ^ 32 + v) 0 cs ≡ ok bs
      → decode_from q 2 (at alphabet v ∷ cs) ≡ ok ((q * 64 % 2 ^ 32 + v) / 2 ^ 0 % 256 ∷ bs)
  unfolding decode_from
  decode_2 e = rw (decode_char-at v h, e)

decode_end : (q m : ℕ) → decode_from q m [] ≡ ok []
unfolding decode_from
decode_end q m = refl

cons_eq : {x y : ℕ} {xs : Bytes} → x ≡ y → ok (x ∷ xs) ≡ ok (y ∷ xs)
cons_eq e = cc

-- The encoder with `k` bits in hand and the decoder with `m` are in step when `k + m` is 0 or 8. The
-- bits in hand make the byte that is under way, whatever else the two buffers hold.
in_step :
    (bs : Bytes)
    → All IsByte bs
    → (p q : ℕ)
    → (decode_from q 0 (encode_from p 0 bs) ≡ ok bs)
      × (decode_from q 6 (encode_from p 2 bs) ≡ ok ((q % 64 * 4 + p % 4) ∷ bs))
      × (decode_from q 4 (encode_from p 4 bs) ≡ ok ((q % 16 * 16 + p % 16) ∷ bs))
unfolding encode_from drain
in_step [] h p q = (
  decode_end q 0,
  decode_6 q (p * 16 % 2 ^ 32 % 64) [] [] (omega arith) (decode_end _ 4) ∙ cons_eq (omega arith),
  decode_4 q (p * 4 % 2 ^ 32 % 64) [] [] (omega arith) (decode_end _ 2) ∙ cons_eq (omega arith),
)
in_step (b ∷ bs) (hb, h) p q =
    let p' : ℕ = p * 256 % 2 ^ 32 + b in
    let q' : ℕ = q * 64 % 2 ^ 32 + p' / 64 % 64 in
    let (_, next_2, _) = in_step bs h p' (q * 64 % 2 ^ 32 + p' / 4 % 64) in
    let (_, _, next_4) = in_step bs h p' (q * 64 % 2 ^ 32 + p' / 16 % 64) in
    let (next_0, _, _) = in_step bs h p' (q' * 64 % 2 ^ 32 + p' / 1 % 64) in
    (
      decode_0 q (p' / 4 % 64) (encode_from p' 2 bs) (b ∷ bs) (omega arith)
          (next_2 ∙ cons_eq (omega arith)),
      decode_6 q (p' / 16 % 64) (encode_from p' 4 bs) (b ∷ bs) (omega arith)
            (next_4 ∙ cons_eq (omega arith))
          ∙ cons_eq (omega arith),
      decode_4 q (p' / 64 % 64) _ (b ∷ bs) (omega arith) (
            decode_2 q' (p' / 1 % 64) (encode_from p' 0 bs) bs (omega arith) next_0
            ∙ cons_eq (omega arith))
          ∙ cons_eq (omega arith),
    )

decode-eq-decode_from : (t : Text) → decode t ≡ decode_from 0 0 t
unfolding decode
decode-eq-decode_from [] = refl
decode-eq-decode_from (c ∷ t) = refl

encode-eq-encode_from : (bs : Bytes) → encode bs ≡ encode_from 0 0 bs
unfolding encode
encode-eq-encode_from [] = refl
encode-eq-encode_from (b ∷ bs) = refl

-- Decoding what was encoded gives the bytes back.
pub base64url_round_trip : (bs : Bytes) → All IsByte bs → decode (encode bs) ≡ ok bs
base64url_round_trip bs h =
    rw (encode-eq-encode_from bs, decode-eq-decode_from) (in_step bs h 0 0).0
