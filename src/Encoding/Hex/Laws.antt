-- ===== src/Encoding/Hex/Laws.antt =====
-- Reading hexadecimal text in pairs of digits, and its length.
use modo.Base.{
  ℕ, ◌+◌, ◌*◌, ◌/◌, ◌%◌, ◌≡◌, ◌<◌, refl, ap₂, true, [], ◌∷◌, arith, ◌=ℕ◌, if◌then◌else◌, ◌-◌,
}
use modo.Base.Lists.{All, length}
use modo.Base.Text.{Text, within}
use modo.Encoding.Bytes.{Bytes, IsByte, at, all_below, all_below_sound}
use modo.Encoding.Hex.{hex_table, encode}

-- The value of a hexadecimal digit, an independent reading of the table.
abbrev digit_value : ℕ → ℕ
digit_value c = if within b'0' b'9' c then c - b'0' else c - b'a' + 10

-- The bytes that pairs of digits stand for.
abbrev pub read_pairs : Text → Bytes
read_pairs (h ∷ l ∷ t) = (digit_value h * 16 + digit_value l) ∷ read_pairs t
read_pairs _ = []

digit-table : all_below 16 (λ v. digit_value (at hex_table v) =ℕ v) ≡ true
unfolding all_below
digit-table = refl

digit_value-at : (v : ℕ) → v < 16 → digit_value (at hex_table v) ≡ v
digit_value-at v h =
    ground (arith, all_below_sound 16 (λ w. digit_value (at hex_table w) =ℕ w) v digit-table h)

-- Reading the digits of the text in pairs gives the bytes back.
pub read_pairs-encode : (bs : Bytes) → All IsByte bs → read_pairs (encode bs) ≡ bs
unfolding encode
read_pairs-encode [] h = refl
read_pairs-encode (b ∷ bs) (k, h) =
    rw (digit_value-at (b / 16) (omega arith), digit_value-at (b % 16) (omega arith))
      (ap₂ ◌∷◌ (omega arith) (read_pairs-encode bs h))

pub length-encode : (bs : Bytes) → length (encode bs) ≡ length bs * 2
unfolding encode
length-encode [] = refl
length-encode (b ∷ bs) = omega (arith, length-encode bs)
