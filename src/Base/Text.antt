-- ===== src/Base/Text.antt =====
-- Text as the list of its code points, with the operations of Rust's `str` and `char` that the
-- source uses. Positions count code points where Rust counts bytes: they are used only to cut.
pub mod Cuts
pub mod Pieces
use Prim.Native.Char.{code}
use Prim.Native.String.{String}
use modo.Base.{
  ℕ, zero, suc, ◌+◌, ◌-◌, ◌≡◌, refl, ap, Bool, true, false, ◌||◌, ◌&&◌, List, [], ◌∷◌, ◌++◌, arith,
  if◌then◌else◌, ltb, leb, ◌=ℕ◌, Option, none, some, map, nat_eq,
}
use modo.Base.Lists.{any, list_beq}
use mathlib.Core.List.{reverse}
use mathlib.Core.Option

abbrev pub Text : Type 0
Text = List ℕ

-- The code points of a literal.
abbrev pub codes : String → Text
codes String.[] = []
codes (String.◌∷◌ c s) = code c ∷ codes s

abbrev pub within : ℕ → ℕ → ℕ → Bool
within lo hi c = leb lo c && leb c hi

abbrev pub is_empty : Text → Bool
is_empty [] = true
is_empty (_ ∷ _) = false

abbrev pub is_ascii_alphanumeric : ℕ → Bool
is_ascii_alphanumeric c = within b'0' b'9' c || within b'A' b'Z' c || within b'a' b'z' c

-- `char::len_utf8`, and `str::len` as their sum.
abbrev pub len_utf8 : ℕ → ℕ
len_utf8 c = if ltb c 0x80 then 1 else if ltb c 0x800 then 2 else if ltb c 0x10000 then 3 else 4

unfoldable pub byte_len : Text → ℕ
byte_len [] = 0
byte_len (c ∷ s) = len_utf8 c + byte_len s

abbrev pub is_ascii_digit : ℕ → Bool
is_ascii_digit = within b'0' b'9'

-- `char::to_ascii_uppercase`, `char::to_ascii_lowercase`
unfoldable pub to_ascii_uppercase : ℕ → ℕ
to_ascii_uppercase c = if within b'a' b'z' c then c - 32 else c

unfoldable pub to_ascii_lowercase : ℕ → ℕ
to_ascii_lowercase c = if within b'A' b'Z' c then c + 32 else c

-- `str::to_lowercase` on ASCII text.
abbrev pub to_lowercase : Text → Text
to_lowercase = map to_ascii_lowercase

-- `char::is_control`: the general category Cc.
unfoldable pub is_control : ℕ → Bool
is_control c = leb c 31 || within 127 159 c

-- `char::is_whitespace`: the property White_Space.
unfoldable pub is_whitespace : ℕ → Bool
is_whitespace c =
    within 9 13 c
    || c =ℕ 32
    || c =ℕ 0x85
    || c =ℕ 0xa0
    || c =ℕ 0x1680
    || within 0x2000 0x200a c
    || within 0x2028 0x2029 c
    || c =ℕ 0x202f
    || c =ℕ 0x205f
    || c =ℕ 0x3000

unfoldable pub trim_start : Text → Text
unfolding is_whitespace
trim_start [] = []
trim_start (c ∷ s) = if is_whitespace c then trim_start s else c ∷ s

unfoldable pub trim : Text → Text
unfolding trim_start
trim s = reverse (trim_start (reverse (trim_start s)))

-- `strip_prefix`, `starts_with`
unfoldable pub strip_prefix : Text → Text → Option Text
strip_prefix [] s = some s
strip_prefix (p ∷ ps) [] = none
strip_prefix (p ∷ ps) (c ∷ s) = if p =ℕ c then strip_prefix ps s else none

unfoldable pub starts_with : Text → Text → Bool
starts_with [] s = true
starts_with (p ∷ ps) [] = false
starts_with (p ∷ ps) (c ∷ s) = p =ℕ c && starts_with ps s

unfoldable pub ends_with : Text → Text → Bool
ends_with suffix [] = list_beq [] suffix
ends_with suffix (c ∷ s) = list_beq (c ∷ s) suffix || ends_with suffix s

-- The position of the first and of the last occurrence of a character.
unfoldable pub find : ℕ → Text → Option ℕ
find c [] = none
find c (x ∷ s) = if x =ℕ c then some 0 else Option.map suc (find c s)

-- An occurrence further on wins over this one.
abbrev pub later_or : Bool → Option ℕ → Option ℕ
later_or here (some i) = some (suc i)
later_or true none = some 0
later_or false none = none

unfoldable pub rfind : ℕ → Text → Option ℕ
rfind c [] = none
rfind c (x ∷ s) = later_or (x =ℕ c) (rfind c s)

-- `split(c)`: the pieces between the occurrences of a character, at least one.
abbrev pub push_front : ℕ → List Text → List Text
push_front c [] = (c ∷ []) ∷ []
push_front c (p ∷ ps) = (c ∷ p) ∷ ps

unfoldable pub split : ℕ → Text → List Text
split c [] = [] ∷ []
split c (x ∷ s) = if x =ℕ c then [] ∷ split c s else push_front x (split c s)

-- `split_once(c)`
abbrev pub cut_front : ℕ → Option (Text × Text) → Option (Text × Text)
cut_front c none = none
cut_front c (some (before, after)) = some (c ∷ before, after)

unfoldable pub split_once : ℕ → Text → Option (Text × Text)
split_once c [] = none
split_once c (x ∷ s) = if x =ℕ c then some ([], s) else cut_front x (split_once c s)

abbrev pub contains_char : ℕ → Text → Bool
contains_char c = any (λ x. x =ℕ c)
