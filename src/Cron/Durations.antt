-- ===== src/Cron/Durations.antt =====
-- Durations as sequences of numbers with units, and which texts stand for them.
use modo.Base.{
  ℕ, ◌+◌, ◌*◌, ◌%◌, ◌^◌, ◌≡◌, ◌↔◌, ◌<◌, refl, ap, sym, subst, ◌∙◌, Bool, true, false, ◌||◌, List,
  [], ◌∷◌, ◌++◌, some, ◌=ℕ◌, =ℕ_iff, arith, ltb, Bool-cases, Option-cases, inl, inr,
}
use mathlib.Core.List.{append_assoc, append-nil}
use modo.Base.Lists.{All, All-append}
use modo.Base.Text.{Text, is_ascii_digit, is_empty}
use modo.Base.Errors.{ok, >>=-eq-ok_iff}
use modo.Cron.Schedule.{
  Progress, started, number_from, parse_u64, unit_seconds, step, scan, conclude, parse_duration,
}

pub data TimeUnit : Type 0 where
  hour minute second : TimeUnit

abbrev pub letter : TimeUnit → ℕ
letter hour = b'h'
letter minute = b'm'
letter second = b's'

abbrev pub size : TimeUnit → ℕ
size hour = 3600
size minute = 60
size second = 1

-- Decimal digits before a unit.
abbrev pub Component : Type 0
Component = Text × TimeUnit

abbrev pub AreDigits : Text → Type 0
AreDigits = All (λ c. is_ascii_digit c ≡ true)

abbrev pub IsComponent : Component → Type 0
IsComponent (digits, u) =
    AreDigits digits × (is_empty digits ≡ false) × (number_from 0 digits < 2 ^ 64)

abbrev pub render : List Component → Text
render [] = []
render ((digits, u) ∷ cs) = digits ++ letter u ∷ render cs

abbrev pub total : List Component → ℕ
total [] = 0
total ((digits, u) ∷ cs) = number_from 0 digits * size u + total cs

unit_seconds-letter : (u : TimeUnit) → unit_seconds (letter u) ≡ some (size u)
unit_seconds-letter hour = refl
unit_seconds-letter minute = refl
unit_seconds-letter second = refl

letter_no_digit : (u : TimeUnit) → is_ascii_digit (letter u) ≡ false
letter_no_digit hour = refl
letter_no_digit minute = refl
letter_no_digit second = refl

parse_u64-number :
    (d : Text)
    → is_empty d ≡ false
    → number_from 0 d < 2 ^ 64
    → parse_u64 d ≡ some (number_from 0 d)
unfolding parse_u64
parse_u64-number d n h =
    let fits : ltb (number_from 0 d) (2 ^ 64) ≡ true = ground arith in rw (n, fits)

abbrev at_digits : ℕ → Text → Bool → Progress
at_digits t d f = record { total_secs = t; current_num = d; found_any = f }

-- The loop collects digits.
scan-digits :
    (s d rest e : Text) (t : ℕ) (f : Bool)
    → AreDigits d
    → scan s (d ++ rest) (at_digits t e f) ≡ scan s rest (at_digits t (e ++ d) f)
unfolding scan step
scan-digits s [] rest e t f h = ap (λ x. scan s rest (at_digits t x f)) (sym (append-nil e))
scan-digits s (c ∷ d) rest e t f (k, h) = rw k (
    scan-digits s d rest (e ++ c ∷ []) t f h
    ∙ ap (λ x. scan s rest (at_digits t x f)) (append_assoc e (c ∷ []) d))

abbrev sum_from : ℕ → List Component → ℕ
sum_from t [] = t
sum_from t ((d, u) ∷ cs) = sum_from ((t + number_from 0 d * size u % 2 ^ 64) % 2 ^ 64) cs

sum_from-eq : (t : ℕ) (cs : List Component) → t < 2 ^ 64 → sum_from t cs ≡ (t + total cs) % 2 ^ 64
sum_from-eq t [] h = omega arith
sum_from-eq t ((d, u) ∷ cs) h =
    sum_from-eq ((t + number_from 0 d * size u % 2 ^ 64) % 2 ^ 64) cs (omega arith) ∙ omega arith

sum_zero : (cs : List Component) → sum_from 0 cs ≡ total cs % 2 ^ 64
sum_zero cs = sum_from-eq 0 cs (omega arith) ∙ ap (λ x. x % 2 ^ 64) (omega arith)

abbrev pub nonempty : List Component → Bool
nonempty [] = false
nonempty (_ ∷ _) = true

or_true : (b : Bool) → (b || true) ≡ true
or_true true = refl
or_true false = refl

or_empty : (b : Bool) → (b || false) ≡ b
or_empty true = refl
or_empty false = refl

-- The loop on the text of a sequence of components.
scan-render :
    (s : Text) (cs : List Component) (t : ℕ) (f : Bool)
    → All IsComponent cs
    → scan s (render cs) (at_digits t [] f) ≡ ok (at_digits (sum_from t cs) [] (f || nonempty cs))
unfolding scan step
scan-render s [] t f h = ap (λ b. ok (at_digits t [] b)) (sym (or_empty f))
scan-render s ((d, u) ∷ cs) t f ((digits, full, small), h) =
    scan-digits s d (letter u ∷ render cs) [] t f digits
    ∙ rw (letter_no_digit u, unit_seconds-letter u, parse_u64-number d full small)
        (scan-render s cs _ true h
          ∙ ap (λ b. ok (at_digits (sum_from t ((d, u) ∷ cs)) [] b)) (sym (or_true f)))

some_eq : {A : Type 0} {a b : A} → some a ≡ some b → a ≡ b
some_eq h = cc

ok_eq : {A : Type 0} {a b : A} → ok a ≡ ok b → a ≡ b
ok_eq h = cc

unit_of : (c n : ℕ) → unit_seconds c ≡ some n → (u : TimeUnit) × (letter u ≡ c) × (size u ≡ n)
unit_of c n h = elim (Bool-cases (c =ℕ b'h')) [
  | inl e ↦ (hour, sym ((=ℕ_iff _ _).0 e), some_eq (rw e at h))
  | inr a ↦ elim (Bool-cases (c =ℕ b'm')) [
    | inl e ↦ (minute, sym ((=ℕ_iff _ _).0 e), some_eq (rw (a, e) at h))
    | inr b ↦ elim (Bool-cases (c =ℕ b's')) [
      | inl e ↦ (second, sym ((=ℕ_iff _ _).0 e), some_eq (rw (a, b, e) at h))
      | inr x ↦ cc (rw (a, b, x) at h)
    ]
  ]
]

parse_u64_sound :
    (d : Text) (n : ℕ)
    → parse_u64 d ≡ some n
    → (is_empty d ≡ false) × (number_from 0 d < 2 ^ 64) × (number_from 0 d ≡ n)
unfolding parse_u64
parse_u64_sound [] n h = cc
parse_u64_sound (c ∷ d) n h = elim (Bool-cases (ltb (number_from 0 (c ∷ d)) (2 ^ 64))) [
  | inl fits ↦ (refl, ground arith, some_eq (rw fits at h))
  | inr large ↦ cc (rw large at h)
]

-- What the loop has read when it ends: components, and text behind them.
abbrev HasRead : Text → ℕ → Bool → Progress → Type 0
HasRead read t f q =
    (cs : List Component) × All IsComponent cs
    × (read ≡ render cs ++ q.current_num)
    × (q.total_secs ≡ sum_from t cs)
    × (q.found_any ≡ (f || nonempty cs))

HasRead-cons :
    (d rest : Text) (c n v t : ℕ) (f : Bool) (q : Progress)
    → AreDigits d
    → unit_seconds c ≡ some n
    → parse_u64 d ≡ some v
    → HasRead rest ((t + v * n % 2 ^ 64) % 2 ^ 64) true q
    → HasRead (d ++ c ∷ rest) t f q
HasRead-cons d rest c n v t f q digits is_unit is_number (cs, each, text, sum, found) =
    let (u, letter_u, size_u) = unit_of c n is_unit in
    let (full, small, value) = parse_u64_sound d v is_number in
    (
      (d, u) ∷ cs,
      ((digits, full, small), each),
      rw (text, letter_u) (sym (append_assoc d (c ∷ render cs) q.current_num)),
      sum ∙ rw (value, size_u),
      found ∙ sym (or_true f),
    )

scan_sound :
    (s rest d : Text) (t : ℕ) (f : Bool) (q : Progress)
    → AreDigits d
    → scan s rest (at_digits t d f) ≡ ok q
    → HasRead (d ++ rest) t f q
unfolding scan step
scan_sound s [] d t f q digits h =
    subst (HasRead (d ++ []) t f) (ok_eq h) ([], tt, append-nil d, refl, sym (or_empty f))
scan_sound s (c ∷ rest) d t f q digits h = elim (Bool-cases (is_ascii_digit c)) [
  | inl digit ↦
      subst (λ x. HasRead x t f q) (append_assoc d (c ∷ []) rest)
        (scan_sound s rest (d ++ c ∷ []) t f q (All-append _ d (c ∷ []) digits (digit, tt))
          (rw digit at h))
  | inr no_digit ↦ elim (Option-cases (unit_seconds c)) [
    | inl no_unit ↦ cc (rw (no_digit, no_unit) at h)
    | inr (n, is_unit) ↦ elim (Option-cases (parse_u64 d)) [
      | inl no_number ↦ cc (rw (no_digit, is_unit, no_number) at h)
      | inr (v, is_number) ↦
          HasRead-cons d rest c n v t f q digits is_unit is_number
            (scan_sound s rest [] _ true q tt (rw (no_digit, is_unit, is_number) at h))
    ]
  ]
]

-- A duration is a sequence of at least one component, each with digits that stand for a number below
-- 2 ^ 64; its value is the sum of their seconds, modulo 2 ^ 64.
abbrev pub IsDuration : Text → ℕ → Type 0
IsDuration s n =
    (cs : List Component) × All IsComponent cs
    × (nonempty cs ≡ true)
    × (render cs ≡ s)
    × (total cs % 2 ^ 64 ≡ n)

is_empty-nil : (t : Text) → is_empty t ≡ true → t ≡ []
is_empty-nil [] h = refl
is_empty-nil (c ∷ t) h = cc

conclude_sound :
    (s : Text) (q : Progress) (n : ℕ)
    → conclude s q ≡ ok n
    → (q.current_num ≡ []) × (q.found_any ≡ true) × (q.total_secs ≡ n)
unfolding conclude
conclude_sound s q n h = elim (Bool-cases (is_empty q.current_num)) [
  | inl e ↦ elim (Bool-cases q.found_any) [
    | inl found ↦ (is_empty-nil _ e, found, ok_eq (rw (e, found) at h))
    | inr nothing ↦ cc (rw (e, nothing) at h)
  ]
  | inr trailing ↦ cc (rw trailing at h)
]

parsed_render :
    (cs : List Component) (n : ℕ)
    → All IsComponent cs
    → nonempty cs ≡ true
    → total cs % 2 ^ 64 ≡ n
    → parse_duration (render cs) ≡ ok n
unfolding parse_duration conclude
parsed_render cs n each full value =
    rw (scan-render (render cs) cs 0 false each, full) (ap ok (sum_zero cs ∙ value))

-- A text is parsed as a duration of n seconds exactly when it is the text of a sequence of at least one
-- component, each of at least one decimal digit for a number below 2 ^ 64 and a unit h, m or s, and n is
-- the sum of their seconds modulo 2 ^ 64.
pub parse_duration_iff : (s : Text) (n : ℕ) → (parse_duration s ≡ ok n) ↔ IsDuration s n
unfolding parse_duration
parse_duration_iff s n = (
  λ h.
      let (q, scanned, concluded) = (>>=-eq-ok_iff (scan s s started) (conclude s) n).0 h in
      let (cs, each, text, sum, found) = scan_sound s s [] 0 false q tt scanned in
      let (nothing_left, any_found, value) = conclude_sound s q n concluded in
      (
        cs,
        each,
        sym found ∙ any_found,
        sym (text ∙ ap (λ x. render cs ++ x) nothing_left ∙ append-nil (render cs)),
        sym (sum_zero cs) ∙ sym sum ∙ value,
      ),
  λ (cs, each, full, text, value).
      subst (λ x. parse_duration x ≡ ok n) text (parsed_render cs n each full value),
)
