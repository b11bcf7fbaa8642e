-- ===== src/Encoding/Bytes.antt =====
-- Bytes as numbers below 256, alphabets as texts, and the check of a property of every small number.
use modo.Base.{ℕ, zero, suc, ◌≡◌, ◌<◌, Bool, true, ◌&&◌, List, [], ◌∷◌, arith}
use modo.Base.Text.{Text}

abbrev pub Bytes : Type 0
Bytes = List ℕ

abbrev pub IsByte : ℕ → Type 0
IsByte b = b < 256

-- `TABLE[i]`. Every index in the source is masked below the table's length.
abbrev pub at : Text → ℕ → ℕ
at [] i = 0
at (c ∷ cs) zero = c
at (c ∷ cs) (suc i) = at cs i

-- A property of all numbers below a bound, checked by evaluation.
unfoldable pub all_below : ℕ → (ℕ → Bool) → Bool
all_below zero test = true
all_below (suc bound) test = test bound && all_below bound test

pub all_below_sound :
    (bound : ℕ) (test : ℕ → Bool) (b : ℕ) → all_below bound test ≡ true → b < bound → test b ≡ true
unfolding all_below
all_below_sound zero test b checked small = absurd (omega arith)
all_below_sound (suc bound) test b checked small = ground (arith, all_below_sound bound test b)
