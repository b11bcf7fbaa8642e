-- ===== src/Base/Text/Cuts.antt =====
-- How `find`, `rfind`, `split` and `strip_prefix` cut a text.
use modo.Base.{
  ℕ, zero, suc, ◌-◌, ◌≡◌, inl, inr, refl, ap, true, false, [], ◌∷◌, ◌++◌, arith, =ℕ_iff, =ℕ_refl,
  none, some, Bool-cases, nat_eq,
}
use modo.Base.Lists.{take, drop, length, list_beq, list_beq_iff, length-append, take-length-append}
use modo.Base.Text.{Text, find, rfind, strip_prefix, starts_with, contains_char, ends_with}

pub find_absent : (c : ℕ) (s : Text) → contains_char c s ≡ false → find c s ≡ none
unfolding find
find_absent c [] h = refl
find_absent c (x ∷ s) h = ground (arith, find_absent c s)

pub find-append :
    (c : ℕ) (s t : Text) → contains_char c s ≡ false → find c (s ++ c ∷ t) ≡ some (length s)
unfolding find
find-append c [] t h = rw (=ℕ_refl c)
find-append c (x ∷ s) t h = ground (arith, find-append c s t)

-- The text before the first occurrence holds none, and the pieces make the text again.
pub find-cuts :
    (c : ℕ) (s : Text) (i : ℕ)
    → find c s ≡ some i
    → (s ≡ take i s ++ c ∷ drop (suc i) s) × (contains_char c (take i s) ≡ false)
unfolding find
find-cuts c [] i h = cc
find-cuts c (x ∷ s) zero h = ground (arith, =ℕ_iff x c)
find-cuts c (x ∷ s) (suc i) h = ground (arith, find-cuts c s i)

pub find-absent : (c : ℕ) (s : Text) → find c s ≡ none → contains_char c s ≡ false
unfolding find
find-absent c [] h = refl
find-absent c (x ∷ s) h = ground (arith, find-absent c s)

pub rfind_absent : (c : ℕ) (s : Text) → contains_char c s ≡ false → rfind c s ≡ none
unfolding rfind
rfind_absent c [] h = refl
rfind_absent c (x ∷ s) h = ground (arith, rfind_absent c s)

pub rfind-append :
    (c : ℕ) (s t : Text) → contains_char c t ≡ false → rfind c (s ++ c ∷ t) ≡ some (length s)
unfolding rfind
rfind-append c [] t h = rw (rfind_absent c t h, =ℕ_refl c)
rfind-append c (x ∷ s) t h = rw (rfind-append c s t h)

rfind-none : (c : ℕ) (s : Text) → rfind c s ≡ none → contains_char c s ≡ false
unfolding rfind
rfind-none c [] h = refl
rfind-none c (x ∷ s) h = ground (arith, rfind-none c s)

pub rfind-cuts :
    (c : ℕ) (s : Text) (i : ℕ)
    → rfind c s ≡ some i
    → (s ≡ take i s ++ c ∷ drop (suc i) s) × (contains_char c (drop (suc i) s) ≡ false)
unfolding rfind
rfind-cuts c [] i h = cc
rfind-cuts c (x ∷ s) zero h = ground (arith, =ℕ_iff x c, rfind-none c s)
rfind-cuts c (x ∷ s) (suc i) h = ground (arith, rfind-cuts c s i)

pub strip_prefix-append : (p s : Text) → strip_prefix p (p ++ s) ≡ some s
unfolding strip_prefix
strip_prefix-append [] s = refl
strip_prefix-append (c ∷ p) s = rw (=ℕ_refl c) (strip_prefix-append p s)

pub strip_prefix-eq : (p s t : Text) → strip_prefix p s ≡ some t → s ≡ p ++ t
unfolding strip_prefix
strip_prefix-eq [] s t h = ground arith
strip_prefix-eq (c ∷ p) [] t h = cc
strip_prefix-eq (c ∷ p) (x ∷ s) t h = ground (arith, =ℕ_iff c x, strip_prefix-eq p s t)

pub starts_with-strip_prefix :
    (p s : Text) → starts_with p s ≡ true → (t : Text) × (strip_prefix p s ≡ some t)
unfolding starts_with strip_prefix
starts_with-strip_prefix [] s h = (s, refl)
starts_with-strip_prefix (c ∷ p) [] h = cc
starts_with-strip_prefix (c ∷ p) (x ∷ s) h =
    let (t, e) = starts_with-strip_prefix p s (ground arith) in (t, ground arith)

pub starts_with-append : (p s : Text) → starts_with p (p ++ s) ≡ true
unfolding starts_with
starts_with-append [] s = refl
starts_with-append (c ∷ p) s = rw (=ℕ_refl c) (starts_with-append p s)

-- A text with a given end is that end behind what `take` leaves of it.
pub ends_with-append : (p suffix : Text) → ends_with suffix (p ++ suffix) ≡ true
unfolding ends_with
ends_with-append [] [] = refl
ends_with-append [] (c ∷ s) = rw (list_beq_iff (c ∷ s) (c ∷ s)).1 refl
ends_with-append (c ∷ p) suffix = ground (arith, ends_with-append p suffix)

pub ends_with-cuts : (suffix s : Text) → ends_with suffix s ≡ true → (p : Text) × (s ≡ p ++ suffix)
unfolding ends_with
ends_with-cuts suffix [] h = ([], (list_beq_iff [] suffix).0 h)
ends_with-cuts suffix (c ∷ s) h = elim (Bool-cases (list_beq (c ∷ s) suffix)) [
  | inl whole ↦ ([], (list_beq_iff (c ∷ s) suffix).0 whole)
  | inr shorter ↦ let (p, e) = ends_with-cuts suffix s (ground arith) in (c ∷ p, ap (◌∷◌ c) e)
]

pub take-before : (p suffix : Text) → take (length (p ++ suffix) - length suffix) (p ++ suffix) ≡ p
take-before p suffix =
    let e : length (p ++ suffix) - length suffix ≡ length p =
      omega (arith, length-append p suffix) in
    rw e (take-length-append p suffix)
