-- ===== src/Base/Text/Pieces.antt =====
-- The pieces of a text between the occurrences of a character, and the text again.
use modo.Base.{
  ℕ, ◌≡◌, refl, ap, sym, ◌∙◌, arith, not, true, false, List, some, [], ◌∷◌, ◌++◌, Bool-cases, inl,
  inr, ◌=ℕ◌, =ℕ_iff,
}
use modo.Base.Text.{Text, push_front, split, split_once, contains_char}
use modo.Base.Lists.{all}

abbrev pub join : ℕ → List Text → Text
join c [] = []
join c (p ∷ []) = p
join c (p ∷ q ∷ ps) = p ++ c ∷ join c (q ∷ ps)

push_front-some :
    (x : ℕ) (ps : List Text) → (q : Text) × (qs : List Text) × (push_front x ps ≡ q ∷ qs)
push_front-some x [] = (x ∷ [], [], refl)
push_front-some x (p ∷ ps) = (x ∷ p, ps, refl)

split-some : (c : ℕ) (s : Text) → (p : Text) × (ps : List Text) × (split c s ≡ p ∷ ps)
unfolding split
split-some c [] = ([], [], refl)
split-some c (x ∷ s) = elim (Bool-cases (x =ℕ c)) [
  | inl hit ↦ ([], split c s, rw hit refl)
  | inr miss ↦ rw miss (push_front-some x (split c s))
]

join-push_front :
    (c x : ℕ) (p : Text) (ps : List Text) → join c (push_front x (p ∷ ps)) ≡ x ∷ join c (p ∷ ps)
join-push_front c x p [] = refl
join-push_front c x p (q ∷ ps) = refl

-- Nothing is lost by splitting.
pub join-split : (c : ℕ) (s : Text) → join c (split c s) ≡ s
unfolding split
join-split c [] = refl
join-split c (x ∷ s) =
    let (p, ps, e) = split-some c s in
    let rest : join c (p ∷ ps) ≡ s = ap (join c) (sym e) ∙ join-split c s in
    elim (Bool-cases (x =ℕ c)) [
      | inl hit ↦ rw (hit, e) (ap (λ y. c ∷ y) rest ∙ ap (λ y. y ∷ s) (sym ((=ℕ_iff x c).0 hit)))
      | inr miss ↦ rw (miss, e) (join-push_front c x p ps ∙ ap (◌∷◌ x) rest)
    ]

pub split-absent : (c : ℕ) (p : Text) → contains_char c p ≡ false → split c p ≡ p ∷ []
unfolding split
split-absent c [] h = refl
split-absent c (x ∷ p) h = elim (Bool-cases (x =ℕ c)) [
  | inl hit ↦ let e : true ≡ false = rw hit at h in cc
  | inr miss ↦ rw (miss, split-absent c p (rw miss at h)) refl
]

split-append :
    (c : ℕ) (p s : Text) → contains_char c p ≡ false → split c (p ++ c ∷ s) ≡ p ∷ split c s
unfolding split
split-append c [] s h = ground arith
split-append c (x ∷ p) s h = elim (Bool-cases (x =ℕ c)) [
  | inl hit ↦ let e : true ≡ false = rw hit at h in cc
  | inr miss ↦ rw (miss, split-append c p s (rw miss at h)) refl
]

-- Pieces in which the character does not occur are found again.
pub split-join :
    (c : ℕ) (p : Text) (ps : List Text)
    → all (λ s. not (contains_char c s)) (p ∷ ps) ≡ true
    → split c (join c (p ∷ ps)) ≡ p ∷ ps
split-join c p [] h = split-absent c p (ground arith)
split-join c p (q ∷ ps) h =
    split-append c p (join c (q ∷ ps)) (ground arith)
    ∙ ap (◌∷◌ p) (split-join c q ps (ground arith))

-- A character that the first part does not have is where the text is cut.
pub split_once-append :
    (c : ℕ) (p s : Text) → contains_char c p ≡ false → split_once c (p ++ c ∷ s) ≡ some (p, s)
unfolding split_once
split_once-append c [] s h = ground arith
split_once-append c (x ∷ p) s h = elim (Bool-cases (x =ℕ c)) [
  | inl hit ↦ let e : true ≡ false = rw hit at h in cc
  | inr miss ↦ rw (miss, split_once-append c p s (rw miss at h)) refl
]
