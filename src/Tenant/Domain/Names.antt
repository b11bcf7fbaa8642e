-- ===== src/Tenant/Domain/Names.antt =====
-- Which texts are domain names.
use modo.Base.{
  ℕ, ◌≡◌, ◌↔◌, ◌≤◌, refl, ap, sym, subst, ◌∙◌, Bool, true, false, not, ◌||◌, List, [], ◌∷◌, arith,
  if◌then◌else◌, ltb, ◌=ℕ◌, nat_eq, Bool-cases, inl, inr,
}
use modo.Base.Lists.{All, All-map, all, list_beq}
use modo.Base.Text.{
  Text, trim, byte_len, is_empty, contains_char, starts_with, ends_with, split, push_front,
  is_ascii_alphanumeric,
}
use modo.Base.Errors.{Error, Result, ok, err, >>=-eq-ok_iff}
use modo.Tenant.Domain.{check_label, check_labels, check_domain, validate_domain}

abbrev pub is_label_char : ℕ → Bool
is_label_char c = is_ascii_alphanumeric c || c =ℕ b'-'

-- A label: 1 to 63 letters, digits and hyphens, with no hyphen at either end.
pub record IsLabel (label : Text) : Type 0 where
  pub full : is_empty label ≡ false
  pub short : byte_len label ≤ 63
  pub no_hyphen_first : starts_with (b'-' ∷ []) label ≡ false
  pub no_hyphen_last : ends_with (b'-' ∷ []) label ≡ false
  pub plain : all is_label_char label ≡ true

-- A domain name: at least two labels between dots, at most 253 bytes in all.
pub record IsDomain (domain : Text) : Type 0 where
  pub dotted : contains_char b'.' domain ≡ true
  pub short : byte_len domain ≤ 253
  pub labels : All IsLabel (split b'.' domain)

-- A guard that lets a check go on.
passed :
    {A : Type 0} (b : Bool) (e : Error) (r : Result A) (a : A)
    → (if b then err e else r) ≡ ok a
    → (b ≡ false) × (r ≡ ok a)
passed true e r a h = cc
passed false e r a h = (refl, h)

ok_eq : {A : Type 0} {a b : A} → ok a ≡ ok b → a ≡ b
ok_eq h = cc

not-false : (b : Bool) → not b ≡ false → b ≡ true
not-false true h = refl
not-false false h = cc

or_false_left : (a b : Bool) → (a || b) ≡ false → a ≡ false
or_false_left true b h = cc
or_false_left false b h = refl

or_false_right : (a b : Bool) → (a || b) ≡ false → b ≡ false
or_false_right true b h = cc
or_false_right false b h = h

at_most : (n m : ℕ) → ltb n m ≡ false → m ≤ n
at_most n m h = ground arith

not_above : (n m : ℕ) → m ≤ n → ltb n m ≡ false
not_above n m h = ground arith

check_label_iff : (label : Text) → (check_label label ≡ ok tt) ↔ IsLabel label
unfolding check_label
check_label_iff label = (
  λ h.
      let (f, h₁) = passed (is_empty label) _ _ tt h in
      let (s, h₂) = passed (ltb 63 (byte_len label)) _ _ tt h₁ in
      let (n, h₃) =
        passed (starts_with (b'-' ∷ []) label || ends_with (b'-' ∷ []) label) _ _ tt h₂ in
      let (p, h₄) = passed (not (all is_label_char label)) _ _ tt h₃ in
      record {
        full = f;
        short = at_most 63 _ s;
        no_hyphen_first = or_false_left _ _ n;
        no_hyphen_last = or_false_right (starts_with (b'-' ∷ []) label) _ n;
        plain = not-false _ p;
      },
  λ h. rw (h.full, not_above 63 _ h.short, h.no_hyphen_first, h.no_hyphen_last, h.plain),
)

check_labels_iff : (labels : List Text) → (check_labels labels ≡ ok tt) ↔ All IsLabel labels
unfolding check_labels
check_labels_iff [] = (λ h. tt, λ h. refl)
check_labels_iff (label ∷ labels) = (
  λ h.
      let (u, e, rest) = (>>=-eq-ok_iff (check_label label) (λ _. check_labels labels) tt).0 h in
      ((check_label_iff label).0 e, (check_labels_iff labels).0 rest),
  λ (l, ls). rw ((check_label_iff label).1 l, (check_labels_iff labels).1 ls),
)

-- The first label of a text that starts with a dot is empty.
starts_with-dot : (d : Text) → All IsLabel (split b'.' d) → starts_with (b'.' ∷ []) d ≡ false
unfolding starts_with split
starts_with-dot [] ls = refl
starts_with-dot (c ∷ d) ls = elim (Bool-cases (c =ℕ b'.')) [
  | inl e ↦
      let cut : split b'.' (c ∷ d) ≡ [] ∷ split b'.' d = rw e in
      cc ((subst (All IsLabel) cut ls).0.full)
  | inr n ↦ ground arith
]

abbrev behind_first : List Text → List Text
behind_first [] = []
behind_first (_ ∷ ls) = ls

behind-push_front : (c : ℕ) (ls : List Text) → behind_first (push_front c ls) ≡ behind_first ls
behind-push_front c [] = refl
behind-push_front c (l ∷ ls) = refl

abbrev AreFull : List Text → Type 0
AreFull = All (λ l. is_empty l ≡ false)

behind : (ls : List Text) → AreFull ls → AreFull (behind_first ls)
behind [] h = tt
behind (l ∷ ls) (_, h) = h

not_nil : (d : Text) → AreFull (split b'.' d) → list_beq d [] ≡ false
unfolding split
not_nil [] (h, _) = cc
not_nil (c ∷ d) h = refl

-- If no label behind the first is empty, the text does not end with a dot.
ends_with-dot : (d : Text) → AreFull (behind_first (split b'.' d)) → ends_with (b'.' ∷ []) d ≡ false
unfolding ends_with split
ends_with-dot [] h = refl
ends_with-dot (c ∷ d) h = elim (Bool-cases (c =ℕ b'.')) [
  | inl e ↦
      let cut : split b'.' (c ∷ d) ≡ [] ∷ split b'.' d = rw e in
      let rest : AreFull (split b'.' d) = subst (λ ls. AreFull (behind_first ls)) cut h in
      rw (e, not_nil d rest) (ends_with-dot d (behind _ rest))
  | inr n ↦
      let cut : split b'.' (c ∷ d) ≡ push_front c (split b'.' d) = rw n in
      let rest = subst AreFull (ap behind_first cut ∙ behind-push_front c (split b'.' d)) h in
      rw n (ends_with-dot d rest)
]

full_of : (ls : List Text) → All IsLabel ls → AreFull ls
full_of ls h = All-map ls (λ l i. i.full) h

empty_no_dot : (d : Text) → contains_char b'.' d ≡ true → is_empty d ≡ false
empty_no_dot [] h = cc
empty_no_dot (c ∷ d) h = refl

check_domain_iff : (s d : Text) → (check_domain s ≡ ok d) ↔ ((s ≡ d) × IsDomain d)
unfolding check_domain
check_domain_iff s d = (
  λ h.
      let (_, h₁) = passed (is_empty s) _ _ d h in
      let (has_dot, h₂) = passed (not (contains_char b'.' s)) _ _ d h₁ in
      let (_, h₃) = passed (starts_with (b'.' ∷ []) s || ends_with (b'.' ∷ []) s) _ _ d h₂ in
      let (size, h₄) = passed (ltb 253 (byte_len s)) _ _ d h₃ in
      let (_, checked, same) = (>>=-eq-ok_iff (check_labels (split b'.' s)) (λ _. ok s) d).0 h₄ in
      let e : s ≡ d = ok_eq same in
      (
        e,
        subst IsDomain e (record {
          dotted = not-false _ has_dot;
          short = at_most 253 _ size;
          labels = (check_labels_iff _).0 checked;
        }),
      ),
  λ (e, i).
      subst (λ x. check_domain x ≡ ok d) (sym e)
        (rw (
          empty_no_dot d i.dotted,
          i.dotted,
          starts_with-dot d i.labels,
          ends_with-dot d (behind _ (full_of _ i.labels)),
          not_above 253 _ i.short,
          (check_labels_iff _).1 i.labels,
        )),
)

-- A text is accepted as a domain exactly when, trimmed and in lower case, it is a domain name: at most 253
-- bytes, at least two labels between dots, each of 1 to 63 letters, digits and hyphens with no hyphen at
-- either end. The result is that name.
pub validate_domain_iff :
    (lower : Text → Text) (s d : Text)
    → (validate_domain lower s ≡ ok d) ↔ ((lower (trim s) ≡ d) × IsDomain d)
unfolding validate_domain
validate_domain_iff lower s d = check_domain_iff (lower (trim s)) d
