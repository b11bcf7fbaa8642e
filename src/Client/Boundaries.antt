-- ===== src/Client/Boundaries.antt =====
-- The fingerprint's separators keep the three headers apart.
use modo.Base.{◌≡◌, ◌↔◌, refl, ap, sym, [], ◌∷◌, ◌++◌, ◌≢◌}
use modo.Base.Text.{Text}
use modo.Base.Lists.{All}
use modo.Client.{fingerprint_input}

abbrev pub HasNoNul : Text → Type 0
HasNoNul = All (λ c. c ≢ 0)

split_at_nul :
    (s t : Text) (u v : Text)
    → HasNoNul s
    → HasNoNul t
    → s ++ 0 ∷ u ≡ t ++ 0 ∷ v
    → (s ≡ t) × (u ≡ v)
split_at_nul [] [] u v h k e = (refl, cc)
split_at_nul [] (c ∷ t) u v h (n, k) e = let z : 0 ≡ c = cc in absurd (n (sym z))
split_at_nul (c ∷ s) [] u v (n, h) k e = let z : c ≡ 0 = cc in absurd (n z)
split_at_nul (c ∷ s) (d ∷ t) u v (_, h) (_, k) e =
    let same : c ≡ d = cc in let (p, q) = split_at_nul s t u v h k cc in (rw same (ap (◌∷◌ d) p), q)

-- When no header holds a NUL, two requests feed the hasher the same bytes exactly when they agree on
-- each of the three headers.
pub fingerprint_input_iff :
    (ua al ae ua' al' ae' : Text)
    → HasNoNul ua
    → HasNoNul al
    → HasNoNul ua'
    → HasNoNul al'
    → (fingerprint_input ua al ae ≡ fingerprint_input ua' al' ae')
      ↔ ((ua ≡ ua') × (al ≡ al') × (ae ≡ ae'))
fingerprint_input_iff ua al ae ua' al' ae' h k h' k' = (
  λ e.
      let (p, rest) = split_at_nul ua ua' (al ++ 0 ∷ ae) (al' ++ 0 ∷ ae') h h' e in
      let (q, r) = split_at_nul al al' ae ae' k k' rest in (p, q, r),
  λ (p, q, r). rw (p, q, r) refl,
)
