-- ===== src/Tenant/Strategy/Prefix.antt =====
-- Tenants read from the path, and the path that goes on.
use mathlib.Core.List.{append-nil}
use modo.Base.{
  suc, ◌≡◌, ◌⊎◌, inl, inr, refl, ap, ap₂, sym, ◌∙◌, false, [], ◌∷◌, ◌++◌, arith, Bool-cases,
  Option-cases, nat_eq,
}
use modo.Base.Lists.{drop, take-length-append, drop-length-append}
use modo.Base.Text.{Text, codes, is_empty, contains_char, strip_prefix, find}
use modo.Base.Text.Cuts.{
  find-append, find-cuts, find_absent, find-absent, strip_prefix-append, strip_prefix-eq,
}
use modo.Base.Errors.{ok, >>=-eq-ok_iff}
use modo.Http.{Parts}
use modo.Tenant.Strategy.{
  slug, Uri, cut_slug, path_and_query, rewrite, after_prefix, take_slug, extract_path_prefix,
}

-- The path is the prefix, a slash, the slug, and nothing or a slash and more.
pub record HasSlug (prefix path name rest : Text) : Type 0 where
  pub joined : path ≡ prefix ++ b'/' ∷ (name ++ rest)
  pub full : is_empty name ≡ false
  pub one_segment : contains_char b'/' name ≡ false
  pub boundary : (rest ≡ []) ⊎ ((more : Text) × (rest ≡ b'/' ∷ more))

-- What the inner service sees as the path.
abbrev pub remaining : Text → Text
remaining [] = codes "/"
remaining (c ∷ rest) = c ∷ rest

cut_slug-find :
    (name rest : Text)
    → contains_char b'/' name ≡ false
    → (rest ≡ []) ⊎ ((more : Text) × (rest ≡ b'/' ∷ more))
    → cut_slug (name ++ rest) (find b'/' (name ++ rest)) ≡ (name, remaining rest)
cut_slug-find name rest h (inl e) = rw (e, append-nil, find_absent b'/' name h)
cut_slug-find name rest h (inr (more, e)) =
    rw (e, find-append b'/' name more h)
      (ap₂ (λ a b. (a, b)) (take-length-append name (b'/' ∷ more))
        (drop-length-append name (b'/' ∷ more)))

after_prefix-append :
    (prefix after : Text) → after_prefix prefix (prefix ++ b'/' ∷ after) ≡ ok after
unfolding strip_prefix
after_prefix-append prefix after = rw (strip_prefix-append prefix (b'/' ∷ after))

nonempty-append : (name rest : Text) → is_empty name ≡ false → is_empty (name ++ rest) ≡ false
nonempty-append [] rest h = cc
nonempty-append (c ∷ name) rest h = refl

module _ (uri : Text → Uri) (prefix name rest : Text) (parts : Parts) where
  -- A path with a slug is rewritten to what stands behind the slug, `/` if nothing does, with the
  -- query kept; the result is the builder's.
  pub extract_path_prefix-HasSlug :
      HasSlug prefix parts.path name rest
      → extract_path_prefix uri prefix parts
        ≡ rewrite uri (uri (path_and_query (remaining rest) parts.query)) name parts
  unfolding extract_path_prefix
  extract_path_prefix-HasSlug h =
      let e : after_prefix prefix parts.path ≡ ok (name ++ rest) =
        ap (after_prefix prefix) h.joined ∙ after_prefix-append prefix (name ++ rest) in
      simp (
        e,
        nonempty-append name rest h.full,
        cut_slug-find name rest h.one_segment h.boundary,
        h.full,
      )

after_prefix-eq :
    (prefix path after : Text) → after_prefix prefix path ≡ ok after → path ≡ prefix ++ b'/' ∷ after
after_prefix-eq prefix path after h = elim (Option-cases (strip_prefix prefix path)) [
  | inl missing ↦ absurd (ground arith)
  | inr (behind, e) ↦ elim (Option-cases (strip_prefix (b'/' ∷ []) behind)) [
    | inl missing ↦ absurd (ground arith)
    | inr (last, e') ↦
        let same : last ≡ after = ground arith in
        strip_prefix-eq prefix path behind e
        ∙ ap (λ s. prefix ++ s) (strip_prefix-eq (b'/' ∷ []) behind last e' ∙ ap (◌∷◌ b'/') same)
  ]
]

-- The pieces of a cut are a slug and what stands behind it.
cut_slug-boundary :
    (after : Text)
    → (rest : Text) × (after ≡ (cut_slug after (find b'/' after)).0 ++ rest)
      × (contains_char b'/' (cut_slug after (find b'/' after)).0 ≡ false)
      × ((rest ≡ []) ⊎ ((more : Text) × (rest ≡ b'/' ∷ more)))
cut_slug-boundary after = elim (Option-cases (find b'/' after)) [
  | inl absent ↦ rw absent ([], sym (append-nil after), find-absent b'/' after absent, inl refl)
  | inr (pos, found) ↦
      let (joined, one) = find-cuts b'/' after pos found in
      rw found (b'/' ∷ drop (suc pos) after, joined, one, inr (drop (suc pos) after, refl))
]

rewrite-slug :
    (uri : Text → Uri) (u : Uri) (name name' : Text) (parts parts' : Parts)
    → rewrite uri u name parts ≡ ok (slug name', parts')
    → name ≡ name'
rewrite-slug uri (Uri.refused e) name name' parts parts' h = cc
rewrite-slug uri (Uri.built path query) name name' parts parts' h = cc

take_slug_sound :
    (uri : Text → Uri) (after : Text) (parts parts' : Parts) (name : Text)
    → take_slug uri after parts ≡ ok (slug name, parts')
    → ((cut_slug after (find b'/' after)).0 ≡ name) × (is_empty name ≡ false)
take_slug_sound uri after parts parts' name h = elim (Bool-cases (is_empty after)) [
  | inl e ↦ absurd (ground arith)
  | inr n ↦ elim (Bool-cases (is_empty (cut_slug after (find b'/' after)).0)) [
    | inl e ↦ absurd (ground arith)
    | inr full ↦
        let same : (cut_slug after (find b'/' after)).0 ≡ name =
          rewrite-slug uri _ _ name parts parts' (rw (n, full) at h) in
        (same, sym (ap is_empty same) ∙ full)
  ]
]

-- If the path strategy gives a slug, the path is the prefix, the slug and what stands behind it, whatever
-- the builder of the new URI does.
pub extract_path_prefix_sound :
    (uri : Text → Uri) (prefix : Text) (parts parts' : Parts) (name : Text)
    → extract_path_prefix uri prefix parts ≡ ok (slug name, parts')
    → (rest : Text) × HasSlug prefix parts.path name rest
unfolding extract_path_prefix
extract_path_prefix_sound uri prefix parts parts' name h =
    let (after, e, k) =
      (>>=-eq-ok_iff (after_prefix prefix parts.path) (λ a. take_slug uri a parts)
          (slug name, parts')).0
        h in
    let (same, full) = take_slug_sound uri after parts parts' name k in
    let (rest, cut, one, boundary) = cut_slug-boundary after in
    (
      rest,
      record {
        joined =
            after_prefix-eq prefix parts.path after e
            ∙ ap (λ s. prefix ++ b'/' ∷ s) (cut ∙ ap (λ s. s ++ rest) same);
        full = full;
        one_segment = sym (ap (contains_char b'/') same) ∙ one;
        boundary = boundary;
      },
    )
