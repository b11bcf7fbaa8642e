-- ===== src/Server/HostRouter/Matching.antt =====
-- Which router a host name gets.
use modo.Base.{
  suc, ◌≡◌, inl, inr, refl, ap, sym, ◌∙◌, subst, false, ◌∷◌, ◌++◌, none, some, Option-cases, nat_eq,
}
use modo.Base.Lists.{take, drop, length, list_eq, take-length-append, drop-suc-append}
use modo.Base.Text.{Text, find, contains_char}
use modo.Base.Text.Cuts.{find-cuts, find-append}
use modo.Base.Dict.{lookup}
use modo.Server.HostRouter.{
  HostRouter, Match, exactly, wildcard, fallback, not_found, match_host, match_suffix,
  match_wildcard, match_fallback,
}

-- The name is one label, without a dot, in front of a suffix.
pub record IsUnder (name subdomain suffix : Text) : Type 0 where
  pub joined : name ≡ subdomain ++ b'.' ∷ suffix
  pub one_label : contains_char b'.' subdomain ≡ false

module _ {Router : Type 0} where
  -- When a router is the right one for a name.
  pub data Serves (r : HostRouter Router) (name : Text) : Match Router → Type 0 where
    by_name : {router : Router} → lookup name r.exact ≡ some router → Serves r name (exactly router)
    by_suffix :
        {router : Router} {subdomain pattern suffix : Text}
        → lookup name r.exact ≡ none
        → IsUnder name subdomain suffix
        → lookup suffix r.wildcard ≡ some (pattern, router)
        → Serves r name (wildcard router subdomain pattern)
    by_fallback :
        {router : Router}
        → lookup name r.exact ≡ none
        → ((subdomain suffix : Text)
            → IsUnder name subdomain suffix
            → lookup suffix r.wildcard ≡ none)
        → r.fallback ≡ some router
        → Serves r name (fallback router)
    by_nothing :
        lookup name r.exact ≡ none
        → ((subdomain suffix : Text)
            → IsUnder name subdomain suffix
            → lookup suffix r.wildcard ≡ none)
        → r.fallback ≡ none
        → Serves r name not_found

-- The label and the suffix are found by cutting at the first dot.
module _ (name subdomain suffix : Text) (u : IsUnder name subdomain suffix) where
  find-IsUnder : find b'.' name ≡ some (length subdomain)
  find-IsUnder = ap (find b'.') u.joined ∙ find-append b'.' subdomain suffix u.one_label

  take-IsUnder : take (length subdomain) name ≡ subdomain
  take-IsUnder =
      ap (take (length subdomain)) u.joined ∙ take-length-append subdomain (b'.' ∷ suffix)

  drop-IsUnder : drop (suc (length subdomain)) name ≡ suffix
  drop-IsUnder = ap (drop (suc (length subdomain))) u.joined ∙ drop-suc-append subdomain suffix b'.'

IsUnder-unique :
    (name s t s' t' : Text) → IsUnder name s t → IsUnder name s' t' → (s ≡ s') × (t ≡ t')
IsUnder-unique name s t s' t' u u' =
    let same : length s ≡ length s' = cc (find-IsUnder name s t u, find-IsUnder name s' t' u') in
    (
      sym (take-IsUnder name s t u) ∙ ap (λ n. take n name) same ∙ take-IsUnder name s' t' u',
      sym (drop-IsUnder name s t u) ∙ ap (λ n. drop (suc n) name) same ∙ drop-IsUnder name s' t' u',
    )

module _ {Router : Type 0} (r : HostRouter Router) (name : Text) where
  -- `match_host` at a name under a suffix looks the suffix up.
  match_host-under :
      (subdomain suffix : Text)
      → IsUnder name subdomain suffix
      → lookup name r.exact ≡ none
      → match_host name r
        ≡ match_suffix subdomain (lookup suffix r.wildcard) (match_fallback r.fallback)
  unfolding match_host
  match_host-under subdomain suffix u absent =
      rw (absent, find-IsUnder name subdomain suffix u, match_wildcard)
        (rw (take-IsUnder name subdomain suffix u, drop-IsUnder name subdomain suffix u) refl)

  -- A name without a dot is under no suffix.
  match_host-no_dot :
      lookup name r.exact ≡ none
      → find b'.' name ≡ none
      → match_host name r ≡ match_fallback r.fallback
  unfolding match_host
  match_host-no_dot absent no_dot = rw (absent, no_dot, match_wildcard)

  match_host-exact :
      {router : Router} → lookup name r.exact ≡ some router → match_host name r ≡ exactly router
  unfolding match_host
  match_host-exact found = rw found

  Serves-fallback :
      lookup name r.exact ≡ none
      → ((subdomain suffix : Text)
          → IsUnder name subdomain suffix
          → lookup suffix r.wildcard ≡ none)
      → Serves r name (match_fallback r.fallback)
  Serves-fallback absent no_wildcard = elim (Option-cases r.fallback) [
    | inl nothing ↦
        subst (λ o. Serves r name (match_fallback o)) (sym nothing)
          (by_nothing absent no_wildcard nothing)
    | inr (router, e) ↦
        subst (λ o. Serves r name (match_fallback o)) (sym e) (by_fallback absent no_wildcard e)
  ]

  Serves-under :
      (subdomain suffix : Text)
      → IsUnder name subdomain suffix
      → lookup name r.exact ≡ none
      → Serves r name
          (match_suffix subdomain (lookup suffix r.wildcard) (match_fallback r.fallback))
  Serves-under subdomain suffix u absent = elim (Option-cases (lookup suffix r.wildcard)) [
    | inl missing ↦ rw missing (
        Serves-fallback absent (λ s t v.
          ap (λ x. lookup x r.wildcard) (IsUnder-unique name s t subdomain suffix v u).1 ∙ missing))
    | inr ((pattern, router), found) ↦ rw found (by_suffix absent u found)
  ]

  -- For every name, `match_host` gives the router registered by the name; else that of a wildcard suffix
  -- that the name has one label in front of; else the fallback; else that nothing is found.
  pub match_host-Serves : Serves r name (match_host name r)
  match_host-Serves = elim (Option-cases (lookup name r.exact)) [
    | inr (router, found) ↦ rw (match_host-exact found) (by_name found)
    | inl absent ↦ elim (Option-cases (find b'.' name)) [
      | inl no_dot ↦
          rw (match_host-no_dot absent no_dot)
            (Serves-fallback absent (λ s t u. cc (find-IsUnder name s t u)))
      | inr (dot, at_dot) ↦
          let (joined, one_label) = find-cuts b'.' name dot at_dot in
          let u : IsUnder name (take dot name) (drop (suc dot) name) = record {
            joined = joined;
            one_label = one_label;
          } in
          rw (match_host-under (take dot name) (drop (suc dot) name) u absent)
            (Serves-under (take dot name) (drop (suc dot) name) u absent)
    ]
  ]

  match_host-none :
      lookup name r.exact ≡ none
      → ((subdomain suffix : Text)
          → IsUnder name subdomain suffix
          → lookup suffix r.wildcard ≡ none)
      → match_host name r ≡ match_fallback r.fallback
  match_host-none absent no_wildcard = elim (Option-cases (find b'.' name)) [
    | inl no_dot ↦ match_host-no_dot absent no_dot
    | inr (dot, at_dot) ↦
        let (joined, one_label) = find-cuts b'.' name dot at_dot in
        let u : IsUnder name (take dot name) (drop (suc dot) name) = record {
          joined = joined;
          one_label = one_label;
        } in
        match_host-under (take dot name) (drop (suc dot) name) u absent
        ∙ ap (λ o. match_suffix (take dot name) o (match_fallback r.fallback)) (no_wildcard _ _ u)
  ]

  -- No other answer follows the order name, wildcard of one more label, fallback, nothing found: what serves
  -- a name by it is what `match_host` returns.
  pub Serves-unique : {m : Match Router} → Serves r name m → match_host name r ≡ m
  Serves-unique (by_name found) = match_host-exact found
  Serves-unique (by_suffix {router} {subdomain} {pattern} {suffix} absent u found) =
      match_host-under subdomain suffix u absent
      ∙ ap (λ o. match_suffix subdomain o (match_fallback r.fallback)) found
  Serves-unique (by_fallback absent no_wildcard e) =
      match_host-none absent no_wildcard ∙ ap match_fallback e
  Serves-unique (by_nothing absent no_wildcard e) =
      match_host-none absent no_wildcard ∙ ap match_fallback e
