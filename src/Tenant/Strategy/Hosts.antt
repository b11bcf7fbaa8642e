-- ===== src/Tenant/Strategy/Hosts.antt =====
-- Tenants read from the host name.
use modo.Base.{
  ◌≡◌, ◌≢◌, ◌↔◌, inl, inr, refl, ap, sym, ◌∙◌, subst, true, false, [], ◌∷◌, ◌++◌, arith, Bool-cases,
  nat_eq,
}
use modo.Base.Lists.{list_beq, list_beq_iff}
use modo.Base.Text.{Text, contains_char, ends_with}
use modo.Base.Text.Cuts.{ends_with-append, ends_with-cuts, take-before}
use modo.Base.Errors.{ok, >>=-eq-ok_iff}
use modo.Http.{Parts}
use modo.Server.HostRouter.Matching.{IsUnder}
use modo.Tenant.Strategy.{
  slug, domain, one_label, before, in_subdomain, in_subdomain_or_domain, host_from_parts,
  extract_subdomain, extract_subdomain_or_domain,
}

-- A tenant's host: one non-empty label in front of the base domain.
pub record IsTenantHost (host subdomain base_domain : Text) : Type 0 where
  pub under : IsUnder host subdomain base_domain
  pub nonempty : subdomain ≢ []

one_label_iff :
    (s t : Text)
    → (one_label s ≡ ok (slug t)) ↔ ((s ≡ t) × (s ≢ []) × (contains_char b'.' s ≡ false))
one_label_iff [] t = ground arith
one_label_iff (c ∷ s) t = ground arith

-- The label that is cut off in front of the suffix.
before-under : (subdomain base : Text) → before (b'.' ∷ base) (subdomain ++ b'.' ∷ base) ≡ subdomain
before-under subdomain base = take-before subdomain (b'.' ∷ base)

one_label-host :
    (host subdomain base : Text)
    → ends_with (b'.' ∷ base) host ≡ true
    → (one_label (before (b'.' ∷ base) host) ≡ ok (slug subdomain))
      ↔ IsTenantHost host subdomain base
one_label-host host subdomain base e =
    let (p, joined) = ends_with-cuts (b'.' ∷ base) host e in
    let cut : before (b'.' ∷ base) host ≡ p =
      ap (before (b'.' ∷ base)) joined ∙ before-under p base in
    (
      λ h.
          let (same, full, one) = (one_label_iff _ subdomain).0 h in
          let same' : p ≡ subdomain = sym cut ∙ same in
          record {
            under = record {
              joined = joined ∙ ap (λ s. s ++ b'.' ∷ base) same';
              one_label = subst (λ s. contains_char b'.' s ≡ false) same one;
            };
            nonempty = λ n. full (same ∙ n);
          },
      λ h.
          let cut' : before (b'.' ∷ base) host ≡ subdomain =
            ap (before (b'.' ∷ base)) h.under.joined ∙ before-under subdomain base in
          (one_label_iff _ subdomain).1 (
            cut',
            (λ n. h.nonempty (sym cut' ∙ n)),
            ap (contains_char b'.') cut' ∙ h.under.one_label,
          ),
    )

IsTenantHost-ends_with :
    {host subdomain base : Text}
    → IsTenantHost host subdomain base
    → ends_with (b'.' ∷ base) host ≡ true
IsTenantHost-ends_with {host} {subdomain} {base} h =
    ap (ends_with (b'.' ∷ base)) h.under.joined ∙ ends_with-append subdomain (b'.' ∷ base)

in_subdomain_iff :
    (base host subdomain : Text)
    → (in_subdomain base host ≡ ok (slug subdomain)) ↔ IsTenantHost host subdomain base
in_subdomain_iff base host subdomain = elim (Bool-cases (ends_with (b'.' ∷ base) host)) [
  | inl e ↦ rw e (one_label-host host subdomain base e)
  | inr n ↦ rw n (λ h. cc, λ h. cc (IsTenantHost-ends_with h))
]

-- The subdomain strategy gives a slug exactly when the host is that label in front of the base
-- domain; the label is not empty and has no dot.
pub extract_subdomain_iff :
    (base : Text) (parts : Parts) (subdomain : Text)
    → (extract_subdomain base parts ≡ ok (slug subdomain))
      ↔ ((host : Text) × (host_from_parts parts ≡ ok host) × IsTenantHost host subdomain base)
unfolding extract_subdomain
extract_subdomain_iff base parts subdomain =
    let (to, from) = >>=-eq-ok_iff (host_from_parts parts) (in_subdomain base) (slug subdomain) in
    (
      λ h. let (host, e, k) = to h in (host, e, (in_subdomain_iff base host subdomain).0 k),
      λ (host, e, k). from (host, e, (in_subdomain_iff base host subdomain).1 k),
    )

one_label-ne_domain : (s d : Text) → one_label s ≢ ok (domain d)
one_label-ne_domain [] d = ground arith
one_label-ne_domain (c ∷ s) d = ground arith

in_subdomain_or_domain_iff :
    (base host : Text)
    → ((s : Text)
        → (in_subdomain_or_domain base host ≡ ok (slug s))
          ↔ ((host ≢ base) × IsTenantHost host s base))
      × ((d : Text)
          → (in_subdomain_or_domain base host ≡ ok (domain d))
            ↔ ((host ≡ d) × (host ≢ base) × (ends_with (b'.' ∷ base) host ≡ false)))
in_subdomain_or_domain_iff base host = elim (Bool-cases (list_beq host base)) [
  | inl same ↦ rw same (
      let e : host ≡ base = (list_beq_iff host base).0 same in
      ((λ s. (λ h. cc, λ h. absurd (h.0 e))), (λ d. (λ h. cc, λ h. absurd (h.1 e)))))
  | inr other ↦
      let n : host ≢ base = λ e. cc ((list_beq_iff host base).1 e) in
      elim (Bool-cases (ends_with (b'.' ∷ base) host)) [
        | inl e ↦
            rw (other, e)
              (
                (λ s. (
                  λ h. (n, (one_label-host host s base e).0 h),
                  λ h. (one_label-host host s base e).1 h.1,
                )),
                (λ d. (λ h. absurd (one_label-ne_domain (before (b'.' ∷ base) host) d h), λ h. cc)),
              )
        | inr u ↦
            rw (other, u)
              (
                (λ s. (λ h. cc, λ h. cc (IsTenantHost-ends_with h.1))),
                (λ d. (λ h. (cc, n, refl), λ h. ap (λ x. ok (domain x)) h.0)),
              )
      ]
]

-- The mixed strategy gives a slug exactly for a tenant's host, and a domain exactly for a host that
-- is neither the base domain nor ends in it behind a dot.
pub extract_subdomain_or_domain_iff :
    (base : Text) (parts : Parts) (host : Text)
    → host_from_parts parts ≡ ok host
    → ((s : Text)
        → (extract_subdomain_or_domain base parts ≡ ok (slug s))
          ↔ ((host ≢ base) × IsTenantHost host s base))
      × ((d : Text)
          → (extract_subdomain_or_domain base parts ≡ ok (domain d))
            ↔ ((host ≡ d) × (host ≢ base) × (ends_with (b'.' ∷ base) host ≡ false)))
unfolding extract_subdomain_or_domain
extract_subdomain_or_domain_iff base parts host h = rw h (in_subdomain_or_domain_iff base host)
