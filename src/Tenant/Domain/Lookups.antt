-- ===== src/Tenant/Domain/Lookups.antt =====
-- What a lookup answers, and when a claim is answered as verified.
use modo.Base.{
  ℕ, ◌≡◌, ◌⊎◌, refl, ap, sym, subst, Bool, true, false, ◌&&◌, [], ◌∷◌, Option, none, some,
  Bool-cases, Option-cases, inl, inr, nat_eq, ◌==◌,
}
use modo.Base.Lists.{All, list_eq, list_beq_iff}
use modo.Base.Text.{Text}
use modo.Base.Errors.{Error, Result, ok, err}
use modo.Tenant.Domain.{validate_domain}
use modo.Tenant.Domain.Service.{
  DomainClaim, TenantMatch, Claims, is_verified, first_where, for_routing, lookup_routing_domain,
  by_id, verify, verify_claim, is_expired, answered_txt, expired_of, as_verified, update_where,
}

-- A row of the table.
abbrev pub In : DomainClaim → Claims → Type 0
In c [] = ⊥
In c (d ∷ t) = (d ≡ c) ⊎ In c t

some_eq : {A : Type 0} {a b : A} → some a ≡ some b → a ≡ b
some_eq h = cc

first_where-some :
    (test : DomainClaim → Bool) (t : Claims) (c : DomainClaim)
    → first_where test t ≡ some c
    → In c t × (test c ≡ true)
unfolding first_where
first_where-some test [] c h = cc
first_where-some test (d ∷ t) c h = elim (Bool-cases (test d)) [
  | inl hit ↦ let e : d ≡ c = some_eq (rw hit at h) in (inl e, subst (λ x. test x ≡ true) e hit)
  | inr miss ↦ let (i, p) = first_where-some test t c (rw miss at h) in (inr i, p)
]

first_where-none :
    (test : DomainClaim → Bool) (t : Claims)
    → first_where test t ≡ none
    → All (λ c. test c ≡ false) t
unfolding first_where
first_where-none test [] h = tt
first_where-none test (d ∷ t) h = elim (Bool-cases (test d)) [
  | inl hit ↦ cc (rw hit at h)
  | inr miss ↦ (miss, first_where-none test t (rw miss at h))
]

ok_eq : {A : Type 0} {a b : A} → ok a ≡ ok b → a ≡ b
ok_eq h = cc

err_ok : {A : Type 0} {e : Error} {b : A} → err e ≡ ok b → ⊥
err_ok h = cc

ok_pair :
    {A B : Type 0} {a b : A} {x y : B}
    → ◌≡◌ {A = Result A × B} (ok a, x) (ok b, y)
    → (a ≡ b) × (x ≡ y)
ok_pair h = (ok_eq (ap (λ p. p.0) h), ap (λ p. p.1) h)

err_pair :
    {A B : Type 0} {e : Error} {b : A} {x y : B} → ◌≡◌ {A = Result A × B} (err e, x) (ok b, y) → ⊥
err_pair h = err_ok (ap (λ p. p.0) h)

and_left : (a b : Bool) → (a && b) ≡ true → a ≡ true
and_left true b h = refl
and_left false b h = cc

and_right : (a b : Bool) → (a && b) ≡ true → b ≡ true
and_right true b h = h
and_right false b h = cc

-- A row that answers a routing lookup for a name.
pub record Routes (name : Text) (c : DomainClaim) : Type 0 where
  pub named : c.domain ≡ name
  pub verified_row : is_verified c.status ≡ true
  pub routing : c.use_for_routing ≡ true

module _ (lower : Text → Text) (hour : ℕ) (accepts : Claims → Bool) (violation : Error) where
  abbrev lookup : Text → Claims → Result (Option TenantMatch)
  lookup = lookup_routing_domain lower hour accepts violation

  Routes-for_routing :
      (name : Text) (c : DomainClaim)
      → for_routing lower hour accepts violation name c ≡ true
      → Routes name c
  Routes-for_routing name c h =
      let front = and_left (c.domain == name && is_verified c.status) c.use_for_routing h in
      record {
        named = (list_beq_iff c.domain name).0 (and_left (c.domain == name) _ front);
        verified_row = and_right (c.domain == name) _ front;
        routing = and_right (c.domain == name && is_verified c.status) _ h;
      }

  -- For a valid domain name, a routing lookup answers the tenant of a row of the table with that name, which
  -- is verified and enabled for routing, or answers none and the table has no such row.
  pub lookup_routing_domain_lem :
      (domain name : Text) (t : Claims)
      → validate_domain lower domain ≡ ok name
      → ((c : DomainClaim) × In c t
          × Routes name c
          × (lookup_routing_domain lower hour accepts violation domain t
              ≡ ok (some (record { tenant_id = c.tenant_id; domain = name }))))
        ⊎ (All (λ c. for_routing lower hour accepts violation name c ≡ false) t
            × (lookup_routing_domain lower hour accepts violation domain t ≡ ok none))
  unfolding lookup_routing_domain
  lookup_routing_domain_lem domain name t valid =
      elim (Option-cases (first_where (for_routing lower hour accepts violation name) t)) [
        | inl absent ↦ inr (first_where-none _ t absent, rw (valid, absent))
        | inr (c, found) ↦
            let (is_in, passes) = first_where-some _ t c found in
            let routes = Routes-for_routing name c passes in
            inl (
              c,
              is_in,
              routes,
              rw (valid, found)
                  (ap (λ d. ok (some (record { tenant_id = c.tenant_id; domain = d })))
                    routes.named),
            )
      ]

  -- How a claim comes to be answered as verified.
  abbrev pub WasProved :
      (Text → Text → Result Bool) → Text → ℕ → Claims → DomainClaim → Claims → DomainClaim → Type 0
  WasProved check_txt id now t c t' old =
      ((is_verified old.status ≡ true) × (c ≡ old) × (t' ≡ t))
      ⊎ ((is_expired lower hour accepts violation old.created_at now ≡ false)
          × (check_txt old.domain old.verification_token ≡ ok true)
          × (c ≡ as_verified lower hour accepts violation now old)
          × (t' ≡ update_where (by_id id) (as_verified lower hour accepts violation now) t))

  proved_updated :
      (check_txt : Text → Text → Result Bool) (id : Text) (now : ℕ) (t : Claims) (c : DomainClaim)
      (t' : Claims) (old : DomainClaim) (r : Result Bool)
      → is_expired lower hour accepts violation old.created_at now ≡ false
      → check_txt old.domain old.verification_token ≡ r
      → answered_txt lower hour accepts violation id old now r t ≡ (ok c, t')
      → WasProved check_txt id now t c t' old
  proved_updated check_txt id now t c t' old (err e) fresh asked h = absurd (err_pair h)
  proved_updated check_txt id now t c t' old (ok false) fresh asked h = absurd (err_pair h)
  proved_updated check_txt id now t c t' old (ok true) fresh asked h =
      elim (Bool-cases
        (accepts (update_where (by_id id) (as_verified lower hour accepts violation now) t))) [
          | inl fine ↦ let (e, e') = ok_pair (rw fine at h) in inr (fresh, asked, sym e, sym e')
          | inr broken ↦ absurd (err_pair (rw broken at h))
        ]

  expired_err :
      (o : Result (Unit {0}) × Claims) (c : DomainClaim) (t' : Claims)
      → expired_of lower hour accepts violation o ≡ (ok c, t')
      → ⊥
  expired_err (err e, t) c t' h = err_pair h
  expired_err (ok u, t) c t' h = err_pair h

  proved_claim :
      (check_txt : Text → Text → Result Bool) (id : Text) (now : ℕ) (t : Claims) (c : DomainClaim)
      (t' : Claims) (old : DomainClaim)
      → verify_claim lower hour accepts violation check_txt id now (some old) t ≡ (ok c, t')
      → WasProved check_txt id now t c t' old
  proved_claim check_txt id now t c t' old h = elim (Bool-cases (is_verified old.status)) [
    | inl v ↦ let (e, e') = ok_pair (rw v at h) in inl (v, sym e, sym e')
    | inr n ↦ elim (Bool-cases (is_expired lower hour accepts violation old.created_at now)) [
      | inl late ↦ absurd (expired_err _ c t' (rw (n, late) at h))
      | inr fresh ↦ proved_updated check_txt id now t c t' old _ fresh refl (rw (n, fresh) at h)
    ]
  ]

  -- A claim is answered by `verify` only if the table has a row with the id, and either this row is verified
  -- before and all stays as it is, or it is at most 48 hours old, the DNS has its token at its domain, and
  -- the row is stored as verified at this time.
  pub verify-WasProved :
      (check_txt : Text → Text → Result Bool) (id : Text) (now : ℕ) (t : Claims) (c : DomainClaim)
      (t' : Claims)
      → verify lower hour accepts violation check_txt id now t ≡ (ok c, t')
      → (old : DomainClaim) × In old t
        × (by_id id old ≡ true)
        × WasProved check_txt id now t c t' old
  unfolding verify
  verify-WasProved check_txt id now t c t' h = elim (Option-cases (first_where (by_id id) t)) [
    | inl absent ↦ absurd (err_pair (rw absent at h))
    | inr (old, found) ↦
        let (is_in, named) = first_where-some _ t old found in
        (old, is_in, named, proved_claim check_txt id now t c t' old (rw found at h))
  ]
