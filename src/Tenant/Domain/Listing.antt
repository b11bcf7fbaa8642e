-- ===== src/Tenant/Domain/Listing.antt =====
-- The claims that are listed for a tenant.
use modo.Base.{
  ℕ, ◌*◌, ◌-◌, ◌<◌, ◌≤◌, ◌≡◌, ◌↔◌, refl, ap, ◌∙◌, subst, Bool, true, false, [], ◌∷◌, map, ltb,
  arith, Bool-cases, inl, inr, nat_eq, ◌==◌,
}
use modo.Base.Lists.{filter, list_eq, list_beq_iff}
use modo.Base.Text.{Text}
use modo.Base.Errors.{Error}
use modo.Base.Rows.Keys.{IsIn}
use modo.Base.Rows.Members.{IsIn-filter}
use modo.Tenant.Domain.Service.{
  DomainClaim, Claims, failed, is_pending, into_claim_with_expiry, insert_by_created_at,
  order_by_created_at, list,
}

IsIn-insert_iff :
    (c : DomainClaim) (t : Claims) (d : DomainClaim)
    → IsIn d (insert_by_created_at c t) ↔ IsIn d (c ∷ t)
unfolding insert_by_created_at
IsIn-insert_iff c [] d = (λ m. m, λ m. m)
IsIn-insert_iff c (e ∷ t) d =
    let (there, back) = IsIn-insert_iff c t d in
    elim (Bool-cases (ltb c.created_at e.created_at)) [
      | inr newer ↦ rw newer (λ m. m, λ m. m)
      | inl older ↦ rw older (
        λ m. elim m [
          | inl e ↦ inr (inl e)
          | inr n ↦ elim (there n) [ inl e ↦ inl e | inr k ↦ inr (inr k) ]
        ],
        λ m. elim m [
          | inl e ↦ inr (back (inl e))
          | inr n ↦ elim n [ inl e ↦ inl e | inr k ↦ inr (back (inr k)) ]
        ],
      )
    ]

IsIn-order_iff : (t : Claims) (d : DomainClaim) → IsIn d (order_by_created_at t) ↔ IsIn d t
unfolding order_by_created_at
IsIn-order_iff [] d = (λ m. m, λ m. m)
IsIn-order_iff (c ∷ t) d =
    let (there, back) = IsIn-order_iff t d in
    let (out, into) = IsIn-insert_iff c (order_by_created_at t) d in
    (
      λ m. elim (out m) [ inl e ↦ inl e | inr n ↦ inr (there n) ],
      λ m. elim m [ inl e ↦ into (inl e) | inr n ↦ into (inr (back n)) ],
    )

IsIn-filter_intro :
    (test : DomainClaim → Bool) (t : Claims) (d : DomainClaim)
    → IsIn d t
    → test d ≡ true
    → IsIn d (filter test t)
IsIn-filter_intro test [] d m h = m
IsIn-filter_intro test (c ∷ t) d (inl e) h = rw (ap test e ∙ h) (inl e)
IsIn-filter_intro test (c ∷ t) d (inr m) h = elim (Bool-cases (test c)) [
  | inl hit ↦ rw hit (inr (IsIn-filter_intro test t d m h))
  | inr miss ↦ rw miss (IsIn-filter_intro test t d m h)
]

IsIn-map_iff :
    (f : DomainClaim → DomainClaim) (t : Claims) (c : DomainClaim)
    → IsIn c (map f t) ↔ ((d : DomainClaim) × IsIn d t × (f d ≡ c))
IsIn-map_iff f [] c = (λ m. absurd m, λ (d, m, e). absurd m)
IsIn-map_iff f (d ∷ t) c =
    let (there, back) = IsIn-map_iff f t c in
    (
      λ m. elim m [ inl e ↦ (d, inl refl, e) | inr n ↦ let (x, k, e) = there n in (x, inr k, e) ],
      λ (x, m, e). elim m [ inl same ↦ inl (ap f same ∙ e) | inr n ↦ inr (back (x, n, e)) ],
    )

module _ (lower : Text → Text) (hour : ℕ) (accepts : Claims → Bool) (violation : Error)
    (now : ℕ) where
  -- How a row is listed: failed, if it is pending and more than 48 hours old, and else as it is.
  pub data IsListedAs (d : DomainClaim) : DomainClaim → Type 0 where
    late :
        is_pending d.status ≡ true
        → 48 * hour < now - d.created_at
        → IsListedAs d (record d { status = failed })
    settled : is_pending d.status ≡ false → IsListedAs d d
    in_time : now - d.created_at ≤ 48 * hour → IsListedAs d d

  into_claim-IsListedAs :
      (d : DomainClaim) → IsListedAs d (into_claim_with_expiry lower hour accepts violation now d)
  unfolding into_claim_with_expiry
  into_claim-IsListedAs d = elim (Bool-cases (is_pending d.status)) [
    | inr other ↦ rw other (settled other)
    | inl waiting ↦ elim (Bool-cases (ltb (48 * hour) (now - d.created_at))) [
      | inl old ↦ rw (waiting, old) (late waiting (ground arith))
      | inr young ↦ rw (waiting, young) (in_time (ground arith))
    ]
  ]

  IsListedAs-eq :
      (d c : DomainClaim)
      → IsListedAs d c
      → into_claim_with_expiry lower hour accepts violation now d ≡ c
  unfolding into_claim_with_expiry
  IsListedAs-eq d c (late waiting old) =
      let is_old : ltb (48 * hour) (now - d.created_at) ≡ true = ground arith in
      rw (waiting, is_old) refl
  IsListedAs-eq d c (settled other) = rw other refl
  IsListedAs-eq d c (in_time young) =
      let is_young : ltb (48 * hour) (now - d.created_at) ≡ false = ground arith in
      elim (Bool-cases (is_pending d.status)) [
        | inl waiting ↦ rw (waiting, is_young) refl
        | inr other ↦ rw other refl
      ]

  -- The claims that are listed for a tenant are those of its rows, all of them: a row that is pending and
  -- was made more than 48 hours ago is listed as failed, every other as it is.
  pub list_iff :
      (tenant_id : Text) (t : Claims) (c : DomainClaim)
      → IsIn c (list lower hour accepts violation tenant_id now t)
        ↔ ((d : DomainClaim) × IsIn d t × (d.tenant_id ≡ tenant_id) × IsListedAs d c)
  unfolding list
  list_iff tenant_id t c =
      let own : DomainClaim → Bool = λ d. d.tenant_id == tenant_id in
      let rows = filter own t in
      let (listed, shown) =
        IsIn-map_iff (into_claim_with_expiry lower hour accepts violation now)
          (order_by_created_at rows) c in
      (
        λ m.
            let (d, n, e) = listed m in
            let (k, h) = IsIn-filter own t d ((IsIn-order_iff rows d).0 n) in
            (
              d,
              k,
              (list_beq_iff d.tenant_id tenant_id).0 h,
              subst (IsListedAs d) e (into_claim-IsListedAs d),
            ),
        λ (d, m, is_own, h). shown (
          d,
          (IsIn-order_iff rows d).1
              (IsIn-filter_intro own t d m ((list_beq_iff d.tenant_id tenant_id).1 is_own)),
          IsListedAs-eq d c h,
        ),
      )
