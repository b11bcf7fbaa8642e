-- ===== src/Tier/Guarding.antt =====
-- Which requests the guards let through.
use modo.Base.{
  ℕ, ◌≡◌, ◌↔◌, ◌<◌, ap, true, false, Option, none, some, arith, if◌then◌else◌, ltb, leb, ◌=ℕ◌,
  Bool-cases, inl, inr, nat_eq,
}
use modo.Base.Lists.{list_eq}
use modo.Base.Text.{Text}
use modo.Base.Dict.{lookup}
use modo.Base.Errors.{Result, ok, err, >>=-eq-ok_iff}
use modo.Tier.{
  FeatureAccess, toggle, limit, TierInfo, has_feature, require_feature, ceiling, limit_ceiling,
  check_limit, within_limit, require_limit, exceeded,
}

ok_eq : {A : Type 0} {a b : A} → ok a ≡ ok b → a ≡ b
ok_eq h = cc

ceiling-ok :
    (name : Text) (o : Option FeatureAccess) (c : ℕ) → ceiling name o ≡ ok c → o ≡ some (limit c)
ceiling-ok name (some (limit v)) c h = ap (λ x. some (limit x)) (ok_eq h)
ceiling-ok name (some (toggle v)) c h = cc
ceiling-ok name none c h = cc

module _ (decimal : ℕ → Text) where
  -- A usage below a limit.
  abbrev pub IsBelow : Result ℕ → ℕ → Type 0
  IsBelow usage c = (n : ℕ) × (usage ≡ ok n) × (n < c)

  below_iff :
      (name : Text) (n c : ℕ)
      → (◌≡◌ {A = Result (Unit {0})}
          (if leb c n then err (exceeded decimal name n c) else ok tt)
          (ok tt))
        ↔ (n < c)
  below_iff name n c = (
    λ h. elim (Bool-cases (leb c n)) [ inl over ↦ cc (rw over at h) | inr under ↦ ground arith ],
    λ h. let under : leb c n ≡ false = ground arith in rw under,
  )

  within_limit_iff :
      (name : Text) (usage : Result ℕ) (c : ℕ)
      → (within_limit decimal name usage c ≡ ok tt) ↔ IsBelow usage c
  within_limit_iff name usage c = (
    λ h. elim (Bool-cases (c =ℕ 0)) [
      | inl zero ↦ cc (rw zero at h)
      | inr positive ↦
          let (n, known, passes) = (>>=-eq-ok_iff usage _ tt).0 (rw positive at h) in
          (n, known, (below_iff name n c).0 passes)
    ],
    λ (n, known, under).
        let positive : (c =ℕ 0) ≡ false = ground arith in
        rw (positive, known) ((below_iff name n c).1 under),
  )

  -- `require_limit` lets a request through exactly when its tier has the feature as a limit, and the usage
  -- of the request is known and below this limit.
  pub require_limit_iff :
      (name : Text) (usage : Result ℕ) (tier : TierInfo)
      → (require_limit decimal name usage (some tier) ≡ ok tt)
        ↔ ((c : ℕ) × (lookup name tier.features ≡ some (limit c)) × IsBelow usage c)
  unfolding require_limit limit_ceiling
  require_limit_iff name usage tier = (
    λ h.
        let (c, found, passes) =
          (>>=-eq-ok_iff (limit_ceiling name tier) (within_limit decimal name usage) tt).0 h in
        (c, ceiling-ok name _ c found, (within_limit_iff name usage c).0 passes),
    λ (c, found, below). rw found ((within_limit_iff name usage c).1 below),
  )

  -- A request that `require_limit` lets through with a usage of n passes `require_feature` for the same
  -- feature, and `check_limit` accepts n.
  pub require_limit-require_feature :
      (name : Text) (n : ℕ) (tier : TierInfo)
      → require_limit decimal name (ok n) (some tier) ≡ ok tt
      → (require_feature name (some tier) ≡ ok tt) × (check_limit decimal name n tier ≡ ok tt)
  unfolding require_feature has_feature check_limit limit_ceiling
  require_limit-require_feature name n tier h =
      let (c, found, (m, known, below)) = (require_limit_iff name (ok n) tier).0 h in
      let same : n ≡ m = ok_eq known in
      let under : n < c = omega (arith, same, below) in
      let positive : ltb 0 c ≡ true = ground arith in
      (rw (found, positive), rw found ((below_iff name n c).1 under))
