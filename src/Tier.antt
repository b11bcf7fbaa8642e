-- ===== src/Tier.antt =====
-- tier/types.rs and tier/guard.rs: a tier's features and limits, and the guards on them. A guard's result
-- is the error that is answered, or that the request goes on to the inner service. `decimal` is the
-- text of a number.
pub mod Guarding
mod Tests
use modo.Base.{
  ℕ, Bool, true, false, not, List, ◌++◌, Option, none, some, if◌then◌else◌, ltb, leb, ◌=ℕ◌, nat_eq,
}
use modo.Base.Lists.{list_eq}
use modo.Base.Text.{Text, codes}
use modo.Base.Dict.{lookup}
use modo.Base.Errors.{Error, Result, ok, err, internal, forbidden, ◌>>=◌}

pub data FeatureAccess : Type 0 where
  toggle : Bool → FeatureAccess
  limit : ℕ → FeatureAccess

pub record TierInfo : Type 0 where
  pub name : Text
  pub features : List (Text × FeatureAccess)

abbrev pub has_access : Option FeatureAccess → Bool
has_access (some (toggle v)) = v
has_access (some (limit v)) = ltb 0 v
has_access none = false

unfoldable pub has_feature : Text → TierInfo → Bool
has_feature name tier = has_access (lookup name tier.features)

abbrev pub is_on : Option FeatureAccess → Bool
is_on (some (toggle v)) = v
is_on _ = false

unfoldable pub is_enabled : Text → TierInfo → Bool
is_enabled name tier = is_on (lookup name tier.features)

abbrev pub limit_value : Option FeatureAccess → Option ℕ
limit_value (some (limit v)) = some v
limit_value _ = none

unfoldable pub limit_of : Text → TierInfo → Option ℕ
limit_of name tier = limit_value (lookup name tier.features)

abbrev pub unavailable : Text → Error
unavailable name =
    forbidden (codes "Feature '" ++ name ++ codes "' is not available on your current plan")

abbrev pub ceiling : Text → Option FeatureAccess → Result ℕ
ceiling name (some (limit v)) = ok v
ceiling name (some (toggle v)) =
    err (internal (codes "Feature '" ++ name ++ codes "' is not a limit"))
ceiling name none = err (unavailable name)

unfoldable pub limit_ceiling : Text → TierInfo → Result ℕ
limit_ceiling name tier = ceiling name (lookup name tier.features)

-- `require_feature`, on the tier that the request carries.
unfoldable pub require_feature : Text → Option TierInfo → Result (Unit {0})
unfolding has_feature
require_feature name none = err (internal (codes "require_feature() called without TierLayer"))
require_feature name (some tier) =
    if not (has_feature name tier) then err (unavailable name) else ok tt

module _ (decimal : ℕ → Text) where
  abbrev pub exceeded : Text → ℕ → ℕ → Error
  exceeded name current c = forbidden (
      codes "Limit exceeded for '"
      ++ name
      ++ codes "': "
      ++ decimal current
      ++ codes "/"
      ++ decimal c)

  unfoldable pub check_limit : Text → ℕ → TierInfo → Result (Unit {0})
  unfolding limit_ceiling
  check_limit name current tier = limit_ceiling name tier >>= λ c.
      if leb c current then err (exceeded name current c) else ok tt

  -- `require_limit`; `usage` is what the application's function answers for the request.
  abbrev pub within_limit : Text → Result ℕ → ℕ → Result (Unit {0})
  within_limit name usage c =
      if c =ℕ 0
      then err (unavailable name)
      else usage >>= λ current. if leb c current then err (exceeded name current c) else ok tt

  unfoldable pub require_limit : Text → Result ℕ → Option TierInfo → Result (Unit {0})
  unfolding limit_ceiling
  require_limit name usage none = err (internal (codes "require_limit() called without TierLayer"))
  require_limit name usage (some tier) = limit_ceiling name tier >>= within_limit name usage
