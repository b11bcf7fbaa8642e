-- ===== src/Tier/Tests.antt =====
-- The theorems at work on one tier.
use modo.Base.{ℕ, ◌≡◌, ◌↔◌, refl, [], ◌∷◌, some, false, nat_eq}
use modo.Base.Lists.{list_eq}
use modo.Base.Text.{Text, codes}
use modo.Base.Dict.{lookup}
use modo.Base.Errors.{ok}
use modo.Tier.{TierInfo, limit, toggle, require_limit, limit_ceiling}
use modo.Tier.Guarding.{IsBelow, require_limit_iff}

abbrev free : TierInfo
free = record {
  name = codes "free";
  features = (codes "sso", toggle false) ∷ (codes "api_calls", limit 1000) ∷ [];
}

abbrev decimal : ℕ → Text
decimal n = n ∷ []

require_limit_iff_example :
    (require_limit decimal (codes "api_calls") (ok 999) (some free) ≡ ok tt) ↔ (
      (c : ℕ) × (lookup (codes "api_calls") free.features ≡ some (limit c))
      × IsBelow decimal (ok 999) c)
require_limit_iff_example = require_limit_iff decimal (codes "api_calls") (ok 999) free

below : require_limit decimal (codes "api_calls") (ok 999) (some free) ≡ ok tt
unfolding require_limit limit_ceiling lookup
below = refl
