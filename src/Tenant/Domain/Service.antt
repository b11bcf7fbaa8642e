-- ===== src/Tenant/Domain/Service.antt =====
-- tenant/domain.rs: `DomainService`, on the rows of the table `tenant_domains`, whose columns stand in
-- tenant/README.md. The application makes the table: `accepts` is what its constraints allow, and
-- `violation` the error of a statement that breaks one. A time is a number, and `hour` the units of it in
-- an hour. Identifiers, tokens, the clock and the answer of the DNS are arguments. Each operation runs
-- whole, with no other between its statements.
use modo.Base.{
  ℕ, ◌-◌, ◌*◌, Bool, true, false, not, ◌&&◌, List, [], ◌∷◌, ◌++◌, map, Option, none, some,
  if◌then◌else◌, ltb, nat_eq, ◌==◌,
}
use mathlib.Core.Option
use modo.Base.Lists.{filter, list_eq}
use modo.Base.Text.{Text, codes}
use modo.Base.Errors.{Error, Result, ok, err, bad_request, internal, not_found, ◌>>=◌}
use modo.Tenant.Domain.{validate_domain, extract_email_domain}

pub data ClaimStatus : Type 0 where
  pending verified failed : ClaimStatus

unfoldable pub as_str : ClaimStatus → Text
as_str pending = codes "pending"
as_str verified = codes "verified"
as_str failed = codes "failed"

unfoldable pub from_str : Text → Result ClaimStatus
from_str s =
    if s == codes "pending"
    then ok pending
    else if s == codes "verified"
    then ok verified
    else if s == codes "failed"
    then ok failed
    else err (internal (codes "unknown claim status: " ++ s))

pub record DomainClaim : Type 0 where
  pub id : Text
  pub tenant_id : Text
  pub domain : Text
  pub verification_token : Text
  pub status : ClaimStatus
  pub use_for_email : Bool
  pub use_for_routing : Bool
  pub created_at : ℕ
  pub verified_at : Option ℕ

pub record TenantMatch : Type 0 where
  pub tenant_id : Text
  pub domain : Text

-- The table. A row's status is the one whose text it holds.
abbrev pub Claims : Type 0
Claims = List DomainClaim

abbrev pub is_pending : ClaimStatus → Bool
is_pending pending = true
is_pending _ = false

abbrev pub is_verified : ClaimStatus → Bool
is_verified verified = true
is_verified _ = false

-- The first row that a test picks, in the table's order.
unfoldable pub first_where : (DomainClaim → Bool) → Claims → Option DomainClaim
first_where test [] = none
first_where test (c ∷ t) = if test c then some c else first_where test t

unfoldable pub update_where : (DomainClaim → Bool) → (DomainClaim → DomainClaim) → Claims → Claims
update_where test change [] = []
update_where test change (c ∷ t) = (if test c then change c else c) ∷ update_where test change t

abbrev pub by_id : Text → DomainClaim → Bool
by_id id c = c.id == id

abbrev pub Outcome : Type 0 → Type 0
Outcome A = Result A × Claims

-- `ORDER BY created_at DESC`; rows of equal times keep their order.
unfoldable pub insert_by_created_at : DomainClaim → Claims → Claims
insert_by_created_at c [] = c ∷ []
insert_by_created_at c (d ∷ t) =
    if ltb c.created_at d.created_at then d ∷ insert_by_created_at c t else c ∷ d ∷ t

unfoldable pub order_by_created_at : Claims → Claims
unfolding insert_by_created_at
order_by_created_at [] = []
order_by_created_at (c ∷ t) = insert_by_created_at c (order_by_created_at t)

module _ (lower : Text → Text) (hour : ℕ) (accepts : Claims → Bool) (violation : Error) where
  -- `age > 48 h`; a claim of the future has no age.
  abbrev pub is_expired : ℕ → ℕ → Bool
  is_expired created_at now = ltb (48 * hour) (now - created_at)

  unfoldable pub into_claim_with_expiry : ℕ → DomainClaim → DomainClaim
  into_claim_with_expiry now c =
      if is_pending c.status && is_expired c.created_at now then record c { status = failed } else c

  abbrev pub fresh_claim : Text → Text → Text → Text → ℕ → DomainClaim
  fresh_claim id token tenant_id domain now = record {
    id = id;
    tenant_id = tenant_id;
    domain = domain;
    verification_token = token;
    status = pending;
    use_for_email = false;
    use_for_routing = false;
    created_at = now;
    verified_at = none;
  }

  abbrev pub insert_claim : DomainClaim → Claims → Outcome DomainClaim
  insert_claim c t = if accepts (t ++ c ∷ []) then (ok c, t ++ c ∷ []) else (err violation, t)

  -- A pending claim is answered again, unless it is expired.
  abbrev pub register_claim : DomainClaim → ℕ → Option DomainClaim → Claims → Outcome DomainClaim
  register_claim c now none t = insert_claim c t
  register_claim c now (some old) t =
      if is_pending ((into_claim_with_expiry now old).status)
      then (ok (into_claim_with_expiry now old), t)
      else insert_claim c t

  abbrev pub register_valid : Text → Text → Text → ℕ → Result Text → Claims → Outcome DomainClaim
  register_valid id token tenant_id now (err e) t = (err e, t)
  register_valid id token tenant_id now (ok domain) t =
      register_claim (fresh_claim id token tenant_id domain now) now
        (first_where (λ c. (c.tenant_id == tenant_id && c.domain == domain) && is_pending c.status)
          t)
        t

  unfoldable pub register : Text → Text → Text → Text → ℕ → Claims → Outcome DomainClaim
  unfolding validate_domain first_where into_claim_with_expiry
  register id token tenant_id domain now t =
      register_valid id token tenant_id now (validate_domain lower domain) t

  abbrev pub as_verified : ℕ → DomainClaim → DomainClaim
  as_verified now c = record c { status = verified; verified_at = some now }

  -- An update that breaks a constraint changes nothing.
  abbrev pub updated {ℓ} : {A : Type ℓ} → A → Claims → Claims → Result A × Claims
  updated a t' t = if accepts t' then (ok a, t') else (err violation, t)

  abbrev pub update_checked : Text → (DomainClaim → DomainClaim) → Claims → Outcome (Unit {0})
  update_checked id change t = updated tt (update_where (by_id id) change t) t

  abbrev pub answered_txt : Text → DomainClaim → ℕ → Result Bool → Claims → Outcome DomainClaim
  answered_txt id c now (err e) t = (err e, t)
  answered_txt id c now (ok false) t =
      (err (bad_request (codes "DNS TXT record not found or does not match verification token")), t)
  answered_txt id c now (ok true) t =
      updated (as_verified now c)
        (update_where (by_id id) (λ d. record d { status = verified; verified_at = some now }) t) t

  -- `?` on the update: an expired claim is answered with its own error only if the update is accepted.
  abbrev pub expired_of : Outcome (Unit {0}) → Outcome DomainClaim
  expired_of (err e, t) = (err e, t)
  expired_of (ok _, t) = (err (bad_request (codes "verification window has expired (48 hours)")), t)

  -- `check_txt domain token` asks the DNS.
  abbrev pub verify_claim :
      (Text → Text → Result Bool) → Text → ℕ → Option DomainClaim → Claims → Outcome DomainClaim
  verify_claim check_txt id now none t = (err (not_found (codes "record not found")), t)
  verify_claim check_txt id now (some c) t =
      if is_verified c.status
      then (ok c, t)
      else if is_expired c.created_at now
      then expired_of (update_checked id (λ d. record d { status = failed }) t)
      else answered_txt id c now (check_txt c.domain c.verification_token) t

  unfoldable pub verify : (Text → Text → Result Bool) → Text → ℕ → Claims → Outcome DomainClaim
  unfolding first_where update_where
  verify check_txt id now t = verify_claim check_txt id now (first_where (by_id id) t) t

  unfoldable pub remove : Text → Claims → Claims
  remove id = filter (λ c. not (by_id id c))

  abbrev pub verified_of : Option DomainClaim → Result (Unit {0})
  verified_of none = err (not_found (codes "record not found"))
  verified_of (some c) =
      if not (is_verified c.status)
      then err (bad_request (codes "domain must be verified before enabling features"))
      else ok tt

  unfoldable pub require_verified : Text → Claims → Result (Unit {0})
  unfolding first_where
  require_verified id t = verified_of (first_where (by_id id) t)

  abbrev pub enabled : Result (Unit {0}) → Outcome (Unit {0}) → Claims → Outcome (Unit {0})
  enabled (err e) o t = (err e, t)
  enabled (ok _) o t = o

  unfoldable pub enable_email : Text → Claims → Outcome (Unit {0})
  unfolding require_verified update_where
  enable_email id t =
      enabled (require_verified id t) (update_checked id (λ c. record c { use_for_email = true }) t)
        t

  unfoldable pub disable_email : Text → Claims → Outcome (Unit {0})
  unfolding update_where
  disable_email id t = update_checked id (λ c. record c { use_for_email = false }) t

  unfoldable pub enable_routing : Text → Claims → Outcome (Unit {0})
  unfolding require_verified update_where
  enable_routing id t =
      enabled (require_verified id t)
        (update_checked id (λ c. record c { use_for_routing = true }) t) t

  unfoldable pub disable_routing : Text → Claims → Outcome (Unit {0})
  unfolding update_where
  disable_routing id t = update_checked id (λ c. record c { use_for_routing = false }) t

  abbrev pub match_of : DomainClaim → TenantMatch
  match_of c = record { tenant_id = c.tenant_id; domain = c.domain }

  abbrev pub for_email : Text → DomainClaim → Bool
  for_email domain c = c.domain == domain && is_verified c.status && c.use_for_email

  abbrev pub for_routing : Text → DomainClaim → Bool
  for_routing domain c = c.domain == domain && is_verified c.status && c.use_for_routing

  unfoldable pub lookup_email_domain : Text → Claims → Result (Option TenantMatch)
  unfolding extract_email_domain first_where
  lookup_email_domain email t = extract_email_domain lower email >>= λ domain.
      ok (Option.map match_of (first_where (for_email domain) t))

  unfoldable pub lookup_routing_domain : Text → Claims → Result (Option TenantMatch)
  unfolding validate_domain first_where
  lookup_routing_domain domain t = validate_domain lower domain >>= λ name.
      ok (Option.map match_of (first_where (for_routing name) t))

  unfoldable pub resolve_tenant : Text → Claims → Result (Option Text)
  unfolding lookup_routing_domain
  resolve_tenant domain t =
      lookup_routing_domain domain t >>= λ m. ok (Option.map (λ x. x.tenant_id) m)

  unfoldable pub list : Text → ℕ → Claims → Claims
  unfolding into_claim_with_expiry order_by_created_at
  list tenant_id now t =
      map (into_claim_with_expiry now)
        (order_by_created_at (filter (λ c. c.tenant_id == tenant_id) t))
