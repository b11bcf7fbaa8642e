-- ===== src/Base/Errors.antt =====
-- error/core.rs: the framework's error value, its constructors by status, and `Result`.
pub mod Http
use modo.Base.{ℕ, ◌≡◌, ◌↔◌, refl, ap, ◌∙◌, Option, none, some, Bool, false}
use modo.Base.Text.{Text}

-- `source` and `details` hold values of other crates, which nothing modelled here reads.
pub record Error : Type 0 where
  pub status : ℕ
  pub message : Text
  pub error_code : Option Text
  pub locale_key : Option Text
  pub lagged : Bool

abbrev pub new : ℕ → Text → Error
new status message = record {
  status = status;
  message = message;
  error_code = none;
  locale_key = none;
  lagged = false;
}

abbrev pub bad_request : Text → Error
bad_request = new 400

abbrev pub unauthorized : Text → Error
unauthorized = new 401

abbrev pub forbidden : Text → Error
forbidden = new 403

abbrev pub not_found : Text → Error
not_found = new 404

abbrev pub conflict : Text → Error
conflict = new 409

abbrev pub payload_too_large : Text → Error
payload_too_large = new 413

abbrev pub unprocessable_entity : Text → Error
unprocessable_entity = new 422

abbrev pub too_many_requests : Text → Error
too_many_requests = new 429

abbrev pub internal : Text → Error
internal = new 500

abbrev pub bad_gateway : Text → Error
bad_gateway = new 502

abbrev pub gateway_timeout : Text → Error
gateway_timeout = new 504

pub data Result {ℓ} (A : Type ℓ) : Type ℓ where
  ok : A → Result A
  err : Error → Result A

-- The operator `?`: an error ends the chain.
infixl 5 ◌>>=◌ ◌>>◌
abbrev pub ◌>>=◌ {ℓ κ} :
    {Value : Type ℓ} {Next : Type κ} → Result Value → (Value → Result Next) → Result Next
err failure >>= next = err failure
ok value >>= next = next value

abbrev pub ◌>>◌ {κ} : {Next : Type κ} → Result (Unit {0}) → Result Next → Result Next
done >> next = done >>= λ _. next

-- `o.ok_or_else(|| e)?`
abbrev pub ok_or {ℓ} : {A : Type ℓ} → Option A → Error → Result A
ok_or (some a) e = ok a
ok_or none e = err e

-- A chain succeeds exactly when its first step does and the rest does on its value.
pub >>=-eq-ok_iff :
    {A B : Type 0} (m : Result A) (f : A → Result B) (b : B)
    → ((m >>= f) ≡ ok b) ↔ ((a : A) × (m ≡ ok a) × (f a ≡ ok b))
>>=-eq-ok_iff (ok a) f b = (λ h. (a, refl, h), λ (x, e, h). let same : a ≡ x = cc in ap f same ∙ h)
>>=-eq-ok_iff (err e) f b = (λ h. cc, λ (x, e', h). cc)
