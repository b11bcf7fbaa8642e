-- ===== src/Ip/Tests.antt =====
-- The theorems at work, with numbers for addresses and for networks.
use modo.Base.{ℕ, ◌≡◌, ◌≢◌, ◌⊎◌, refl, ap, sym, ◌∙◌, true, false, [], ◌∷◌, Option, none, some, ◌=ℕ◌}
use modo.Base.Lists.{any}
use modo.Base.Text.{Text, codes, trim, split}
use modo.Base.Dict.{lookup}
use modo.Http.{Parts, visible}
use modo.Ip.Extract.{null, extract_client_ip, from_headers}
use modo.Ip.Trust.{extract_client_ip-trusts}

-- A text of one character is the address of its code.
abbrev parse : Text → Option ℕ
parse (c ∷ []) = some c
parse _ = none

abbrev request : Text → Parts
request forwarded = record {
  headers = (codes "x-forwarded-for", visible forwarded) ∷ [];
  path = codes "/";
  query = none;
}

abbrev extract : Text → ℕ
extract forwarded = extract_client_ip parse ◌=ℕ◌ 0 (request forwarded) (5 ∷ []) (some 5)

extract-a : extract (codes " a, b") ≡ b'a'
unfolding extract_client_ip from_headers trim split lookup
extract-a = refl

extract-b : extract (codes "b") ≡ b'b'
unfolding extract_client_ip from_headers trim split lookup
extract-b = refl

false-true : false ≢ true
false-true h = cc

differ : extract (codes " a, b") ≢ extract (codes "b")
differ e = false-true (ap (λ x. x =ℕ b'b') (sym extract-a ∙ e ∙ extract-b))

extract_client_ip-trusts_example :
    (null {A = ℕ} (5 ∷ []) ≡ true) ⊎ (any {A = ℕ} (λ net. net =ℕ 5) (5 ∷ []) ≡ true)
extract_client_ip-trusts_example =
    extract_client_ip-trusts parse ◌=ℕ◌ 0 (request (codes " a, b")) (request (codes "b")) (5 ∷ []) 5
      differ
