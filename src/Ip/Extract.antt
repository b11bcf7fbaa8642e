-- ===== src/Ip/Extract.antt =====
-- ip/extract.rs: the client's address from the proxies' headers. Addresses and networks are of `std::net`
-- and the crate `ipnet`: their types, the parser and the membership test are arguments.
use modo.Base.{Bool, true, false, not, ◌&&◌, List, [], ◌∷◌, Option, none, some, if◌then◌else◌}
use modo.Base.Lists.{any}
use modo.Base.Text.{Text, codes, split, trim}
use modo.Http.{Parts, header_text}

abbrev pub null {ℓ} : {A : Type ℓ} → List A → Bool
null [] = true
null (_ ∷ _) = false

-- `split(',').next()`
abbrev pub first_piece : List Text → Option Text
first_piece [] = none
first_piece (p ∷ _) = some p

module _ {IpAddr IpNet : Type 0} (parse : Text → Option IpAddr) (contains : IpNet → IpAddr → Bool)
    (localhost : IpAddr) where
  abbrev pub or_else {ℓ} : {A : Type ℓ} → Option A → A → A
  or_else none b = b
  or_else (some a) b = a

  -- The address that a header's text stands for.
  abbrev pub address : Option Text → Option IpAddr
  address none = none
  address (some text) = parse (trim text)

  abbrev pub leftmost : Option Text → Option Text
  leftmost none = none
  leftmost (some forwarded) = first_piece (split b',' forwarded)

  -- A peer that is connected directly: proxies are configured, and it is none of them.
  abbrev pub is_direct : List IpNet → IpAddr → Bool
  is_direct trusted_proxies ip =
      not (null trusted_proxies) && not (any (λ net. contains net ip) trusted_proxies)

  unfoldable pub from_headers : Parts → Option IpAddr → IpAddr
  unfolding trim split
  from_headers parts connect_ip =
      or_else (address (leftmost (header_text (codes "x-forwarded-for") parts)))
        (or_else (address (header_text (codes "x-real-ip") parts)) (or_else connect_ip localhost))

  unfoldable pub extract_client_ip : Parts → List IpNet → Option IpAddr → IpAddr
  unfolding from_headers
  extract_client_ip parts trusted_proxies none = from_headers parts none
  extract_client_ip parts trusted_proxies (some ip) =
      if is_direct trusted_proxies ip then ip else from_headers parts (some ip)
