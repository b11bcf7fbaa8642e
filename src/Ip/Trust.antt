-- ===== src/Ip/Trust.antt =====
-- Whose word on an address is taken.
use modo.Base.{
  ◌≡◌, ◌≢◌, ◌⊎◌, Bool, true, false, List, Option, none, some, Bool-cases, Option-cases, inl, inr,
}
use modo.Base.Lists.{any}
use modo.Base.Text.{Text, codes}
use modo.Http.{Parts, header_text}
use modo.Ip.Extract.{null, or_else, address, leftmost, is_direct, from_headers, extract_client_ip}

module _ {IpAddr IpNet : Type 0} (parse : Text → Option IpAddr) (contains : IpNet → IpAddr → Bool)
    (localhost : IpAddr) where
  abbrev pub forwarded_for : Parts → Option IpAddr
  forwarded_for parts =
      address parse contains localhost
        (leftmost parse contains localhost (header_text (codes "x-forwarded-for") parts))

  abbrev pub real_ip : Parts → Option IpAddr
  real_ip parts = address parse contains localhost (header_text (codes "x-real-ip") parts)

  -- Where the headers of a request are believed: the first entry of X-Forwarded-For if it is an address,
  -- else X-Real-IP if it is one, else the peer's address or the local one.
  abbrev pub FromHeaders : Parts → Option IpAddr → IpAddr → Type 0
  FromHeaders parts connect_ip r =
      (forwarded_for parts ≡ some r)
      ⊎ ((forwarded_for parts ≡ none)
          × ((real_ip parts ≡ some r)
              ⊎ ((real_ip parts ≡ none)
                  × (r ≡ or_else parse contains localhost connect_ip localhost))))

  from_headers-FromHeaders :
      (parts : Parts) (connect_ip : Option IpAddr)
      → FromHeaders parts connect_ip (from_headers parse contains localhost parts connect_ip)
  unfolding from_headers
  from_headers-FromHeaders parts connect_ip = elim (Option-cases (forwarded_for parts)) [
    | inr (r, e) ↦ inl (rw e)
    | inl n ↦ elim (Option-cases (real_ip parts)) [
      | inr (r, e) ↦ inr (n, inl (rw (n, e)))
      | inl m ↦ inr (n, inr (m, rw (n, m)))
    ]
  ]

  -- Two requests of the same peer whose headers alone give different addresses come from a trusted proxy,
  -- or no proxies are configured.
  pub extract_client_ip-trusts :
      (p q : Parts) (trusted_proxies : List IpNet) (ip : IpAddr)
      → extract_client_ip parse contains localhost p trusted_proxies (some ip)
        ≢ extract_client_ip parse contains localhost q trusted_proxies (some ip)
      → (null trusted_proxies ≡ true) ⊎ (any (λ net. contains net ip) trusted_proxies ≡ true)
  unfolding extract_client_ip
  extract_client_ip-trusts p q trusted_proxies ip differ =
      elim (Bool-cases (null trusted_proxies)) [
        | inl unconfigured ↦ inl unconfigured
        | inr configured ↦ elim (Bool-cases (any (λ net. contains net ip) trusted_proxies)) [
          | inl trusted ↦ inr trusted
          | inr direct ↦ absurd (differ (rw (configured, direct)))
        ]
      ]

  -- The address is the peer's own where the peer is connected directly, and otherwise the one that the
  -- headers, the peer and the local address give in that order.
  pub extract_client_ip-sources :
      (parts : Parts) (trusted_proxies : List IpNet) (ip : IpAddr)
      → ((is_direct parse contains localhost trusted_proxies ip ≡ true)
          × (extract_client_ip parse contains localhost parts trusted_proxies (some ip) ≡ ip))
        ⊎ ((is_direct parse contains localhost trusted_proxies ip ≡ false)
            × FromHeaders parts
                (some ip)
                (extract_client_ip parse contains localhost parts trusted_proxies (some ip)))
  unfolding extract_client_ip
  extract_client_ip-sources parts trusted_proxies ip =
      elim (Bool-cases (is_direct parse contains localhost trusted_proxies ip)) [
        | inl direct ↦ inl (direct, rw direct)
        | inr proxied ↦ inr (proxied, rw proxied (from_headers-FromHeaders parts (some ip)))
      ]
