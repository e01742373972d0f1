-- ===== src/Upstream/Allowlist/Ssrf.antt =====
-- What a URL or an address has passed when validate.go and safeDialContext let it through.
use tsa_proxy.Common.{
  ◌≡◌, ◌≢◌, ap, ◌∙◌, ◌↔◌, ◌⊎◌, refl, String, true, false, some, List, [], ◌∷◌, arith, All, any,
  Bool-cases, Option-cases, inl, inr, eq_iff, str_eq,
}
use tsa_proxy.ApiError.{Result, ok, failed, Result-cases}
use tsa_proxy.Upstream.Address.{Ip, is_private_or_reserved}
use tsa_proxy.Upstream.Allowlist.{
  Url, Net, is_listed, is_web_scheme, check_host, check_allowlist, public_addresses, validate_url,
  safe_dial, first_address,
}

abbrev pub IsPublic : Ip → Type 0
IsPublic ip = is_private_or_reserved ip ≡ false

none_private : (ips : List Ip) → any is_private_or_reserved ips ≡ false → All IsPublic ips
none_private [] h = tt
none_private (ip ∷ ips) h = (ground arith, none_private ips (ground arith))

module _ (net : Net) where
  -- The host resolves, to public addresses only.
  pub record IsPublicHost (host : String) : Type 0 where
    pub first : Ip
    pub others : List Ip
    pub resolved : net.lookup_ip host ≡ ok (first ∷ others)
    pub all_public : All IsPublic (first ∷ others)

  -- The URL parses to a web URL on a listed host.
  pub record IsAllowed (raw_url : String) (allowed_hosts : List String) (host : String)
      : Type 0 where
    pub url : Url
    pub not_blank : net.trim_space raw_url ≢ ""
    pub parsed : net.parse_url raw_url ≡ some url
    pub web : (url.scheme ≡ "http") ⊎ (url.scheme ≡ "https")
    pub named : url.hostname ≢ ""
    pub is_host : url.hostname ≡ host
    pub listed : is_listed net host allowed_hosts ≡ true

  public_addresses-ok :
      (host : String) (r : Result (List Ip)) (ips : List Ip)
      → net.lookup_ip host ≡ r
      → public_addresses r ≡ ok ips
      → IsPublicHost host × (net.lookup_ip host ≡ ok ips) × All IsPublic ips
  unfolding public_addresses
  public_addresses-ok host failed ips e h = cc
  public_addresses-ok host (ok []) ips e h = cc
  public_addresses-ok host (ok (ip ∷ more)) ips e h =
      elim (Bool-cases (any is_private_or_reserved (ip ∷ more))) [
        | inl bad ↦ ground arith
        | inr good ↦
            let same : ip ∷ more ≡ ips = ground arith in
            let all_public = none_private (ip ∷ more) good in
            (
              record { first = ip; others = more; resolved = e; all_public = all_public },
              e ∙ ap ok same,
              rw (← same) all_public,
            )
      ]

  any_private : (ips : List Ip) → All IsPublic ips → any is_private_or_reserved ips ≡ false
  any_private [] h = refl
  any_private (ip ∷ ips) (h, hs) = rw (h, any_private ips hs)

  public_host-addresses :
      (host : String) (c : IsPublicHost host)
      → public_addresses (net.lookup_ip host) ≡ ok (c.first ∷ c.others)
  unfolding public_addresses
  public_host-addresses host c =
      rw (c.resolved, public_addresses) (rw (any_private (c.first ∷ c.others) c.all_public))

  check_host-IsAllowed :
      (raw_url : String) (u : Url) (allowed_hosts : List String) (host : String)
      → net.trim_space raw_url ≢ ""
      → net.parse_url raw_url ≡ some u
      → check_host net u allowed_hosts ≡ ok host
      → IsAllowed raw_url allowed_hosts host
  unfolding check_host is_web_scheme
  check_host-IsAllowed raw_url u allowed host b e h = record {
    url = u;
    not_blank = b;
    parsed = e;
    web = ground (arith, eq_iff u.scheme "http", eq_iff u.scheme "https");
    named = ground (arith, eq_iff u.hostname "");
    is_host = ground arith;
    listed = ground arith;
  }

  check_allowlist-IsAllowed :
      (raw_url : String) (allowed_hosts : List String) (host : String)
      → check_allowlist net raw_url allowed_hosts ≡ ok host
      → IsAllowed raw_url allowed_hosts host
  unfolding check_allowlist
  check_allowlist-IsAllowed raw_url [] host h = cc
  check_allowlist-IsAllowed raw_url (a ∷ more) host h =
      elim (Bool-cases (str_eq (net.trim_space raw_url) "")) [
        | inl blank ↦ ground arith
        | inr some_url ↦ elim (Option-cases (net.parse_url raw_url)) [
          | inl bad ↦ ground arith
          | inr (u, e) ↦
              check_host-IsAllowed raw_url u (a ∷ more) host
                (λ b. ground (arith, eq_iff (net.trim_space raw_url) "")) e (ground arith)
        ]
      ]

  not_listed_in_none : (host : String) → is_listed net host [] ≡ true → ⊥
  unfolding is_listed
  not_listed_in_none host h = cc

  allowed-check_allowlist :
      (raw_url : String) (allowed_hosts : List String) (host : String)
      → IsAllowed raw_url allowed_hosts host
      → check_allowlist net raw_url allowed_hosts ≡ ok host
  unfolding check_allowlist check_host is_web_scheme
  allowed-check_allowlist raw_url [] host a = absurd (not_listed_in_none host a.listed)
  allowed-check_allowlist raw_url (b ∷ more) host a = ground (
    arith,
    a.not_blank,
    a.parsed,
    a.web,
    a.named,
    a.is_host,
    a.listed,
    eq_iff (net.trim_space raw_url) "",
    eq_iff a.url.scheme "http",
    eq_iff a.url.scheme "https",
    eq_iff a.url.hostname "",
  )

  -- ValidateURL accepts a URL exactly if it is not blank, parses to an http or https URL with a host
  -- name on the allowlist, and that name resolves to at least one address and to public ones only.
  pub validate_url_iff :
      (raw_url : String) (allowed_hosts : List String)
      → (validate_url net raw_url allowed_hosts ≡ ok tt)
        ↔ ((host : String) × IsAllowed raw_url allowed_hosts host × IsPublicHost host)
  unfolding validate_url
  validate_url_iff raw_url allowed_hosts = (
    accepted,
    λ (host, a, c).
        rw (allowed-check_allowlist raw_url allowed_hosts host a, validate_url)
          (rw (public_host-addresses host c, validate_url)),
  )
    where
      accepted :
          validate_url net raw_url allowed_hosts ≡ ok tt
          → (host : String) × IsAllowed raw_url allowed_hosts host × IsPublicHost host
      accepted h = elim (Result-cases (check_allowlist net raw_url allowed_hosts)) [
        | inl bad ↦ ground arith
        | inr (host, e) ↦ elim (Result-cases (public_addresses (net.lookup_ip host))) [
          | inl bad ↦ ground arith
          | inr (ips, f) ↦ (
            host,
            check_allowlist-IsAllowed raw_url allowed_hosts host e,
            (public_addresses-ok host (net.lookup_ip host) ips refl f).0,
          )
        ]
      ]

  -- When safeDialContext opens a socket, it is to a public address, the first of those that the host
  -- of the address resolved to, and all of them are public.
  pub safe_dial-IsPublic :
      (addr : String) (ip : Ip) (port : String)
      → safe_dial net addr ≡ some (ip, port)
      → (host : String) × (net.split_host_port addr ≡ some (host, port))
        × ((others : List Ip) × (net.lookup_ip host ≡ ok (ip ∷ others))
            × All IsPublic (ip ∷ others))
  unfolding safe_dial first_address
  safe_dial-IsPublic addr ip port h = elim (Option-cases (net.split_host_port addr)) [
    | inl bad ↦ ground arith
    | inr ((host, q), e) ↦ elim (Result-cases (public_addresses (net.lookup_ip host))) [
      | inl bad ↦ ground arith
      | inr ([], f) ↦ ground arith
      | inr (i ∷ others, f) ↦
          let (c, resolved, all_public) =
            public_addresses-ok host (net.lookup_ip host) (i ∷ others) refl f in
          let first : i ≡ ip = ground arith in
          let port_eq : q ≡ port = ground arith in
          (
            host,
            e ∙ ap (λ r. some (host, r)) port_eq,
            (others, rw (← first) resolved, rw (← first) all_public),
          )
    ]
  ]
