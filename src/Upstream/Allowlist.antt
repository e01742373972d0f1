-- ===== src/Upstream/Allowlist.antt =====
-- internal/upstream/validate.go and safeDialContext of client.go: which hosts the proxy may connect
-- to. Parsing, case folding and name resolution are Go's; they are the fields of `Net`, and what is
-- proved holds for any of them.
pub mod Ssrf
use tsa_proxy.Common.{
  ℕ, String, Bool, true, false, not, ◌&&◌, ◌||◌, Option, none, some, List, [], ◌∷◌, any,
  if◌then◌else◌, str_eq,
}
use tsa_proxy.ApiError.{Result, ok, failed}
use tsa_proxy.Upstream.Address.{Ip, is_private_or_reserved}

-- url.URL: the scheme, and what its Hostname method returns.
pub record Url : Type 0 where
  pub scheme : String
  pub hostname : String

pub record Net : Type 0 where
  pub parse_url : String → Option Url
  pub equal_fold : String → String → Bool
  pub trim_space : String → String
  pub lookup_ip : String → Result (List Ip)
  pub split_host_port : String → Option (String × String)

unfoldable pub is_web_scheme : String → Bool
is_web_scheme scheme = str_eq scheme "http" || str_eq scheme "https"

-- The addresses of a host, if there are any and none is private or reserved.
unfoldable pub public_addresses : Result (List Ip) → Result (List Ip)
public_addresses failed = failed
public_addresses (ok []) = failed
public_addresses (ok (ip ∷ ips)) =
    if any is_private_or_reserved (ip ∷ ips) then failed else ok (ip ∷ ips)

-- `ips[0]`, which is there.
unfoldable pub first_address : List Ip → Option Ip
first_address [] = none
first_address (ip ∷ ips) = some ip

module _ (net : Net) where
  open net use {parse_url, equal_fold, trim_space, lookup_ip, split_host_port}

  -- The loop over allowedHosts.
  unfoldable pub is_listed : String → List String → Bool
  is_listed host [] = false
  is_listed host (h ∷ hosts) = equal_fold host (trim_space h) || is_listed host hosts

  unfoldable pub check_host : Url → List String → Result String
  check_host u allowed_hosts =
      if not (is_web_scheme u.scheme)
      then failed
      else if str_eq u.hostname ""
      then failed
      else if is_listed u.hostname allowed_hosts
      then ok u.hostname
      else failed

  -- CheckAllowlist returns the host that it has checked.
  unfoldable pub check_allowlist : String → List String → Result String
  check_allowlist raw_url [] = failed
  check_allowlist raw_url (h ∷ hosts) =
      if str_eq (trim_space raw_url) ""
      then failed
      else elim (parse_url raw_url) [ none ↦ failed | some u ↦ check_host u (h ∷ hosts) ]

  -- ValidateURL returns no value: `ok` is a nil error.
  unfoldable pub validate_url : String → List String → Result (Unit {0})
  validate_url raw_url allowed_hosts = elim (check_allowlist raw_url allowed_hosts) [
    | failed ↦ failed
    | ok host ↦ elim (public_addresses (lookup_ip host)) [ failed ↦ failed | ok ips ↦ ok tt ]
  ]

  -- safeDialContext: the address and the port to which a socket is opened, or none.
  unfoldable pub safe_dial : String → Option (Ip × String)
  safe_dial addr = elim (split_host_port addr) [
    | none ↦ none
    | some (host, port) ↦ elim (public_addresses (lookup_ip host)) [
      | failed ↦ none
      | ok ips ↦ elim (first_address ips) [ none ↦ none | some ip ↦ some (ip, port) ]
    ]
  ]

  unfoldable pub same_hostname : Url → Url → Bool
  same_hostname u v =
      if str_eq u.hostname "" || str_eq v.hostname ""
      then false
      else equal_fold u.hostname v.hostname

  -- SameHost: a URL that does not parse is on another host.
  unfoldable pub same_host : String → String → Bool
  same_host a b = elim (parse_url a) [
    | none ↦ false
    | some ua ↦ elim (parse_url b) [ none ↦ false | some ub ↦ same_hostname ua ub ]
  ]
