-- ===== src/IpAllowlist.antt =====
-- internal/middleware/ipallowlist.go: Check. The addresses are those of Go's net package, a parameter:
-- `parse_ip` and, for a CIDR that parses, the test that it contains an address.
use tsa_proxy.Common.{
  String, Bool, true, false, ◌||◌, Option, none, some, List, [], ◌∷◌, ◌++◌, any, if◌then◌else◌,
  str_eq,
}
use tsa_proxy.ApiError.{Result, ok, failed, Answer, answer, refuse, err_ip_not_allowed}
use tsa_proxy.Model.{Uuid}
pub mod Admits

pub record Net : Type 1 where
  pub Ip : Type 0
  pub parse_ip : String → Option Ip
  pub parse_cidr : String → Option (Ip → Bool)

-- What Check reads: the context, the header, the cache and the rows of the tenant.
pub record IpRequest : Type 0 where
  pub tenant : Option Uuid
  pub context_ip : String
  pub real_ip : String
  pub cached : Uuid → Result (List String)
  pub stored : Uuid → Result (List String)

pub data IpEffect : Type 0 where
  set_ip_allowlist : Uuid → List String → IpEffect
  record_not_allowed : Uuid → String → IpEffect

unfoldable pub ip_of : IpRequest → String
ip_of req = if str_eq req.context_ip "" then req.real_ip else req.context_ip

unfoldable pub get_cidrs : IpRequest → Uuid → Result (List String) × List IpEffect
get_cidrs req tenant = elim (req.cached tenant) [
  | ok cidrs ↦ (ok cidrs, [])
  | failed ↦ elim (req.stored tenant) [
    | failed ↦ (failed, [])
    | ok cidrs ↦ (ok cidrs, set_ip_allowlist tenant cidrs ∷ [])
  ]
]

-- A CIDR that does not parse contains nothing.
unfoldable pub contains : (net : Net) → net.Ip → String → Bool
contains net ip cidr = elim (net.parse_cidr cidr) [ none ↦ false | some has ↦ has ip ]

unfoldable pub is_open : List String → Bool
is_open [] = true
is_open (cidr ∷ cidrs) = false

unfoldable pub check_cidrs : (net : Net) → net.Ip → Result (List String) → Bool
unfolding contains is_open
check_cidrs net ip failed = true
check_cidrs net ip (ok cidrs) = is_open cidrs || any (contains net ip) cidrs

unfoldable pub check : (net : Net) → IpRequest → Answer (Unit {0}) × List IpEffect
unfolding ip_of get_cidrs check_cidrs
check net req = elim req.tenant [
  | none ↦ (answer tt, [])
  | some tenant ↦ elim (net.parse_ip (ip_of req)) [
    | none ↦ (refuse err_ip_not_allowed, [])
    | some ip ↦
        let (cidrs, es) = get_cidrs req tenant in
        if check_cidrs net ip cidrs
        then (answer tt, es)
        else (refuse err_ip_not_allowed, es ++ (record_not_allowed tenant (ip_of req) ∷ []))
  ]
]
