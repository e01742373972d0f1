-- ===== src/IpAllowlist/Admits.antt =====
-- Which addresses Check lets through.
use tsa_proxy.Common.{
  ◌≡◌, ◌↔◌, refl, String, Bool, true, false, some, List, [], ◌∷◌, any, Bool-cases, Option-cases,
  inl, inr, arith,
}
use tsa_proxy.ApiError.{Result, ok, failed, answer}
use tsa_proxy.Model.{Uuid}
use tsa_proxy.IpAllowlist.{Net, IpRequest, ip_of, get_cidrs, contains, is_open, check_cidrs, check}

-- Some CIDR of the list parses and contains the address.
pub data IsListed (net : Net) (ip : net.Ip) : List String → Type 0 where
  here :
      {cidr : String} {cidrs : List String} (has : net.Ip → Bool)
      → net.parse_cidr cidr ≡ some has
      → has ip ≡ true
      → IsListed net ip (cidr ∷ cidrs)
  there :
      {cidr : String} {cidrs : List String} → IsListed net ip cidrs → IsListed net ip (cidr ∷ cidrs)

-- The list could not be read, it is empty, or the address is listed.
pub data AreOpen (net : Net) (ip : net.Ip) : Result (List String) → Type 0 where
  unread : AreOpen net ip failed
  unrestricted : AreOpen net ip (ok [])
  listed : {cidrs : List String} → IsListed net ip cidrs → AreOpen net ip (ok cidrs)

contains_iff :
    (net : Net) (ip : net.Ip) (cidr : String)
    → (contains net ip cidr ≡ true)
      ↔ ((has : net.Ip → Bool) × (net.parse_cidr cidr ≡ some has) × (has ip ≡ true))
unfolding contains
contains_iff net ip cidr = elim (Option-cases (net.parse_cidr cidr)) [
  | inl bad ↦ (
    (λ h. let h' : false ≡ true = (rw (contains, bad) at h) in cc h'),
    (λ (has, e, _). cc (bad, e)),
  )
  | inr (has, e) ↦
      ((λ h. (has, e, (rw (contains, e) at h))), (λ (has', e', holds). rw (contains, e') holds))
]

IsListed-of :
    (net : Net) (ip : net.Ip) (cidrs : List String)
    → any (contains net ip) cidrs ≡ true
    → IsListed net ip cidrs
IsListed-of net ip [] h = cc
IsListed-of net ip (cidr ∷ cidrs) h = elim (Bool-cases (contains net ip cidr)) [
  | inl holds ↦ let (has, e, at_ip) = (contains_iff net ip cidr).0 holds in here has e at_ip
  | inr no_match ↦ there (IsListed-of net ip cidrs (rw no_match at h))
]

of_listed :
    (net : Net) (ip : net.Ip) (cidrs : List String)
    → IsListed net ip cidrs
    → any (contains net ip) cidrs ≡ true
of_listed net ip [] x = elim x [ ]
of_listed net ip (cidr ∷ cidrs) (here has e holds) =
    let found = (contains_iff net ip cidr).1 (has, e, holds) in rw found refl
of_listed net ip (cidr ∷ cidrs) (there rest) = rw (of_listed net ip cidrs rest) (ground arith)

open_iff :
    (net : Net) (ip : net.Ip) (cidrs : Result (List String))
    → (check_cidrs net ip cidrs ≡ true) ↔ AreOpen net ip cidrs
unfolding check_cidrs is_open
open_iff net ip failed = ((λ h. unread), (λ h. refl))
open_iff net ip (ok []) = ((λ h. unrestricted), (λ h. refl))
open_iff net ip (ok (cidr ∷ cidrs)) = (
  (λ h. listed (IsListed-of net ip (cidr ∷ cidrs) h)),
  elim [ listed l ↦ of_listed net ip (cidr ∷ cidrs) l ],
)

-- For a tenant, Check lets a request through exactly if its address parses and the list of the tenant
-- cannot be read, is empty, or has a CIDR that parses and contains the address.
pub check-passes_iff :
    (net : Net) (req : IpRequest) (tenant : Uuid)
    → req.tenant ≡ some tenant
    → ((check net req).0 ≡ answer tt) ↔ (
        (ip : net.Ip) × (net.parse_ip (ip_of req) ≡ some ip)
        × AreOpen net ip (get_cidrs req tenant).0)
unfolding check
check-passes_iff net req tenant who = elim (Option-cases (net.parse_ip (ip_of req))) [
  | inl bad ↦ (
    (λ h. let h' = (rw (check, who) at h) in let h'' = (rw bad at h') in cc),
    (λ (ip, e, _). cc (bad, e)),
  )
  | inr (ip, e) ↦ elim (Bool-cases (check_cidrs net ip (get_cidrs req tenant).0)) [
    | inl holds ↦ (
      (λ h. (ip, e, (open_iff net ip (get_cidrs req tenant).0).0 holds)),
      (λ other. rw (check, who) (rw e (rw holds refl))),
    )
    | inr off ↦ (
      (λ h.
          let h' = (rw (check, who) at h) in
          let h'' = (rw e at h') in let h3 = (rw off at h'') in cc),
      (λ (ip', e', open').
          let same : ip' ≡ ip = cc (e, e') in
          let on = (open_iff net ip (get_cidrs req tenant).0).1 (rw same at open') in cc (on, off)),
    )
  ]
]
