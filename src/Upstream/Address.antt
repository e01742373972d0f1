-- ===== src/Upstream/Address.antt =====
-- internal/upstream/validate.go, isPrivateOrReserved, with the tests of Go's net.IP that it calls. An
-- address is the list of its bytes, 4 or 16 of them.
pub mod Ranges
use Prim.Native.Nat.{bit_and}
use tsa_proxy.Common.{
  ℕ, Bool, true, false, ◌&&◌, ◌||◌, Option, none, some, List, [], ◌∷◌, length, take, drop, ◌==◌,
  if◌then◌else◌,
}

abbrev pub Ip : Type 0
Ip = List ℕ

unfoldable pub bytes_eq : List ℕ → List ℕ → Bool
bytes_eq [] [] = true
bytes_eq (x ∷ xs) (y ∷ ys) = x == y && bytes_eq xs ys
bytes_eq _ _ = false

unfoldable pub four_bytes : List ℕ → Option (ℕ × ℕ × ℕ × ℕ)
four_bytes (a ∷ b ∷ c ∷ d ∷ []) = some (a, b, c, d)
four_bytes _ = none

-- ::ffff:0:0/96
abbrev pub v4_in_v6_prefix : List ℕ
v4_in_v6_prefix = 0 ∷ 0 ∷ 0 ∷ 0 ∷ 0 ∷ 0 ∷ 0 ∷ 0 ∷ 0 ∷ 0 ∷ 255 ∷ 255 ∷ []

abbrev pub ipv6_loopback : Ip
ipv6_loopback = 0 ∷ 0 ∷ 0 ∷ 0 ∷ 0 ∷ 0 ∷ 0 ∷ 0 ∷ 0 ∷ 0 ∷ 0 ∷ 0 ∷ 0 ∷ 0 ∷ 0 ∷ 1 ∷ []

abbrev pub ipv6_unspecified : Ip
ipv6_unspecified = 0 ∷ 0 ∷ 0 ∷ 0 ∷ 0 ∷ 0 ∷ 0 ∷ 0 ∷ 0 ∷ 0 ∷ 0 ∷ 0 ∷ 0 ∷ 0 ∷ 0 ∷ 0 ∷ []

-- To4: an IPv4 address, as 4 bytes or mapped into 16.
unfoldable pub to4 : Ip → Option (ℕ × ℕ × ℕ × ℕ)
unfolding four_bytes bytes_eq
to4 ip =
    if length ip == 4
    then four_bytes ip
    else if length ip == 16 && bytes_eq (take 12 ip) v4_in_v6_prefix
    then four_bytes (drop 12 ip)
    else none

-- The first two bytes of a 16-byte address.
unfoldable pub head_bytes : Ip → Option (ℕ × ℕ)
head_bytes [] = none
head_bytes (a ∷ []) = none
head_bytes (a ∷ b ∷ rest) = if length rest == 14 then some (a, b) else none

unfoldable pub on_head : (ℕ → ℕ → Bool) → Ip → Bool
unfolding head_bytes
on_head test ip = elim (head_bytes ip) [ none ↦ false | some (a, b) ↦ test a b ]

unfoldable pub is_loopback : Ip → Bool
is_loopback ip = elim (to4 ip) [ some (a, b, c, d) ↦ a == 127 | none ↦ bytes_eq ip ipv6_loopback ]

unfoldable pub is_private : Ip → Bool
is_private ip = elim (to4 ip) [
  | some (a, b, c, d) ↦ a == 10 || a == 172 && bit_and b 0xf0 == 16 || a == 192 && b == 168
  | none ↦ on_head (λ a b. bit_and a 0xfe == 0xfc) ip
]

unfoldable pub is_link_local_unicast : Ip → Bool
is_link_local_unicast ip = elim (to4 ip) [
  | some (a, b, c, d) ↦ a == 169 && b == 254
  | none ↦ on_head (λ a b. a == 0xfe && bit_and b 0xc0 == 0x80) ip
]

unfoldable pub is_link_local_multicast : Ip → Bool
is_link_local_multicast ip = elim (to4 ip) [
  | some (a, b, c, d) ↦ a == 224 && b == 0 && c == 0
  | none ↦ on_head (λ a b. a == 0xff && bit_and b 0x0f == 0x02) ip
]

-- Equal to 0.0.0.0, as 4 bytes or mapped, or to ::.
unfoldable pub is_unspecified : Ip → Bool
is_unspecified ip = elim (to4 ip) [
  | some (a, b, c, d) ↦ a == 0 && b == 0 && c == 0 && d == 0
  | none ↦ bytes_eq ip ipv6_unspecified
]

unfoldable pub is_multicast : Ip → Bool
is_multicast ip = elim (to4 ip) [
  | some (a, b, c, d) ↦ bit_and a 0xf0 == 0xe0
  | none ↦ on_head (λ a b. a == 0xff) ip
]

unfoldable pub is_private_or_reserved : Ip → Bool
unfolding is_loopback is_private is_link_local_unicast is_link_local_multicast is_unspecified
    is_multicast
is_private_or_reserved ip =
    is_loopback ip
    || is_private ip
    || is_link_local_unicast ip
    || is_link_local_multicast ip
    || is_unspecified ip
    || is_multicast ip
