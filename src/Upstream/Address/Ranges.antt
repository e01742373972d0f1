-- ===== src/Upstream/Address/Ranges.antt =====
-- The networks that isPrivateOrReserved blocks, as ranges of the number that an address stands for.
use Prim.Native.Nat.{bit_and}
use tsa_proxy.Common.{
  ℕ, zero, suc, ◌+◌, ◌*◌, ◌/◌, ◌<◌, ◌≤◌, ◌≡◌, refl, Bool, true, false, if◌then◌else◌, Bool-cases,
  inl, inr, ◌&&◌, none, List, [], ◌∷◌, ◌++◌, ◌==◌, arith, length, ◌⊎◌, ◌↔◌, ==_iff,
}
use tsa_proxy.Upstream.Address.{
  bytes_eq, to4, v4_in_v6_prefix, is_private_or_reserved, on_head, ipv6_loopback, ipv6_unspecified,
}

-- The 32-bit number of a.b.c.d.
abbrev pub number : ℕ → ℕ → ℕ → ℕ → ℕ
number a b c d = ((a * 256 + b) * 256 + c) * 256 + d

-- First and last address of the blocked networks: 127.0.0.0/8, 10.0.0.0/8, 172.16.0.0/12,
-- 192.168.0.0/16, 169.254.0.0/16, 224.0.0.0/4 and 0.0.0.0/32.
abbrev pub IsBlocked : ℕ → Type 0
IsBlocked n =
    ((2130706432 ≤ n) × (n ≤ 2147483647))
    ⊎ ((167772160 ≤ n) × (n ≤ 184549375))
    ⊎ ((2886729728 ≤ n) × (n ≤ 2887778303))
    ⊎ ((3232235520 ≤ n) × (n ≤ 3232301055))
    ⊎ ((2851995648 ≤ n) × (n ≤ 2852061183))
    ⊎ ((3758096384 ≤ n) × (n ≤ 4026531839))
    ⊎ (n ≡ 0)

-- A test of every number under a bound, by evaluation.
holds_under : (test : ℕ → Bool) → ℕ → Bool
holds_under test zero = true
holds_under test (suc top) = let under = holds_under test top in if test top then under else false

holds_at :
    (test : ℕ → Bool) (bound byte : ℕ)
    → byte < bound
    → holds_under test bound ≡ true
    → test byte ≡ true
unfolding holds_under
holds_at test zero byte small table = ground arith
holds_at test (suc top) byte small table = elim (Bool-cases (byte == top)) [
  | inl last ↦ let e : byte ≡ top = (==_iff byte top).0 last in rw e (ground arith)
  | inr earlier ↦ holds_at test top byte (ground arith) (ground arith)
]

high_nibble_table : holds_under (λ x. bit_and x 0xf0 == x / 16 * 16) 256 ≡ true
unfolding holds_under
high_nibble_table = refl

high_nibble : (x : ℕ) → x < 256 → bit_and x 0xf0 ≡ x / 16 * 16
high_nibble x h =
    (==_iff (bit_and x 0xf0) (x / 16 * 16)).0
      (holds_at (λ x. bit_and x 0xf0 == x / 16 * 16) 256 x h high_nibble_table)

-- An IPv4 address is blocked exactly if it lies in a network of the list: loopback, the three private
-- ones, link-local, multicast, or it is 0.0.0.0.
pub v4-IsBlocked_iff :
    (a b c d : ℕ)
    → a < 256
    → b < 256
    → c < 256
    → d < 256
    → (is_private_or_reserved (a ∷ b ∷ c ∷ d ∷ []) ≡ true) ↔ IsBlocked (number a b c d)
unfolding is_private_or_reserved to4
v4-IsBlocked_iff a b c d ha hb hc hd = (
  λ h. ground (arith, high_nibble a, high_nibble b),
  λ h. ground (arith, high_nibble a, high_nibble b),
)

low_bits_table :
    holds_under (λ x. bit_and x 0xfe == x / 2 * 2 && bit_and x 0xc0 == x / 64 * 64) 256 ≡ true
unfolding holds_under
low_bits_table = refl

low_bits : (x : ℕ) → x < 256 → (bit_and x 0xfe ≡ x / 2 * 2) × (bit_and x 0xc0 ≡ x / 64 * 64)
low_bits x h =
    let t =
      holds_at (λ x. bit_and x 0xfe == x / 2 * 2 && bit_and x 0xc0 == x / 64 * 64) 256 x h
        low_bits_table in
    (ground arith, ground arith)

-- An IPv4 address that is mapped into IPv6 is judged as the IPv4 address.
pub mapped-eq-v4 :
    (a b c d : ℕ)
    → is_private_or_reserved (v4_in_v6_prefix ++ (a ∷ b ∷ c ∷ d ∷ []))
      ≡ is_private_or_reserved (a ∷ b ∷ c ∷ d ∷ [])
unfolding is_private_or_reserved to4
mapped-eq-v4 a b c d = refl

-- A 16-byte address that maps no IPv4 address is blocked exactly if it lies in fc00::/7, fe80::/10 or
-- ff00::/8, or is ::1 or ::.
pub v6_blocked_iff :
    (a b : ℕ) (rest : List ℕ)
    → a < 256
    → b < 256
    → length rest ≡ 14
    → to4 (a ∷ b ∷ rest) ≡ none
    → (is_private_or_reserved (a ∷ b ∷ rest) ≡ true) ↔ (
        (a / 2 ≡ 126)
        ⊎ ((a * 256 + b) / 64 ≡ 1018)
        ⊎ (a ≡ 255)
        ⊎ (bytes_eq (a ∷ b ∷ rest) ipv6_loopback ≡ true)
        ⊎ (bytes_eq (a ∷ b ∷ rest) ipv6_unspecified ≡ true))
unfolding is_private_or_reserved on_head
v6_blocked_iff a b rest ha hb n unmapped =
    (λ h. ground (arith, low_bits a, low_bits b), λ h. ground (arith, low_bits a, low_bits b))
