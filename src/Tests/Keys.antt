-- ===== src/Tests/Keys.antt =====
-- Libraries for the sessions of the administrators: a key that is the password cut or filled to its
-- length, hexadecimal digits for base64, and a signature for the claims of one user.
use tsa_proxy.Common.{
  ℕ, zero, suc, ◌+◌, ◌-◌, ◌*◌, ◌/◌, ◌%◌, ◌<◌, ◌≡◌, refl, ap, true, Option, none, some, [], ◌∷◌, ltb,
  if◌then◌else◌, All, length, arith,
}
use tsa_proxy.Auth.{Bytes, hex, hex_digit}
use tsa_proxy.Password.{Argon}
use tsa_proxy.Password.Compare.{AreBytes}
use tsa_proxy.Password.Scan.{is_base64, IsLawful}

unfoldable pub key_of : ℕ → Bytes → Bytes
key_of zero p = []
key_of (suc n) [] = 0 ∷ key_of n []
key_of (suc n) (c ∷ p) = c % 256 ∷ key_of n p

key_of-length : (n : ℕ) (p : Bytes) → length (key_of n p) ≡ n
unfolding key_of
key_of-length zero p = refl
key_of-length (suc n) [] = ap suc (key_of-length n [])
key_of-length (suc n) (c ∷ p) = ap suc (key_of-length n p)

key_of-bytes : (n : ℕ) (p : Bytes) → AreBytes (key_of n p)
unfolding key_of
key_of-bytes zero p = tt
key_of-bytes (suc n) [] = (omega arith, key_of-bytes n [])
key_of-bytes (suc n) (c ∷ p) = (omega arith, key_of-bytes n p)

unfoldable pub digit_value : ℕ → ℕ
digit_value d = if ltb d 58 then d - 48 else d - 87

unfoldable pub unhex : Bytes → Option Bytes
unfolding digit_value
unhex [] = some []
unhex (a ∷ []) = none
unhex (a ∷ b ∷ s) =
    let rest = unhex s in
    elim rest [ none ↦ none | some bytes ↦ some ((digit_value a * 16 + digit_value b) ∷ bytes) ]

digit_back : (d : ℕ) → d < 16 → digit_value (hex_digit d) ≡ d
unfolding digit_value hex_digit
digit_back d l = ground (arith, l)

digits_back :
    (b : ℕ) → b < 256 → digit_value (hex_digit (b / 16)) * 16 + digit_value (hex_digit (b % 16)) ≡ b
digits_back b l =
    let high = digit_back (b / 16) (omega (arith, l)) in
    let low = digit_back (b % 16) (omega (arith, l)) in omega (arith, high, low)

pub unhex-hex : (s : Bytes) → AreBytes s → unhex (hex s) ≡ some s
unfolding unhex hex
unhex-hex [] h = refl
unhex-hex (b ∷ s) h = rw (unhex-hex s h.1, digits_back b h.0) refl

digit_base64 : (d : ℕ) → d < 16 → is_base64 (hex_digit d) ≡ true
unfolding hex_digit
digit_base64 d l = ground (arith, l)

hex_base64 : (s : Bytes) → AreBytes s → All (λ c. is_base64 c ≡ true) (hex s)
unfolding hex
hex_base64 [] h = tt
hex_base64 (b ∷ s) h = (
  digit_base64 (b / 16) (omega (arith, h.0)),
  (digit_base64 (b % 16) (omega (arith, h.0)), hex_base64 s h.1),
)

abbrev pub argon : Argon
argon = record { id_key = λ p s t m c n. key_of n p; encode = hex; decode = unhex }

pub argon-IsLawful : IsLawful argon
argon-IsLawful = record {
  decodes = unhex-hex;
  alphabet = hex_base64;
  key_bytes = λ p s t m c n. key_of-bytes n p;
  key_length = λ p s t m c n. key_of-length n p;
}
