-- ===== src/Tests/Encoding.antt =====
-- Texts for numbers: one character to a unit for identifiers, and to a second for times.
use Prim.Native.String.{String, [], ◌∷◌}
use Prim.Native.Char.{nul}
use tsa_proxy.Common.{ℕ, zero, suc, ◌-◌, ◌*◌, ◌/◌, ◌%◌, ◌≡◌, ap, refl, arith}

unfoldable pub text_of : ℕ → String
text_of zero = []
text_of (suc n) = nul ∷ text_of n

unfoldable pub size : String → ℕ
size [] = 0
size (c ∷ s) = suc (size s)

pub size-text_of : (n : ℕ) → size (text_of n) ≡ n
unfolding size text_of
size-text_of zero = refl
size-text_of (suc n) = ap suc (size-text_of n)

pub whole_seconds : (t : ℕ) → t / 1000000000 * 1000000000 ≡ t - t % 1000000000
whole_seconds t = omega arith
