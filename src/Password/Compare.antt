-- ===== src/Password/Compare.antt =====
-- The comparison of two keys without an early exit is equality.
use tsa_proxy.Common.{
  ℕ, zero, suc, ◌/◌, ◌^◌, ◌<◌, ◌≡◌, refl, true, false, [], ◌∷◌, length, ◌==◌, ==_iff, Bool-cases,
  inl, inr, arith, All,
}
use tsa_proxy.Auth.{Bytes}
use tsa_proxy.Password.{bor, bxor, fold_diff, same_key}

bxor_same : (w a : ℕ) → bxor w a a ≡ 0
unfolding bxor
bxor_same zero a = refl
bxor_same (suc w) a = let h = bxor_same w (a / 2) in ground arith

bor_zero : (w : ℕ) → bor w 0 0 ≡ 0
unfolding bor
bor_zero zero = refl
bor_zero (suc w) = let h = bor_zero w in ground arith

bor-zero_l : (w a b : ℕ) → a < 2 ^ w → bor w a b ≡ 0 → a ≡ 0
unfolding bor
bor-zero_l zero a b lt h = omega arith
bor-zero_l (suc w) a b lt h =
    let halves = bor-zero_l w (a / 2) (b / 2) (omega (arith, lt)) (ground (arith, h)) in
    ground (arith, h, halves)

bxor-equal : (w a b : ℕ) → a < 2 ^ w → b < 2 ^ w → bxor w a b ≡ 0 → a ≡ b
unfolding bxor
bxor-equal zero a b la lb h = omega arith
bxor-equal (suc w) a b la lb h =
    let halves =
      bxor-equal w (a / 2) (b / 2) (omega (arith, la)) (omega (arith, lb)) (ground (arith, h)) in
    ground (arith, h, halves)

bor-zero_r : (w a b : ℕ) → b < 2 ^ w → bor w a b ≡ 0 → b ≡ 0
unfolding bor
bor-zero_r zero a b lt h = omega arith
bor-zero_r (suc w) a b lt h =
    let halves = bor-zero_r w (a / 2) (b / 2) (omega (arith, lt)) (ground (arith, h)) in
    ground (arith, h, halves)

bor_bound : (w a b : ℕ) → bor w a b < 2 ^ w
unfolding bor
bor_bound zero a b = omega arith
bor_bound (suc w) a b = let h = bor_bound w (a / 2) (b / 2) in ground arith

bxor_bound : (w a b : ℕ) → bxor w a b < 2 ^ w
unfolding bxor
bxor_bound zero a b = omega arith
bxor_bound (suc w) a b = let h = bxor_bound w (a / 2) (b / 2) in ground arith

abbrev pub AreBytes : Bytes → Type 0
AreBytes = All (λ c. c < 256)

pub fold_diff_same : (xs : Bytes) → fold_diff 0 xs xs ≡ 0
unfolding fold_diff
fold_diff_same [] = refl
fold_diff_same (x ∷ xs) = rw (bxor_same 8 x, bor_zero 8) (fold_diff_same xs)

fold_diff_zero :
    (d : ℕ) (xs ys : Bytes)
    → d < 256
    → AreBytes xs
    → AreBytes ys
    → length xs ≡ length ys
    → fold_diff d xs ys ≡ 0
    → (d ≡ 0) × (xs ≡ ys)
unfolding fold_diff
fold_diff_zero d [] [] ld bx by same h = (h, refl)
fold_diff_zero d [] (y ∷ ys) ld bx by same h = absurd (omega (arith, same))
fold_diff_zero d (x ∷ xs) [] ld bx by same h = absurd (omega (arith, same))
fold_diff_zero d (x ∷ xs) (y ∷ ys) ld bx by same h =
    let rest =
      fold_diff_zero (bor 8 d (bxor 8 x y)) xs ys (bor_bound 8 d (bxor 8 x y)) bx.1 by.1
        (omega (arith, same)) h in
    let first = bor-zero_r 8 d (bxor 8 x y) (bxor_bound 8 x y) rest.0 in
    let heads = bxor-equal 8 x y bx.0 by.0 first in
    (bor-zero_l 8 d (bxor 8 x y) ld rest.0, rw (heads, rest.1) refl)

pub same_key_refl : (xs : Bytes) → same_key xs xs ≡ true
unfolding same_key
same_key_refl xs = rw ((==_iff (length xs) (length xs)).1 refl, fold_diff_same xs) refl

pub same_key-equal : (xs ys : Bytes) → AreBytes xs → AreBytes ys → same_key xs ys ≡ true → xs ≡ ys
unfolding same_key
same_key-equal xs ys bx by h = elim (Bool-cases (length xs == length ys)) [
  | inl same ↦
      let h' = (rw same at h) in
      (fold_diff_zero 0 xs ys (omega arith) bx by ((==_iff (length xs) (length ys)).0 same)
        ((==_iff (fold_diff 0 xs ys) 0).0 h')).1
  | inr other ↦ let h' : false ≡ true = (rw other at h) in cc
]
