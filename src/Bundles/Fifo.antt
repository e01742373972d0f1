-- ===== src/Bundles/Fifo.antt =====
-- The loop over the bundles: what each bundle gets of the consumption, and what all of them get.
use tsa_proxy.Common.{ℕ, ◌+◌, ◌-◌, ◌≤◌, ◌<◌, min, ◌≡◌, List, [], ◌∷◌, arith, All}
use tsa_proxy.Bundles.{QuotaBundle, BundleWithConsumption, share, scan_row, spread}

zero-sub : (n : ℕ) → 0 - n ≡ 0
zero-sub n = omega arith

sub_zero_of_lt : (r a : ℕ) → min r a < a → r - a ≡ 0
sub_zero_of_lt r a h = omega arith

abbrev pub sum_amounts : List QuotaBundle → ℕ
sum_amounts [] = 0
sum_amounts (b ∷ rows) = b.amount + sum_amounts rows

abbrev pub sum_consumed : List BundleWithConsumption → ℕ
sum_consumed [] = 0
sum_consumed (b ∷ bs) = b.consumed + sum_consumed bs

abbrev pub IsUntouched : BundleWithConsumption → Type 0
IsUntouched b = b.consumed ≡ 0

-- No bundle gives more than it holds, and none is touched before the older ones are used up.
abbrev pub IsFifo : List BundleWithConsumption → Type 0
IsFifo [] = Unit
IsFifo (b ∷ bs) = (b.consumed ≤ b.amount) × (b.consumed < b.amount → All IsUntouched bs) × IsFifo bs

-- `b` is no younger than the rows.
abbrev pub IsOlder : QuotaBundle → List QuotaBundle → Type 0
IsOlder b = All (λ c. b.contracted_at ≤ c.contracted_at)

abbrev pub IsSorted : List QuotaBundle → Type 0
IsSorted [] = Unit
IsSorted (b ∷ rows) = IsOlder b rows × IsSorted rows

-- Oldest first.
abbrev pub IsOldestFirst : List BundleWithConsumption → Type 0
IsOldestFirst [] = Unit
IsOldestFirst (b ∷ bs) = All (λ c. b.contracted_at ≤ c.contracted_at) bs × IsOldestFirst bs

-- `share` takes the smaller of the two, and leaves the truncated difference.
share_lem :
    (remaining amount : ℕ) → share remaining amount ≡ (min remaining amount, remaining - amount)
unfolding share
share_lem remaining amount = ground arith

pub spread_cons :
    (remaining : ℕ) (b : QuotaBundle) (rows : List QuotaBundle)
    → spread remaining (b ∷ rows)
      ≡ scan_row b (min remaining b.amount) ∷ spread (remaining - b.amount) rows
unfolding spread
spread_cons remaining b rows = rw (share_lem remaining b.amount)

spread_zero : (rows : List QuotaBundle) → All IsUntouched (spread 0 rows)
unfolding scan_row
spread_zero [] = unfold spread in tt
spread_zero (b ∷ rows) = rw spread_cons (omega arith, rw (zero-sub b.amount) (spread_zero rows))

pub sum_consumed-spread :
    (remaining : ℕ) (rows : List QuotaBundle)
    → sum_consumed (spread remaining rows) ≡ min remaining (sum_amounts rows)
unfolding scan_row
sum_consumed-spread remaining [] = unfold spread in omega arith
sum_consumed-spread remaining (b ∷ rows) =
    rw spread_cons (omega (arith, sum_consumed-spread (remaining - b.amount) rows))

pub spread-IsFifo : (remaining : ℕ) (rows : List QuotaBundle) → IsFifo (spread remaining rows)
unfolding scan_row
spread-IsFifo remaining [] = unfold spread in tt
spread-IsFifo remaining (b ∷ rows) = rw spread_cons (
  omega arith,
  λ h. rw (sub_zero_of_lt remaining b.amount h) (spread_zero rows),
  spread-IsFifo (remaining - b.amount) rows,
)

spread-contracted_at :
    (at remaining : ℕ) (rows : List QuotaBundle)
    → All (λ c. at ≤ c.contracted_at) rows
    → All (λ c. at ≤ c.contracted_at) (spread remaining rows)
unfolding spread scan_row
spread-contracted_at at remaining [] h = tt
spread-contracted_at at remaining (b ∷ rows) (h, hs) =
    (h, spread-contracted_at at (share remaining b.amount).1 rows hs)

pub spread-IsOldestFirst :
    (remaining : ℕ) (rows : List QuotaBundle)
    → IsSorted rows
    → IsOldestFirst (spread remaining rows)
unfolding spread scan_row
spread-IsOldestFirst remaining [] h = tt
spread-IsOldestFirst remaining (b ∷ rows) (h, hs) = (
  spread-contracted_at b.contracted_at (share remaining b.amount).1 rows h,
  spread-IsOldestFirst (share remaining b.amount).1 rows hs,
)
