-- ===== src/Bundles/Age.antt =====
-- The rows of a tenant, oldest first: they keep their amounts and their thresholds.
use tsa_proxy.Common.{
  ℕ, ◌+◌, ◌≤◌, ◌≡◌, refl, sym, ap, ◌∙◌, true, if◌then◌else◌, List, [], ◌∷◌, arith, ◌==◌, leb,
  Bool-cases, inl, inr,
}
use tsa_proxy.Bundles.{
  QuotaBundle, total_contracted, insert_by_age, bundles_of, has_threshold, with_threshold,
}
use tsa_proxy.Bundles.Fifo.{sum_amounts, IsOlder, IsSorted}

sum_amounts-insert_by_age :
    (b : QuotaBundle) (rows : List QuotaBundle)
    → sum_amounts (insert_by_age b rows) ≡ b.amount + sum_amounts rows
unfolding insert_by_age
sum_amounts-insert_by_age b [] = refl
sum_amounts-insert_by_age b (c ∷ rows) = ground (arith, sum_amounts-insert_by_age b rows)

pub sum_amounts-bundles_of :
    (tenant : ℕ) (rows : List QuotaBundle)
    → sum_amounts (bundles_of tenant rows) ≡ total_contracted tenant rows
unfolding total_contracted bundles_of
sum_amounts-bundles_of tenant [] = refl
sum_amounts-bundles_of tenant (b ∷ rows) = ground (
  arith,
  sum_amounts-insert_by_age b (bundles_of tenant rows),
  sum_amounts-bundles_of tenant rows,
)

IsOlder-trans :
    (a b : QuotaBundle) (rows : List QuotaBundle)
    → a.contracted_at ≤ b.contracted_at
    → IsOlder b rows
    → IsOlder a rows
IsOlder-trans a b [] h k = tt
IsOlder-trans a b (c ∷ rows) h (k, ks) = (omega arith, IsOlder-trans a b rows h ks)

IsOlder-insert_by_age :
    (a b : QuotaBundle) (rows : List QuotaBundle)
    → a.contracted_at ≤ b.contracted_at
    → IsOlder a rows
    → IsOlder a (insert_by_age b rows)
unfolding insert_by_age
IsOlder-insert_by_age a b [] h k = (h, tt)
IsOlder-insert_by_age a b (c ∷ rows) h (k, ks) =
    elim (Bool-cases (leb b.contracted_at c.contracted_at)) [
      | inl first ↦ rw first (h, (k, ks))
      | inr later ↦ rw later (k, IsOlder-insert_by_age a b rows h ks)
    ]

insert_by_age-IsSorted :
    (b : QuotaBundle) (rows : List QuotaBundle) → IsSorted rows → IsSorted (insert_by_age b rows)
unfolding insert_by_age
insert_by_age-IsSorted b [] h = (tt, tt)
insert_by_age-IsSorted b (c ∷ rows) (k, ks) =
    elim (Bool-cases (leb b.contracted_at c.contracted_at)) [
      | inl first ↦
          let h : b.contracted_at ≤ c.contracted_at = ground arith in
          rw first ((h, IsOlder-trans b c rows h k), (k, ks))
      | inr later ↦
          let h : c.contracted_at ≤ b.contracted_at = ground arith in
          rw later (IsOlder-insert_by_age c b rows h k, insert_by_age-IsSorted b rows ks)
    ]

abbrev pub HasThreshold : QuotaBundle → Type 0
HasThreshold b = has_threshold b ≡ true

pub bundles_of-IsSorted : (tenant : ℕ) (rows : List QuotaBundle) → IsSorted (bundles_of tenant rows)
unfolding bundles_of
bundles_of-IsSorted tenant [] = tt
bundles_of-IsSorted tenant (b ∷ rows) = elim (Bool-cases (b.tenant_id == tenant)) [
  | inl own ↦
      rw own (insert_by_age-IsSorted b (bundles_of tenant rows) (bundles_of-IsSorted tenant rows))
  | inr other ↦ rw other (bundles_of-IsSorted tenant rows)
]

with_threshold-insert_older :
    (b : QuotaBundle) (rows : List QuotaBundle)
    → IsOlder b rows
    → insert_by_age b (with_threshold rows) ≡ b ∷ with_threshold rows
unfolding insert_by_age with_threshold
with_threshold-insert_older b [] older = refl
with_threshold-insert_older b (c ∷ rows) (h, hs) = elim (Bool-cases (has_threshold c)) [
  | inl set ↦ rw set (ground arith)
  | inr unset ↦ rw unset (with_threshold-insert_older b rows hs)
]

-- A row with a threshold can be put into its place before or after the others are left out, and one
-- without it can be left out.
with_threshold-insert_by_age :
    (b : QuotaBundle) (rows : List QuotaBundle)
    → IsSorted rows
    → with_threshold (insert_by_age b rows)
      ≡ (if has_threshold b then insert_by_age b (with_threshold rows) else with_threshold rows)
unfolding insert_by_age with_threshold
with_threshold-insert_by_age b [] sorted = refl
with_threshold-insert_by_age b (c ∷ rows) (older, sorted) =
    elim (Bool-cases (leb b.contracted_at c.contracted_at)) [
      | inl first ↦
          let h : b.contracted_at ≤ c.contracted_at = ground arith in
          let e = with_threshold-insert_older b (c ∷ rows) (h, IsOlder-trans b c rows h older) in
          rw first (elim (Bool-cases (has_threshold b)) [
            | inl set ↦ rw set (sym e)
            | inr unset ↦ rw unset refl
          ])
      | inr later ↦
          let e = with_threshold-insert_by_age b rows sorted in
          rw later (elim (Bool-cases (has_threshold b)) [
            | inl set ↦
                let e' = (rw set at e) in
                rw set (elim (Bool-cases (has_threshold c)) [
                  | inl c_set ↦ rw (c_set, e') (rw later refl)
                  | inr c_unset ↦ rw (c_unset, e') refl
                ])
            | inr unset ↦ let e' = (rw unset at e) in rw (unset, e') refl
          ])
    ]

pub with_threshold-bundles_of :
    (tenant : ℕ) (rows : List QuotaBundle)
    → with_threshold (bundles_of tenant rows) ≡ bundles_of tenant (with_threshold rows)
unfolding bundles_of with_threshold
with_threshold-bundles_of tenant [] = refl
with_threshold-bundles_of tenant (b ∷ rows) =
    let e = with_threshold-bundles_of tenant rows in
    let f =
      with_threshold-insert_by_age b (bundles_of tenant rows) (bundles_of-IsSorted tenant rows) in
    elim (Bool-cases (b.tenant_id == tenant)) [
      | inl own ↦ elim (Bool-cases (has_threshold b)) [
        | inl set ↦ let f' = (rw set at f) in rw set (rw own (f' ∙ ap (insert_by_age b) e))
        | inr unset ↦ let f' = (rw unset at f) in rw unset (rw own (f' ∙ e))
      ]
      | inr other ↦ elim (Bool-cases (has_threshold b)) [
        | inl set ↦ rw set (rw other e)
        | inr unset ↦ rw unset (rw other e)
      ]
    ]
