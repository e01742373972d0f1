-- ===== src/Bundles/Report.antt =====
-- The consumption report and the alert check of quotas.go, and where they disagree.
use tsa_proxy.Common.{
  ◌∙◌, ℕ, ◌-◌, ◌≤◌, min, ◌≡◌, refl, ap, none, List, [], ◌∷◌, arith, leb, Bool-cases, inl, inr,
}
use tsa_proxy.ApiError.{ok}
use tsa_proxy.Bundles.{
  QuotaBundle, BundleWithConsumption, total_contracted, insert_by_age, bundles_of, has_threshold,
  with_threshold, scan_row, share, spread, spread_for_alerts, get_bundles_with_consumption,
  get_bundles_for_alert_check,
}
use tsa_proxy.Bundles.Fifo.{
  sum_consumed, IsFifo, IsOldestFirst, spread_cons, sum_consumed-spread, spread-IsFifo,
  spread-IsOldestFirst,
}
use tsa_proxy.Bundles.Age.{
  sum_amounts-bundles_of, bundles_of-IsSorted, HasThreshold, with_threshold-bundles_of,
}

-- The consumption report of a tenant lists its bundles oldest first; the bundles' shares add up to
-- the total consumption, cut at what the tenant has contracted; and the shares are first in, first
-- out: none passes its bundle's amount, and where one stays below it the younger bundles have none.
pub bundle_report-IsFifo :
    (tenant total : ℕ) (rows : List QuotaBundle) (bs : List BundleWithConsumption)
    → get_bundles_with_consumption tenant (ok total) (ok rows) ≡ ok bs
    → IsOldestFirst bs × IsFifo bs × (sum_consumed bs ≡ min total (total_contracted tenant rows))
unfolding get_bundles_with_consumption
bundle_report-IsFifo tenant total rows bs h =
    let e : spread total (bundles_of tenant rows) ≡ bs = cc in
    rw (← e) (
      spread-IsOldestFirst total (bundles_of tenant rows) (bundles_of-IsSorted tenant rows),
      spread-IsFifo total (bundles_of tenant rows),
      sum_consumed-spread total (bundles_of tenant rows)
          ∙ ap (min total) (sum_amounts-bundles_of tenant rows),
    )

-- The two loops, which the source writes out one by one, spread alike.
spread_for_alerts-eq-spread :
    (remaining : ℕ) (rows : List QuotaBundle)
    → spread_for_alerts remaining rows ≡ spread remaining rows
unfolding spread_for_alerts spread share
spread_for_alerts-eq-spread remaining [] = refl
spread_for_alerts-eq-spread remaining (b ∷ rows) = elim (Bool-cases (leb b.amount remaining)) [
  | inl whole ↦ rw (whole, spread_for_alerts-eq-spread (remaining - b.amount) rows) refl
  | inr part ↦ rw (part, spread_for_alerts-eq-spread 0 rows) refl
]

-- Whatever the tables hold: where the total and the rows can be read, the alert check gives the
-- bundles and shares that the consumption report would give if the bundles without an alert
-- threshold were not there. Bundles that are used up are among them.
pub alert_check-eq-report :
    (tenant total : ℕ) (rows : List QuotaBundle)
    → get_bundles_for_alert_check tenant (ok total) (ok rows)
      ≡ get_bundles_with_consumption tenant (ok total) (ok (with_threshold rows))
unfolding get_bundles_for_alert_check get_bundles_with_consumption
alert_check-eq-report tenant total rows =
    rw (with_threshold-bundles_of tenant rows)
      (ap ok (spread_for_alerts-eq-spread total (bundles_of tenant (with_threshold rows))))

spread_one :
    (remaining : ℕ) (b : QuotaBundle)
    → spread remaining (b ∷ []) ≡ scan_row b (min remaining b.amount) ∷ []
spread_one remaining b = spread_cons remaining b [] ∙ (unfold spread in refl)

zero-min : (n : ℕ) → min 0 n ≡ 0
zero-min n = omega arith

-- Take an older bundle with no threshold and a younger one with a threshold, of one tenant, and a
-- consumption that the older bundle covers. The report leaves the younger bundle untouched, and the
-- alert check charges it the whole consumption, up to its amount.
pub alert_check_overcharges :
    (total : ℕ) (old young : QuotaBundle)
    → old.tenant_id ≡ young.tenant_id
    → old.contracted_at ≤ young.contracted_at
    → old.alert_threshold_percent ≡ none
    → HasThreshold young
    → total ≤ old.amount
    → (get_bundles_with_consumption young.tenant_id (ok total) (ok (old ∷ young ∷ []))
        ≡ ok (scan_row old total ∷ scan_row young 0 ∷ []))
      × (get_bundles_for_alert_check young.tenant_id (ok total) (ok (old ∷ young ∷ []))
          ≡ ok (scan_row young (min total young.amount) ∷ []))
alert_check_overcharges total old young same older unset set covered =
    let rows : bundles_of young.tenant_id (old ∷ young ∷ []) ≡ old ∷ young ∷ [] =
      (unfold bundles_of insert_by_age in ground arith) in
    let kept : with_threshold (old ∷ young ∷ []) ≡ young ∷ [] =
      (unfold with_threshold has_threshold in ground arith) in
    let whole : min total old.amount ≡ total = omega arith in
    let none_left : total - old.amount ≡ 0 = omega arith in
    (
      unfold get_bundles_with_consumption in
          rw rows
            (rw (spread_cons total old) (rw (whole, none_left, spread_one 0 young) (rw zero-min))),
      unfold get_bundles_for_alert_check in
          rw (rows, kept, spread_for_alerts-eq-spread total (young ∷ []), spread_one total young),
    )
