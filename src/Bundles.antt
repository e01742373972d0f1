-- ===== src/Bundles.antt =====
-- internal/repository/postgres/quotas.go: the bundles of stamps that a tenant has bought, and how the
-- consumption is spread over them, oldest first. The tables are lists of rows; a query is a function
-- of the rows that its SQL text selects. Amounts are positive by the table's CHECK.
pub mod Fifo
pub mod Age
pub mod Aggregate
pub mod Report
use tsa_proxy.Common.{
  ℕ, ◌+◌, ◌-◌, ◌*◌, ◌/◌, String, Bool, true, false, Option, none, some, List, [], ◌∷◌, ltb, leb,
  ◌==◌, if◌then◌else◌,
}
use tsa_proxy.ApiError.{Result, ok, failed}

-- A row of quota_bundles.
pub record QuotaBundle : Type 0 where
  pub id : ℕ
  pub tenant_id : ℕ
  pub amount : ℕ
  pub note : Option String
  pub contracted_at : ℕ
  pub alert_threshold_percent : Option ℕ

pub record BundleWithConsumption : Type 0 where
  pub id : ℕ
  pub amount : ℕ
  pub consumed : ℕ
  pub note : Option String
  pub contracted_at : ℕ
  pub alert_threshold_percent : Option ℕ

-- A row of monthly_usage_aggregates, with the columns that the code reads and writes.
pub record MonthlyAggregate : Type 0 where
  pub tenant_id : ℕ
  pub year : ℕ
  pub month : ℕ
  pub total_requests : ℕ
  pub successful_requests : ℕ
  pub failed_requests : ℕ
  pub rejected_requests : ℕ
  pub total_latency_ms : ℕ

-- SELECT COALESCE(SUM(total_requests), 0) FROM monthly_usage_aggregates WHERE tenant_id=$1
unfoldable pub total_consumption : ℕ → List MonthlyAggregate → ℕ
total_consumption tenant [] = 0
total_consumption tenant (a ∷ rows) =
    (if a.tenant_id == tenant then a.total_requests else 0) + total_consumption tenant rows

-- SELECT COALESCE(SUM(amount), 0) FROM quota_bundles WHERE tenant_id=$1
unfoldable pub total_contracted : ℕ → List QuotaBundle → ℕ
total_contracted tenant [] = 0
total_contracted tenant (b ∷ rows) =
    (if b.tenant_id == tenant then b.amount else 0) + total_contracted tenant rows

-- ORDER BY contracted_at ASC; rows of one instant keep their order.
unfoldable pub insert_by_age : QuotaBundle → List QuotaBundle → List QuotaBundle
insert_by_age b [] = b ∷ []
insert_by_age b (c ∷ rows) =
    if leb b.contracted_at c.contracted_at then b ∷ c ∷ rows else c ∷ insert_by_age b rows

-- WHERE tenant_id = $1 ORDER BY contracted_at ASC
unfoldable pub bundles_of : ℕ → List QuotaBundle → List QuotaBundle
bundles_of tenant [] = []
bundles_of tenant (b ∷ rows) =
    let rest = bundles_of tenant rows in
    if b.tenant_id == tenant then insert_by_age b rest else rest

unfoldable pub has_threshold : QuotaBundle → Bool
has_threshold b = elim b.alert_threshold_percent [ none ↦ false | some _ ↦ true ]

-- AND alert_threshold_percent IS NOT NULL
unfoldable pub with_threshold : List QuotaBundle → List QuotaBundle
unfolding has_threshold
with_threshold [] = []
with_threshold (b ∷ rows) =
    let rest = with_threshold rows in if has_threshold b then b ∷ rest else rest

-- What one bundle takes of the consumption that remains, and what it leaves.
unfoldable pub share : ℕ → ℕ → ℕ × ℕ
share remaining amount =
    if leb amount remaining then (amount, remaining - amount) else (remaining, 0)

unfoldable pub scan_row : QuotaBundle → ℕ → BundleWithConsumption
scan_row b consumed = record {
  id = b.id;
  amount = b.amount;
  consumed = consumed;
  note = b.note;
  contracted_at = b.contracted_at;
  alert_threshold_percent = b.alert_threshold_percent;
}

-- The `for rows.Next()` loop of GetBundlesWithConsumption.
unfoldable pub spread : ℕ → List QuotaBundle → List BundleWithConsumption
unfolding scan_row
spread remaining [] = []
spread remaining (b ∷ rows) =
    let (consumed, rest) = share remaining b.amount in scan_row b consumed ∷ spread rest rows

-- The loop of GetBundlesForAlertCheck, which is written out on its own.
unfoldable pub spread_for_alerts : ℕ → List QuotaBundle → List BundleWithConsumption
unfolding scan_row
spread_for_alerts remaining [] = []
spread_for_alerts remaining (b ∷ rows) =
    let consumed = if leb b.amount remaining then b.amount else remaining in
    let rest = if leb b.amount remaining then remaining - b.amount else 0 in
    scan_row b consumed ∷ spread_for_alerts rest rows

-- The total that cannot be read counts as zero; the rows may fail to be read.
unfoldable pub get_bundles_with_consumption :
    ℕ → Result ℕ → Result (List QuotaBundle) → Result (List BundleWithConsumption)
get_bundles_with_consumption tenant total failed = failed
get_bundles_with_consumption tenant failed (ok rows) = ok (spread 0 (bundles_of tenant rows))
get_bundles_with_consumption tenant (ok total) (ok rows) =
    ok (spread total (bundles_of tenant rows))

unfoldable pub get_bundles_for_alert_check :
    ℕ → Result ℕ → Result (List QuotaBundle) → Result (List BundleWithConsumption)
get_bundles_for_alert_check tenant failed rows = failed
get_bundles_for_alert_check tenant (ok total) failed = failed
get_bundles_for_alert_check tenant (ok total) (ok rows) =
    ok (spread_for_alerts total (with_threshold (bundles_of tenant rows)))
