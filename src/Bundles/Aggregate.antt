-- ===== src/Bundles/Aggregate.antt =====
-- internal/repository/postgres/quotas.go, UpsertMonthlyAggregate, and what it does to the consumption
-- of the tenants. Its primary key (tenant, year, month) means that at most one row is updated.
use tsa_proxy.Common.{
  ℕ, ◌+◌, ◌≡◌, refl, Bool, true, ◌&&◌, ◌==◌, List, [], ◌∷◌, All, if◌then◌else◌, Bool-cases, inl,
  inr, arith,
}
use tsa_proxy.Model.{UsageStatus, success, error, rejected}
use tsa_proxy.Bundles.{MonthlyAggregate, total_consumption}

-- successInt, failInt and rejectedInt
unfoldable pub one_if_success : UsageStatus → ℕ
one_if_success success = 1
one_if_success error = 0
one_if_success rejected = 0

unfoldable pub one_if_failed : UsageStatus → ℕ
one_if_failed success = 0
one_if_failed error = 1
one_if_failed rejected = 0

unfoldable pub one_if_rejected : UsageStatus → ℕ
one_if_rejected success = 0
one_if_rejected error = 0
one_if_rejected rejected = 1

-- The VALUES of the INSERT.
unfoldable pub first_of_month : ℕ → ℕ → ℕ → UsageStatus → ℕ → MonthlyAggregate
first_of_month tenant year month status latency_ms = record {
  tenant_id = tenant;
  year = year;
  month = month;
  total_requests = 1;
  successful_requests = one_if_success status;
  failed_requests = one_if_failed status;
  rejected_requests = one_if_rejected status;
  total_latency_ms = latency_ms;
}

-- DO UPDATE SET
unfoldable pub added_to : MonthlyAggregate → UsageStatus → ℕ → MonthlyAggregate
added_to a status latency_ms = record a {
  total_requests = a.total_requests + 1;
  successful_requests = a.successful_requests + one_if_success status;
  failed_requests = a.failed_requests + one_if_failed status;
  rejected_requests = a.rejected_requests + one_if_rejected status;
  total_latency_ms = a.total_latency_ms + latency_ms;
}

unfoldable pub is_month_of : ℕ → ℕ → ℕ → MonthlyAggregate → Bool
is_month_of tenant year month a = a.tenant_id == tenant && a.year == year && a.month == month

-- INSERT ... ON CONFLICT (tenant_id, year, month) DO UPDATE
unfoldable pub upsert_aggregate :
    ℕ → ℕ → ℕ → UsageStatus → ℕ → List MonthlyAggregate → List MonthlyAggregate
unfolding first_of_month added_to is_month_of
upsert_aggregate tenant year month status latency_ms [] =
    first_of_month tenant year month status latency_ms ∷ []
upsert_aggregate tenant year month status latency_ms (a ∷ rows) =
    let rest = upsert_aggregate tenant year month status latency_ms rows in
    if is_month_of tenant year month a then added_to a status latency_ms ∷ rows else a ∷ rest

-- The requests of a row are split by status.
abbrev pub IsSplit : MonthlyAggregate → Type 0
IsSplit a = a.total_requests ≡ a.successful_requests + a.failed_requests + a.rejected_requests

status_split :
    (status : UsageStatus)
    → one_if_success status + one_if_failed status + one_if_rejected status ≡ 1
unfolding one_if_success one_if_failed one_if_rejected
status_split success = refl
status_split error = refl
status_split rejected = refl

added_to-IsSplit :
    (a : MonthlyAggregate) (status : UsageStatus) (latency_ms : ℕ)
    → IsSplit a
    → IsSplit (added_to a status latency_ms)
unfolding added_to
added_to-IsSplit a status latency_ms h = omega (arith, h, status_split status)

is_month_of-tenant :
    (tenant year month : ℕ) (a : MonthlyAggregate)
    → is_month_of tenant year month a ≡ true
    → a.tenant_id ≡ tenant
unfolding is_month_of
is_month_of-tenant tenant year month a h = ground arith

-- One more for the tenant, and nothing for the others.
pub consumption-upsert_aggregate :
    (tenant other year month : ℕ) (status : UsageStatus) (latency_ms : ℕ)
    (rows : List MonthlyAggregate)
    → total_consumption other (upsert_aggregate tenant year month status latency_ms rows)
      ≡ (if tenant == other then 1 else 0) + total_consumption other rows
unfolding upsert_aggregate total_consumption first_of_month added_to
consumption-upsert_aggregate tenant other year month status latency_ms [] = omega arith
consumption-upsert_aggregate tenant other year month status latency_ms (a ∷ rows) =
    let more = consumption-upsert_aggregate tenant other year month status latency_ms rows in
    elim (Bool-cases (is_month_of tenant year month a)) [
      | inl same ↦
          let e = is_month_of-tenant tenant year month a same in rw same (rw e (ground arith))
      | inr apart ↦ rw apart (omega (arith, more))
    ]

upsert_aggregate-IsSplit :
    (tenant year month : ℕ) (status : UsageStatus) (latency_ms : ℕ) (rows : List MonthlyAggregate)
    → All IsSplit rows
    → All IsSplit (upsert_aggregate tenant year month status latency_ms rows)
unfolding upsert_aggregate first_of_month
upsert_aggregate-IsSplit tenant year month status latency_ms [] h =
    let split = status_split status in (omega arith, tt)
upsert_aggregate-IsSplit tenant year month status latency_ms (a ∷ rows) (h, hs) =
    elim (Bool-cases (is_month_of tenant year month a)) [
      | inl same ↦ rw same (added_to-IsSplit a status latency_ms h, hs)
      | inr apart ↦
          rw apart (h, upsert_aggregate-IsSplit tenant year month status latency_ms rows hs)
    ]

-- Every write to the aggregate, of a success, an error or a rejection alike, adds one to what the
-- tenant has consumed, changes the consumption of no other tenant, and keeps every row's requests
-- the sum of its successful, failed and rejected ones.
pub upsert_aggregate-consumption :
    (tenant other year month : ℕ) (status : UsageStatus) (latency_ms : ℕ)
    (rows : List MonthlyAggregate)
    → All IsSplit rows
    → (total_consumption other (upsert_aggregate tenant year month status latency_ms rows)
        ≡ (if tenant == other then 1 else 0) + total_consumption other rows)
      × All IsSplit (upsert_aggregate tenant year month status latency_ms rows)
upsert_aggregate-consumption tenant other year month status latency_ms rows h = (
  consumption-upsert_aggregate tenant other year month status latency_ms rows,
  upsert_aggregate-IsSplit tenant year month status latency_ms rows h,
)
