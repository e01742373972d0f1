-- ===== src/Stamp/Tables.antt =====
-- What the effects of a run do to monthly_usage_aggregates: each call of UpsertMonthlyAggregate that
-- the database carries out is one upsert, and one that it fails changes nothing.
use tsa_proxy.Common.{
  ℕ, ◌+◌, ◌≤◌, ◌≡◌, refl, Bool, true, false, List, [], ◌∷◌, ◌==◌, if◌then◌else◌, arith,
}
use tsa_proxy.Model.{Uuid, UsageStatus}
use tsa_proxy.Bundles.{MonthlyAggregate, total_consumption}
use tsa_proxy.Bundles.Aggregate.{upsert_aggregate, consumption-upsert_aggregate}
use tsa_proxy.Stamp.Effects.{Effect, upsert_monthly_aggregate, set_tenant_quota}
use tsa_proxy.Stamp.Quiet.{upserts}

-- The rows after the effects of a run whose write of the aggregate succeeds or fails.
abbrev pub written : Bool → List Effect → List MonthlyAggregate → List MonthlyAggregate
written up [] rows = rows
written up (upsert_monthly_aggregate t y m s l ∷ es) rows =
    written up es (if up then upsert_aggregate t y m s l rows else rows)
written up (_ ∷ es) rows = written up es rows

-- How many of the upserts are for a tenant.
abbrev pub raised : Uuid → List (Uuid × UsageStatus) → ℕ
raised tenant [] = 0
raised tenant ((t, s) ∷ us) = (if t == tenant then 1 else 0) + raised tenant us

pub written-consumption :
    (tenant : Uuid) (es : List Effect) (rows : List MonthlyAggregate)
    → total_consumption tenant (written true es rows)
      ≡ raised tenant (upserts es) + total_consumption tenant rows
written-consumption tenant [] rows = omega arith
written-consumption tenant (upsert_monthly_aggregate t y m s l ∷ es) rows = omega (
  arith,
  written-consumption tenant es (upsert_aggregate t y m s l rows),
  consumption-upsert_aggregate t tenant y m s l rows,
)
written-consumption tenant (set_tenant_quota _ _ ∷ es) rows = written-consumption tenant es rows
written-consumption tenant (_ ∷ es) rows = written-consumption tenant es rows

pub unwritten : (es : List Effect) (rows : List MonthlyAggregate) → written false es rows ≡ rows
unwritten [] rows = refl
unwritten (upsert_monthly_aggregate t y m s l ∷ es) rows = unwritten es rows
unwritten (set_tenant_quota _ _ ∷ es) rows = unwritten es rows
unwritten (_ ∷ es) rows = unwritten es rows

-- No run lowers what a tenant has consumed.
pub written-grows :
    (up : Bool) (tenant : Uuid) (es : List Effect) (rows : List MonthlyAggregate)
    → total_consumption tenant rows ≤ total_consumption tenant (written up es rows)
written-grows true tenant es rows = omega (arith, written-consumption tenant es rows)
written-grows false tenant es rows = rw (unwritten es rows) (omega arith)
