-- ===== src/Tests/Bundling.antt =====
-- Two bundles of one tenant, the older one without a threshold.
use tsa_proxy.Common.{
  ◌≡◌, ◌+◌, ◌==◌, if◌then◌else◌, refl, min, arith, true, false, none, some, List, [], ◌∷◌, All,
}
use tsa_proxy.ApiError.{ok}
use tsa_proxy.Bundles.{
  QuotaBundle, BundleWithConsumption, scan_row, spread, bundles_of, insert_by_age, share,
  total_contracted, has_threshold, with_threshold, MonthlyAggregate, total_consumption,
  get_bundles_with_consumption, get_bundles_for_alert_check,
}
use tsa_proxy.Model.{rejected}
use tsa_proxy.Bundles.Aggregate.{upsert_aggregate, IsSplit, upsert_aggregate-consumption}
use tsa_proxy.Bundles.Fifo.{sum_consumed, IsFifo, IsOldestFirst}
use tsa_proxy.Bundles.Age.{HasThreshold}
use tsa_proxy.Bundles.Report.{bundle_report-IsFifo, alert_check-eq-report, alert_check_overcharges}
use tsa_proxy.Alerts.{AlertFaults, AlertReplies, AlertState}

abbrev old_bundle : QuotaBundle
old_bundle = record {
  id = 1;
  tenant_id = 7;
  amount = 100;
  note = none;
  contracted_at = 10;
  alert_threshold_percent = none;
}

abbrev young_bundle : QuotaBundle
young_bundle = record {
  id = 2;
  tenant_id = 7;
  amount = 50;
  note = none;
  contracted_at = 20;
  alert_threshold_percent = some 80;
}

abbrev bundle_report : List BundleWithConsumption
bundle_report = scan_row old_bundle 100 ∷ scan_row young_bundle 20 ∷ []

reported :
    get_bundles_with_consumption 7 (ok 120) (ok (young_bundle ∷ old_bundle ∷ [])) ≡ ok bundle_report
unfolding get_bundles_with_consumption bundles_of insert_by_age spread share scan_row
reported = refl

bundle_report-IsFifo_example :
    IsOldestFirst bundle_report
    × IsFifo bundle_report
    × (sum_consumed bundle_report ≡ min 120 (total_contracted 7 (young_bundle ∷ old_bundle ∷ [])))
bundle_report-IsFifo_example =
    bundle_report-IsFifo 7 120 (young_bundle ∷ old_bundle ∷ []) bundle_report reported

young_set : HasThreshold young_bundle
unfolding has_threshold
young_set = refl

alert_check-eq-report_example :
    get_bundles_for_alert_check 7 (ok 45) (ok (young_bundle ∷ old_bundle ∷ []))
    ≡ get_bundles_with_consumption 7 (ok 45) (ok (with_threshold (young_bundle ∷ old_bundle ∷ [])))
alert_check-eq-report_example = alert_check-eq-report 7 45 (young_bundle ∷ old_bundle ∷ [])

alert_check_overcharges_example :
    (get_bundles_with_consumption 7 (ok 45) (ok (old_bundle ∷ young_bundle ∷ []))
      ≡ ok (scan_row old_bundle 45 ∷ scan_row young_bundle 0 ∷ []))
    × (get_bundles_for_alert_check 7 (ok 45) (ok (old_bundle ∷ young_bundle ∷ []))
        ≡ ok (scan_row young_bundle (min 45 50) ∷ []))
alert_check_overcharges_example =
    alert_check_overcharges 45 old_bundle young_bundle refl (omega arith) refl young_set
      (omega arith)

abbrev no_faults : AlertFaults
no_faults = record { check_fails = λ _. false; send_fails = λ _. false; record_fails = λ _. false }

abbrev alert_replies : AlertReplies
alert_replies = record {
  throttle = some (ok true);
  tenant = ok (some (record { name = "ACME"; contact_email = some "ops@acme.example" }));
  alert_emails = none;
  bundles = ok (scan_row young_bundle 45 ∷ []);
}

abbrev no_alerts : AlertState
no_alerts = record { log = []; sent = [] }

abbrev may_row : MonthlyAggregate
may_row = record {
  tenant_id = 7;
  year = 2025;
  month = 5;
  total_requests = 3;
  successful_requests = 2;
  failed_requests = 1;
  rejected_requests = 0;
  total_latency_ms = 40;
}

upsert_aggregate-consumption_example :
    (total_consumption 7 (upsert_aggregate 7 2025 5 rejected 0 (may_row ∷ []))
      ≡ (if 7 == 7 then 1 else 0) + total_consumption 7 (may_row ∷ []))
    × All IsSplit (upsert_aggregate 7 2025 5 rejected 0 (may_row ∷ []))
upsert_aggregate-consumption_example =
    upsert_aggregate-consumption 7 7 2025 5 rejected 0 (may_row ∷ []) (refl, tt)
