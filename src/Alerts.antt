-- ===== src/Alerts.antt =====
-- internal/service/proxy/service.go, checkBundleAlerts: the mails that tell a tenant that a bundle has
-- passed its threshold, and bundle_notification_log, which keeps them from being sent twice.
pub mod Once
use tsa_proxy.Common.{
  ℕ, ◌*◌, ◌/◌, String, Bool, true, false, not, ◌&&◌, ◌||◌, Option, none, some, List, [], ◌∷◌, ◌++◌,
  ltb, ◌==◌, if◌then◌else◌, str_eq,
}
use tsa_proxy.ApiError.{Result, ok, failed}
use tsa_proxy.Bundles.{BundleWithConsumption}

-- The columns of the tenant that the mail uses.
pub record TenantContact : Type 0 where
  pub name : String
  pub contact_email : Option String

-- notifysvc.BundleAlertParams, with the bundle that the mail is about.
pub record BundleAlert : Type 0 where
  pub bundle_id : ℕ
  pub to : List String
  pub tenant_name : String
  pub bundle_note : String
  pub consumed : ℕ
  pub amount : ℕ
  pub threshold_percent : ℕ

-- bundle_notification_log as pairs of a bundle and a threshold, and the mails that went out.
pub record AlertState : Type 0 where
  pub log : List (ℕ × ℕ)
  pub sent : List BundleAlert

-- Which calls about a bundle fail: the look into the log, the mail service, the write to the log.
pub record AlertFaults : Type 0 where
  pub check_fails : ℕ → Bool
  pub send_fails : ℕ → Bool
  pub record_fails : ℕ → Bool

-- SELECT EXISTS(... WHERE bundle_id=$1 AND threshold_percent=$2)
unfoldable pub is_logged : ℕ → ℕ → List (ℕ × ℕ) → Bool
is_logged bundle threshold [] = false
is_logged bundle threshold ((b, t) ∷ log) =
    b == bundle && t == threshold || is_logged bundle threshold log

unfoldable pub bundle_already_notified : AlertFaults → ℕ → ℕ → AlertState → Result Bool
bundle_already_notified faults bundle threshold s =
    if faults.check_fails bundle then failed else ok (is_logged bundle threshold s.log)

-- INSERT ... ON CONFLICT (bundle_id, threshold_percent) DO NOTHING
unfoldable pub record_bundle_notification : AlertFaults → ℕ → ℕ → AlertState → AlertState
record_bundle_notification faults bundle threshold s =
    if faults.record_fails bundle || is_logged bundle threshold s.log
    then s
    else record s { log = (bundle, threshold) ∷ s.log }

unfoldable pub send_bundle_alert : AlertFaults → BundleAlert → AlertState → Bool × AlertState
send_bundle_alert faults a s =
    if faults.send_fails a.bundle_id then (false, s) else (true, record s { sent = a ∷ s.sent })

unfoldable pub note_or_empty : Option String → String
note_or_empty none = ""
note_or_empty (some note) = note

unfoldable pub alert_of : TenantContact → List String → BundleWithConsumption → ℕ → BundleAlert
unfolding note_or_empty
alert_of tenant recipients b threshold = record {
  bundle_id = b.id;
  to = recipients;
  tenant_name = tenant.name;
  bundle_note = note_or_empty b.note;
  consumed = b.consumed;
  amount = b.amount;
  threshold_percent = threshold;
}

-- From the mail on: a mail that fails is not logged, and a failed write to the log is only logged.
unfoldable pub notify_bundle :
    AlertFaults → TenantContact → List String → BundleWithConsumption → ℕ → AlertState → AlertState
notify_bundle faults tenant recipients b threshold s =
    let (delivered, s') = send_bundle_alert faults (alert_of tenant recipients b threshold) s in
    if delivered then record_bundle_notification faults b.id threshold s' else s'

-- What is done about a bundle whose threshold is passed.
unfoldable pub notify_unless_notified :
    AlertFaults → TenantContact → List String → BundleWithConsumption → ℕ → AlertState → AlertState
notify_unless_notified faults tenant recipients b threshold s =
    elim (bundle_already_notified faults b.id threshold s) [
      | failed ↦ s
      | ok already ↦ if already then s else notify_bundle faults tenant recipients b threshold s
    ]

-- `b.Amount == 0` and `pct < threshold`
unfoldable pub is_due : BundleWithConsumption → ℕ → Bool
is_due b threshold = not (b.amount == 0) && not (ltb (b.consumed * 100 / b.amount) threshold)

-- The body of the loop over the bundles.
unfoldable pub check_bundle :
    AlertFaults → TenantContact → List String → BundleWithConsumption → AlertState → AlertState
check_bundle faults tenant recipients b s = elim b.alert_threshold_percent [
  | none ↦ s
  | some threshold ↦
      if is_due b threshold
      then notify_unless_notified faults tenant recipients b threshold s
      else s
]

unfoldable pub check_bundles :
    AlertFaults → TenantContact → List String → List BundleWithConsumption → AlertState → AlertState
check_bundles faults tenant recipients [] s = s
check_bundles faults tenant recipients (b ∷ bs) s =
    check_bundles faults tenant recipients bs (check_bundle faults tenant recipients b s)

-- The replies of the calls before the loop. `throttle` is there when the service has a cache, and
-- `alert_emails` when it has that repository, whose error leaves the list empty.
pub record AlertReplies : Type 0 where
  pub throttle : Option (Result Bool)
  pub tenant : Result (Option TenantContact)
  pub alert_emails : Option (Result (List String))
  pub bundles : Result (List BundleWithConsumption)

unfoldable pub was_checked : Option (Result Bool) → Bool
was_checked none = false
was_checked (some failed) = false
was_checked (some (ok acquired)) = not acquired

unfoldable pub contact_recipient : TenantContact → List String
contact_recipient tenant = elim tenant.contact_email [
  | none ↦ []
  | some email ↦ if str_eq email "" then [] else email ∷ []
]

unfoldable pub extra_recipients : Option (Result (List String)) → List String
extra_recipients none = []
extra_recipients (some failed) = []
extra_recipients (some (ok extras)) = extras

unfoldable pub recipients_of : AlertReplies → TenantContact → List String
unfolding contact_recipient extra_recipients
recipients_of r tenant = contact_recipient tenant ++ extra_recipients r.alert_emails

unfoldable pub with_recipients :
    AlertFaults → AlertReplies → TenantContact → List String → AlertState → AlertState
with_recipients faults r tenant [] s = s
with_recipients faults r tenant (a ∷ more) s = elim r.bundles [
  | failed ↦ s
  | ok bundles ↦ check_bundles faults tenant (a ∷ more) bundles s
]

unfoldable pub for_tenant :
    AlertFaults → AlertReplies → Result (Option TenantContact) → AlertState → AlertState
unfolding with_recipients
for_tenant faults r failed s = s
for_tenant faults r (ok none) s = s
for_tenant faults r (ok (some tenant)) s =
    with_recipients faults r tenant (recipients_of r tenant) s

unfoldable pub check_bundle_alerts : AlertFaults → AlertReplies → AlertState → AlertState
unfolding was_checked for_tenant
check_bundle_alerts faults r s =
    if was_checked r.throttle then s else for_tenant faults r r.tenant s
