-- ===== src/Stamp/Usage.antt =====
-- internal/service/proxy/service.go, recordUsage and throttledUpdateLastUsed: what is written about a
-- request once its outcome is known.
use tsa_proxy.Common.{
  ℕ, String, Bool, Option, none, some, List, [], ◌∷◌, ◌++◌, ◌==◌, if◌then◌else◌, str_eq,
}
use tsa_proxy.ApiError.{ok, failed}
use tsa_proxy.Model.{Uuid, uuid_nil, UsageStatus, UsageEvent}
use tsa_proxy.Stamp.Effects.{
  Request, GeoInfo, Replies, Effect, insert_event, upsert_monthly_aggregate, incr_bundle_consumed,
  check_bundle_alerts, try_acquire_throttle, update_last_used,
}

-- The arguments of recordUsage after the request.
pub record Outcome : Type 0 where
  pub status : UsageStatus
  pub rejection_reason : Option String
  pub upstream_status : Option ℕ
  pub latency_ms : Option ℕ
  pub upstream_latency_ms : Option ℕ
  pub request_size : Option ℕ
  pub response_size : Option ℕ
  pub exceeds_quota : Bool

-- The address without its port, where it has one.
unfoldable pub bare_ip : Replies → String → String
bare_ip r ip = elim (r.split_host_port ip) [ none ↦ ip | some (host, port) ↦ host ]

unfoldable pub locate : Replies → Request → Option GeoInfo
unfolding bare_ip
locate r req = elim r.geolocate [ none ↦ none | some lookup ↦ lookup (bare_ip r req.source_ip) ]

-- A field of the event is set only to a text that is not empty.
unfoldable pub non_empty : String → Option String
non_empty s = if str_eq s "" then none else some s

unfoldable pub geo_field : (GeoInfo → String) → Option GeoInfo → Option String
unfolding non_empty
geo_field field none = none
geo_field field (some info) = non_empty (field info)

unfoldable pub event_of : Replies → Request → Outcome → UsageEvent
unfolding geo_field locate
event_of r req o = record {
  id = r.event_id;
  tenant_id = req.tenant_id;
  credential_id = if req.credential_id == uuid_nil then none else some req.credential_id;
  request_id = req.request_id;
  source_ip = req.source_ip;
  status = o.status;
  rejection_reason = o.rejection_reason;
  upstream_status = o.upstream_status;
  latency_ms = o.latency_ms;
  upstream_latency_ms = o.upstream_latency_ms;
  request_size_bytes = o.request_size;
  response_size_bytes = o.response_size;
  user_agent = some (if str_eq req.user_agent "" then "unknown" else req.user_agent);
  geo_country = geo_field (λ g. g.country) (locate r req);
  geo_city = geo_field (λ g. g.city) (locate r req);
  geo_asn = geo_field (λ g. g.asn) (locate r req);
  exceeds_quota = o.exceeds_quota;
  occurred_at = r.now;
}

unfoldable pub latency_or_zero : Option ℕ → ℕ
latency_or_zero none = 0
latency_or_zero (some ms) = ms

-- Without a cache every request writes; with one, the first of a minute, or all if Redis fails.
unfoldable pub throttled_update_last_used : Replies → Uuid → String → List Effect
throttled_update_last_used r cred ip =
    if r.has_cache
    then elim r.throttle [
      | failed ↦ try_acquire_throttle cred ∷ update_last_used cred ip ∷ []
      | ok acquired ↦
          if acquired
          then try_acquire_throttle cred ∷ update_last_used cred ip ∷ []
          else try_acquire_throttle cred ∷ []
    ]
    else update_last_used cred ip ∷ []

-- What follows a successful write of the aggregate.
unfoldable pub after_aggregate : Replies → Uuid → List Effect
after_aggregate r tenant =
    if r.aggregate_written
    then if r.has_cache
      then incr_bundle_consumed tenant
        ∷ (if r.notifier_enabled then check_bundle_alerts tenant ∷ [] else [])
      else []
    else []

-- A failed insert of the event is only logged.
unfoldable pub record_usage : Replies → Request → Outcome → List Effect
unfolding latency_or_zero after_aggregate throttled_update_last_used
record_usage r req o =
    insert_event (event_of r req o)
      ∷ upsert_monthly_aggregate req.tenant_id r.year r.month o.status
          (latency_or_zero o.latency_ms)
      ∷ after_aggregate r req.tenant_id
    ++ throttled_update_last_used r req.credential_id req.source_ip
