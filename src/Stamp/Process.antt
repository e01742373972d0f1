-- ===== src/Stamp/Process.antt =====
-- internal/service/proxy/service.go, Process: the check of the bundles, the choice of the upstream,
-- the call, and the record.
use tsa_proxy.Common.{
  ℕ, String, Bool, true, false, not, ◌&&◌, ◌||◌, Option, none, some, List, [], ◌∷◌, ◌++◌, ltb, leb,
  length, if◌then◌else◌, str_eq,
}
use tsa_proxy.ApiError.{
  Result, ok, failed, Answer, answer, refuse, err_internal, err_quota_exceeded,
  err_upstream_unavailable,
}
use tsa_proxy.Model.{TenantQuota, TsaUpstream, success, error, rejected}
use tsa_proxy.Upstream.Client.{Response, SendParams, SendError, send}
use tsa_proxy.Stamp.Effects.{
  Request, Stamped, Settings, Replies, Effect, set_tenant_quota, set_bundle_contracted,
  seed_bundle_consumed, set_default_upstream, call_upstream, Run, ◌>>=◌, ◌>>◌, pure, stop,
}
use tsa_proxy.Stamp.Usage.{Outcome, record_usage}

unfoldable pub store_quota : Replies → Request → Option TenantQuota → List Effect
store_quota r req none = []
store_quota r req (some q) = if r.has_cache then set_tenant_quota req.tenant_id q ∷ [] else []

-- `quota, _ = s.cache.GetTenantQuota(...)`, if there is a cache.
unfoldable pub from_cache {ℓ} : {A : Type ℓ} → Replies → Option A → Option A
from_cache r cached = if r.has_cache then cached else none

unfoldable pub lookup_quota : Replies → Request → Run (Option TenantQuota)
unfolding store_quota from_cache
lookup_quota r req = elim (from_cache r r.cached_quota) [
  | some q ↦ pure (some q)
  | none ↦ elim r.stored_quota [
    | failed ↦ stop err_internal
    | ok q ↦ (answer q, store_quota r req q)
  ]
]

-- A cached total that could be read; without a cache there is none.
unfoldable pub cached_total : Replies → Result ℕ → Result ℕ
cached_total r total = if r.has_cache then total else failed

-- getCachedContracted and getOrSeedConsumed, called for their value: an error counts as zero.
unfoldable pub get_cached_contracted : Replies → Request → ℕ × List Effect
unfolding cached_total
get_cached_contracted r req = elim (cached_total r r.cached_contracted) [
  | ok v ↦ (v, [])
  | failed ↦ elim r.stored_contracted [
    | failed ↦ (0, [])
    | ok total ↦ (total, if r.has_cache then set_bundle_contracted req.tenant_id total ∷ [] else [])
  ]
]

unfoldable pub get_or_seed_consumed : Replies → Request → ℕ × List Effect
unfolding cached_total
get_or_seed_consumed r req = elim (cached_total r r.cached_consumed) [
  | ok v ↦ (v, [])
  | failed ↦ elim r.stored_consumed [
    | failed ↦ (0, [])
    | ok total ↦ (total, if r.has_cache then seed_bundle_consumed req.tenant_id total ∷ [] else [])
  ]
]

-- `consumed >= contracted && contracted > 0`
unfoldable pub is_exhausted : ℕ → ℕ → Bool
is_exhausted consumed contracted = leb contracted consumed && ltb 0 contracted

unfoldable pub quota_outcome : Request → Outcome
quota_outcome req = record {
  status = rejected;
  rejection_reason = some "quota_exceeded";
  upstream_status = none;
  latency_ms = none;
  upstream_latency_ms = none;
  request_size = some req.request_size;
  response_size = none;
  exceeds_quota = false;
}

-- The check of the bundles; a tenant with no quota row passes it.
unfoldable pub check_bag : Replies → Request → Option TenantQuota → Run (Unit {0})
check_bag r req none = pure tt
check_bag r req (some q) =
    let (contracted, es) = get_cached_contracted r req in
    let (consumed, fs) = get_or_seed_consumed r req in
    if is_exhausted consumed contracted
    then (refuse err_quota_exceeded, es ++ fs ++ record_usage r req (quota_outcome req))
    else (answer tt, es ++ fs)

-- The upstream of the environment, used when the database gives none.
unfoldable pub env_upstream : Settings → TsaUpstream
env_upstream cfg = record {
  id = 0;
  name = "";
  url = cfg.upstream_url;
  env_key_user = none;
  env_key_pass = none;
  username = none;
  password = none;
  timeout_ms = cfg.upstream_timeout_ms;
  max_retries = cfg.upstream_max_retries;
  is_active = false;
  is_default = false;
}

unfoldable pub fall_back : Settings → Run TsaUpstream
unfolding env_upstream
fall_back cfg =
    if str_eq cfg.upstream_url "" then stop err_upstream_unavailable else pure (env_upstream cfg)

unfoldable pub choose_upstream : Settings → Replies → Run TsaUpstream
unfolding fall_back from_cache
choose_upstream cfg r = elim (from_cache r r.cached_upstream) [
  | some u ↦ pure u
  | none ↦ elim r.stored_upstream [
    | failed ↦ fall_back cfg
    | ok none ↦ fall_back cfg
    | ok (some u) ↦ (answer u, if r.has_cache then set_default_upstream u ∷ [] else [])
  ]
]

-- internal/upstream/client.go, ResolveCredentials: the values of the named environment variables.
unfoldable pub from_env : Replies → Option String → String
from_env r none = ""
from_env r (some key) = if str_eq key "" then "" else r.getenv key

unfoldable pub is_set : Option String → Bool
is_set none = false
is_set (some s) = true

unfoldable pub text_or_empty : Option String → String
text_or_empty none = ""
text_or_empty (some s) = s

unfoldable pub resolve_upstream_credentials : Settings → Replies → TsaUpstream → String × String
unfolding from_env is_set text_or_empty
resolve_upstream_credentials cfg r u =
    if not (str_eq (text_or_empty u.username) "")
    then (text_or_empty u.username, text_or_empty u.password)
    else if is_set u.env_key_user || is_set u.env_key_pass
    then (from_env r u.env_key_user, from_env r u.env_key_pass)
    else (cfg.upstream_username, cfg.upstream_password)

unfoldable pub send_params : Settings → Replies → TsaUpstream → SendParams
send_params cfg r u = record {
  url = u.url;
  username = (resolve_upstream_credentials cfg r u).0;
  password = (resolve_upstream_credentials cfg r u).1;
  max_retries = u.max_retries;
  max_body = cfg.upstream_max_body;
  timeout = u.timeout_ms;
}

unfoldable pub failure_outcome : Replies → Request → Outcome
failure_outcome r req = record {
  status = error;
  rejection_reason = some "upstream_error";
  upstream_status = none;
  latency_ms = some r.total_latency_ms;
  upstream_latency_ms = some r.upstream_latency_ms;
  request_size = some req.request_size;
  response_size = none;
  exceeds_quota = false;
}

unfoldable pub success_outcome : Replies → Request → Response → Outcome
success_outcome r req resp = record {
  status = success;
  rejection_reason = none;
  upstream_status = some resp.http_status;
  latency_ms = some r.total_latency_ms;
  upstream_latency_ms = some r.upstream_latency_ms;
  request_size = some req.request_size;
  response_size = some (length resp.body);
  exceeds_quota = false;
}

-- `upstreamErr != nil || upstreamResp == nil || upstreamResp.HTTPStatus >= 500`
unfoldable pub outcome_of : Replies → Request → Option SendError → Option Response → Outcome
unfolding failure_outcome success_outcome
outcome_of r req (some e) resp = failure_outcome r req
outcome_of r req none none = failure_outcome r req
outcome_of r req none (some resp) =
    if leb 500 resp.http_status then failure_outcome r req else success_outcome r req resp

-- The answer after the record. A nil response with a nil error would be a nil dereference, which the
-- Recoverer middleware turns into an internal error.
unfoldable pub conclude : Replies → Option SendError → Option Response → Answer Stamped
conclude r (some e) resp = refuse err_upstream_unavailable
conclude r none none = refuse err_internal
conclude r none (some resp) =
    if leb 500 resp.http_status
    then refuse err_upstream_unavailable
    else answer (record {
      body = resp.body;
      upstream_status = resp.http_status;
      latency_ms = r.total_latency_ms;
      upstream_latency_ms = r.upstream_latency_ms;
    })

-- From the call of the upstream on. The record is made in a goroutine or before the answer.
unfoldable pub stamp : Settings → Replies → Request → TsaUpstream → Run Stamped
stamp cfg r req u =
    let sent = send r.exchange r.cancelled req.body (send_params cfg r u) in
    (
      conclude r sent.error sent.response,
      call_upstream sent.trace ∷ record_usage r req (outcome_of r req sent.error sent.response),
    )

unfoldable pub process : Settings → Replies → Request → Run Stamped
process cfg r req = do
  quota ← lookup_quota r req
  check_bag r req quota
  u ← choose_upstream cfg r
  stamp cfg r req u
