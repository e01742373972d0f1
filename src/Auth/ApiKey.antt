-- ===== src/Auth/ApiKey.antt =====
-- internal/middleware/auth.go: Authenticate of the API keys.
use tsa_proxy.Common.{
  ℕ, String, Bool, true, false, ◌&&◌, Option, none, some, List, [], ◌∷◌, ◌++◌, length, ltb, leb,
  if◌then◌else◌,
}
use tsa_proxy.Common.Int.{ℤ, pos, ltb_ℤ}
use tsa_proxy.ApiError.{
  Result, ok, failed, Answer, answer, refuse, err_unauthorized, err_tenant_suspended,
}
use tsa_proxy.Model.{Uuid, Time, TenantStatus, active, suspended, deleted}
use tsa_proxy.Auth.{
  Bytes, HttpRequest, Identity, Tenant, ApiCredential, CachedCredential, AuthEffect, record_failed,
  set_credential, www_authenticate, Authenticated, client_ip, has_prefix, trim_prefix,
  bearer_scheme,
}
pub mod Passes

-- What the calls reply: the cache, FindByHash, GetTenantBurstLimit, and the clock.
pub record KeyReplies : Type 0 where
  pub get_credential : Bytes → Result CachedCredential
  pub find_by_hash : Bytes → Result (Option (ApiCredential × Tenant))
  pub get_tenant_burst_limit : Uuid → Result ℤ
  pub now : Time

unfoldable pub key_of_basic : Option (Bytes × Bytes) → Bytes
key_of_basic none = []
key_of_basic (some (user, pass)) =
    if leb 10 (length pass) then pass else if leb 10 (length user) then user else []

unfoldable pub is_empty : Bytes → Bool
is_empty [] = true
is_empty (c ∷ s) = false

unfoldable pub key_of_bearer : Bytes → Bytes
key_of_bearer auth = if has_prefix auth bearer_scheme then trim_prefix auth bearer_scheme else []

-- The query, then the two fields of Basic, then the bearer token.
unfoldable pub api_key : HttpRequest → Bytes
unfolding key_of_basic is_empty key_of_bearer
api_key req =
    let from_query = if leb 10 (length req.apikey_query) then req.apikey_query else [] in
    let from_basic = if is_empty from_query then key_of_basic req.basic else from_query in
    if is_empty from_basic then key_of_bearer req.authorization else from_basic

-- `cred.ExpiresAt != nil && cred.ExpiresAt.Before(time.Now())`
unfoldable pub is_past : Time → Option Time → Bool
is_past now none = false
is_past now (some t) = ltb t now

unfoldable pub burst_or_default : Result ℤ → ℤ
burst_or_default failed = pos 60
burst_or_default (ok quota) = if ltb_ℤ (pos 0) quota then quota else pos 60

unfoldable pub cached_of : KeyReplies → ApiCredential → Tenant → CachedCredential
unfolding burst_or_default
cached_of r cred tenant = record {
  credential_id = cred.id;
  tenant_id = tenant.id;
  tenant_status = tenant.status;
  burst_per_minute = burst_or_default (r.get_tenant_burst_limit tenant.id);
}

unfoldable pub refused : HttpRequest → Option Uuid → Option String → String → Authenticated
refused req tenant key reason =
    (refuse err_unauthorized, record_failed tenant key (client_ip req) reason ∷ [])

unfoldable pub identity_of : HttpRequest → CachedCredential → Identity
identity_of req c = record {
  tenant_id = c.tenant_id;
  credential_id = c.credential_id;
  burst_limit = c.burst_per_minute;
  client_ip = client_ip req;
}

-- From the check of the tenant's status on, after the effects `es`.
unfoldable pub admit : HttpRequest → CachedCredential → List AuthEffect → Authenticated
unfolding identity_of
admit req c es = elim c.tenant_status [
  | active ↦ (answer (identity_of req c), es)
  | suspended ↦ (
    refuse err_tenant_suspended,
    es ++ (record_failed (some c.tenant_id) none (client_ip req) "tenant_suspended" ∷ []),
  )
  | deleted ↦
      (refuse err_unauthorized, es ++ (record_failed none none (client_ip req) "invalid_key" ∷ []))
]

unfoldable pub look_up : HttpRequest → KeyReplies → Bytes → Authenticated
unfolding admit refused is_past cached_of
look_up req r hash = elim (r.get_credential hash) [
  | ok c ↦ admit req c []
  | failed ↦ elim (r.find_by_hash hash) [
    | failed ↦ refused req none none "invalid_key"
    | ok none ↦ refused req none none "invalid_key"
    | ok (some (cred, tenant)) ↦
        if is_past r.now cred.expires_at
        then refused req none (some cred.key_id) "credential_expired"
        else admit req (cached_of r cred tenant)
            (set_credential hash (cached_of r cred tenant) ∷ [])
  ]
]

unfoldable pub authenticate : (Bytes → Bytes) → HttpRequest → KeyReplies → Authenticated
unfolding api_key look_up
authenticate sha256 req r =
    if ltb (length (api_key req)) 10
    then (
      refuse err_unauthorized,
      record_failed none none (client_ip req) "invalid_key" ∷ www_authenticate ∷ [],
    )
    else look_up req r (sha256 (api_key req))
