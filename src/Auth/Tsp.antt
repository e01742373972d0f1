-- ===== src/Auth/Tsp.antt =====
-- internal/middleware/tsp.go: Authenticate of /ts and /tsp, by Basic or by the client's address.
use tsa_proxy.Common.{
  ℕ, String, Bool, true, false, not, ◌&&◌, ◌||◌, Option, none, some, List, [], ◌∷◌, if◌then◌else◌,
  str_eq,
}
use tsa_proxy.Common.Int.{ℤ, pos}
use tsa_proxy.ApiError.{
  Result, ok, failed, Answer, answer, refuse, err_unauthorized, err_tenant_suspended,
}
use tsa_proxy.Model.{Uuid, uuid_nil}
use tsa_proxy.Auth.{
  Bytes, Codec, HttpRequest, Identity, Tenant, BasicAuthCredential, CachedBasicAuth, AuthEffect,
  set_basic_auth, www_authenticate, Authenticated, client_ip, has_prefix, trim_prefix, basic_scheme,
  split_colon, hex, tenant_status_text, credential_status_text, is_barred, is_barred_text,
  bytes_equal,
}
use tsa_proxy.Auth.Basic.{BasicReplies, is_active}
pub mod Same

-- What NoAuthRepository.FindTenantByIP replies.
abbrev pub NoAuth : Type 0
NoAuth = String → Result (Option Tenant)

-- Flow 1 on a cache hit and on a miss: the tenant, or the error.
unfoldable pub tsp_cached : Codec → CachedBasicAuth → Bytes → Answer Uuid
tsp_cached codec c input_hash =
    if not (str_eq c.cred_status "active")
    then refuse err_unauthorized
    else if str_eq c.tenant_status "suspended" || str_eq c.tenant_status "deleted"
    then refuse err_tenant_suspended
    else if not (bytes_equal (hex input_hash) c.key_hash)
    then refuse err_unauthorized
    else elim (codec.uuid_parse c.tenant_id) [
      | none ↦ refuse err_unauthorized
      | some id ↦ answer id
    ]

unfoldable pub tsp_stored :
    Codec → Bytes → BasicAuthCredential → Tenant → Bytes → Answer Uuid × List AuthEffect
tsp_stored codec username cred tenant input_hash =
    if not (is_active cred.status)
    then (refuse err_unauthorized, [])
    else if is_barred tenant.status
    then (refuse err_tenant_suspended, [])
    else if not (bytes_equal cred.key_hash input_hash)
    then (refuse err_unauthorized, [])
    else (
      answer tenant.id,
      set_basic_auth username (record {
        cred_id = codec.uuid_string cred.id;
        tenant_id = codec.uuid_string tenant.id;
        tenant_status = tenant_status_text tenant.status;
        key_hash = hex cred.key_hash;
        cred_status = credential_status_text cred.status;
      })
          ∷ [],
    )

unfoldable pub tsp_verify : Codec → BasicReplies → Bytes → Bytes → Answer Uuid × List AuthEffect
unfolding tsp_cached tsp_stored
tsp_verify codec r username password =
    let input_hash = codec.sha256 password in
    elim (r.get_basic_auth username) [
      | some c ↦ (tsp_cached codec c input_hash, [])
      | none ↦ elim (r.find_by_username username) [
        | failed ↦ (refuse err_unauthorized, [])
        | ok none ↦ (refuse err_unauthorized, [])
        | ok (some (cred, tenant)) ↦ tsp_stored codec username cred tenant input_hash
      ]
    ]

unfoldable pub tsp_basic : Codec → HttpRequest → BasicReplies → Answer Uuid × List AuthEffect
unfolding tsp_verify
tsp_basic codec req r = elim (codec.base64_decode (trim_prefix req.authorization basic_scheme)) [
  | none ↦ (refuse err_unauthorized, [])
  | some decoded ↦ elim (split_colon decoded) [
    | none ↦ (refuse err_unauthorized, [])
    | some (username, password) ↦ tsp_verify codec r username password
  ]
]

-- Flow 2.
unfoldable pub tsp_by_ip : HttpRequest → NoAuth → Answer Uuid × List AuthEffect
tsp_by_ip req find_tenant_by_ip = elim (find_tenant_by_ip (client_ip req)) [
  | failed ↦ (refuse err_unauthorized, www_authenticate ∷ [])
  | ok none ↦ (refuse err_unauthorized, www_authenticate ∷ [])
  | ok (some tenant) ↦
      if is_barred tenant.status then (refuse err_tenant_suspended, []) else (answer tenant.id, [])
]

unfoldable pub tsp_tenant :
    Codec → HttpRequest → BasicReplies → NoAuth → Answer Uuid × List AuthEffect
unfolding tsp_basic tsp_by_ip
tsp_tenant codec req r find_tenant_by_ip =
    if str_eq req.method "GET" && not (has_prefix req.authorization basic_scheme)
    then (refuse err_unauthorized, www_authenticate ∷ [])
    else if has_prefix req.authorization basic_scheme
    then tsp_basic codec req r
    else tsp_by_ip req find_tenant_by_ip

unfoldable pub tsp_identity : HttpRequest → Answer Uuid → Answer Identity
tsp_identity req (refuse e) = refuse e
tsp_identity req (answer tenant) = answer (record {
  tenant_id = tenant;
  credential_id = uuid_nil;
  burst_limit = pos 60;
  client_ip = client_ip req;
})

unfoldable pub tsp_authenticate : Codec → HttpRequest → BasicReplies → NoAuth → Authenticated
unfolding tsp_tenant tsp_identity
tsp_authenticate codec req r find_tenant_by_ip =
    let found = tsp_tenant codec req r find_tenant_by_ip in (tsp_identity req found.0, found.1)
