-- ===== src/Auth/Basic.antt =====
-- internal/middleware/basicauth.go: Authenticate with a user name and a password.
use tsa_proxy.Common.{
  ℕ, String, Bool, true, false, not, Option, none, some, List, [], ◌∷◌, if◌then◌else◌, str_eq,
}
use tsa_proxy.Common.Int.{ℤ, pos}
use tsa_proxy.ApiError.{
  Result, ok, failed, Answer, answer, refuse, err_unauthorized, err_tenant_suspended,
}
use tsa_proxy.Model.{Uuid, uuid_nil, TenantStatus, CredentialStatus, active, revoked, expired}
use tsa_proxy.Auth.{
  Bytes, Codec, HttpRequest, Identity, Tenant, BasicAuthCredential, CachedBasicAuth, AuthEffect,
  set_basic_auth, www_authenticate, Authenticated, client_ip, has_prefix, trim_prefix, basic_scheme,
  split_colon, hex, tenant_status_text, credential_status_text, is_barred, is_barred_text,
  bytes_equal,
}
pub mod Cached

-- What the calls reply: the cache (`none` is an error or no entry) and FindByUsername.
pub record BasicReplies : Type 0 where
  pub get_basic_auth : Bytes → Option CachedBasicAuth
  pub find_by_username : Bytes → Result (Option (BasicAuthCredential × Tenant))

unfoldable pub is_active : CredentialStatus → Bool
is_active active = true
is_active revoked = false
is_active expired = false

unfoldable pub parsed_tenant : Codec → String → Answer Uuid
parsed_tenant codec text = elim (codec.uuid_parse text) [
  | none ↦ refuse err_unauthorized
  | some id ↦ answer id
]

-- The decision on a cached entry, for the hash of the password.
unfoldable pub check_cached : Codec → CachedBasicAuth → Bytes → Answer Uuid
unfolding parsed_tenant
check_cached codec c input_hash =
    if not (str_eq c.cred_status "active")
    then refuse err_unauthorized
    else if is_barred_text c.tenant_status
    then refuse err_tenant_suspended
    else if not (bytes_equal c.key_hash (hex input_hash))
    then refuse err_unauthorized
    else parsed_tenant codec c.tenant_id

-- The decision on the row.
unfoldable pub check_stored : BasicAuthCredential → Tenant → Bytes → Answer Uuid
unfolding is_active
check_stored cred tenant input_hash =
    if not (is_active cred.status)
    then refuse err_unauthorized
    else if is_barred tenant.status
    then refuse err_tenant_suspended
    else if not (bytes_equal cred.key_hash input_hash)
    then refuse err_unauthorized
    else answer tenant.id

unfoldable pub entry_of : Codec → BasicAuthCredential → Tenant → CachedBasicAuth
entry_of codec cred tenant = record {
  cred_id = codec.uuid_string cred.id;
  tenant_id = codec.uuid_string tenant.id;
  tenant_status = tenant_status_text tenant.status;
  key_hash = hex cred.key_hash;
  cred_status = credential_status_text cred.status;
}

unfoldable pub identity_of : HttpRequest → Uuid → Identity
identity_of req tenant = record {
  tenant_id = tenant;
  credential_id = uuid_nil;
  burst_limit = pos 60;
  client_ip = client_ip req;
}

unfoldable pub pass_on : HttpRequest → Answer Uuid → List AuthEffect → Authenticated
unfolding identity_of
pass_on req (refuse e) es = (refuse e, [])
pass_on req (answer tenant) es = (answer (identity_of req tenant), es)

unfoldable pub verify : Codec → HttpRequest → BasicReplies → Bytes → Bytes → Authenticated
unfolding check_cached check_stored entry_of pass_on
verify codec req r username password =
    let input_hash = codec.sha256 password in
    elim (r.get_basic_auth username) [
      | some c ↦ pass_on req (check_cached codec c input_hash) []
      | none ↦ elim (r.find_by_username username) [
        | failed ↦ (refuse err_unauthorized, [])
        | ok none ↦ (refuse err_unauthorized, [])
        | ok (some (cred, tenant)) ↦
            pass_on req (check_stored cred tenant input_hash)
              (set_basic_auth username (entry_of codec cred tenant) ∷ [])
      ]
    ]

-- `authHeader == "" ||` adds nothing: the empty header has no scheme.
unfoldable pub authenticate : Codec → HttpRequest → BasicReplies → Authenticated
unfolding verify
authenticate codec req r =
    if has_prefix req.authorization basic_scheme
    then elim (codec.base64_decode (trim_prefix req.authorization basic_scheme)) [
      | none ↦ (refuse err_unauthorized, [])
      | some decoded ↦ elim (split_colon decoded) [
        | none ↦ (refuse err_unauthorized, [])
        | some (username, password) ↦ verify codec req r username password
      ]
    ]
    else (refuse err_unauthorized, www_authenticate ∷ [])
