-- ===== src/Auth/UrlToken.antt =====
-- internal/handler/proxy/timestamp.go, HandleByToken up to the context: the token in the URL is the
-- credential.
use tsa_proxy.Common.{
  ℕ, String, Bool, true, false, ◌||◌, Option, none, some, List, [], ◌∷◌, ◌++◌, length, ltb,
  if◌then◌else◌, str_eq,
}
use tsa_proxy.Common.Int.{ℤ, pos}
use tsa_proxy.ApiError.{
  Result, ok, failed, Answer, answer, refuse, err_unauthorized, err_tenant_suspended,
}
use tsa_proxy.Model.{Uuid, Time}
use tsa_proxy.Auth.{
  Bytes, Codec, HttpRequest, Identity, Tenant, ApiCredential, CachedTokenCredential, AuthEffect,
  set_credential_by_token, update_last_used, Authenticated, client_ip, tenant_status_text,
  is_barred,
}
pub mod Cached

-- What the calls reply: the cache (`none` is an error or no entry), FindByURLToken, and the clock.
pub record TokenReplies : Type 0 where
  pub get_credential_by_token : Bytes → Option CachedTokenCredential
  pub find_by_url_token : Bytes → Result (Option (ApiCredential × Tenant))
  pub now : Time

-- An expiry that cannot be parsed does not expire.
unfoldable pub is_past_text : Codec → Time → Option String → Bool
is_past_text codec now none = false
is_past_text codec now (some text) = elim (codec.time_parse text) [
  | none ↦ false
  | some t ↦ ltb t now
]

unfoldable pub is_past : Time → Option Time → Bool
is_past now none = false
is_past now (some t) = ltb t now

-- The tenant and the credential, or the error, of a cached entry and of the row.
unfoldable pub token_cached : Codec → CachedTokenCredential → Time → Answer (Uuid × Uuid)
unfolding is_past_text
token_cached codec c now = elim (codec.uuid_parse c.tenant_id) [
  | none ↦ refuse err_unauthorized
  | some tenant ↦ elim (codec.uuid_parse c.cred_id) [
    | none ↦ refuse err_unauthorized
    | some cred ↦
        if str_eq c.tenant_status "suspended" || str_eq c.tenant_status "deleted"
        then refuse err_tenant_suspended
        else if is_past_text codec now c.expires_at
        then refuse err_unauthorized
        else answer (tenant, cred)
  ]
]

unfoldable pub token_stored : ApiCredential → Tenant → Time → Answer (Uuid × Uuid)
unfolding is_past
token_stored cred tenant now =
    if is_barred tenant.status
    then refuse err_tenant_suspended
    else if is_past now cred.expires_at
    then refuse err_unauthorized
    else answer (tenant.id, cred.id)

unfoldable pub expiry_text : Codec → Option Time → Option String
expiry_text codec none = none
expiry_text codec (some t) = some (codec.time_format t)

unfoldable pub token_entry : Codec → ApiCredential → Tenant → CachedTokenCredential
unfolding expiry_text
token_entry codec cred tenant = record {
  tenant_id = codec.uuid_string tenant.id;
  tenant_status = tenant_status_text tenant.status;
  cred_id = codec.uuid_string cred.id;
  expires_at = expiry_text codec cred.expires_at;
}

unfoldable pub token_pass : HttpRequest → Answer (Uuid × Uuid) → List AuthEffect → Authenticated
token_pass req (refuse e) es = (refuse e, [])
token_pass req (answer (tenant, cred)) es = (
  answer (record {
    tenant_id = tenant;
    credential_id = cred;
    burst_limit = pos 60;
    client_ip = client_ip req;
  }),
  es ++ (update_last_used cred (client_ip req) ∷ []),
)

unfoldable pub resolve_token : Codec → HttpRequest → TokenReplies → Authenticated
unfolding token_cached token_stored token_entry token_pass
resolve_token codec req r =
    if ltb (length req.url_token) 16
    then (refuse err_unauthorized, [])
    else elim (r.get_credential_by_token req.url_token) [
      | some c ↦ token_pass req (token_cached codec c r.now) []
      | none ↦ elim (r.find_by_url_token req.url_token) [
        | failed ↦ (refuse err_unauthorized, [])
        | ok none ↦ (refuse err_unauthorized, [])
        | ok (some (cred, tenant)) ↦
            token_pass req (token_stored cred tenant r.now)
              (set_credential_by_token req.url_token (token_entry codec cred tenant) ∷ [])
      ]
    ]
