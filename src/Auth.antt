-- ===== src/Auth.antt =====
-- internal/middleware/auth.go, basicauth.go and tsp.go, and the token path of
-- internal/handler/proxy/timestamp.go: the requests they read, the identity they put into the
-- context, the rows and cache entries they look up, and what they leave behind. The hash, the
-- encodings and the identifiers are those of the libraries, and stand in `Codec`.
use tsa_proxy.Common.{
  ℕ, String, Bool, true, false, ◌&&◌, ◌||◌, Option, none, some, List, [], ◌∷◌, drop, length, ◌==◌,
  ◌/◌, ◌%◌, ◌+◌, ltb, if◌then◌else◌, str_eq,
}
use tsa_proxy.Common.Int.{ℤ}
use tsa_proxy.ApiError.{Result, Answer}
use tsa_proxy.Model.{
  Uuid, Time, TenantStatus, active, suspended, deleted, CredentialStatus, revoked, expired,
}
pub mod ApiKey
pub mod Basic
pub mod Tsp
pub mod UrlToken

abbrev pub Bytes : Type 0
Bytes = List ℕ

-- The parts of an HTTP request that authentication reads: `basic` is what r.BasicAuth() gives.
pub record HttpRequest : Type 0 where
  pub method : String
  pub apikey_query : Bytes
  pub basic : Option (Bytes × Bytes)
  pub authorization : Bytes
  pub url_token : Bytes
  pub real_ip : String
  pub remote_addr : String
  pub request_id : String

-- What is put into the context.
pub record Identity : Type 0 where
  pub tenant_id : Uuid
  pub credential_id : Uuid
  pub burst_limit : ℤ
  pub client_ip : String

pub record Tenant : Type 0 where
  pub id : Uuid
  pub status : TenantStatus

-- model.APICredential and model.BasicAuthCredential, as far as they are read.
pub record ApiCredential : Type 0 where
  pub id : Uuid
  pub key_id : String
  pub expires_at : Option Time

pub record BasicAuthCredential : Type 0 where
  pub id : Uuid
  pub key_hash : Bytes
  pub status : CredentialStatus

-- model.CachedCredential, rediscache.CachedBasicAuth and rediscache.CachedTokenCredential
pub record CachedCredential : Type 0 where
  pub credential_id : Uuid
  pub tenant_id : Uuid
  pub tenant_status : TenantStatus
  pub burst_per_minute : ℤ

pub record CachedBasicAuth : Type 0 where
  pub cred_id : String
  pub tenant_id : String
  pub tenant_status : String
  pub key_hash : Bytes
  pub cred_status : String

pub record CachedTokenCredential : Type 0 where
  pub tenant_id : String
  pub tenant_status : String
  pub cred_id : String
  pub expires_at : Option String

pub data AuthEffect : Type 0 where
  record_failed : Option Uuid → Option String → String → String → AuthEffect
  set_credential : Bytes → CachedCredential → AuthEffect
  set_basic_auth : Bytes → CachedBasicAuth → AuthEffect
  set_credential_by_token : Bytes → CachedTokenCredential → AuthEffect
  update_last_used : Uuid → String → AuthEffect
  www_authenticate : AuthEffect

abbrev pub Authenticated : Type 0
Authenticated = Answer Identity × List AuthEffect

-- sha256.Sum256, base64.StdEncoding.DecodeString, uuid.UUID.String and uuid.Parse, and
-- time.Time.Format and time.Parse with RFC 3339.
pub record Codec : Type 0 where
  pub sha256 : Bytes → Bytes
  pub base64_decode : Bytes → Option Bytes
  pub uuid_string : Uuid → String
  pub uuid_parse : String → Option Uuid
  pub time_format : Time → String
  pub time_parse : String → Option Time

-- The header of the proxy, or the peer.
unfoldable pub client_ip : HttpRequest → String
client_ip req = if str_eq req.real_ip "" then req.remote_addr else req.real_ip

-- strings.HasPrefix and strings.TrimPrefix
unfoldable pub has_prefix : Bytes → Bytes → Bool
has_prefix s [] = true
has_prefix [] (p ∷ ps) = false
has_prefix (c ∷ s) (p ∷ ps) = (c == p) && has_prefix s ps

unfoldable pub trim_prefix : Bytes → Bytes → Bytes
unfolding has_prefix
trim_prefix s p = if has_prefix s p then drop (length p) s else s

-- "Basic " and "Bearer "
abbrev pub basic_scheme : Bytes
basic_scheme = 66 ∷ 97 ∷ 115 ∷ 105 ∷ 99 ∷ 32 ∷ []

abbrev pub bearer_scheme : Bytes
bearer_scheme = 66 ∷ 101 ∷ 97 ∷ 114 ∷ 101 ∷ 114 ∷ 32 ∷ []

-- `strings.SplitN(s, ":", 2)`, where it has two parts.
unfoldable pub split_colon : Bytes → Option (Bytes × Bytes)
split_colon [] = none
split_colon (c ∷ s) =
    let rest = split_colon s in
    if c == 58
    then some ([], s)
    else elim rest [ none ↦ none | some (user, pass) ↦ some (c ∷ user, pass) ]

-- `fmt.Sprintf("%x", hash)`: two lower-case digits to a byte.
unfoldable pub hex_digit : ℕ → ℕ
hex_digit d = if ltb d 10 then 48 + d else 87 + d

unfoldable pub hex : Bytes → Bytes
unfolding hex_digit
hex [] = []
hex (b ∷ bs) = hex_digit (b / 16) ∷ hex_digit (b % 16) ∷ hex bs

-- The text of a status.
unfoldable pub tenant_status_text : TenantStatus → String
tenant_status_text active = "active"
tenant_status_text suspended = "suspended"
tenant_status_text deleted = "deleted"

unfoldable pub credential_status_text : CredentialStatus → String
credential_status_text active = "active"
credential_status_text revoked = "revoked"
credential_status_text expired = "expired"

unfoldable pub is_barred : TenantStatus → Bool
is_barred active = false
is_barred suspended = true
is_barred deleted = true

unfoldable pub is_barred_text : String → Bool
is_barred_text s = str_eq s "suspended" || str_eq s "deleted"

unfoldable pub bytes_equal : Bytes → Bytes → Bool
bytes_equal [] [] = true
bytes_equal [] (y ∷ ys) = false
bytes_equal (x ∷ xs) [] = false
bytes_equal (x ∷ xs) (y ∷ ys) = (x == y) && bytes_equal xs ys
