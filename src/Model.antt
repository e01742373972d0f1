-- ===== src/Model.antt =====
-- internal/model/model.go: the domain types that several components share. A `uuid.UUID` is its
-- 128-bit value, and a `time.Time` a number of nanoseconds since an origin.
use tsa_proxy.Common.{ℕ, String, Bool, Option}
use tsa_proxy.Common.Int.{ℤ}

abbrev pub Uuid : Type 0
Uuid = ℕ

-- uuid.Nil
abbrev pub uuid_nil : Uuid
uuid_nil = 0

abbrev pub Time : Type 0
Time = ℕ

pub data TenantStatus : Type 0 where
  active suspended deleted : TenantStatus

pub data CredentialStatus : Type 0 where
  active revoked expired : CredentialStatus

pub record TenantQuota : Type 0 where
  pub tenant_id : Uuid
  pub burst_per_minute : ℤ

pub record TsaUpstream : Type 0 where
  pub id : Uuid
  pub name : String
  pub url : String
  pub env_key_user : Option String
  pub env_key_pass : Option String
  pub username : Option String
  pub password : Option String
  pub timeout_ms : ℤ
  pub max_retries : ℤ
  pub is_active : Bool
  pub is_default : Bool

pub data UsageStatus : Type 0 where
  success error rejected : UsageStatus

pub record UsageEvent : Type 0 where
  pub id : Uuid
  pub tenant_id : Uuid
  pub credential_id : Option Uuid
  pub request_id : String
  pub source_ip : String
  pub status : UsageStatus
  pub rejection_reason : Option String
  pub upstream_status : Option ℕ
  pub latency_ms : Option ℕ
  pub upstream_latency_ms : Option ℕ
  pub request_size_bytes : Option ℕ
  pub response_size_bytes : Option ℕ
  pub user_agent : Option String
  pub geo_country : Option String
  pub geo_city : Option String
  pub geo_asn : Option String
  pub exceeds_quota : Bool
  pub occurred_at : Time
