-- ===== src/Stamp/Effects.antt =====
-- internal/service/proxy/service.go: the request, what the calls of one run of Process reply, and the
-- calls that change something, in the order in which the code makes them. A call in a goroutine
-- stands where it is started.
use tsa_proxy.Common.{ℕ, String, Bool, Option, List, [], ◌++◌, ◌≡◌, refl, ◌↔◌, ◌⊎◌, inl, inr}
use tsa_proxy.Common.Int.{ℤ}
use tsa_proxy.ApiError.{ApiError, Result, Answer, answer, refuse}
use tsa_proxy.Model.{Uuid, Time, TenantQuota, TsaUpstream, UsageStatus, UsageEvent}
use tsa_proxy.Upstream.Client.{Exchange, ClientEvent}

-- proxy.Request
pub record Request : Type 0 where
  pub body : List ℕ
  pub tenant_id : Uuid
  pub credential_id : Uuid
  pub source_ip : String
  pub request_id : String
  pub request_size : ℕ
  pub user_agent : String

-- proxy.Result
pub record Stamped : Type 0 where
  pub body : List ℕ
  pub upstream_status : ℕ
  pub latency_ms : ℕ
  pub upstream_latency_ms : ℕ

-- The settings that the flow reads.
pub record Settings : Type 0 where
  pub upstream_url : String
  pub upstream_username : String
  pub upstream_password : String
  pub upstream_timeout_ms : ℤ
  pub upstream_max_retries : ℤ
  pub upstream_max_body : ℤ

-- geoloc.GeoInfo
pub record GeoInfo : Type 0 where
  pub country : String
  pub city : String
  pub asn : String

-- What the calls reply. A field about the cache is read only if the service has one.
pub record Replies : Type 0 where
  pub has_cache : Bool
  pub cached_quota : Option TenantQuota
  pub stored_quota : Result (Option TenantQuota)
  pub cached_contracted : Result ℕ
  pub stored_contracted : Result ℕ
  pub cached_consumed : Result ℕ
  pub stored_consumed : Result ℕ
  pub cached_upstream : Option TsaUpstream
  pub stored_upstream : Result (Option TsaUpstream)
  pub getenv : String → String
  pub exchange : ℕ → Exchange
  pub cancelled : ℕ → Bool
  pub total_latency_ms : ℕ
  pub upstream_latency_ms : ℕ
  pub now : Time
  pub year : ℕ
  pub month : ℕ
  pub event_id : Uuid
  pub split_host_port : String → Option (String × String)
  pub geolocate : Option (String → Option GeoInfo)
  pub aggregate_written : Bool
  pub notifier_enabled : Bool
  pub throttle : Result Bool

pub data Effect : Type 0 where
  set_tenant_quota : Uuid → TenantQuota → Effect
  set_bundle_contracted : Uuid → ℕ → Effect
  seed_bundle_consumed : Uuid → ℕ → Effect
  set_default_upstream : TsaUpstream → Effect
  call_upstream : List ClientEvent → Effect
  insert_event : UsageEvent → Effect
  upsert_monthly_aggregate : Uuid → ℕ → ℕ → UsageStatus → ℕ → Effect
  incr_bundle_consumed : Uuid → Effect
  check_bundle_alerts : Uuid → Effect
  try_acquire_throttle : Uuid → Effect
  update_last_used : Uuid → String → Effect

-- A part of the flow: it answers or refuses, and leaves effects either way.
abbrev pub Run {ℓ} : Type ℓ → Type ℓ
Run A = Answer A × List Effect

infixl 5 ◌>>=◌ ◌>>◌
abbrev pub ◌>>=◌ {ℓ κ} : {A : Type ℓ} {B : Type κ} → Run A → (A → Run B) → Run B
(answer a, es) >>= f = ((f a).0, es ++ (f a).1)
(refuse e, es) >>= f = (refuse e, es)

abbrev pub ◌>>◌ {ℓ} : {B : Type ℓ} → Run (Unit {0}) → Run B → Run B
m >> k = m >>= λ _. k

abbrev pub pure {ℓ} : {A : Type ℓ} → A → Run A
pure a = (answer a, [])

abbrev pub stop {ℓ} : {A : Type ℓ} → ApiError → Run A
stop e = (refuse e, [])

abbrev pub tell : List Effect → Run (Unit {0})
tell es = (answer tt, es)

-- A bind answers exactly if both its parts do.
pub bind_answers {ℓ κ} :
    {A : Type ℓ} {B : Type κ} (m : Run A) (f : A → Run B) (b : B)
    → ((m >>= f).0 ≡ answer b) ↔ ((a : A) × (m.0 ≡ answer a) × ((f a).0 ≡ answer b))
bind_answers (answer a, es) f b =
    ((λ h. (a, refl, h)), (λ (a', same, h). let e : a ≡ a' = cc in rw e h))
bind_answers (refuse e, es) f b = ((λ h. cc), (λ (a', same, h). cc))

pub bind_refuses {ℓ κ} :
    {A : Type ℓ} {B : Type κ} (m : Run A) (f : A → Run B) (e : ApiError)
    → ((m >>= f).0 ≡ refuse e)
      ↔ ((m.0 ≡ refuse e) ⊎ ((a : A) × (m.0 ≡ answer a) × ((f a).0 ≡ refuse e)))
bind_refuses (answer a, es) f e = (
  (λ h. inr (a, refl, h)),
  elim [ inl same ↦ cc | inr (a', same, h) ↦ let same' : a ≡ a' = cc in rw same' h ],
)
bind_refuses (refuse d, es) f e = (
  (λ h. let same : d ≡ e = cc in inl (rw same)),
  elim [ inl same ↦ let same' : d ≡ e = cc in rw same' | inr (a', same, h) ↦ cc ],
)
