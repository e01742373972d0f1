-- ===== src/Tests/Guarding.antt =====
-- A Redis of counters, a key, a user and an address, and a request that passes every check.
use tsa_proxy.Common.{
  ℕ, suc, ◌≡◌, ◌≢◌, ◌≤◌, ◌↔◌, ◌==◌, refl, ap, ◌∙◌, ◌*◌, ◌/◌, min, arith, String, Bool, true, false,
  none, some, [], ◌∷◌, length, if◌then◌else◌, str_eq,
}
use tsa_proxy.Common.Int.{ℤ, pos}
use tsa_proxy.ApiError.{ok, failed, answer}
use tsa_proxy.Model.{Uuid, active}
use tsa_proxy.RateLimit.{Key, global_key, burst_key, Redis}
use tsa_proxy.RateLimit.Window.{IsCounting, passed_of, per_tenant-window}
use tsa_proxy.Tests.Encoding.{text_of, size, size-text_of, whole_seconds}
use tsa_proxy.Auth.{
  client_ip, has_prefix, is_barred, bytes_equal, tenant_status_text, Bytes, Codec, HttpRequest,
  Identity, Tenant, ApiCredential, BasicAuthCredential, set_basic_auth, basic_scheme,
}
use tsa_proxy.Auth.ApiKey.{
  KeyReplies, api_key, cached_of, look_up, admit, identity_of, is_past, key_of_basic,
  authenticate as authenticate_key,
}
use tsa_proxy.Auth.ApiKey.Passes.{IsKnown, authenticate_iff, cached_key_passes}
use tsa_proxy.Auth.Basic.{
  BasicReplies, entry_of, verify, authenticate, check_stored, pass_on, is_active,
}
use tsa_proxy.Auth.Basic.Cached.{cached_decision-eq-stored}
use tsa_proxy.Auth.Tsp.{tsp_authenticate}
use tsa_proxy.Auth.Tsp.Same.{tsp-eq-basic}
use tsa_proxy.Auth.UrlToken.{token_cached, token_stored, token_entry, is_past_text, expiry_text}
use tsa_proxy.Auth.UrlToken.Cached.{IsFaithful, token_cached-IsSafe}
use tsa_proxy.IpAllowlist.{Net, IpRequest, ip_of, get_cidrs, check}
use tsa_proxy.IpAllowlist.Admits.{AreOpen, check-passes_iff}

-- The state of this Redis is the value of each key, and INCR changes it at its key.
abbrev same_key : Key → Key → Bool
same_key (global_key a) (global_key b) = a == b
same_key (burst_key a) (burst_key b) = a == b
same_key (global_key a) (burst_key b) = false
same_key (burst_key a) (global_key b) = false

same_key_refl : (k : Key) → same_key k k ≡ true
same_key_refl (global_key a) = ground arith
same_key_refl (burst_key a) = ground arith

same_key_sound : (k l : Key) → k ≢ l → same_key k l ≡ false
same_key_sound (global_key a) (global_key b) apart =
    let different : a ≢ b = λ same. apart (ap global_key same) in ground arith
same_key_sound (burst_key a) (burst_key b) apart =
    let different : a ≢ b = λ same. apart (ap burst_key same) in ground arith
same_key_sound (global_key a) (burst_key b) apart = refl
same_key_sound (burst_key a) (global_key b) apart = refl

abbrev pub counters : Redis
counters = record {
  State = Key → ℕ;
  incr = λ k s. (ok (suc (s k)), λ l. if same_key k l then suc (s l) else s l);
  expire = λ k n s. (ok tt, s);
}

counting : IsCounting counters
counting = record {
  count = λ k s. s k;
  reply = λ k s. refl;
  bumped = λ k s. rw (same_key_refl k) refl;
  others = λ k l s apart. rw (same_key_sound k l apart) refl;
  expires = λ k n s. refl;
  kept = λ k l n s. refl;
}

-- Tenant 7 with two stamps a minute, between requests of tenant 8.
abbrev limits : Uuid → ℤ
limits u = if u == 7 then pos 2 else pos 0

abbrev pub no_counts : Key → ℕ
no_counts k = 0

per_tenant-window_example : passed_of counters limits 7 (7 ∷ 8 ∷ 7 ∷ 7 ∷ []) no_counts ≡ min 3 2
unfolding counting
per_tenant-window_example =
    per_tenant-window counters counting limits 7 (7 ∷ 8 ∷ 7 ∷ 7 ∷ []) no_counts refl

-- The identity in place of the hash and of base64, and texts of one character to a unit.
abbrev pub codec : Codec
codec = record {
  sha256 = λ bytes. bytes;
  base64_decode = λ bytes. some bytes;
  uuid_string = text_of;
  uuid_parse = λ s. some (size s);
  time_format = λ t. text_of (t / 1000000000);
  time_parse = λ s. some (size s * 1000000000);
}

faithful : IsFaithful codec
faithful = record {
  ids = λ u. ap some (size-text_of u);
  times = λ t.
      ap (λ n. some (n * 1000000000)) (size-text_of (t / 1000000000)) ∙ ap some (whole_seconds t);
}

-- "Basic u:p", and a key of ten bytes.
abbrev pub http_request : HttpRequest
http_request = record {
  method = "POST";
  apikey_query = 1 ∷ 2 ∷ 3 ∷ 4 ∷ 5 ∷ 6 ∷ 7 ∷ 8 ∷ 9 ∷ 10 ∷ [];
  basic = none;
  authorization = 66 ∷ 97 ∷ 115 ∷ 105 ∷ 99 ∷ 32 ∷ 117 ∷ 58 ∷ 112 ∷ [];
  url_token = [];
  real_ip = "203.0.113.5";
  remote_addr = "10.0.0.1:5000";
  request_id = "r1";
}

abbrev tenant : Tenant
tenant = record { id = 7; status = active }

abbrev api_credential : ApiCredential
api_credential = record { id = 8; key_id = "k"; expires_at = some 5000000000 }

abbrev pub row_replies : KeyReplies
row_replies = record {
  get_credential = λ _. failed;
  find_by_hash = λ _. ok (some (api_credential, tenant));
  get_tenant_burst_limit = λ _. ok (pos 30);
  now = 4000000000;
}

-- Ten seconds later, with the entry in the cache and no row.
abbrev entry_replies : KeyReplies
entry_replies = record {
  get_credential = λ _. ok (cached_of row_replies api_credential tenant);
  find_by_hash = λ _. ok none;
  get_tenant_burst_limit = λ _. failed;
  now = 14000000000;
}

abbrev pub plain : Bytes → Bytes
plain bytes = bytes

abbrev identity : Identity
identity = record {
  tenant_id = 7;
  credential_id = 8;
  burst_limit = pos 30;
  client_ip = "203.0.113.5";
}

authenticate_iff_example :
    ((authenticate_key plain http_request row_replies).0 ≡ answer identity) ↔ (
      (10 ≤ length (api_key http_request))
      × IsKnown http_request row_replies (api_key http_request) identity)
authenticate_iff_example = authenticate_iff plain http_request row_replies identity

known_key : (authenticate_key plain http_request row_replies).0 ≡ answer identity
unfolding authenticate_key api_key look_up admit identity_of cached_of client_ip is_past
    key_of_basic
known_key = refl

cached_key_passes_example : (authenticate_key plain http_request entry_replies).0 ≡ answer identity
cached_key_passes_example =
    cached_key_passes plain http_request row_replies entry_replies api_credential tenant identity
      refl refl known_key refl

abbrev basic_credential : BasicAuthCredential
basic_credential = record { id = 3; key_hash = 112 ∷ []; status = active }

abbrev row_found : BasicReplies
row_found = record {
  get_basic_auth = λ _. none;
  find_by_username = λ _. ok (some (basic_credential, tenant));
}

abbrev entry_found : BasicReplies
entry_found = record {
  get_basic_auth = λ _. some (entry_of codec basic_credential tenant);
  find_by_username = λ _. failed;
}

left_entry :
    (verify codec http_request row_found (117 ∷ []) (112 ∷ [])).1
    ≡ set_basic_auth (117 ∷ []) (entry_of codec basic_credential tenant) ∷ []
unfolding verify check_stored pass_on is_active is_barred bytes_equal
left_entry = refl

cached_decision-eq-stored_example :
    (verify codec http_request entry_found (117 ∷ []) (113 ∷ [])).0
    ≡ (verify codec http_request row_found (117 ∷ []) (113 ∷ [])).0
cached_decision-eq-stored_example =
    cached_decision-eq-stored codec (λ u. ap some (size-text_of u)) http_request http_request
      row_found entry_found (117 ∷ []) (112 ∷ []) (113 ∷ [])
      (entry_of codec basic_credential tenant) refl left_entry refl

has_scheme : has_prefix http_request.authorization basic_scheme ≡ true
unfolding has_prefix
has_scheme = refl

tsp-eq-basic_example :
    tsp_authenticate codec http_request row_found (λ _. failed)
    ≡ authenticate codec http_request row_found
tsp-eq-basic_example = tsp-eq-basic codec http_request row_found (λ _. failed) has_scheme

token_passes :
    token_cached codec (token_entry codec api_credential tenant) 4000000000 ≡ answer (7, 8)
unfolding token_cached token_entry is_past_text expiry_text tenant_status_text text_of size
token_passes = refl

token_cached-IsSafe_example : token_stored api_credential tenant 4000000000 ≡ answer (7, 8)
token_cached-IsSafe_example =
    token_cached-IsSafe codec faithful api_credential tenant 4000000000 (7, 8) token_passes

-- Addresses are texts, and a CIDR contains the one address that it is.
abbrev pub texts : Net
texts = record { Ip = String; parse_ip = λ s. some s; parse_cidr = λ c. some (str_eq c) }

abbrev ip_request : IpRequest
ip_request = record {
  tenant = some 7;
  context_ip = "203.0.113.5";
  real_ip = "";
  cached = λ _. failed;
  stored = λ _. ok ("198.51.100.1" ∷ "203.0.113.5" ∷ []);
}

check-passes_iff_example : ((check texts ip_request).0 ≡ answer tt) ↔ (
    (ip : String) × (some (ip_of ip_request) ≡ some ip)
    × AreOpen texts ip (get_cidrs ip_request 7).0)
check-passes_iff_example = check-passes_iff texts ip_request 7 refl
