-- ===== src/Tests/Upstreams.antt =====
-- A stored upstream that moves to another host, the default, a password that is stored, and a slug.
use tsa_proxy.Common.{
  ℕ, zero, suc, ◌≡◌, refl, true, false, none, some, List, [], ◌∷◌, ◌++◌, ◌==◌, length,
  if◌then◌else◌, str_eq, arith,
}
use tsa_proxy.Common.Int.{pos}
use tsa_proxy.ApiError.{ok, answer}
use tsa_proxy.Model.{TenantStatus, active}
use tsa_proxy.Auth.{HttpRequest, ApiCredential, BasicAuthCredential}
use tsa_proxy.Auth.ApiKey
use tsa_proxy.Auth.Basic
use tsa_proxy.Auth.UrlToken
use tsa_proxy.Tenants.Lifecycle.{TenantRow, TenantEnv, find_tenant, has_id, set_status, suspend}
use tsa_proxy.Tenants.Lifecycle.Suspended.{
  seen, IsRefused, key_row, user_row, token_row, suspend-IsRefused,
}
use tsa_proxy.Auth.{Bytes}
use tsa_proxy.SecretBox.{Aead, secret_prefix, encrypt, seal_with, decrypt}
use tsa_proxy.SecretBox.RoundTrip.{IsLawful, decrypt-encrypt}
use tsa_proxy.Upstream.Allowlist.{
  validate_url, same_host, same_hostname, check_allowlist, check_host, public_addresses,
  is_web_scheme, is_listed,
}
use tsa_proxy.Upstream.Address.{is_private_or_reserved, to4}
use tsa_proxy.UpstreamAdmin.{
  Upstream, Config, Faults, upstream_response, get_by_id, get_default, find_upstream, read_found,
  read_row, is_stored, decrypt_password, readable, encrypt_password, update, set_columns,
  at_upstream, set_default, clear_default, mark_default,
}
use tsa_proxy.UpstreamAdmin.Handlers.{
  UpstreamRequest, update_upstream, apply_request, apply_url, move_host, has_credentials, rename,
  apply_credentials, chosen_text, chosen_bytes, drop_half, apply_rest, save_upstream, given_text,
}
use tsa_proxy.UpstreamAdmin.Credentials.{IsMoved}
use tsa_proxy.UpstreamAdmin.Stored.{IsWritten, update_upstream-host}
use tsa_proxy.UpstreamAdmin.Default.{marked, get_default-set_default}
use tsa_proxy.Tenants.{slugify}
use tsa_proxy.Tenants.Slug.{IsSlug, slugify-IsSlug}
use tsa_proxy.Tests.Clients.{net}
use tsa_proxy.Tests.Guarding.{codec, http_request, row_replies}

-- Sealing in the open, with a nonce of two bytes.
abbrev aead : Aead
aead = record {
  accepts = λ key. length key == 32;
  nonce_size = 2;
  seal = λ k n p. p;
  open_sealed = λ k n s. some s;
  encode = λ s. s;
  decode = λ s. some s;
}

abbrev config : Config
config = record {
  net = record net {
    parse_url = λ url.
        if str_eq url "https://old.example"
        then some (record { scheme = "https"; hostname = "old.example" })
        else some (record { scheme = "https"; hostname = "tsa.example" });
  };
  aead = aead;
  encryption_key = none;
  allowed_hosts = "tsa.example" ∷ [];
}

abbrev faults : Faults
faults = record {
  read_fails = false;
  write_fails = false;
  nonce_drawn = some (1 ∷ 2 ∷ []);
  fresh = 9;
}

abbrev row : Upstream
row = record {
  id = 4;
  name = "TSA";
  url = "https://old.example";
  env_key_user = none;
  env_key_pass = none;
  username = some "ana";
  password = some (112 ∷ 119 ∷ []);
  has_password = true;
  timeout_ms = pos 10000;
  max_retries = pos 1;
  is_active = true;
  is_default = true;
}

abbrev move : UpstreamRequest
move = record {
  name = "";
  url = "https://tsa.example";
  username = some "ana";
  password = none;
  timeout_ms = pos 0;
  max_retries = pos 1;
  is_active = none;
}

abbrev bare : Upstream
bare = record row {
  url = "https://tsa.example";
  username = none;
  password = none;
  has_password = false;
}

found : find_upstream (λ u. u.id == 4) (row ∷ []) ≡ some row
unfolding find_upstream
found = refl

other_host : same_host config.net "https://old.example" "https://tsa.example" ≡ false
unfolding same_host same_hostname
other_host = refl

moved :
    (update_upstream config faults (some 4) (some move) (row ∷ [])).reply
    ≡ answer (upstream_response bare true)
unfolding update_upstream get_by_id find_upstream read_found read_row is_stored decrypt_password
    readable decrypt apply_request apply_url move_host has_credentials rename apply_credentials
    chosen_text chosen_bytes drop_half apply_rest save_upstream update set_columns at_upstream
    encrypt_password given_text same_host same_hostname validate_url check_allowlist check_host
    public_addresses is_web_scheme is_listed is_private_or_reserved to4
moved = refl

update_upstream-host_example :
    (v : Upstream) × (IsMoved config move 4 v
      × IsWritten config faults v row
          (update_upstream config faults (some 4) (some move) (row ∷ [])).upstreams)
update_upstream-host_example =
    update_upstream-host config faults 4 move (row ∷ []) row (upstream_response bare true) found
      refl other_host moved

abbrev two : List Upstream
two = row ∷ record row { id = 5; is_default = false; is_active = false } ∷ []

abbrev two_after : List Upstream
two_after = record row { is_default = false } ∷ record row { id = 5 } ∷ []

was_set : set_default faults 5 two ≡ ok two_after
unfolding set_default at_upstream clear_default mark_default
was_set = refl

get_default-set_default_example :
    get_default config faults two_after
    ≡ ok (read_found config (marked (find_upstream (λ u. u.id == 5) two)))
get_default-set_default_example =
    get_default-set_default config faults faults 5 two two_after was_set refl

slugify-IsSlug_example : IsSlug (slugify (λ s. s) (32 ∷ 97 ∷ 95 ∷ 32 ∷ 49 ∷ 45 ∷ []))
slugify-IsSlug_example = slugify-IsSlug (λ s. s) (32 ∷ 97 ∷ 95 ∷ 32 ∷ 49 ∷ 45 ∷ [])

lawful : IsLawful aead
lawful = record {
  opens = λ k n p text. refl;
  decodes = λ s bytes. refl;
  seals_bytes = λ k n p text. text;
}

abbrev zeros : ℕ → Bytes
zeros zero = []
zeros (suc n) = 0 ∷ zeros n

abbrev secret : Bytes
secret = secret_prefix ++ (1 ∷ 2 ∷ 112 ∷ 119 ∷ [])

encrypted : encrypt aead (some (1 ∷ 2 ∷ [])) (112 ∷ 119 ∷ []) (some (zeros 32)) ≡ ok secret
unfolding encrypt seal_with
encrypted = refl

decrypt-encrypt_example : decrypt aead secret (some (zeros 32)) ≡ ok (112 ∷ 119 ∷ [])
decrypt-encrypt_example =
    decrypt-encrypt aead lawful (1 ∷ 2 ∷ []) (omega arith, (omega arith, tt)) refl (zeros 32)
      (112 ∷ 119 ∷ []) secret (omega arith, (omega arith, tt)) encrypted

abbrev tenant_env : TenantEnv
tenant_env = record {
  lower = λ s. s;
  trim_space = λ s. s;
  fresh = 9;
  read_fails = false;
  write_fails = false;
}

abbrev tenant : ℕ → TenantStatus → TenantRow
tenant id status = record {
  id = id;
  name = 97 ∷ id ∷ [];
  slug = 97 ∷ id ∷ [];
  description = none;
  status = status;
  contact_email = none;
}

abbrev tenants : List TenantRow
tenants = tenant 50 active ∷ tenant 51 active ∷ []

abbrev tenant_cred : ApiCredential
tenant_cred = record { id = 8; key_id = "k"; expires_at = none }

was_suspended : (suspend tenant_env 51 tenants).result ≡ ok tt
unfolding suspend set_status find_tenant has_id
was_suspended = refl

abbrev tenant_user : BasicAuthCredential
tenant_user = record { id = 6; key_hash = 1 ∷ 2 ∷ []; status = active }

-- With an API key, a user of Basic and a token in the URL.
abbrev tenant_request : HttpRequest
tenant_request = record http_request {
  url_token = 1 ∷ 2 ∷ 3 ∷ 4 ∷ 5 ∷ 6 ∷ 7 ∷ 8 ∷ 9 ∷ 10 ∷ 11 ∷ 12 ∷ 13 ∷ 14 ∷ 15 ∷ 16 ∷ [];
}

suspend-IsRefused_example :
    let rows = (suspend tenant_env 51 tenants).rows in
    (t : TenantRow) × ((find_tenant (has_id 51) rows ≡ some t)
      × IsRefused
          (ApiKey.authenticate codec.sha256 tenant_request
            (key_row row_replies tenant_cred (seen t))).0
      × IsRefused (Basic.authenticate codec tenant_request (user_row tenant_user (seen t))).0
      × IsRefused
          (UrlToken.resolve_token codec tenant_request
            (token_row tenant_cred (seen t) row_replies.now)).0
      × (find_tenant (has_id 50) rows ≡ find_tenant (has_id 50) tenants))
suspend-IsRefused_example =
    suspend-IsRefused tenant_env 51 tenants tenant_request codec row_replies tenant_cred tenant_user
      50 refl was_suspended
