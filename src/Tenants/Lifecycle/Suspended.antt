-- ===== src/Tenants/Lifecycle/Suspended.antt =====
-- What a suspension does to the tenant and to the others.
use tsa_proxy.Common.{
  ◌≡◌, refl, ap, false, none, some, List, [], ◌∷◌, ◌==◌, length, ltb, Bool-cases, Option-cases, inl,
  inr, arith,
}
use mathlib.Core.Option.{some-injective}
use tsa_proxy.ApiError.{
  ApiError, ok, failed, Answer, refuse, err_unauthorized, err_tenant_suspended,
}
use tsa_proxy.Model.{Uuid, Time, TenantStatus, suspended}
use tsa_proxy.Auth.{
  Bytes, Codec, HttpRequest, Tenant, ApiCredential, BasicAuthCredential, is_barred, has_prefix,
  split_colon, trim_prefix, basic_scheme,
}
use tsa_proxy.Auth.ApiKey
use tsa_proxy.Auth.ApiKey.{KeyReplies}
use tsa_proxy.Auth.Basic
use tsa_proxy.Auth.Basic.{BasicReplies}
use tsa_proxy.Auth.UrlToken
use tsa_proxy.Auth.UrlToken.{TokenReplies}
use tsa_proxy.Tenants.Lifecycle.{
  TenantRow, TenantEnv, fail, find_tenant, has_id, at_tenant, put_status, set_status, suspend,
}

-- What authentication reads of a row.
abbrev pub seen : TenantRow → Tenant
seen t = record { id = t.id; status = t.status }

module _ (id : Uuid) (status : TenantStatus) where
  find-at_tenant :
      (rows : List TenantRow) (t : TenantRow)
      → find_tenant (has_id id) rows ≡ some t
      → find_tenant (has_id id) (at_tenant id (put_status status) rows) ≡ some (put_status status t)
  unfolding find_tenant at_tenant has_id put_status
  find-at_tenant [] t h = cc
  find-at_tenant (u ∷ us) t h = elim (Bool-cases (u.id == id)) [
    | inl e ↦
        let h' : some u ≡ some t = (simp e at h) in
        simp e (ap (λ x. some (put_status status x)) (some-injective _ _ h'))
    | inr e ↦
        let h' : find_tenant (has_id id) us ≡ some t = (simp e at h) in
        simp e (find-at_tenant us t h')
  ]

  find_other-at_tenant :
      (j : Uuid) (rows : List TenantRow)
      → (j == id) ≡ false
      → find_tenant (has_id j) (at_tenant id (put_status status) rows) ≡ find_tenant (has_id j) rows
  unfolding find_tenant at_tenant has_id put_status
  find_other-at_tenant j [] other = refl
  find_other-at_tenant j (u ∷ us) other = elim (Bool-cases (u.id == id)) [
    | inl e ↦
        let not_j : (u.id == j) ≡ false = (ground (arith, e, other)) in
        simp (e, not_j) (find_other-at_tenant j us other)
    | inr e ↦ simp e (elim (Bool-cases (u.id == j)) [
      | inl k ↦ simp k refl
      | inr k ↦ simp k (find_other-at_tenant j us other)
    ])
  ]

abbrev pub IsRefused {ℓ} : {A : Type ℓ} → Answer A → Type ℓ
IsRefused {A} a = (e : ApiError) × (a ≡ refuse e)

-- A miss of the cache and a row, for each kind of credential.
abbrev pub key_row : KeyReplies → ApiCredential → Tenant → KeyReplies
key_row r cred tenant = record r {
  get_credential = λ _. failed;
  find_by_hash = λ _. ok (some (cred, tenant));
}

abbrev pub user_row : BasicAuthCredential → Tenant → BasicReplies
user_row cred tenant = record {
  get_basic_auth = λ _. none;
  find_by_username = λ _. ok (some (cred, tenant));
}

abbrev pub token_row : ApiCredential → Tenant → Time → TokenReplies
token_row cred tenant now = record {
  get_credential_by_token = λ _. none;
  find_by_url_token = λ _. ok (some (cred, tenant));
  now = now;
}

-- The three ways into the proxy for a tenant who is suspended.
module _ (tenant : Tenant) (out : tenant.status ≡ suspended) (req : HttpRequest) where
  key-IsRefused :
      (sha256 : Bytes → Bytes) (r : KeyReplies) (cred : ApiCredential)
      → IsRefused (ApiKey.authenticate sha256 req (key_row r cred tenant)).0
  unfolding ApiKey.authenticate ApiKey.look_up ApiKey.admit ApiKey.refused ApiKey.cached_of
  key-IsRefused sha256 r cred = elim (Bool-cases (ltb (length (ApiKey.api_key req)) 10)) [
    | inl short ↦ rw short (err_unauthorized, refl)
    | inr long ↦ rw long (elim (Bool-cases (ApiKey.is_past r.now cred.expires_at)) [
      | inl past ↦ rw past (err_unauthorized, refl)
      | inr yet ↦ rw yet (rw out (err_tenant_suspended, refl))
    ])
  ]

  row-IsRefused :
      (codec : Codec) (cred : BasicAuthCredential) (u p : Bytes)
      → IsRefused (Basic.verify codec req (user_row cred tenant) u p).0
  unfolding Basic.verify Basic.check_stored Basic.pass_on is_barred
  row-IsRefused codec cred u p = elim (Bool-cases (Basic.is_active cred.status)) [
    | inl live ↦ rw live (rw out (err_tenant_suspended, refl))
    | inr ended ↦ rw ended (err_unauthorized, refl)
  ]

  user-IsRefused :
      (codec : Codec) (cred : BasicAuthCredential)
      → IsRefused (Basic.authenticate codec req (user_row cred tenant)).0
  unfolding Basic.authenticate
  user-IsRefused codec cred = elim (Bool-cases (has_prefix req.authorization basic_scheme)) [
    | inr other ↦ rw other (err_unauthorized, refl)
    | inl basic ↦
        rw basic
          (elim (Option-cases (codec.base64_decode (trim_prefix req.authorization basic_scheme))) [
            | inl e ↦ rw e (err_unauthorized, refl)
            | inr (decoded, e) ↦ rw e (elim (Option-cases (split_colon decoded)) [
              | inl f ↦ rw f (err_unauthorized, refl)
              | inr ((u, p), f) ↦ rw f (row-IsRefused codec cred u p)
            ])
          ])
  ]

  token-IsRefused :
      (codec : Codec) (cred : ApiCredential) (now : Time)
      → IsRefused (UrlToken.resolve_token codec req (token_row cred tenant now)).0
  unfolding UrlToken.resolve_token UrlToken.token_stored UrlToken.token_pass is_barred
  token-IsRefused codec cred now = elim (Bool-cases (ltb (length req.url_token) 16)) [
    | inl short ↦ rw short (err_unauthorized, refl)
    | inr long ↦ rw long (rw out (err_tenant_suspended, refl))
  ]

-- After a suspension that succeeds the row of the tenant is there, and a request that misses the cache
-- and reads it is refused: with any API key, with any user and password of Basic, and with any URL
-- token of the tenant, at any time. The rows of all other tenants are as they were.
pub suspend-IsRefused :
    (env : TenantEnv) (id : Uuid) (rows : List TenantRow) (req : HttpRequest) (codec : Codec)
    (r : KeyReplies) (cred : ApiCredential) (user : BasicAuthCredential) (j : Uuid)
    (other : (j == id) ≡ false)
    → (suspend env id rows).result ≡ ok tt
    → let rows' = (suspend env id rows).rows in
      (t : TenantRow) × ((find_tenant (has_id id) rows' ≡ some t)
        × IsRefused (ApiKey.authenticate codec.sha256 req (key_row r cred (seen t))).0
        × IsRefused (Basic.authenticate codec req (user_row user (seen t))).0
        × IsRefused (UrlToken.resolve_token codec req (token_row cred (seen t) r.now)).0
        × (find_tenant (has_id j) rows' ≡ find_tenant (has_id j) rows))
unfolding suspend set_status fail put_status
suspend-IsRefused env id rows req codec r cred user j other h = elim (Bool-cases env.write_fails) [
  | inl d ↦ let h' = (rw (suspend, set_status, d) at h) in cc
  | inr d ↦ elim (Option-cases (find_tenant (has_id id) rows)) [
    | inl e ↦ let h' = (rw (suspend, set_status, d, e) at h) in cc
    | inr (t, e) ↦
        let out : TenantRow = put_status suspended t in
        (
          out,
          (
            rw (suspend, set_status, d, e) (find-at_tenant id suspended rows t e),
            key-IsRefused (seen out) refl req codec.sha256 r cred,
            user-IsRefused (seen out) refl req codec user,
            token-IsRefused (seen out) refl req codec cred r.now,
            rw (suspend, set_status, d, e) (find_other-at_tenant id suspended j rows other),
          ),
        )
  ]
]
