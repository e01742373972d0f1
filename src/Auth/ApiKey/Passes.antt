-- ===== src/Auth/ApiKey/Passes.antt =====
-- Who passes the authentication by API key.
use tsa_proxy.Common.{
  ◌≡◌, ◌≢◌, ◌⊎◌, ◌↔◌, ◌≤◌, refl, sym, String, false, Option, none, some, List, [], ◌∷◌, length, ltb,
  if◌then◌else◌, Bool-cases, Option-cases, inl, inr, arith,
}
use tsa_proxy.ApiError.{
  Result, ok, failed, Answer, answer, refuse, err_unauthorized, err_tenant_suspended, Result-cases,
}
use tsa_proxy.Model.{Uuid, Time, TenantStatus, active, suspended, deleted}
use tsa_proxy.Auth.{
  Bytes, HttpRequest, Identity, Tenant, ApiCredential, CachedCredential, AuthEffect, set_credential,
}
use tsa_proxy.Auth.ApiKey.{
  KeyReplies, api_key, is_past, cached_of, refused, identity_of, admit, look_up, authenticate,
}

-- An active tenant's entry in the cache, whatever else holds; or, when there is none, an active
-- tenant's row whose expiry, if any, has not passed.
pub data IsKnown (req : HttpRequest) (r : KeyReplies) (hash : Bytes) (i : Identity) : Type 0 where
  from_cache :
      (c : CachedCredential)
      → r.get_credential hash ≡ ok c
      → c.tenant_status ≡ active
      → i ≡ identity_of req c
      → IsKnown req r hash i
  from_store :
      (cred : ApiCredential) (tenant : Tenant)
      → r.get_credential hash ≡ failed
      → r.find_by_hash hash ≡ ok (some (cred, tenant))
      → tenant.status ≡ active
      → ((t : Time) → cred.expires_at ≡ some t → r.now ≤ t)
      → i ≡ identity_of req (cached_of r cred tenant)
      → IsKnown req r hash i

status_cases : (s : TenantStatus) → (s ≡ active) ⊎ ((s ≡ suspended) ⊎ (s ≡ deleted))
status_cases active = inl refl
status_cases suspended = inr (inl refl)
status_cases deleted = inr (inr refl)

admit_iff :
    (req : HttpRequest) (c : CachedCredential) (es : List AuthEffect) (i : Identity)
    → ((admit req c es).0 ≡ answer i) ↔ ((c.tenant_status ≡ active) × (i ≡ identity_of req c))
unfolding admit
admit_iff req c es i = elim (status_cases c.tenant_status) [
  | inl on ↦ (
    (λ h. let h' : answer (identity_of req c) ≡ answer i = (rw (admit, on) at h) in (on, cc h')),
    (λ (_, same). rw (admit, on) (cc same)),
  )
  | inr (inl off) ↦ (
    (λ h.
        let h' : ◌≡◌ {A = Answer Identity} (refuse err_tenant_suspended) (answer i) =
          (rw (admit, off) at h) in
        cc h'),
    (λ (on, _). let both : suspended ≡ active = cc (on, off) in cc both),
  )
  | inr (inr off) ↦ (
    (λ h.
        let h' : ◌≡◌ {A = Answer Identity} (refuse err_unauthorized) (answer i) =
          (rw (admit, off) at h) in
        cc h'),
    (λ (on, _). let both : deleted ≡ active = cc (on, off) in cc both),
  )
]

is_past_iff :
    (now : Time) (e : Option Time) → (is_past now e ≡ false) ↔ ((t : Time) → e ≡ some t → now ≤ t)
unfolding is_past
is_past_iff now none = ((λ h t there. cc), (λ h. refl))
is_past_iff now (some t) = (
  (λ h t' there.
      let lt : now ≤ t = ground arith in let same : t ≡ t' = cc there in rw (sym same) lt),
  (λ h. let lt = h t refl in ground arith),
)

-- The three parts of a lookup: a hit, a miss with a row, and a miss without one.
hit :
    (req : HttpRequest) (r : KeyReplies) (hash : Bytes) (c : CachedCredential)
    → r.get_credential hash ≡ ok c
    → look_up req r hash ≡ admit req c []
unfolding look_up admit
hit req r hash c there = rw (look_up, there) refl

no_row :
    (req : HttpRequest) (r : KeyReplies) (hash : Bytes)
    → r.get_credential hash ≡ failed
    → ((r.find_by_hash hash ≡ failed) ⊎ (r.find_by_hash hash ≡ ok none))
    → look_up req r hash ≡ refused req none none "invalid_key"
unfolding look_up refused
no_row req r hash miss (inl e) = rw (look_up, miss) (rw e refl)
no_row req r hash miss (inr e) = rw (look_up, miss) (rw e refl)

row :
    (req : HttpRequest) (r : KeyReplies) (hash : Bytes) (found : ApiCredential × Tenant)
    → r.get_credential hash ≡ failed
    → r.find_by_hash hash ≡ ok (some found)
    → look_up req r hash ≡ (
        if is_past r.now found.0.expires_at
        then refused req none (some found.0.key_id) "credential_expired"
        else admit req
            (cached_of r found.0 found.1)
            (set_credential hash (cached_of r found.0 found.1) ∷ []))
unfolding look_up is_past
row req r hash found miss e = rw (look_up, miss) (rw e refl)

row_cases :
    (r : KeyReplies) (hash : Bytes)
    → ((r.find_by_hash hash ≡ failed) ⊎ (r.find_by_hash hash ≡ ok none))
      ⊎ ((found : ApiCredential × Tenant) × (r.find_by_hash hash ≡ ok (some found)))
row_cases r hash = elim (Result-cases (r.find_by_hash hash)) [
  | inl e ↦ inl (inl e)
  | inr (o, e) ↦ elim (Option-cases o) [
    | inl f ↦ inl (inr (cc (e, f)))
    | inr (found, f) ↦ inr (found, cc (e, f))
  ]
]

refused_never :
    (req : HttpRequest) (t : Option Uuid) (k : Option String) (why : String) (i : Identity)
    → (refused req t k why).0 ≢ answer i
unfolding refused
refused_never req t k why i h = cc

known_of :
    (req : HttpRequest) (r : KeyReplies) (hash : Bytes) (i : Identity)
    → (look_up req r hash).0 ≡ answer i
    → IsKnown req r hash i
unfolding cached_of
known_of req r hash i h = elim (Result-cases (r.get_credential hash)) [
  | inr (c, there) ↦
      let (on, same) = (admit_iff req c [] i).0 (rw (hit req r hash c there) at h) in
      from_cache c there on same
  | inl miss ↦ elim (row_cases r hash) [
    | inl none_there ↦
        elim (refused_never req none none "invalid_key" i
          (rw (no_row req r hash miss none_there) at h)) [ ]
    | inr (found, e) ↦
        let h' = (rw (row req r hash found miss e) at h) in
        elim (Bool-cases (is_past r.now found.0.expires_at)) [
          | inl past ↦
              elim (refused_never req none (some found.0.key_id) "credential_expired" i
                (rw past at h')) [ ]
          | inr yet ↦
              let c = cached_of r found.0 found.1 in
              let (on, same) = (admit_iff req c (set_credential hash c ∷ []) i).0 (rw yet at h') in
              from_store found.0 found.1 miss e on ((is_past_iff r.now found.0.expires_at).0 yet)
                same
        ]
  ]
]

of_known :
    (req : HttpRequest) (r : KeyReplies) (hash : Bytes) (i : Identity)
    → IsKnown req r hash i
    → (look_up req r hash).0 ≡ answer i
unfolding cached_of
of_known req r hash i (from_cache c there on same) =
    rw (hit req r hash c there) ((admit_iff req c [] i).1 (on, same))
of_known req r hash i (from_store cred tenant miss e on yet same) =
    let c = cached_of r cred tenant in
    let yet' = (is_past_iff r.now cred.expires_at).1 yet in
    rw (row req r hash (cred, tenant) miss e)
      (rw yet' ((admit_iff req c (set_credential hash c ∷ []) i).1 (on, same)))

-- A request passes with an identity exactly if it carries a key of at least ten bytes whose hash is
-- known: there is an entry in the cache and its tenant is active, or there is none, and a row of an
-- active tenant that has not expired.
pub authenticate_iff :
    (sha256 : Bytes → Bytes) (req : HttpRequest) (r : KeyReplies) (i : Identity)
    → ((authenticate sha256 req r).0 ≡ answer i)
      ↔ ((10 ≤ length (api_key req)) × IsKnown req r (sha256 (api_key req)) i)
unfolding authenticate
authenticate_iff sha256 req r i = elim (Bool-cases (ltb (length (api_key req)) 10)) [
  | inl short ↦ ((λ h. let h' = (rw short at h) in cc), (λ (long, _). ground arith))
  | inr long ↦ (
    (λ h. let h' = (rw long at h) in (ground arith, known_of req r (sha256 (api_key req)) i h')),
    (λ (_, known). rw long (of_known req r (sha256 (api_key req)) i known)),
  )
]

-- The key of a request that missed the cache and passed by its row passes again, as the same
-- identity, whatever the clock says and whatever the row has become, while the entry that was made of
-- the row is in the cache: so also after the expiry, which the entry does not keep.
pub cached_key_passes :
    (sha256 : Bytes → Bytes) (req : HttpRequest) (r later : KeyReplies) (cred : ApiCredential)
    (tenant : Tenant) (i : Identity)
    → r.get_credential (sha256 (api_key req)) ≡ failed
    → r.find_by_hash (sha256 (api_key req)) ≡ ok (some (cred, tenant))
    → (authenticate sha256 req r).0 ≡ answer i
    → later.get_credential (sha256 (api_key req)) ≡ ok (cached_of r cred tenant)
    → (authenticate sha256 req later).0 ≡ answer i
unfolding cached_of
cached_key_passes sha256 req r later cred tenant i miss e passed kept =
    let (long, known) = (authenticate_iff sha256 req r i).0 passed in
    elim known [
      | from_cache c there on same ↦
          let both : ◌≡◌ {A = Result CachedCredential} (ok c) failed = cc (there, miss) in cc both
      | from_store cred' tenant' miss' e' on yet same ↦
          let c : cred' ≡ cred = cc (e, e') in
          let t : tenant' ≡ tenant = cc (e, e') in
          (authenticate_iff sha256 req later i).1
            (long, from_cache (cached_of r cred tenant) kept (cc (on, t)) (cc (same, c, t)))
    ]
