-- ===== src/Auth/Tsp/Same.antt =====
-- With a Basic header, the middleware of /tsp is the one of Basic.
use tsa_proxy.Common.{
  ◌≡◌, refl, true, List, [], ◌∷◌, str_eq, Option-cases, inl, inr, arith, Bool-cases,
}
use tsa_proxy.ApiError.{Answer, answer, refuse}
use tsa_proxy.Model.{Uuid}
use tsa_proxy.Auth.{
  Authenticated, Bytes, Codec, HttpRequest, Tenant, BasicAuthCredential, CachedBasicAuth,
  AuthEffect, set_basic_auth, hex, is_barred, is_barred_text, bytes_equal, has_prefix, basic_scheme,
  split_colon, trim_prefix,
}
use tsa_proxy.Auth.Basic.{
  BasicReplies, is_active, parsed_tenant, check_cached, check_stored, entry_of, identity_of,
  pass_on, verify, authenticate,
}
use tsa_proxy.Auth.Basic.Cached.{row_cases}
use tsa_proxy.Auth.Tsp.{
  NoAuth, tsp_cached, tsp_stored, tsp_verify, tsp_basic, tsp_tenant, tsp_identity, tsp_authenticate,
}

bytes_equal_sym : (xs ys : Bytes) → bytes_equal xs ys ≡ bytes_equal ys xs
unfolding bytes_equal
bytes_equal_sym [] [] = refl
bytes_equal_sym [] (y ∷ ys) = refl
bytes_equal_sym (x ∷ xs) [] = refl
bytes_equal_sym (x ∷ xs) (y ∷ ys) = rw (bytes_equal_sym xs ys) (ground arith)

tsp_cached-eq :
    (codec : Codec) (c : CachedBasicAuth) (h : Bytes)
    → tsp_cached codec c h ≡ check_cached codec c h
unfolding tsp_cached check_cached parsed_tenant is_barred_text
tsp_cached-eq codec c h = rw (bytes_equal_sym (hex h) c.key_hash) refl

-- What flow 1 leaves in the context.
abbrev identified : HttpRequest → Answer Uuid × List AuthEffect → Authenticated
identified req found = (tsp_identity req found.0, found.1)

identified_alone : (req : HttpRequest) (a : Answer Uuid) → identified req (a, []) ≡ pass_on req a []
unfolding tsp_identity pass_on identity_of
identified_alone req (refuse e) = refl
identified_alone req (answer t) = refl

cached_same :
    (codec : Codec) (req : HttpRequest) (c : CachedBasicAuth) (h : Bytes)
    → identified req (tsp_cached codec c h, []) ≡ pass_on req (check_cached codec c h) []
cached_same codec req c h =
    rw (tsp_cached-eq codec c h) (identified_alone req (check_cached codec c h))

stored_same :
    (codec : Codec) (req : HttpRequest) (u : Bytes) (cred : BasicAuthCredential) (tenant : Tenant)
    (h : Bytes)
    → identified req (tsp_stored codec u cred tenant h)
      ≡ pass_on req
          (check_stored cred tenant h)
          (set_basic_auth u (entry_of codec cred tenant) ∷ [])
unfolding tsp_stored check_stored entry_of pass_on tsp_identity identity_of
stored_same codec req u cred tenant h = elim (Bool-cases (is_active cred.status)) [
  | inr off ↦ rw off refl
  | inl on ↦ elim (Bool-cases (is_barred tenant.status)) [
    | inl barred ↦ rw on (rw barred refl)
    | inr free ↦ elim (Bool-cases (bytes_equal cred.key_hash h)) [
      | inl same ↦ rw on (rw free (rw same refl))
      | inr other ↦ rw on (rw free (rw other refl))
    ]
  ]
]

verify_same :
    (codec : Codec) (req : HttpRequest) (r : BasicReplies) (u p : Bytes)
    → identified req (tsp_verify codec r u p) ≡ verify codec req r u p
unfolding verify tsp_verify
verify_same codec req r u p = elim (Option-cases (r.get_basic_auth u)) [
  | inr (c, there) ↦ rw (verify, tsp_verify, there) (cached_same codec req c (codec.sha256 p))
  | inl miss ↦ elim (row_cases r u) [
    | inl (inl e) ↦ rw (verify, tsp_verify, miss) (rw e (unfold tsp_identity in refl))
    | inl (inr e) ↦ rw (verify, tsp_verify, miss) (rw e (unfold tsp_identity in refl))
    | inr (row, e) ↦
        rw (verify, tsp_verify, miss) (rw e (stored_same codec req u row.0 row.1 (codec.sha256 p)))
  ]
]

basic_same :
    (codec : Codec) (req : HttpRequest) (r : BasicReplies)
    → has_prefix req.authorization basic_scheme ≡ true
    → identified req (tsp_basic codec req r) ≡ authenticate codec req r
unfolding tsp_basic authenticate
basic_same codec req r scheme =
    let decoded = codec.base64_decode (trim_prefix req.authorization basic_scheme) in
    elim (Option-cases decoded) [
      | inl bad ↦ rw (tsp_basic, authenticate, bad) (rw scheme (unfold tsp_identity in refl))
      | inr (text, e) ↦ elim (Option-cases (split_colon text)) [
        | inl bad ↦ rw (tsp_basic, authenticate, e) (rw (scheme, bad) (unfold tsp_identity in refl))
        | inr (pair, f) ↦
            rw (tsp_basic, authenticate, e) (rw (scheme, f) (verify_same codec req r pair.0 pair.1))
      ]
    ]

tenant_same :
    (codec : Codec) (req : HttpRequest) (r : BasicReplies) (find_tenant_by_ip : NoAuth)
    → has_prefix req.authorization basic_scheme ≡ true
    → tsp_tenant codec req r find_tenant_by_ip ≡ tsp_basic codec req r
unfolding tsp_tenant
tenant_same codec req r find_tenant_by_ip scheme = elim (Bool-cases (str_eq req.method "GET")) [
  | inl get ↦ rw (get, scheme) refl
  | inr other ↦ rw (other, scheme) refl
]

-- A request with a Basic header is decided by the middleware of /tsp as by that of Basic, whatever
-- its method: with the same answer, the same identity and the same entry in the cache.
pub tsp-eq-basic :
    (codec : Codec) (req : HttpRequest) (r : BasicReplies) (find_tenant_by_ip : NoAuth)
    → has_prefix req.authorization basic_scheme ≡ true
    → tsp_authenticate codec req r find_tenant_by_ip ≡ authenticate codec req r
unfolding tsp_authenticate
tsp-eq-basic codec req r find_tenant_by_ip scheme =
    rw (tenant_same codec req r find_tenant_by_ip scheme) (basic_same codec req r scheme)
