-- ===== src/Auth/Basic/Cached.antt =====
-- The cache of Basic credentials against the rows that its entries were made from.
use tsa_proxy.Common.{
  ℕ, ◌/◌, ◌%◌, ◌≡◌, ◌⊎◌, refl, sym, ap, ◌==◌, Bool, ◌&&◌, none, some, List, [], ◌∷◌, str_eq,
  Option-cases, inl, inr, arith,
}
use tsa_proxy.ApiError.{ok, failed, Answer, answer, refuse, err_unauthorized, Result-cases}
use tsa_proxy.Model.{
  Uuid, TenantStatus, active, suspended, deleted, CredentialStatus, revoked, expired,
}
use tsa_proxy.Auth.{
  Bytes, Codec, HttpRequest, Tenant, BasicAuthCredential, CachedBasicAuth, AuthEffect,
  set_basic_auth, hex, hex_digit, tenant_status_text, credential_status_text, is_barred,
  is_barred_text, bytes_equal,
}
use tsa_proxy.Auth.Basic.{
  BasicReplies, is_active, parsed_tenant, check_cached, check_stored, entry_of, pass_on, verify,
}

hex_digit-== : (d e : ℕ) → (hex_digit d == hex_digit e) ≡ (d == e)
unfolding hex_digit
hex_digit-== d e = ground arith

halves-== :
    (a b : ℕ) (rest : Bool)
    → ((a / 16 == b / 16) && ((a % 16 == b % 16) && rest)) ≡ ((a == b) && rest)
halves-== a b rest = ground arith

-- Two hashes are equal exactly if their hexadecimal texts are.
pub bytes_equal-hex : (xs ys : Bytes) → bytes_equal (hex xs) (hex ys) ≡ bytes_equal xs ys
unfolding bytes_equal hex
bytes_equal-hex [] [] = refl
bytes_equal-hex [] (y ∷ ys) = refl
bytes_equal-hex (x ∷ xs) [] = refl
bytes_equal-hex (x ∷ xs) (y ∷ ys) =
    rw (hex_digit-== (x / 16) (y / 16), hex_digit-== (x % 16) (y % 16), bytes_equal-hex xs ys)
      (halves-== x y (bytes_equal xs ys))

barred_text : (s : TenantStatus) → is_barred_text (tenant_status_text s) ≡ is_barred s
unfolding is_barred_text tenant_status_text is_barred
barred_text active = refl
barred_text suspended = refl
barred_text deleted = refl

active_text : (s : CredentialStatus) → str_eq (credential_status_text s) "active" ≡ is_active s
unfolding credential_status_text is_active
active_text active = refl
active_text revoked = refl
active_text expired = refl

-- The identifiers survive their text.
abbrev pub IsRoundTrip : Codec → Type 0
IsRoundTrip codec = (u : Uuid) → codec.uuid_parse (codec.uuid_string u) ≡ some u

parsed :
    (codec : Codec)
    → IsRoundTrip codec
    → (u : Uuid) → parsed_tenant codec (codec.uuid_string u) ≡ answer u
unfolding parsed_tenant
parsed codec law u = rw (parsed_tenant, law u) refl

check_cached-entry_of :
    (codec : Codec)
    → IsRoundTrip codec
    → (cred : BasicAuthCredential) (tenant : Tenant) (h : Bytes)
    → check_cached codec (entry_of codec cred tenant) h ≡ check_stored cred tenant h
unfolding check_cached check_stored entry_of
check_cached-entry_of codec law cred tenant h =
    rw
      (
        active_text cred.status,
        barred_text tenant.status,
        bytes_equal-hex cred.key_hash h,
        parsed codec law tenant.id,
      )
      refl

-- The three ways of a miss, and a hit.
missed_row :
    (codec : Codec) (req : HttpRequest) (r : BasicReplies) (u p : Bytes)
    (row : BasicAuthCredential × Tenant)
    → r.get_basic_auth u ≡ none
    → r.find_by_username u ≡ ok (some row)
    → verify codec req r u p
      ≡ pass_on req
          (check_stored row.0 row.1 (codec.sha256 p))
          (set_basic_auth u (entry_of codec row.0 row.1) ∷ [])
unfolding verify
missed_row codec req r u p row miss found = rw (verify, miss) (rw found refl)

missed_none :
    (codec : Codec) (req : HttpRequest) (r : BasicReplies) (u p : Bytes)
    → r.get_basic_auth u ≡ none
    → ((r.find_by_username u ≡ failed) ⊎ (r.find_by_username u ≡ ok none))
    → verify codec req r u p ≡ (refuse err_unauthorized, [])
unfolding verify
missed_none codec req r u p miss (inl e) = rw (verify, miss) (rw e refl)
missed_none codec req r u p miss (inr e) = rw (verify, miss) (rw e refl)

hit :
    (codec : Codec) (req : HttpRequest) (r : BasicReplies) (u p : Bytes) (e : CachedBasicAuth)
    → r.get_basic_auth u ≡ some e
    → verify codec req r u p ≡ pass_on req (check_cached codec e (codec.sha256 p)) []
unfolding verify
hit codec req r u p e there = rw (verify, there) refl

pub row_cases :
    (r : BasicReplies) (u : Bytes)
    → ((r.find_by_username u ≡ failed) ⊎ (r.find_by_username u ≡ ok none))
      ⊎ ((row : BasicAuthCredential × Tenant) × (r.find_by_username u ≡ ok (some row)))
row_cases r u = elim (Result-cases (r.find_by_username u)) [
  | inl e ↦ inl (inl e)
  | inr (o, e) ↦ elim (Option-cases o) [
    | inl f ↦ inl (inr (cc (e, f)))
    | inr (row, f) ↦ inr (row, cc (e, f))
  ]
]

pass_on-effects :
    (req : HttpRequest) (a : Answer Uuid) (x y : AuthEffect)
    → (pass_on req a (x ∷ [])).1 ≡ y ∷ []
    → x ≡ y
unfolding pass_on
pass_on-effects req (refuse e) x y h = cc
pass_on-effects req (answer t) x y h = cc

pass_on-verdict :
    (req : HttpRequest) (a : Answer Uuid) (es fs : List AuthEffect)
    → (pass_on req a es).0 ≡ (pass_on req a fs).0
unfolding pass_on
pass_on-verdict req (refuse e) es fs = refl
pass_on-verdict req (answer t) es fs = refl

-- If a request that missed the cache left an entry for a user, then for this user and any password a
-- request that finds the entry is decided as one that reads the row that the first request read. A
-- later change of the row is not seen by the entry.
pub cached_decision-eq-stored :
    (codec : Codec) (law : IsRoundTrip codec) (first req : HttpRequest) (r later : BasicReplies)
    (u p q : Bytes) (e : CachedBasicAuth)
    → r.get_basic_auth u ≡ none
    → (verify codec first r u p).1 ≡ set_basic_auth u e ∷ []
    → later.get_basic_auth u ≡ some e
    → (verify codec req later u q).0 ≡ (verify codec req r u q).0
cached_decision-eq-stored codec law first req r later u p q e miss left there =
    elim (row_cases r u) [
      | inl no_row ↦
          let a = missed_none codec first r u p miss no_row in
          let b : (verify codec first r u p).1 ≡ [] = ap (λ x. x.1) a in cc (left, b)
      | inr (row, found) ↦
          let left' = (rw (missed_row codec first r u p row miss found) at left) in
          let same = pass_on-effects first _ _ _ left' in
          let same' : entry_of codec row.0 row.1 ≡ e = cc same in
          let h = codec.sha256 q in
          rw
            (
              hit codec req later u q e there,
              missed_row codec req r u q row miss found,
              sym same',
              check_cached-entry_of codec law row.0 row.1 h,
            )
            (pass_on-verdict req (check_stored row.0 row.1 h) []
              (set_basic_auth u (entry_of codec row.0 row.1) ∷ []))
    ]
