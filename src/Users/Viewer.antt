-- ===== src/Users/Viewer.antt =====
-- What a call of Update that makes a user a viewer leaves.
use tsa_proxy.Common.{
  String, ◌≡◌, refl, sym, ◌∙◌, ap, Bool, true, false, none, some, List, [], ◌∷◌, any, length, ◌==◌,
  ==_iff, Bool-cases, Option-cases, inl, inr, str_eq, arith,
}
use tsa_proxy.ApiError.{ok, Answer, answer, refuse, Result-cases, Answer-cases}
use tsa_proxy.Model.{Uuid}
use tsa_proxy.AdminUsers.{
  AdminUser, find_row, is_row, at_row, set_account, put_role, put_scope, insert_scope, exec, update,
  set_role, set_tenant_scope, get_tenant_scope, updated,
}
use tsa_proxy.AdminUsers.Table.{find_row-at_row, find_row_id}
use tsa_proxy.Users.{
  UsersEnv, UserWriteRequest, UsersBody, get_role_by_name, existing_tenant, existing_tenants,
  with_role, validate_role_and_scope, user_reply, update_scope, update_role, update_valid,
  update_request, handle_update, wants_active, guard_last_superadmin,
}
use tsa_proxy.Users.Superadmin.{user_reply_state}
use tsa_proxy.Users.Governed.{update-row, Updated-cases}

abbrev pub Exists : UsersEnv → Uuid → Type 0
Exists env t = (x : Uuid) × (env.get_tenant t ≡ ok (some x))

existing_tenant-Exists :
    (env : UsersEnv) (text : String) (t : Uuid) → existing_tenant env text ≡ answer t → Exists env t
unfolding existing_tenant
existing_tenant-Exists env text t h = elim (Option-cases (env.uuid_parse text)) [
  | inl e ↦ let h' = (rw (existing_tenant, e) at h) in cc
  | inr (id, e) ↦
      let h1 = (rw (existing_tenant, e) at h) in
      elim (Result-cases (env.get_tenant id)) [
        | inl f ↦ let h2 = (rw f at h1) in cc
        | inr (none, f) ↦ let h2 = (rw f at h1) in cc
        | inr (some x, f) ↦
            let h2 : answer id ≡ answer t = (rw f at h1) in
            let same : id ≡ t = cc in (x, rw (sym same) f)
      ]
]

one_tenant :
    (env : UsersEnv) (texts : List String) (ts : List Uuid)
    → length texts ≡ 1
    → existing_tenants env texts ≡ answer ts
    → (t : Uuid) × ((ts ≡ t ∷ []) × Exists env t)
unfolding existing_tenants
one_tenant env [] ts n h = absurd (omega (arith, n))
one_tenant env (a ∷ b ∷ texts) ts n h = absurd (omega (arith, n))
one_tenant env (a ∷ []) ts n h = elim (Answer-cases (existing_tenant env a)) [
  | inl (x, e) ↦ let h' = (rw (existing_tenants, e) at h) in cc
  | inr (t, e) ↦
      let h' : answer (t ∷ []) ≡ answer ts = (rw (existing_tenants, e) at h) in
      (t, (cc, existing_tenant-Exists env a t e))
]

abbrev tenants_of : Answer (String × List Uuid) → List Uuid
tenants_of (refuse e) = []
tenants_of (answer a) = a.1

-- A role that is found is the one that was asked for, and a viewer has one tenant.
validate-viewer :
    (env : UsersEnv) (texts : List String) (role : String) (ts : List Uuid)
    → validate_role_and_scope env "viewer" texts ≡ answer (role, ts)
    → (t : Uuid) × ((ts ≡ t ∷ []) × Exists env t)
unfolding validate_role_and_scope get_role_by_name with_role
validate-viewer env texts role ts h = elim (Bool-cases env.role_fails) [
  | inl d ↦ let h' = (rw (validate_role_and_scope, get_role_by_name, d) at h) in cc
  | inr d ↦
      let h1 = (rw (validate_role_and_scope, get_role_by_name, d) at h) in
      elim (Bool-cases (any (λ r. str_eq r "viewer") env.role_names)) [
        | inr k ↦ let h2 = (rw k at h1) in cc
        | inl k ↦
            let h2 = (rw k at h1) in
            elim (Bool-cases (length texts == 1)) [
              | inr n ↦ let h3 = (rw n at h2) in cc
              | inl n ↦
                  let h3 : with_role "viewer" (existing_tenants env texts) ≡ answer (role, ts) =
                    (rw n at h2) in
                  elim (Answer-cases (existing_tenants env texts)) [
                    | inl (x, e) ↦ let h4 = (rw e at h3) in cc
                    | inr (us, e) ↦
                        let h4 : answer ("viewer", us) ≡ answer (role, ts) = (rw e at h3) in
                        let same : us ≡ ts = ap (λ a. tenants_of a) h4 in
                        one_tenant env texts ts ((==_iff (length texts) 1).0 n) (e ∙ ap answer same)
                  ]
            ]
      ]
]

exec-row :
    (fails : Bool) (id : Uuid) (f : AdminUser → AdminUser) (us us' : List AdminUser)
    → exec fails id f us ≡ ok us'
    → us' ≡ at_row id f us
unfolding exec
exec-row true id f us us' h = cc
exec-row false id f us us' h = cc

module _ (env : UsersEnv) (id : Uuid) (body : UsersBody) where
  reply_answered : (us us' : List AdminUser) → user_reply env id us ≡ (answer body, us') → us' ≡ us
  reply_answered us us' h = sym (ap (λ p. p.1) h) ∙ user_reply_state env id us

  -- The table after the three writes of a change.
  scope_answered :
      (ts : List Uuid) (us us' : List AdminUser)
      → update_scope env id ts us ≡ (answer body, us')
      → us' ≡ at_row id (put_scope ts) us
  unfolding update_scope set_tenant_scope
  scope_answered ts us us' h = elim (Result-cases (set_tenant_scope env.set_scope_fails id ts us)) [
    | inl e ↦ let h' = (rw (update_scope, e) at h) in cc
    | inr (vs, e) ↦
        let h' = (rw (update_scope, e) at h) in
        reply_answered vs us' h' ∙ exec-row env.set_scope_fails id (put_scope ts) us vs e
  ]

  role_answered :
      (role : String) (ts : List Uuid) (us us' : List AdminUser)
      → update_role env id role ts us ≡ (answer body, us')
      → us' ≡ at_row id (put_scope ts) (at_row id (put_role role) us)
  unfolding update_role set_role
  role_answered role ts us us' h = elim (Result-cases (set_role env.set_role_fails id role us)) [
    | inl e ↦ let h' = (rw (update_role, e) at h) in cc
    | inr (vs, e) ↦
        let h' = (rw (update_role, e) at h) in
        scope_answered ts vs us' h'
        ∙ ap (at_row id (put_scope ts)) (exec-row env.set_role_fails id (put_role role) us vs e)
  ]

  found_row :
      (email : String) (is_active : Bool) (us vs : List AdminUser)
      → update env.row_fails id email is_active us ≡ updated vs
      → (u : AdminUser) × (find_row (is_row id) us ≡ some u)
  unfolding update
  found_row email is_active us vs h = elim (Option-cases (find_row (is_row id) us)) [
    | inr (u, e) ↦ (u, e)
    | inl e ↦ elim (Bool-cases env.row_fails) [
      | inl d ↦ let h' = (rw (update, d) at h) in cc
      | inr d ↦ let h' = (rw (update, d, e) at h) in cc
    ]
  ]

  scope_after :
      (email : String) (is_active : Bool) (role : String) (t : Uuid) (us : List AdminUser)
      (u : AdminUser)
      → find_row (is_row id) us ≡ some u
      → get_tenant_scope false id (
          at_row id
            (put_scope (t ∷ []))
            (at_row id (put_role role) (at_row id (set_account email is_active) us)))
        ≡ ok (t ∷ [])
  unfolding get_tenant_scope put_scope insert_scope put_role set_account
  scope_after email is_active role t us u found =
      let (v, is) = find_row_id id us u found in
      let a = find_row-at_row id (set_account email is_active) (λ u. refl) us v is in
      let b = find_row-at_row id (put_role role) (λ u. refl) _ _ a in
      let c = find_row-at_row id (put_scope (t ∷ [])) (λ u. refl) _ _ b in
      rw (get_tenant_scope, c) refl

  valid_answered :
      (email : String) (is_active : Bool) (role : String) (t : Uuid) (us us' : List AdminUser)
      → update_valid env id email is_active role (t ∷ []) us ≡ (answer body, us')
      → get_tenant_scope false id us' ≡ ok (t ∷ [])
  unfolding update_valid
  valid_answered email is_active role t us us' h =
      elim (Option-cases (guard_last_superadmin env id role is_active us)) [
        | inr (x, g) ↦ let h' = (rw (update_valid, g) at h) in cc
        | inl g ↦
            let h1 = (rw (update_valid, g) at h) in
            elim (Updated-cases (update env.row_fails id email is_active us)) [
              | inr (inl e) ↦ let h2 = (rw e at h1) in cc
              | inr (inr (inl e)) ↦ let h2 = (rw e at h1) in cc
              | inr (inr (inr e)) ↦ let h2 = (rw e at h1) in cc
              | inl (vs, e) ↦
                  let h2 = (rw e at h1) in
                  let (u, found) = found_row email is_active us vs e in
                  let rows = role_answered role (t ∷ []) vs us' h2 in
                  let first = update-row env.row_fails id email is_active us vs e in
                  rw (rows, first) (scope_after email is_active role t us u found)
            ]
      ]

-- A call of Update that is answered, where it asks for the role of a viewer, leaves the user with a
-- scope of exactly one tenant, and the tenant was found.
pub handle_update-viewer :
    (env : UsersEnv) (id : Uuid) (req : UserWriteRequest) (us us' : List AdminUser)
    (body : UsersBody)
    → req.role ≡ "viewer"
    → handle_update env (some id) (some req) us ≡ (answer body, us')
    → (t : Uuid) × (Exists env t × (get_tenant_scope false id us' ≡ ok (t ∷ [])))
unfolding handle_update update_request
handle_update-viewer env id req us us' body viewer h = elim (Bool-cases (str_eq req.email "")) [
  | inl empty ↦ let h' = (rw empty at h) in cc
  | inr filled ↦
      let h1 = (rw filled at h) in
      elim (Answer-cases (validate_role_and_scope env req.role req.tenant_ids)) [
        | inl (x, e) ↦ let h2 = (rw e at h1) in cc
        | inr ((role, ts), e) ↦
            let h2 : update_valid env id req.email (wants_active req.is_active) role ts us
                ≡ (answer body, us') =
              (rw e at h1) in
            let (t, (one, exists)) =
              validate-viewer env req.tenant_ids role ts
                (ap (λ r. validate_role_and_scope env r req.tenant_ids) (sym viewer) ∙ e) in
            let h3 : update_valid env id req.email (wants_active req.is_active) role (t ∷ []) us
                ≡ (answer body, us') =
              (rw one at h2) in
            (
              t,
              (
                exists,
                valid_answered env id body req.email (wants_active req.is_active) role t us us' h3,
              ),
            )
      ]
]
