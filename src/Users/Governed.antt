-- ===== src/Users/Governed.antt =====
-- Each handler of the users, where the guard can read its target with its roles, leaves a platform that
-- has a superadmin with one.
use tsa_proxy.Common.{
  String, ◌≡◌, ◌⊎◌, refl, Bool, true, false, Option, none, some, List, any, Bool-cases,
  Option-cases, inl, inr, if-holds, str_eq, ltb, length, arith,
}
use tsa_proxy.ApiError.{Result-cases, Answer-cases}
use tsa_proxy.Model.{Uuid}
use tsa_proxy.Auth.{Bytes}
use tsa_proxy.Password.{hash_password}
use tsa_proxy.AdminUsers.{
  AdminUser, Updated, updated, no_row, update_email_taken, update_failed, find_row, is_row,
  find_by_id, at_row, has_role, counts_for, takes_email, set_account, put_role, put_scope, set_role,
  set_tenant_scope, soft_delete, mark_deleted, set_password, set_hash, update_totp, set_totp,
  update,
}
use tsa_proxy.AdminUsers.Table.{at_row-at_row}
use tsa_proxy.Users.{
  UsersEnv, UserWriteRequest, Handled, guard_last_superadmin, create_scope, create_role,
  update_scope, update_role, update_valid, update_request, handle_update, handle_delete,
  handle_reset_password, handle_reset_totp, validate_role_and_scope, wants_active,
}
use tsa_proxy.Users.Superadmin.{
  IsGoverned, IsAsked, guard-IsGoverned, kept-IsGoverned, exec-cases, written-IsGoverned,
  user_reply_state,
}

abbrev pub IsKept : Handled → Type 0
IsKept h = IsGoverned h.1

module _ (env : UsersEnv) (id : Uuid) where
  scope-IsGoverned :
      (tenants : List Uuid) (us : List AdminUser)
      → IsGoverned us
      → IsGoverned (at_row id (put_scope tenants) us)
  unfolding put_scope counts_for has_role
  scope-IsGoverned tenants us gov =
      kept-IsGoverned id (put_scope tenants) (λ u. refl) (λ u p. p) us gov

  update_scope-IsGoverned :
      (tenants : List Uuid) (us : List AdminUser)
      → IsGoverned us
      → IsGoverned (update_scope env id tenants us).1
  unfolding update_scope set_tenant_scope
  update_scope-IsGoverned tenants us gov =
      elim (Result-cases (set_tenant_scope env.set_scope_fails id tenants us)) [
        | inl e ↦ rw (update_scope, e) gov
        | inr (us', e) ↦
            rw (update_scope, e)
              (rw (user_reply_state env id us') (
                exec-cases IsGoverned env.set_scope_fails id (put_scope tenants) us us'
                  (scope-IsGoverned tenants us gov) e))
      ]

  create_scope-IsGoverned :
      (role : String) (tenants : List Uuid) (us : List AdminUser)
      → IsGoverned us
      → IsGoverned (create_scope env id role tenants us).1
  unfolding create_scope set_tenant_scope
  create_scope-IsGoverned role tenants us gov =
      if-holds IsKept (str_eq role "viewer") _ _
        (elim (Result-cases (set_tenant_scope env.set_scope_fails id tenants us)) [
          | inl e ↦ rw e gov
          | inr (us', e) ↦ rw e (
              rw (user_reply_state env id us') (
                exec-cases IsGoverned env.set_scope_fails id (put_scope tenants) us us'
                  (scope-IsGoverned tenants us gov) e))
        ])
        (rw (user_reply_state env id us) gov)

  update_role-IsGoverned :
      (role : String) (tenants : List Uuid) (us : List AdminUser)
      → IsGoverned us
      → IsGoverned (at_row id (put_role role) us)
      → IsGoverned (update_role env id role tenants us).1
  unfolding update_role set_role
  update_role-IsGoverned role tenants us gov gov' =
      elim (Result-cases (set_role env.set_role_fails id role us)) [
        | inl e ↦ rw (update_role, e) gov
        | inr (us', e) ↦
            rw (update_role, e)
              (update_scope-IsGoverned tenants us'
                (exec-cases IsGoverned env.set_role_fails id (put_role role) us us' gov' e))
      ]

  pub create_role-IsGoverned :
      (role : String) (tenants : List Uuid) (us : List AdminUser)
      → IsGoverned us
      → IsGoverned (at_row id (put_role role) us)
      → IsGoverned (create_role env id role tenants us).1
  unfolding create_role set_role
  create_role-IsGoverned role tenants us gov gov' =
      elim (Result-cases (set_role env.set_role_fails id role us)) [
        | inl e ↦ rw (create_role, e) gov
        | inr (us', e) ↦
            rw (create_role, e)
              (create_scope-IsGoverned role tenants us'
                (exec-cases IsGoverned env.set_role_fails id (put_role role) us us' gov' e))
      ]

  -- The account alone, and the account with its role.
  account-IsAsked :
      (email : String) (new_active : Bool) (role : String)
      → IsAsked role new_active (set_account email new_active)
  unfolding set_account counts_for has_role
  account-IsAsked email new_active role = record {
    same_id = λ u. refl;
    keeps = λ u stays p. ground (arith, stays, p);
  }

  role-IsAsked :
      (email : String) (new_active : Bool) (role : String)
      → IsAsked role new_active (λ u. put_role role (set_account email new_active u))
  unfolding set_account put_role counts_for has_role
  role-IsAsked email new_active role = record {
    same_id = λ u. refl;
    keeps = λ u stays p. ground (arith, stays, p);
  }

  deleted-IsAsked : IsAsked "" false mark_deleted
  unfolding mark_deleted
  deleted-IsAsked = record { same_id = λ u. refl; keeps = λ u stays p. cc }

-- The guard reads the target and its roles.
abbrev pub GuardReads : UsersEnv → Type 0
GuardReads env = env.guard_reads ≡ record { row_fails = false; roles_fail = false }

pub update-row :
    (fails : Bool) (id : Uuid) (email : String) (is_active : Bool) (us us' : List AdminUser)
    → update fails id email is_active us ≡ updated us'
    → us' ≡ at_row id (set_account email is_active) us
unfolding update
update-row true id email is_active us us' h = cc
update-row false id email is_active us us' h = elim (Option-cases (find_row (is_row id) us)) [
  | inl e ↦ let h' = (rw (update, e) at h) in cc
  | inr (u, e) ↦
      let h1 = (rw (update, e) at h) in
      elim (Bool-cases (any (takes_email id email) us)) [
        | inl t ↦ let h2 = (rw t at h1) in cc
        | inr t ↦
            let h2 : updated (at_row id (set_account email is_active) us) ≡ updated us' =
              (rw t at h1) in
            cc
      ]
]

pub Updated-cases :
    (r : Updated)
    → ((us : List AdminUser) × (r ≡ updated us))
      ⊎ ((r ≡ no_row) ⊎ ((r ≡ update_email_taken) ⊎ (r ≡ update_failed)))
Updated-cases (updated us) = inl (us, refl)
Updated-cases no_row = inr (inl refl)
Updated-cases update_email_taken = inr (inr (inl refl))
Updated-cases update_failed = inr (inr (inr refl))

module _ (env : UsersEnv) (reads : GuardReads env) (us : List AdminUser) (gov : IsGoverned us) where
  update_valid-IsGoverned :
      (id : Uuid) (email : String) (is_active : Bool) (role : String) (tenants : List Uuid)
      → IsGoverned (update_valid env id email is_active role tenants us).1
  unfolding update_valid
  update_valid-IsGoverned id email is_active role tenants =
      elim (Option-cases (guard_last_superadmin env id role is_active us)) [
        | inr (e, g) ↦ rw (update_valid, g) gov
        | inl g ↦ elim (Updated-cases (update env.row_fails id email is_active us)) [
          | inr (inl e) ↦ rw (update_valid, g) (rw e gov)
          | inr (inr (inl e)) ↦ rw (update_valid, g) (rw e gov)
          | inr (inr (inr e)) ↦ rw (update_valid, g) (rw e gov)
          | inl (us', e) ↦
              let f = set_account email is_active in
              let row = update-row env.row_fails id email is_active us us' e in
              let guarded = guard-IsGoverned env reads id role is_active us gov g in
              rw (update_valid, g)
                (rw (e, row)
                  (update_role-IsGoverned env id role tenants (at_row id f us)
                    (guarded f (account-IsAsked env id email is_active role))
                    (rw (at_row-at_row id f (put_role role) (λ u. refl) us) (
                      guarded (λ u. put_role role (f u))
                        (role-IsAsked env id email is_active role)))))
        ]
      ]

  pub handle_update-IsGoverned :
      (id : Option Uuid) (body : Option UserWriteRequest)
      → IsGoverned (handle_update env id body us).1
  unfolding handle_update update_request
  handle_update-IsGoverned none body = gov
  handle_update-IsGoverned (some id) none = gov
  handle_update-IsGoverned (some id) (some req) =
      if-holds IsKept (str_eq req.email "") _ _ gov
        (elim (Answer-cases (validate_role_and_scope env req.role req.tenant_ids)) [
          | inl (e, v) ↦ rw v gov
          | inr ((role, tenants), v) ↦
              rw v (update_valid-IsGoverned id req.email (wants_active req.is_active) role tenants)
        ])

  pub handle_delete-IsGoverned : (id : Option Uuid) → IsGoverned (handle_delete env id us).1
  unfolding handle_delete soft_delete
  handle_delete-IsGoverned none = gov
  handle_delete-IsGoverned (some id) = elim (Result-cases (find_by_id env.target_reads id us)) [
    | inl e ↦ rw (handle_delete, e) gov
    | inr (none, e) ↦ rw (handle_delete, e) gov
    | inr (some u, e) ↦ elim (Option-cases (guard_last_superadmin env id "" false us)) [
      | inr (err, g) ↦ rw (handle_delete, e) (rw g gov)
      | inl g ↦
          rw (handle_delete, e)
            (rw g (
              written-IsGoverned _ env.row_fails id mark_deleted us gov (
                guard-IsGoverned env reads id "" false us gov g mark_deleted
                  (deleted-IsAsked env id))))
    ]
  ]

  pub handle_reset_totp-IsGoverned : (id : Option Uuid) → IsGoverned (handle_reset_totp env id us).1
  unfolding handle_reset_totp update_totp set_totp counts_for has_role
  handle_reset_totp-IsGoverned none = gov
  handle_reset_totp-IsGoverned (some id) = elim (Result-cases (find_by_id env.target_reads id us)) [
    | inl e ↦ rw (handle_reset_totp, e) gov
    | inr (none, e) ↦ rw (handle_reset_totp, e) gov
    | inr (some u, e) ↦
        rw (handle_reset_totp, e)
          (written-IsGoverned _ env.row_fails id (set_totp none false) us gov
            (kept-IsGoverned id (set_totp none false) (λ u. refl) (λ u p. p) us gov))
  ]

  pub handle_reset_password-IsGoverned :
      (id : Option Uuid) (body : Option Bytes) → IsGoverned (handle_reset_password env id body us).1
  unfolding handle_reset_password set_password set_hash counts_for has_role
  handle_reset_password-IsGoverned none body = gov
  handle_reset_password-IsGoverned (some id) none = gov
  handle_reset_password-IsGoverned (some id) (some password) =
      if-holds IsKept (ltb (length password) 8) _ _ gov
        (elim (Result-cases (hash_password env.argon env.salt password)) [
          | inl e ↦ rw e gov
          | inr (hash, e) ↦ rw e (
              written-IsGoverned _ env.row_fails id (set_hash hash) us gov
                (kept-IsGoverned id (set_hash hash) (λ u. refl) (λ u p. p) us gov))
        ])
