-- ===== src/Users/Runs.antt =====
-- Runs of the handlers of the platform's users, one after the other.
use tsa_proxy.Common.{Option, none, some, List, [], ◌∷◌, All, inl, inr, if-holds}
use tsa_proxy.ApiError.{Answer-cases}
use tsa_proxy.Model.{Uuid}
use tsa_proxy.Auth.{Bytes}
use tsa_proxy.AdminUsers.{AdminUser}
use tsa_proxy.Users.{
  UsersEnv, UserWriteRequest, handle_create, handle_update, handle_delete, handle_reset_password,
  handle_reset_totp, lacks_fields, validate_role_and_scope,
}
use tsa_proxy.Users.Superadmin.{IsGoverned}
use tsa_proxy.Users.Inserted.{create_valid-IsGoverned}
use tsa_proxy.Users.Governed.{
  GuardReads, IsKept, handle_update-IsGoverned, handle_delete-IsGoverned,
  handle_reset_password-IsGoverned, handle_reset_totp-IsGoverned,
}

pub data UsersCall : Type 0 where
  call_create : Option UserWriteRequest → UsersCall
  call_update : Option Uuid → Option UserWriteRequest → UsersCall
  call_delete : Option Uuid → UsersCall
  call_reset_password : Option Uuid → Option Bytes → UsersCall
  call_reset_totp : Option Uuid → UsersCall

unfoldable pub after_users_call : UsersEnv → UsersCall → List AdminUser → List AdminUser
unfolding handle_create handle_update handle_delete handle_reset_password handle_reset_totp
after_users_call env (call_create body) us = (handle_create env body us).1
after_users_call env (call_update id body) us = (handle_update env id body us).1
after_users_call env (call_delete id) us = (handle_delete env id us).1
after_users_call env (call_reset_password id body) us = (handle_reset_password env id body us).1
after_users_call env (call_reset_totp id) us = (handle_reset_totp env id us).1

unfoldable pub run_users : List (UsersEnv × UsersCall) → List AdminUser → List AdminUser
unfolding after_users_call
run_users [] us = us
run_users ((env, call) ∷ calls) us = run_users calls (after_users_call env call us)

handle_create-IsGoverned :
    (env : UsersEnv) (reads : GuardReads env) (us : List AdminUser) (gov : IsGoverned us)
    (body : Option UserWriteRequest)
    → IsGoverned (handle_create env body us).1
unfolding handle_create
handle_create-IsGoverned env reads us gov none = gov
handle_create-IsGoverned env reads us gov (some req) =
    if-holds IsKept (lacks_fields req) _ _ gov
      (elim (Answer-cases (validate_role_and_scope env req.role req.tenant_ids)) [
        | inl (e, v) ↦ rw v gov
        | inr ((role, tenants), v) ↦
            rw v (create_valid-IsGoverned env reads us gov req role tenants)
      ])

after_users_call-IsGoverned :
    (env : UsersEnv) (reads : GuardReads env) (us : List AdminUser) (gov : IsGoverned us)
    (call : UsersCall)
    → IsGoverned (after_users_call env call us)
unfolding after_users_call
after_users_call-IsGoverned env reads us gov (call_create body) =
    handle_create-IsGoverned env reads us gov body
after_users_call-IsGoverned env reads us gov (call_update id body) =
    handle_update-IsGoverned env reads us gov id body
after_users_call-IsGoverned env reads us gov (call_delete id) =
    handle_delete-IsGoverned env reads us gov id
after_users_call-IsGoverned env reads us gov (call_reset_password id body) =
    handle_reset_password-IsGoverned env reads us gov id body
after_users_call-IsGoverned env reads us gov (call_reset_totp id) =
    handle_reset_totp-IsGoverned env reads us gov id

-- From a table that has no identifier twice and an active superadmin that is not deleted, calls of
-- the users' handlers, one after the other, end in such a table: whatever the calls ask for and
-- whichever of their queries fail, as long as the guard can read its target with its roles.
pub run_users-IsGoverned :
    (calls : List (UsersEnv × UsersCall))
    → All (λ c. GuardReads c.0) calls
    → (us : List AdminUser) → IsGoverned us
    → IsGoverned (run_users calls us)
unfolding run_users
run_users-IsGoverned [] reads us gov = gov
run_users-IsGoverned ((env, call) ∷ calls) reads us gov =
    run_users-IsGoverned calls reads.1 (after_users_call env call us)
      (after_users_call-IsGoverned env reads.0 us gov call)
