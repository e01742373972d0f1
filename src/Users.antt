-- ===== src/Users.antt =====
-- internal/handler/admin/users.go: the handlers of the platform's users. Who may call them is the
-- middleware's; a parsed identifier is none where it is no UUID, and a body where it is no JSON.
use tsa_proxy.Common.{
  ℕ, String, Bool, true, false, not, ◌&&◌, ◌||◌, Option, none, some, List, [], ◌∷◌, length, ltb,
  leb, ◌==◌, any, if◌then◌else◌, str_eq,
}
use tsa_proxy.ApiError.{
  ApiError, Result, ok, failed, Answer, answer, refuse, err_bad_request, err_not_found,
  err_internal, err_conflict, err_username_taken, err_email_taken, validation_error,
}
use tsa_proxy.Model.{Uuid}
use tsa_proxy.Auth.{Bytes}
use tsa_proxy.Password.{Argon, hash_password}
use tsa_proxy.AdminUsers.{
  AdminUser, Reads, Written, CreateError, username_taken, email_taken, other_error, created,
  not_created, updated, no_row, update_email_taken, update_failed, find_by_id, create, update,
  set_role, set_tenant_scope, soft_delete, set_password, update_totp, has_role, count_by_role,
}
pub mod Superadmin
pub mod Governed
pub mod Inserted
pub mod Viewer
pub mod Runs
pub mod Scope

pub record UserWriteRequest : Type 0 where
  pub username : String
  pub email : String
  pub password : Bytes
  pub is_active : Option Bool
  pub role : String
  pub tenant_ids : List String

-- The libraries, the rows of `roles` by name, and what the calls of one request meet.
pub record UsersEnv : Type 0 where
  pub argon : Argon
  pub uuid_parse : String → Option Uuid
  pub role_names : List String
  pub role_fails : Bool
  pub get_tenant : Uuid → Result (Option Uuid)
  pub salt : Option Bytes
  pub fresh : Uuid
  pub target_reads : Reads
  pub guard_reads : Reads
  pub reply_reads : Reads
  pub count_fails : Bool
  pub row_fails : Bool
  pub set_role_fails : Bool
  pub set_scope_fails : Bool

pub data UsersBody : Type 0 where
  saved : AdminUser → UsersBody
  no_content : UsersBody
  password_reset : UsersBody
  totp_reset : UsersBody

abbrev pub Handled : Type 0
Handled = Answer UsersBody × List AdminUser

unfoldable pub get_role_by_name : UsersEnv → String → Result (Option String)
get_role_by_name env name =
    if env.role_fails
    then failed
    else if any (λ r. str_eq r name) env.role_names
    then ok (some name)
    else ok none

unfoldable pub existing_tenant : UsersEnv → String → Answer Uuid
existing_tenant env text = elim (env.uuid_parse text) [
  | none ↦ refuse (validation_error "invalid tenant_id")
  | some id ↦ elim (env.get_tenant id) [
    | failed ↦ refuse (validation_error "tenant not found")
    | ok none ↦ refuse (validation_error "tenant not found")
    | ok (some tenant) ↦ answer id
  ]
]

unfoldable pub existing_tenants : UsersEnv → List String → Answer (List Uuid)
unfolding existing_tenant
existing_tenants env [] = answer []
existing_tenants env (text ∷ texts) =
    let rest = existing_tenants env texts in
    elim (existing_tenant env text) [
      | refuse e ↦ refuse e
      | answer id ↦ elim rest [ refuse e ↦ refuse e | answer ids ↦ answer (id ∷ ids) ]
    ]

unfoldable pub with_role : String → Answer (List Uuid) → Answer (String × List Uuid)
with_role role (refuse e) = refuse e
with_role role (answer ids) = answer (role, ids)

unfoldable pub validate_role_and_scope :
    UsersEnv → String → List String → Answer (String × List Uuid)
unfolding get_role_by_name existing_tenants with_role
validate_role_and_scope env name texts = elim (get_role_by_name env name) [
  | failed ↦ refuse (validation_error "invalid role")
  | ok none ↦ refuse (validation_error "invalid role")
  | ok (some role) ↦
      if not (str_eq role "viewer") && ltb 0 (length texts)
      then refuse (validation_error "tenant_ids only applies to the viewer role")
      else if str_eq role "viewer" && not (length texts == 1)
      then refuse (validation_error "viewer role requires exactly one tenant_id")
      else with_role role (existing_tenants env texts)
]

abbrev pub err_last_superadmin : ApiError
err_last_superadmin = record {
  status_code = 409;
  code = "conflict";
  message = some "cannot remove the last superadmin";
}

unfoldable pub guard_count : Result ℕ → Option ApiError
guard_count failed = some err_internal
guard_count (ok n) = if leb n 1 then some err_last_superadmin else none

-- `new_role` is empty where the user is to be deleted.
unfoldable pub guard_last_superadmin :
    UsersEnv → Uuid → String → Bool → List AdminUser → Option ApiError
unfolding find_by_id has_role count_by_role guard_count
guard_last_superadmin env target new_role new_active us =
    elim (find_by_id env.guard_reads target us) [
      | failed ↦ none
      | ok none ↦ none
      | ok (some u) ↦
          if not (has_role "superadmin" u)
          then none
          else if str_eq new_role "superadmin" && new_active
          then none
          else guard_count (count_by_role env.count_fails "superadmin" us)
    ]

-- A user that cannot be read back is a nil pointer, whose panic the recovery middleware answers.
unfoldable pub user_reply : UsersEnv → Uuid → List AdminUser → Handled
unfolding find_by_id
user_reply env id us = elim (find_by_id env.reply_reads id us) [
  | failed ↦ (refuse err_internal, us)
  | ok none ↦ (refuse err_internal, us)
  | ok (some u) ↦ (answer (saved u), us)
]

unfoldable pub create_error : CreateError → ApiError
create_error username_taken = err_username_taken
create_error email_taken = err_email_taken
create_error other_error = err_conflict

-- The role, and the scope of a viewer, of a row that was inserted.
unfoldable pub create_scope : UsersEnv → Uuid → String → List Uuid → List AdminUser → Handled
unfolding user_reply set_tenant_scope
create_scope env id role tenants us =
    if str_eq role "viewer"
    then elim (set_tenant_scope env.set_scope_fails id tenants us) [
      | failed ↦ (refuse err_internal, us)
      | ok us' ↦ user_reply env id us'
    ]
    else user_reply env id us

unfoldable pub create_role : UsersEnv → Uuid → String → List Uuid → List AdminUser → Handled
unfolding create_scope set_role
create_role env id role tenants us = elim (set_role env.set_role_fails id role us) [
  | failed ↦ (refuse err_internal, us)
  | ok us' ↦ create_scope env id role tenants us'
]

unfoldable pub create_valid :
    UsersEnv → UserWriteRequest → String → List Uuid → List AdminUser → Handled
unfolding create_role hash_password create create_error
create_valid env req role tenants us = elim (hash_password env.argon env.salt req.password) [
  | failed ↦ (refuse err_internal, us)
  | ok hash ↦ elim (create env.row_fails env.fresh req.username req.email hash us) [
    | not_created e ↦ (refuse (create_error e), us)
    | created id us' ↦ create_role env id role tenants us'
  ]
]

unfoldable pub lacks_fields : UserWriteRequest → Bool
lacks_fields req = str_eq req.username "" || (str_eq req.email "" || ltb (length req.password) 8)

unfoldable pub handle_create : UsersEnv → Option UserWriteRequest → List AdminUser → Handled
unfolding create_valid lacks_fields validate_role_and_scope
handle_create env none us = (refuse err_bad_request, us)
handle_create env (some req) us =
    if lacks_fields req
    then (refuse (validation_error "username, email, password"), us)
    else elim (validate_role_and_scope env req.role req.tenant_ids) [
      | refuse e ↦ (refuse e, us)
      | answer (role, tenants) ↦ create_valid env req role tenants us
    ]

unfoldable pub wants_active : Option Bool → Bool
wants_active none = true
wants_active (some b) = b

unfoldable pub update_scope : UsersEnv → Uuid → List Uuid → List AdminUser → Handled
unfolding user_reply set_tenant_scope
update_scope env id tenants us = elim (set_tenant_scope env.set_scope_fails id tenants us) [
  | failed ↦ (refuse err_internal, us)
  | ok us' ↦ user_reply env id us'
]

unfoldable pub update_role : UsersEnv → Uuid → String → List Uuid → List AdminUser → Handled
unfolding update_scope set_role
update_role env id role tenants us = elim (set_role env.set_role_fails id role us) [
  | failed ↦ (refuse err_internal, us)
  | ok us' ↦ update_scope env id tenants us'
]

unfoldable pub update_valid :
    UsersEnv → Uuid → String → Bool → String → List Uuid → List AdminUser → Handled
unfolding update_role guard_last_superadmin update
update_valid env id email is_active role tenants us =
    elim (guard_last_superadmin env id role is_active us) [
      | some e ↦ (refuse e, us)
      | none ↦ elim (update env.row_fails id email is_active us) [
        | update_email_taken ↦ (refuse err_email_taken, us)
        | update_failed ↦ (refuse err_internal, us)
        | no_row ↦ (refuse err_not_found, us)
        | updated us' ↦ update_role env id role tenants us'
      ]
    ]

unfoldable pub update_request : UsersEnv → Uuid → UserWriteRequest → List AdminUser → Handled
unfolding update_valid validate_role_and_scope wants_active
update_request env id req us =
    if str_eq req.email ""
    then (refuse (validation_error "email: required"), us)
    else elim (validate_role_and_scope env req.role req.tenant_ids) [
      | refuse e ↦ (refuse e, us)
      | answer (role, tenants) ↦
          update_valid env id req.email (wants_active req.is_active) role tenants us
    ]

unfoldable pub handle_update :
    UsersEnv → Option Uuid → Option UserWriteRequest → List AdminUser → Handled
unfolding update_request
handle_update env none body us = (refuse err_bad_request, us)
handle_update env (some id) none us = (refuse err_bad_request, us)
handle_update env (some id) (some req) us = update_request env id req us

-- The end of the handlers that write once.
unfoldable pub written : UsersBody → Written → List AdminUser → Handled
written body failed us = (refuse err_internal, us)
written body (ok us') us = (answer body, us')

unfoldable pub handle_delete : UsersEnv → Option Uuid → List AdminUser → Handled
unfolding find_by_id guard_last_superadmin soft_delete written
handle_delete env none us = (refuse err_bad_request, us)
handle_delete env (some id) us = elim (find_by_id env.target_reads id us) [
  | failed ↦ (refuse err_not_found, us)
  | ok none ↦ (refuse err_not_found, us)
  | ok (some u) ↦ elim (guard_last_superadmin env id "" false us) [
    | some e ↦ (refuse e, us)
    | none ↦ written no_content (soft_delete env.row_fails id us) us
  ]
]

unfoldable pub handle_reset_password :
    UsersEnv → Option Uuid → Option Bytes → List AdminUser → Handled
unfolding hash_password set_password written
handle_reset_password env none body us = (refuse err_bad_request, us)
handle_reset_password env (some id) none us =
    (refuse (validation_error "password: minimum 8 characters"), us)
handle_reset_password env (some id) (some password) us =
    if ltb (length password) 8
    then (refuse (validation_error "password: minimum 8 characters"), us)
    else elim (hash_password env.argon env.salt password) [
      | failed ↦ (refuse err_internal, us)
      | ok hash ↦ written password_reset (set_password env.row_fails id hash us) us
    ]

unfoldable pub handle_reset_totp : UsersEnv → Option Uuid → List AdminUser → Handled
unfolding find_by_id update_totp written
handle_reset_totp env none us = (refuse err_bad_request, us)
handle_reset_totp env (some id) us = elim (find_by_id env.target_reads id us) [
  | failed ↦ (refuse err_not_found, us)
  | ok none ↦ (refuse err_not_found, us)
  | ok (some u) ↦ written totp_reset (update_totp env.row_fails id none false us) us
]
