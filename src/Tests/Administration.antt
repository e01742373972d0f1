-- ===== src/Tests/Administration.antt =====
-- The platform's users, the tenants they may see, the upstreams and the slugs.
use tsa_proxy.Common.{ℕ, ◌≡◌, refl, true, false, none, some, List, [], ◌∷◌, arith}
use tsa_proxy.ApiError.{ok, answer}
use tsa_proxy.AdminUsers.{
  AdminUser, Reads, find_by_id, find_row, with_roles, is_row, at_row, set_account, put_role,
  put_scope, insert_scope, exec, set_role, set_tenant_scope, get_tenant_scope, update, has_role,
  counts_for, count, takes_email,
}
use tsa_proxy.AdminAuth.Admin.{AdminContext, get_admin_user_id, get_admin_roles}
use tsa_proxy.Users.{
  UsersEnv, UserWriteRequest, saved, handle_update, update_request, update_valid, update_role,
  update_scope, user_reply, guard_last_superadmin, validate_role_and_scope, get_role_by_name,
  existing_tenants, existing_tenant, with_role, wants_active,
}
use tsa_proxy.Users.Superadmin.{IsGoverned}
use tsa_proxy.Users.Runs.{UsersCall, call_update, call_delete, run_users, run_users-IsGoverned}
use tsa_proxy.Users.Scope.{
  resolve_tenant_scope, is_manager, pick_scope, scope_of, IsWithin, resolve_tenant_scope-IsWithin,
}
use tsa_proxy.Users.Viewer.{Exists, handle_update-viewer}
use tsa_proxy.Tests.Encoding.{size}
use tsa_proxy.Tests.Keys.{argon}

abbrev reads : Reads
reads = record { row_fails = false; roles_fail = false }

abbrev env : UsersEnv
env = record {
  argon = argon;
  uuid_parse = λ s. some (size s);
  role_names = "superadmin" ∷ "admin" ∷ "viewer" ∷ [];
  role_fails = false;
  get_tenant = λ t. ok (some t);
  salt = some (17 ∷ []);
  fresh = 9;
  target_reads = reads;
  guard_reads = reads;
  reply_reads = reads;
  count_fails = false;
  row_fails = false;
  set_role_fails = false;
  set_scope_fails = false;
}

abbrev ana : AdminUser
ana = record {
  id = 1;
  username = "ana";
  email = "ana@tsa.example";
  password_hash = [];
  is_active = true;
  totp_secret = none;
  totp_enabled = false;
  roles = "superadmin" ∷ [];
  tenant_scope = [];
  is_deleted = false;
}

abbrev ben : AdminUser
ben = record ana { id = 2; username = "ben"; email = "ben@tsa.example"; roles = "admin" ∷ [] }

abbrev users : List AdminUser
users = ana ∷ ben ∷ []

governed : IsGoverned users
unfolding counts_for has_role count
governed = record { keyed = (refl, (refl, tt)); governed = omega arith }

-- The tenant of number 5.
abbrev to_viewer : UserWriteRequest
to_viewer = record {
  username = "ben";
  email = "ben@tsa.example";
  password = [];
  is_active = none;
  role = "viewer";
  tenant_ids = "abcde" ∷ [];
}

abbrev attempts : List (UsersEnv × UsersCall)
attempts = (env, call_delete (some 1)) ∷ (env, call_update (some 1) (some to_viewer)) ∷ []

run_users-IsGoverned_example : IsGoverned (run_users attempts users)
run_users-IsGoverned_example = run_users-IsGoverned attempts (refl, (refl, tt)) users governed

abbrev viewer : AdminUser
viewer = record ben { roles = "viewer" ∷ []; tenant_scope = 5 ∷ [] }

abbrev bound : List AdminUser
bound = ana ∷ viewer ∷ []

made_viewer : handle_update env (some 2) (some to_viewer) users ≡ (answer (saved viewer), bound)
unfolding handle_update update_request update_valid update_role update_scope user_reply
    guard_last_superadmin validate_role_and_scope get_role_by_name existing_tenants existing_tenant
    with_role wants_active find_by_id find_row with_roles is_row at_row set_account put_role
    put_scope insert_scope exec set_role set_tenant_scope update has_role takes_email size
made_viewer = refl

handle_update-viewer_example :
    (t : ℕ) × (Exists env t × (get_tenant_scope false 2 bound ≡ ok (t ∷ [])))
handle_update-viewer_example =
    handle_update-viewer env 2 to_viewer users bound (saved viewer) refl made_viewer

abbrev viewing : AdminContext
viewing = record { admin_user = some 2; admin_roles = some ("viewer" ∷ []) }

shown : resolve_tenant_scope false viewing (some 5) bound ≡ answer (some (5 ∷ []))
unfolding resolve_tenant_scope is_manager pick_scope scope_of get_admin_user_id get_admin_roles
    get_tenant_scope find_row
shown = refl

resolve_tenant_scope-IsWithin_example : IsWithin viewing (some 5) bound (some (5 ∷ []))
resolve_tenant_scope-IsWithin_example =
    resolve_tenant_scope-IsWithin false viewing (some 5) bound (some (5 ∷ [])) shown
