-- ===== src/AdminUsers.antt =====
-- internal/repository/postgres/admin_users.go: the table of the platform's users with their roles
-- and their scope of tenants, and the repository's calls. A row is kept with what its joins give:
-- a role stands for its row in `roles`, whose names are unique. A call that the database fails
-- gives an error and changes nothing; which calls fail is an argument.
use tsa_proxy.Common.{
  ℕ, String, Bool, true, false, not, ◌&&◌, ◌||◌, Option, none, some, List, [], ◌∷◌, ◌==◌, suc, any,
  if◌then◌else◌, str_eq, map,
}
use tsa_proxy.ApiError.{Result, ok, failed}
use tsa_proxy.Model.{Uuid}
pub mod Table

pub record AdminUser : Type 0 where
  pub id : Uuid
  pub username : String
  pub email : String
  pub password_hash : List ℕ
  pub is_active : Bool
  pub totp_secret : Option String
  pub totp_enabled : Bool
  pub roles : List String
  pub tenant_scope : List Uuid
  pub is_deleted : Bool

-- The two queries of a lookup: the row, and its roles. An error of the second is dropped.
pub record Reads : Type 0 where
  pub row_fails : Bool
  pub roles_fail : Bool

unfoldable pub find_row : (AdminUser → Bool) → List AdminUser → Option AdminUser
find_row p [] = none
find_row p (u ∷ us) = if p u then some u else find_row p us

unfoldable pub with_roles : Bool → Option AdminUser → Option AdminUser
with_roles fails none = none
with_roles fails (some u) = some (record u { roles = if fails then [] else u.roles })

unfoldable pub is_row : Uuid → AdminUser → Bool
is_row id u = (u.id == id) && not u.is_deleted

unfoldable pub has_username : String → AdminUser → Bool
has_username name u = str_eq u.username name && not u.is_deleted

unfoldable pub find_by_id : Reads → Uuid → List AdminUser → Result (Option AdminUser)
unfolding find_row with_roles is_row
find_by_id reads id us =
    if reads.row_fails then failed else ok (with_roles reads.roles_fail (find_row (is_row id) us))

unfoldable pub find_by_username : Reads → String → List AdminUser → Result (Option AdminUser)
unfolding find_row with_roles has_username
find_by_username reads name us =
    if reads.row_fails
    then failed
    else ok (with_roles reads.roles_fail (find_row (has_username name) us))

-- UPDATE ... WHERE id: every row of the identifier, which the primary key makes one.
unfoldable pub at_row : Uuid → (AdminUser → AdminUser) → List AdminUser → List AdminUser
at_row id f [] = []
at_row id f (u ∷ us) = (if u.id == id then f u else u) ∷ at_row id f us

unfoldable pub has_email : String → AdminUser → Bool
has_email email u = str_eq u.email email

unfoldable pub uses_username : String → AdminUser → Bool
uses_username name u = str_eq u.username name

pub data CreateError : Type 0 where
  username_taken email_taken other_error : CreateError

pub data Created : Type 0 where
  created : Uuid → List AdminUser → Created
  not_created : CreateError → Created

abbrev pub new_user : Uuid → String → String → List ℕ → AdminUser
new_user id username email hash = record {
  id = id;
  username = username;
  email = email;
  password_hash = hash;
  is_active = true;
  totp_secret = none;
  totp_enabled = false;
  roles = [];
  tenant_scope = [];
  is_deleted = false;
}

-- `fresh` is the identifier that the database draws, a key. The unique constraints hold of deleted rows
-- too, and the one on the username was declared first.
unfoldable pub create : Bool → Uuid → String → String → List ℕ → List AdminUser → Created
unfolding has_email uses_username
create fails fresh username email hash us =
    if fails || any (λ u. u.id == fresh) us
    then not_created other_error
    else if any (uses_username username) us
    then not_created username_taken
    else if any (has_email email) us
    then not_created email_taken
    else created fresh (new_user fresh username email hash ∷ us)

pub data Updated : Type 0 where
  updated : List AdminUser → Updated
  no_row : Updated
  update_email_taken : Updated
  update_failed : Updated

-- Another row, deleted or not, that has the address.
unfoldable pub takes_email : Uuid → String → AdminUser → Bool
unfolding has_email
takes_email id email u = not (u.id == id) && has_email email u

unfoldable pub set_account : String → Bool → AdminUser → AdminUser
set_account email is_active u = record u { email = email; is_active = is_active }

unfoldable pub update : Bool → Uuid → String → Bool → List AdminUser → Updated
unfolding find_row is_row takes_email set_account at_row
update fails id email is_active us =
    if fails then update_failed else elim (find_row (is_row id) us) [
      | none ↦ no_row
      | some u ↦
          if any (takes_email id email) us
          then update_email_taken
          else updated (at_row id (set_account email is_active) us)
    ]

abbrev pub Written : Type 0
Written = Result (List AdminUser)

unfoldable pub exec : Bool → Uuid → (AdminUser → AdminUser) → List AdminUser → Written
unfolding at_row
exec fails id f us = if fails then failed else ok (at_row id f us)

unfoldable pub set_totp : Option String → Bool → AdminUser → AdminUser
set_totp secret enabled u = record u { totp_secret = secret; totp_enabled = enabled }

unfoldable pub update_totp : Bool → Uuid → Option String → Bool → List AdminUser → Written
unfolding exec set_totp
update_totp fails id secret enabled us = exec fails id (set_totp secret enabled) us

unfoldable pub set_hash : List ℕ → AdminUser → AdminUser
set_hash hash u = record u { password_hash = hash }

unfoldable pub set_password : Bool → Uuid → List ℕ → List AdminUser → Written
unfolding exec set_hash
set_password fails id hash us = exec fails id (set_hash hash) us

unfoldable pub mark_deleted : AdminUser → AdminUser
mark_deleted u = record u { is_deleted = true }

unfoldable pub soft_delete : Bool → Uuid → List AdminUser → Written
unfolding exec mark_deleted
soft_delete fails id us = exec fails id mark_deleted us

-- The transaction replaces every role by the one.
unfoldable pub put_role : String → AdminUser → AdminUser
put_role role u = record u { roles = role ∷ [] }

unfoldable pub set_role : Bool → Uuid → String → List AdminUser → Written
unfolding exec put_role
set_role fails id role us = exec fails id (put_role role) us

-- The transaction replaces the scope; a tenant that is named twice is stored once.
unfoldable pub insert_scope : List Uuid → List Uuid → List Uuid
insert_scope scope [] = scope
insert_scope scope (t ∷ ts) =
    if any (λ s. s == t) scope then insert_scope scope ts else insert_scope (t ∷ scope) ts

unfoldable pub put_scope : List Uuid → AdminUser → AdminUser
unfolding insert_scope
put_scope tenants u = record u { tenant_scope = insert_scope [] tenants }

unfoldable pub set_tenant_scope : Bool → Uuid → List Uuid → List AdminUser → Written
unfolding exec put_scope
set_tenant_scope fails id tenants us = exec fails id (put_scope tenants) us

unfoldable pub get_tenant_scope : Bool → Uuid → List AdminUser → Result (List Uuid)
unfolding find_row
get_tenant_scope fails id us =
    if fails
    then failed
    else elim (find_row (λ u. u.id == id) us) [ none ↦ ok [] | some u ↦ ok u.tenant_scope ]

-- The active users that are not deleted and have the role.
unfoldable pub has_role : String → AdminUser → Bool
has_role role u = any (λ r. str_eq r role) u.roles

unfoldable pub counts_for : String → AdminUser → Bool
unfolding has_role
counts_for role u = (u.is_active && not u.is_deleted) && has_role role u

unfoldable pub count : (AdminUser → Bool) → List AdminUser → ℕ
count p [] = 0
count p (u ∷ us) = if p u then suc (count p us) else count p us

unfoldable pub count_by_role : Bool → String → List AdminUser → Result ℕ
unfolding count counts_for
count_by_role fails role us = if fails then failed else ok (count (counts_for role) us)
