-- ===== src/AdminAuth/Admin.antt =====
-- internal/middleware/adminauth.go: the check of an access token and of the roles that a group of
-- routes asks for. jwt.ParseWithClaims stands in the libraries with the key and the kind of
-- signature that its callback allows.
use tsa_proxy.Common.{String, Bool, ◌||◌, Option, none, some, List, [], any, if◌then◌else◌, str_eq}
use tsa_proxy.ApiError.{Answer, answer, refuse, err_admin_unauthorized, err_forbidden}
use tsa_proxy.Model.{Uuid}
use tsa_proxy.AdminAuth.{Libraries, Replies}

-- The values that the middleware puts into the context; a missing one is none.
pub record AdminContext : Type 0 where
  pub admin_user : Option Uuid
  pub admin_roles : Option (List String)

-- An Authorization header that starts with "Bearer ", without it, and any other or none.
pub data Authorization : Type 0 where
  bearer : String → Authorization
  other_scheme : Authorization

unfoldable pub require : Libraries → Replies → Authorization → Answer AdminContext
require lib r other_scheme = refuse err_admin_unauthorized
require lib r (bearer token) = elim (lib.jwt_parse lib.jwt_secret r.now token) [
  | none ↦ refuse err_admin_unauthorized
  | some claims ↦ elim (lib.codec.uuid_parse claims.subject) [
    | none ↦ refuse err_admin_unauthorized
    | some id ↦ answer (record { admin_user = some id; admin_roles = some claims.roles })
  ]
]

unfoldable pub satisfies : String → List String → Bool
satisfies required roles = any (λ ur. str_eq ur required || str_eq ur "superadmin") roles

unfoldable pub require_role : List String → AdminContext → Answer AdminContext
unfolding satisfies
require_role required c = elim c.admin_roles [
  | none ↦ refuse err_forbidden
  | some roles ↦
      if any (λ role. satisfies role roles) required then answer c else refuse err_forbidden
]

unfoldable pub get_admin_user_id : AdminContext → Option Uuid
get_admin_user_id c = c.admin_user

unfoldable pub get_admin_roles : AdminContext → List String
get_admin_roles c = elim c.admin_roles [ none ↦ [] | some roles ↦ roles ]
