-- ===== src/Tenants/Lifecycle.antt =====
-- internal/service/tenant/service.go and internal/repository/postgres/tenants.go: the life of a
-- tenant. No code that is reached sets deleted_at, so that a row that is there is not deleted. Audit
-- records, which are written in goroutines, are effects; which calls the database fails is an
-- argument.
use tsa_proxy.Common.{
  ℕ, String, Bool, true, false, ◌||◌, Option, none, some, List, [], ◌∷◌, any, ◌==◌, if◌then◌else◌,
}
use tsa_proxy.ApiError.{Result, ok, failed}
use tsa_proxy.Model.{Uuid, TenantStatus, active, suspended}
use tsa_proxy.Auth.{bytes_equal}
use tsa_proxy.Tenants.{slugify}
pub mod Suspended

pub record TenantRow : Type 0 where
  pub id : Uuid
  pub name : List ℕ
  pub slug : List ℕ
  pub description : Option String
  pub status : TenantStatus
  pub contact_email : Option String

pub record CreateRequest : Type 0 where
  pub name : List ℕ
  pub slug : List ℕ
  pub description : Option String
  pub contact_email : Option String

-- strings.ToLower and strings.TrimSpace, the identifier that the database draws, and its failures.
pub record TenantEnv : Type 0 where
  pub lower : List ℕ → List ℕ
  pub trim_space : List ℕ → List ℕ
  pub fresh : Uuid
  pub read_fails : Bool
  pub write_fails : Bool

pub data TenantEffect : Type 0 where
  audit : String → Uuid → TenantEffect
  invalidate_tenant_status : Uuid → TenantEffect
  invalidate_ip_allowlist : Uuid → TenantEffect

pub record Served (A : Type 0) : Type 0 where
  pub result : Result A
  pub rows : List TenantRow
  pub effects : List TenantEffect

unfoldable pub fail : {A : Type 0} → List TenantRow → Served A
fail rows = record { result = failed; rows = rows; effects = [] }

unfoldable pub find_tenant : (TenantRow → Bool) → List TenantRow → Option TenantRow
find_tenant p [] = none
find_tenant p (t ∷ ts) = if p t then some t else find_tenant p ts

unfoldable pub has_id : Uuid → TenantRow → Bool
has_id id t = t.id == id

unfoldable pub has_slug : List ℕ → TenantRow → Bool
unfolding bytes_equal
has_slug slug t = bytes_equal t.slug slug

unfoldable pub get_tenant : TenantEnv → Uuid → List TenantRow → Result (Option TenantRow)
unfolding find_tenant has_id
get_tenant env id rows = if env.read_fails then failed else ok (find_tenant (has_id id) rows)

unfoldable pub get_by_slug : TenantEnv → List ℕ → List TenantRow → Result (Option TenantRow)
unfolding find_tenant has_slug
get_by_slug env slug rows = if env.read_fails then failed else ok (find_tenant (has_slug slug) rows)

unfoldable pub slug_or_name : TenantEnv → List ℕ → List ℕ → List ℕ
unfolding slugify
slug_or_name env [] name = slugify env.lower name
slug_or_name env (r ∷ slug) name = r ∷ slug

unfoldable pub slug_of : TenantEnv → CreateRequest → List ℕ
unfolding slug_or_name
slug_of env req = slug_or_name env (env.lower (env.trim_space req.slug)) req.name

-- The unique constraints on the key and the slug are those of the table.
unfoldable pub insert_tenant :
    TenantEnv → CreateRequest → List ℕ → List TenantRow → Served TenantRow
unfolding fail has_id has_slug
insert_tenant env req slug rows =
    let row : TenantRow = record {
      id = env.fresh;
      name = req.name;
      slug = slug;
      description = req.description;
      status = active;
      contact_email = req.contact_email;
    } in
    if env.write_fails || (any (has_id env.fresh) rows || any (has_slug slug) rows)
    then fail rows
    else record {
      result = ok row;
      rows = row ∷ rows;
      effects = audit "tenant.create" env.fresh ∷ [];
    }

unfoldable pub create_tenant : TenantEnv → CreateRequest → List TenantRow → Served TenantRow
unfolding slug_of get_by_slug insert_tenant fail
create_tenant env req rows = elim (get_by_slug env (slug_of env req) rows) [
  | failed ↦ fail rows
  | ok (some t) ↦ fail rows
  | ok none ↦ insert_tenant env req (slug_of env req) rows
]

unfoldable pub at_tenant : Uuid → (TenantRow → TenantRow) → List TenantRow → List TenantRow
unfolding has_id
at_tenant id f [] = []
at_tenant id f (t ∷ ts) = (if has_id id t then f t else t) ∷ at_tenant id f ts

unfoldable pub set_details : CreateRequest → TenantRow → TenantRow
set_details req t = record t {
  name = req.name;
  description = req.description;
  contact_email = req.contact_email;
}

-- The row before, which is read for the audit record, may be missing.
unfoldable pub update_tenant : TenantEnv → Uuid → CreateRequest → List TenantRow → Served TenantRow
unfolding fail find_tenant has_id at_tenant set_details
update_tenant env id req rows =
    if env.write_fails then fail rows else elim (find_tenant (has_id id) rows) [
      | none ↦ fail rows
      | some t ↦ record {
        result = ok (set_details req t);
        rows = at_tenant id (set_details req) rows;
        effects = audit "tenant.update" id ∷ [];
      }
    ]

unfoldable pub put_status : TenantStatus → TenantRow → TenantRow
put_status status t = record t { status = status }

-- No row is an error too.
unfoldable pub set_status :
    TenantEnv → Uuid → TenantStatus → List TenantRow → Result (List TenantRow)
unfolding find_tenant has_id at_tenant put_status
set_status env id status rows =
    if env.write_fails then failed else elim (find_tenant (has_id id) rows) [
      | none ↦ failed
      | some t ↦ ok (at_tenant id (put_status status) rows)
    ]

unfoldable pub suspend : TenantEnv → Uuid → List TenantRow → Served Unit
unfolding set_status fail
suspend env id rows = elim (set_status env id suspended rows) [
  | failed ↦ fail rows
  | ok rows' ↦ record {
    result = ok tt;
    rows = rows';
    effects =
        invalidate_tenant_status id ∷ invalidate_ip_allowlist id ∷ audit "tenant.suspend" id ∷ [];
  }
]

unfoldable pub reactivate : TenantEnv → Uuid → List TenantRow → Served Unit
unfolding set_status fail
reactivate env id rows = elim (set_status env id active rows) [
  | failed ↦ fail rows
  | ok rows' ↦ record {
    result = ok tt;
    rows = rows';
    effects = invalidate_tenant_status id ∷ audit "tenant.reactivate" id ∷ [];
  }
]

unfoldable pub without : Uuid → List TenantRow → List TenantRow
unfolding has_id
without id [] = []
without id (t ∷ ts) = let rest = without id ts in if has_id id t then rest else t ∷ rest

unfoldable pub delete_tenant : TenantEnv → Uuid → List TenantRow → Served Unit
unfolding get_tenant fail without
delete_tenant env id rows = elim (get_tenant env id rows) [
  | failed ↦ fail rows
  | ok none ↦ fail rows
  | ok (some t) ↦ if env.write_fails then fail rows else record {
    result = ok tt;
    rows = without id rows;
    effects =
        invalidate_tenant_status id ∷ invalidate_ip_allowlist id ∷ audit "tenant.delete" id ∷ [];
  }
]
