-- ===== src/Users/Scope.antt =====
-- internal/handler/admin/scope.go: the tenants that a reading endpoint may show. A list that is nil
-- means no restriction, and is none here.
use mathlib.Core.List.{Memᴰ}
use tsa_proxy.Common.{
  String, ◌≡◌, ◌⊎◌, refl, sym, ◌∙◌, ap, Bool, true, false, ◌||◌, Option, none, some, List, [], ◌∷◌,
  any, ◌==◌, ==_iff, Bool-cases, Option-cases, inl, inr, if◌then◌else◌, str_eq,
}
use tsa_proxy.ApiError.{
  ok, failed, Answer, answer, refuse, err_admin_unauthorized, err_internal, err_forbidden,
  Result-cases,
}
use tsa_proxy.Model.{Uuid}
use tsa_proxy.AdminUsers.{AdminUser, get_tenant_scope}
use tsa_proxy.AdminAuth.Admin.{AdminContext, get_admin_user_id, get_admin_roles}

unfoldable pub is_manager : List String → Bool
is_manager roles = any (λ role. str_eq role "superadmin" || str_eq role "admin") roles

unfoldable pub pick_scope : Option Uuid → List Uuid → Answer (Option (List Uuid))
pick_scope none scope = answer (some scope)
pick_scope (some t) scope =
    if any (λ tid. tid == t) scope then answer (some (t ∷ [])) else refuse err_forbidden

unfoldable pub scope_of : Option Uuid → List Uuid → Answer (Option (List Uuid))
unfolding pick_scope
scope_of requested [] = answer none
scope_of requested (t ∷ ts) = pick_scope requested (t ∷ ts)

unfoldable pub resolve_tenant_scope :
    Bool → AdminContext → Option Uuid → List AdminUser → Answer (Option (List Uuid))
unfolding is_manager scope_of get_admin_roles get_admin_user_id get_tenant_scope
resolve_tenant_scope fails c requested us =
    if is_manager (get_admin_roles c) then answer none else elim (get_admin_user_id c) [
      | none ↦ refuse err_admin_unauthorized
      | some id ↦ elim (get_tenant_scope fails id us) [
        | failed ↦ refuse err_internal
        | ok scope ↦ scope_of requested scope
      ]
    ]

-- What an answer must be for the user of the context: the tenants that may be shown are of the
-- scope, and those asked for; no restriction is for a manager, or for who has no scope.
abbrev pub IsWithin : AdminContext → Option Uuid → List AdminUser → Option (List Uuid) → Type 0
IsWithin c requested us none =
    (is_manager (get_admin_roles c) ≡ true)
    ⊎ ((id : Uuid) × ((get_admin_user_id c ≡ some id) × (get_tenant_scope false id us ≡ ok [])))
IsWithin c requested us (some ts) =
    (id : Uuid) × ((scope : List Uuid) × ((get_admin_user_id c ≡ some id)
        × ((get_tenant_scope false id us ≡ ok scope)
            × ((t : Uuid)
                → Memᴰ t ts
                → Memᴰ t scope × ((requested ≡ none) ⊎ (requested ≡ some t))))))

Memᴰ-any : (t : Uuid) (ts : List Uuid) → any (λ tid. tid == t) ts ≡ true → Memᴰ t ts
Memᴰ-any t [] h = cc
Memᴰ-any t (s ∷ ts) h = elim (Bool-cases (s == t)) [
  | inl e ↦ Memᴰ.head (sym ((==_iff s t).0 e))
  | inr e ↦ let h' = (rw e at h) in Memᴰ.tail (Memᴰ-any t ts h')
]

only : (t u : Uuid) (scope : List Uuid) → Memᴰ t scope → Memᴰ u (t ∷ []) → Memᴰ u scope × (t ≡ u)
only t u scope h (Memᴰ.head e) = (rw e h, sym e)
only t u scope h (Memᴰ.tail m) = elim m [ ]

Picked : Option Uuid → List Uuid → Option (List Uuid) → Type 0
Picked requested scope none = (scope ≡ [])
Picked requested scope (some ts) =
    (t : Uuid) → Memᴰ t ts → Memᴰ t scope × ((requested ≡ none) ⊎ (requested ≡ some t))

scope_of-Picked :
    (requested : Option Uuid) (scope : List Uuid) (o : Option (List Uuid))
    → scope_of requested scope ≡ answer o
    → Picked requested scope o
unfolding scope_of pick_scope Picked
scope_of-Picked requested [] none h = refl
scope_of-Picked requested [] (some ts) h = cc
scope_of-Picked none (t ∷ ts) none h = cc
scope_of-Picked none (t ∷ ts) (some us) h =
    let same : (t ∷ ts) ≡ us = cc in λ u m. (rw same m, inl refl)
scope_of-Picked (some t) (s ∷ ts) o h = elim (Bool-cases (any (λ tid. tid == t) (s ∷ ts))) [
  | inl e ↦
      let h' : answer (some (t ∷ [])) ≡ answer o = (rw e at h) in
      let same : some (t ∷ []) ≡ o = cc in
      rw (sym same) (λ u m.
        let (inside, is) = only t u (s ∷ ts) (Memᴰ-any t (s ∷ ts) e) m in
        (inside, inr (ap some is)))
  | inr e ↦ let h' = (rw e at h) in cc
]

Picked-IsWithin :
    (c : AdminContext) (requested : Option Uuid) (us : List AdminUser) (id : Uuid)
    (scope : List Uuid) (o : Option (List Uuid))
    → get_admin_user_id c ≡ some id
    → get_tenant_scope false id us ≡ ok scope
    → Picked requested scope o
    → IsWithin c requested us o
unfolding Picked
Picked-IsWithin c requested us id scope none user found picked =
    inr (id, (user, found ∙ ap ok picked))
Picked-IsWithin c requested us id scope (some ts) user found picked =
    (id, (scope, (user, (found, picked))))

read_scope :
    (fails : Bool) (id : Uuid) (us : List AdminUser) (scope : List Uuid)
    → get_tenant_scope fails id us ≡ ok scope
    → get_tenant_scope false id us ≡ ok scope
unfolding get_tenant_scope
read_scope true id us scope h = cc
read_scope false id us scope h = h

-- Whatever the tenant that is asked for, an answer shows a user who is no manager only tenants of
-- the user's scope, and only the one asked for; it is without restriction for managers and for
-- users without a scope alone.
pub resolve_tenant_scope-IsWithin :
    (fails : Bool) (c : AdminContext) (requested : Option Uuid) (us : List AdminUser)
    (o : Option (List Uuid))
    → resolve_tenant_scope fails c requested us ≡ answer o
    → IsWithin c requested us o
unfolding resolve_tenant_scope
resolve_tenant_scope-IsWithin fails c requested us o h =
    elim (Bool-cases (is_manager (get_admin_roles c))) [
      | inl m ↦
          let h1 : answer none ≡ answer o = (rw (resolve_tenant_scope, m) at h) in
          let same : none ≡ o = cc in rw (sym same) (inl m)
      | inr m ↦
          let h1 = (rw (resolve_tenant_scope, m) at h) in
          elim (Option-cases (get_admin_user_id c)) [
            | inl e ↦ let h2 = (rw e at h1) in cc
            | inr (id, e) ↦
                let h2 = (rw e at h1) in
                elim (Result-cases (get_tenant_scope fails id us)) [
                  | inl f ↦ let h3 = (rw f at h2) in cc
                  | inr (scope, f) ↦
                      let h3 = (rw f at h2) in
                      Picked-IsWithin c requested us id scope o e (read_scope fails id us scope f)
                        (scope_of-Picked requested scope o h3)
                ]
          ]
    ]
