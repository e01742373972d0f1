-- ===== src/Users/Inserted.antt =====
-- A user that is created leaves a platform that has a superadmin with one.
use tsa_proxy.Common.{
  String, ◌≡◌, ◌⊎◌, refl, sym, Bool, true, false, List, ◌∷◌, any, Bool-cases, inl, inr, ◌==◌,
  ==_iff,
}
use tsa_proxy.ApiError.{Result-cases}
use tsa_proxy.Model.{Uuid}
use tsa_proxy.Auth.{Bytes}
use tsa_proxy.Password.{hash_password}
use tsa_proxy.AdminUsers.{
  AdminUser, Created, CreateError, created, not_created, at_row, create, uses_username, has_email,
  new_user, put_role,
}
use tsa_proxy.AdminUsers.Table.{at_row_absent}
use tsa_proxy.Users.{UsersEnv, UserWriteRequest, create_valid}
use tsa_proxy.Users.Superadmin.{IsGoverned, more-IsGoverned}
use tsa_proxy.Users.Governed.{GuardReads, IsKept, create_role-IsGoverned}

Created-cases :
    (r : Created)
    → ((e : CreateError) × (r ≡ not_created e))
      ⊎ ((id : Uuid) × ((us : List AdminUser) × (r ≡ created id us)))
Created-cases (not_created e) = inl (e, refl)
Created-cases (created id us) = inr (id, (us, refl))

module _ (env : UsersEnv) (reads : GuardReads env) (us : List AdminUser) (gov : IsGoverned us) where
  -- A row that is inserted has no role yet, and its identifier is new.
  create_row :
      (fails : Bool) (fresh : Uuid) (username email : String) (hash : Bytes) (id : Uuid)
      (us' : List AdminUser)
      → create fails fresh username email hash us ≡ created id us'
      → (u : AdminUser) × ((u.id ≡ id) × ((any (λ v. v.id == id) us ≡ false) × (us' ≡ u ∷ us)))
  unfolding create
  create_row true fresh username email hash id us' h = cc
  create_row false fresh username email hash id us' h =
      elim (Bool-cases (any (λ u. u.id == fresh) us)) [
        | inl a ↦ let h' = (rw (create, a) at h) in cc
        | inr a ↦
            let h1 = (rw (create, a) at h) in
            elim (Bool-cases (any (uses_username username) us)) [
              | inl b ↦ let h' = (rw b at h1) in cc
              | inr b ↦
                  let h2 = (rw b at h1) in
                  elim (Bool-cases (any (has_email email) us)) [
                    | inl c ↦ let h' = (rw c at h2) in cc
                    | inr c ↦
                        let h3 = (rw c at h2) in
                        let same : fresh ≡ id = cc in
                        let rows : us' ≡ new_user fresh username email hash ∷ us = cc in
                        (new_user fresh username email hash, (same, (rw (sym same) a, rows)))
                  ]
            ]
      ]

  role_of_new :
      (u : AdminUser) (id : Uuid) (role : String)
      → u.id ≡ id
      → any (λ v. v.id == id) us ≡ false
      → IsGoverned (at_row id (put_role role) (u ∷ us))
  unfolding at_row put_role
  role_of_new u id role same new =
      let at : (u.id == id) ≡ true = (==_iff u.id id).1 same in
      let new' : any (λ v. v.id == u.id) us ≡ false = rw same new in
      rw (at_row, at)
        (rw (at_row_absent id (put_role role) us new)
          (more-IsGoverned (put_role role u) us new' gov))

  pub create_valid-IsGoverned :
      (req : UserWriteRequest) (role : String) (tenants : List Uuid)
      → IsKept (create_valid env req role tenants us)
  unfolding create_valid
  create_valid-IsGoverned req role tenants =
      elim (Result-cases (hash_password env.argon env.salt req.password)) [
        | inl e ↦ rw (create_valid, e) gov
        | inr (hash, e) ↦
            elim (Created-cases (create env.row_fails env.fresh req.username req.email hash us)) [
              | inl (err, c) ↦ rw (create_valid, e) (rw c gov)
              | inr (id, (us', c)) ↦
                  let (u, (same, (new, rows))) =
                    create_row env.row_fails env.fresh req.username req.email hash id us' c in
                  let new' : any (λ v. v.id == u.id) us ≡ false = rw same new in
                  let more = more-IsGoverned u us new' gov in
                  rw (create_valid, e)
                    (rw c (
                      create_role-IsGoverned env id role tenants us' (rw rows more)
                        (rw rows (role_of_new u id role same new))))
            ]
      ]
