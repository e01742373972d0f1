-- ===== src/Users/Superadmin.antt =====
-- The guard of internal/handler/admin/users.go against leaving the platform without a superadmin.
use tsa_proxy.Common.{
  ℕ, String, ◌≤◌, ◌≡◌, refl, sym, Bool, true, false, ◌&&◌, none, some, List, [], ◌∷◌, any,
  Bool-cases, Option-cases, inl, inr, str_eq, leb, ◌==◌, arith,
}
use tsa_proxy.ApiError.{ok, Result-cases, ok-injective}
use tsa_proxy.Model.{Uuid}
use tsa_proxy.AdminUsers.{
  AdminUser, find_row, is_row, with_roles, find_by_id, at_row, has_role, counts_for, count,
  count_by_role, exec,
}
use tsa_proxy.AdminUsers.Table.{
  IsKeyed, is_lost, is_lost-none, is_lost-found, count-at_row, count-at_row_kept, at_row-IsKeyed,
}
use tsa_proxy.Users.{UsersEnv, UsersBody, guard_count, guard_last_superadmin, user_reply, written}

-- An active superadmin that counts.
abbrev pub is_superadmin : AdminUser → Bool
is_superadmin u = counts_for "superadmin" u

present : (u : AdminUser) → is_superadmin u ≡ true → u.is_deleted ≡ false
unfolding counts_for
present u h = ground (arith, h)

pub record IsGoverned (us : List AdminUser) : Type 0 where
  pub keyed : IsKeyed us
  pub governed : 1 ≤ count is_superadmin us

-- A change of one row that keeps its identifier, and keeps a superadmin where the request asks for
-- an active one.
pub record IsAsked (new_role : String) (new_active : Bool) (f : AdminUser → AdminUser)
    : Type 0 where
  pub same_id : (u : AdminUser) → (f u).id ≡ u.id
  pub keeps :
      (u : AdminUser)
      → (str_eq new_role "superadmin" && new_active) ≡ true
      → is_superadmin u ≡ true
      → is_superadmin (f u) ≡ true

module _ (env : UsersEnv)
    (reads : env.guard_reads ≡ record { row_fails = false; roles_fail = false }) (id : Uuid)
    (new_role : String) (new_active : Bool) (us : List AdminUser) (gov : IsGoverned us)
    (free : guard_last_superadmin env id new_role new_active us ≡ none) (f : AdminUser → AdminUser)
    (asked : IsAsked new_role new_active f) where
  kept : any (is_lost id f is_superadmin) us ≡ false → 1 ≤ count is_superadmin (at_row id f us)
  kept none_lost =
      let step = count-at_row_kept id f is_superadmin us none_lost in
      omega (arith, step, gov.governed)

  counted :
      (n : ℕ)
      → count is_superadmin us ≡ n
      → leb n 1 ≡ false
      → 1 ≤ count is_superadmin (at_row id f us)
  counted n e more =
      let step = count-at_row id f is_superadmin us gov.keyed in ground (arith, step, e, more)

  lost_not :
      (u : AdminUser)
      → (is_superadmin u ≡ true → is_superadmin (f u) ≡ true)
      → is_lost id f is_superadmin u ≡ false
  lost_not u keeps = elim (Bool-cases (is_superadmin u)) [
    | inl p ↦ rw (p, keeps p) (ground (arith))
    | inr p ↦ rw p (ground (arith))
  ]

  free_found :
      (u : AdminUser) → find_row (is_row id) us ≡ some u → 1 ≤ count is_superadmin (at_row id f us)
  unfolding guard_last_superadmin find_by_id with_roles count_by_role guard_count
  free_found u found =
      let h = (rw (guard_last_superadmin, reads, found) at free) in
      let lost = is_lost-found id f is_superadmin present us u gov.keyed found in
      elim (Bool-cases (has_role "superadmin" u)) [
        | inr plain ↦
            let p : is_superadmin u ≡ false = (rw (counts_for, plain) (ground arith)) in
            kept (lost (lost_not u (λ q. cc)))
        | inl super ↦
            let h1 = (rw super at h) in
            elim (Bool-cases (str_eq new_role "superadmin" && new_active)) [
              | inl stays ↦ kept (lost (lost_not u (asked.keeps u stays)))
              | inr goes ↦
                  let h2 = (rw goes at h1) in
                  elim (Bool-cases env.count_fails) [
                    | inl down ↦ let h3 = (rw down at h2) in cc
                    | inr up ↦
                        let h3 = (rw up at h2) in
                        elim (Bool-cases (leb (count is_superadmin us) 1)) [
                          | inl few ↦ let h4 = (rw few at h3) in cc
                          | inr more ↦ counted (count is_superadmin us) refl more
                        ]
                  ]
            ]
      ]

  pub guard-superadmin : 1 ≤ count is_superadmin (at_row id f us)
  guard-superadmin = elim (Option-cases (find_row (is_row id) us)) [
    | inl e ↦ kept (is_lost-none id f is_superadmin present us e)
    | inr (u, e) ↦ free_found u e
  ]

  pub guard-IsGoverned : IsGoverned (at_row id f us)
  guard-IsGoverned = record {
    keyed = at_row-IsKeyed id f asked.same_id us gov.keyed;
    governed = guard-superadmin;
  }

lost_never :
    (id : Uuid) (f : AdminUser → AdminUser)
    → ((u : AdminUser) → is_superadmin u ≡ true → is_superadmin (f u) ≡ true)
    → (us : List AdminUser) → any (is_lost id f is_superadmin) us ≡ false
lost_never id f keeps [] = refl
lost_never id f keeps (u ∷ us) = elim (Bool-cases (is_superadmin u)) [
  | inl p ↦ rw (p, keeps u p, lost_never id f keeps us) (ground arith)
  | inr p ↦ rw (p, lost_never id f keeps us) (ground arith)
]

-- A change of one row that concerns neither the role nor the state of the account.
pub kept-IsGoverned :
    (id : Uuid) (f : AdminUser → AdminUser)
    → ((u : AdminUser) → (f u).id ≡ u.id)
    → ((u : AdminUser) → is_superadmin u ≡ true → is_superadmin (f u) ≡ true)
    → (us : List AdminUser) → IsGoverned us
    → IsGoverned (at_row id f us)
kept-IsGoverned id f same keeps us gov =
    let step = count-at_row_kept id f is_superadmin us (lost_never id f keeps us) in
    record {
      keyed = at_row-IsKeyed id f same us gov.keyed;
      governed = omega (arith, step, gov.governed);
    }

pub more-IsGoverned :
    (u : AdminUser) (us : List AdminUser)
    → any (λ v. v.id == u.id) us ≡ false
    → IsGoverned us
    → IsGoverned (u ∷ us)
unfolding count
more-IsGoverned u us new gov = record {
  keyed = (new, gov.keyed);
  governed = elim (Bool-cases (is_superadmin u)) [
    | inl p ↦ rw p (omega (arith, gov.governed))
    | inr p ↦ rw p gov.governed
  ];
}

-- A write of one row succeeds or leaves the table.
pub exec-cases :
    (P : List AdminUser → Type 0) (fails : Bool) (id : Uuid) (f : AdminUser → AdminUser)
    (us us' : List AdminUser)
    → P (at_row id f us)
    → exec fails id f us ≡ ok us'
    → P us'
unfolding exec
exec-cases P true id f us us' h e = cc
exec-cases P false id f us us' h e = rw (sym (ok-injective e)) h

pub written-IsGoverned :
    (body : UsersBody) (fails : Bool) (id : Uuid) (f : AdminUser → AdminUser) (us : List AdminUser)
    → IsGoverned us
    → IsGoverned (at_row id f us)
    → IsGoverned (written body (exec fails id f us) us).1
unfolding written exec
written-IsGoverned body true id f us gov gov' = gov
written-IsGoverned body false id f us gov gov' = gov'

pub user_reply_state :
    (env : UsersEnv) (id : Uuid) (us : List AdminUser) → (user_reply env id us).1 ≡ us
unfolding user_reply
user_reply_state env id us = elim (Result-cases (find_by_id env.reply_reads id us)) [
  | inl e ↦ rw (user_reply, e) refl
  | inr (none, e) ↦ rw (user_reply, e) refl
  | inr (some u, e) ↦ rw (user_reply, e) refl
]
