-- ===== src/AdminUsers/Table.antt =====
-- Counting the rows that a predicate picks, before and after the row of one identifier changes.
use mathlib.Core.Option.{some-injective}
use tsa_proxy.Common.{
  suc, ◌≤◌, ◌≡◌, refl, sym, ◌∙◌, ap, Option-cases, Bool, true, false, not, ◌&&◌, none, some, List,
  [], ◌∷◌, ◌==◌, ==_iff, Bool-cases, inl, inr, arith, any,
}
use tsa_proxy.Model.{Uuid}
use tsa_proxy.AdminUsers.{AdminUser, Reads, find_row, is_row, with_roles, find_by_id, at_row, count}
use tsa_proxy.ApiError.{ok, ok-injective}

-- No two rows share an identifier.
abbrev pub IsKeyed : List AdminUser → Type 0
IsKeyed [] = Unit
IsKeyed (u ∷ us) = (any (λ v. v.id == u.id) us ≡ false) × IsKeyed us

module _ (id : Uuid) (f : AdminUser → AdminUser) where
  pub at_row_absent : (us : List AdminUser) → any (λ v. v.id == id) us ≡ false → at_row id f us ≡ us
  unfolding at_row
  at_row_absent [] h = refl
  at_row_absent (u ∷ us) h = elim (Bool-cases (u.id == id)) [
    | inl e ↦ let h' : true ≡ false = (rw e at h) in cc
    | inr e ↦ let h' = (rw e at h) in rw (e, at_row_absent us h') refl
  ]

  -- One row less at most.
  pub count-at_row :
      (p : AdminUser → Bool) (us : List AdminUser)
      → IsKeyed us
      → count p us ≤ suc (count p (at_row id f us))
  unfolding at_row count
  count-at_row p [] k = omega arith
  count-at_row p (u ∷ us) k = elim (Bool-cases (u.id == id)) [
    | inl e ↦
        let same = (==_iff u.id id).0 e in
        let absent : any (λ v. v.id == id) us ≡ false = (rw same at k.0) in
        rw (e, at_row_absent us absent) (ground arith)
    | inr e ↦ let rest = count-at_row p us k.1 in rw e (ground arith)
  ]

  -- No row less where the row of the identifier, when it was counted, still is.
  abbrev pub is_lost : (AdminUser → Bool) → AdminUser → Bool
  is_lost p u = (u.id == id) && (p u && not (p (f u)))

  pub count-at_row_kept :
      (p : AdminUser → Bool) (us : List AdminUser)
      → any (is_lost p) us ≡ false
      → count p us ≤ count p (at_row id f us)
  unfolding at_row count
  count-at_row_kept p [] h = omega arith
  count-at_row_kept p (u ∷ us) h = elim (Bool-cases (u.id == id)) [
    | inl e ↦ elim (Bool-cases (p u)) [
      | inl pu ↦ elim (Bool-cases (p (f u))) [
        | inl pf ↦
            let h' = (rw (e, pu, pf) at h) in
            let rest = count-at_row_kept p us h' in rw (e, pu, pf) (omega (arith, rest))
        | inr pf ↦ let h' : true ≡ false = (rw (e, pu, pf) at h) in cc
      ]
      | inr pu ↦
          let h' = (rw (e, pu) at h) in
          let rest = count-at_row_kept p us h' in rw (e, pu) (ground arith)
    ]
    | inr e ↦ let h' = (rw e at h) in let rest = count-at_row_kept p us h' in rw e (ground arith)
  ]

pub find_row-holds :
    (p : AdminUser → Bool) (us : List AdminUser) (u : AdminUser)
    → find_row p us ≡ some u
    → p u ≡ true
unfolding find_row
find_row-holds p [] u h = cc
find_row-holds p (v ∷ us) u h = elim (Bool-cases (p v)) [
  | inl e ↦ let h' : some v ≡ some u = (rw e at h) in rw (sym (some-injective _ _ h')) e
  | inr e ↦ let h' = (rw e at h) in find_row-holds p us u h'
]

pub find_by_id-id :
    (reads : Reads) (id : Uuid) (us : List AdminUser) (u : AdminUser)
    → find_by_id reads id us ≡ ok (some u)
    → u.id ≡ id
unfolding find_by_id with_roles is_row
find_by_id-id reads id us u h = elim (Bool-cases reads.row_fails) [
  | inl e ↦ let h' = (rw e at h) in cc
  | inr e ↦
      let h1 = (rw e at h) in
      elim (Option-cases (find_row (is_row id) us)) [
        | inl f ↦ let h2 = (rw f at h1) in cc
        | inr (v, f) ↦
            let h2 = (rw f at h1) in
            let same : v.id ≡ u.id = ap (λ x. x.id) (some-injective _ _ (ok-injective h2)) in
            let held = find_row-holds (is_row id) us v f in ground (arith, same, held)
      ]
]

-- The row of an identifier decides whether a change of that identifier loses one.
module _ (id : Uuid) (f : AdminUser → AdminUser) (p : AdminUser → Bool)
    (present : (u : AdminUser) → p u ≡ true → u.is_deleted ≡ false) where
  lost_absent :
      (us : List AdminUser) → any (λ v. v.id == id) us ≡ false → any (is_lost id f p) us ≡ false
  lost_absent [] h = refl
  lost_absent (u ∷ us) h = elim (Bool-cases (u.id == id)) [
    | inl e ↦ let h' : true ≡ false = (rw e at h) in cc
    | inr e ↦ let h' = (rw e at h) in rw e (lost_absent us h')
  ]

  lost_deleted : (u : AdminUser) → u.is_deleted ≡ true → is_lost id f p u ≡ false
  lost_deleted u gone = elim (Bool-cases (p u)) [
    | inl e ↦ let no_row = present u e in cc
    | inr e ↦ rw e (ground arith)
  ]

  pub is_lost-none :
      (us : List AdminUser) → find_row (is_row id) us ≡ none → any (is_lost id f p) us ≡ false
  unfolding find_row is_row
  is_lost-none [] h = refl
  is_lost-none (u ∷ us) h = elim (Bool-cases (is_row id u)) [
    | inl e ↦ let h' = (rw e at h) in cc
    | inr e ↦ let h' = (rw e at h) in rw (is_lost-none us h') (ground (arith, e, lost_deleted u))
  ]

  pub is_lost-found :
      (us : List AdminUser) (u : AdminUser)
      → IsKeyed us
      → find_row (is_row id) us ≡ some u
      → is_lost id f p u ≡ false
      → any (is_lost id f p) us ≡ false
  unfolding find_row is_row
  is_lost-found [] u k h kept = cc
  is_lost-found (v ∷ us) u k h kept = elim (Bool-cases (v.id == id)) [
    | inr e ↦ let h' = (rw e at h) in let rest = is_lost-found us u k.1 h' kept in rw e rest
    | inl e ↦
        let absent : any (λ w. w.id == id) us ≡ false = (rw ((==_iff v.id id).0 e) at k.0) in
        let rest = lost_absent us absent in
        elim (Bool-cases v.is_deleted) [
          | inl d ↦ let gone = lost_deleted v d in rw rest (ground (arith, gone))
          | inr d ↦
              let h1 = (rw (is_row, e) at h) in
              let h2 : some v ≡ some u = (simp d at h1) in
              let same : is_lost id f p v ≡ false = rw (some-injective _ _ h2) kept in
              rw rest (ground (arith, same))
        ]
  ]

module _ (id : Uuid) (f g : AdminUser → AdminUser) (keeps : (u : AdminUser) → (f u).id ≡ u.id) where
  pub at_row-at_row :
      (us : List AdminUser) → at_row id g (at_row id f us) ≡ at_row id (λ u. g (f u)) us
  unfolding at_row
  at_row-at_row [] = refl
  at_row-at_row (u ∷ us) = elim (Bool-cases (u.id == id)) [
    | inl e ↦
        let e' : ((f u).id == id) ≡ true = rw (keeps u) e in
        rw (at_row-at_row us) (simp (e, e') refl)
    | inr e ↦ rw (at_row-at_row us) (simp e refl)
  ]

module _ (id : Uuid) (f : AdminUser → AdminUser) (keeps : (u : AdminUser) → (f u).id ≡ u.id) where
  any_id-at_row :
      (j : Uuid) (us : List AdminUser)
      → any (λ v. v.id == j) (at_row id f us) ≡ any (λ v. v.id == j) us
  unfolding at_row
  any_id-at_row j [] = refl
  any_id-at_row j (u ∷ us) = elim (Bool-cases (u.id == id)) [
    | inl e ↦ rw (e, any_id-at_row j us, keeps u) refl
    | inr e ↦ rw (e, any_id-at_row j us) refl
  ]

  pub at_row-IsKeyed : (us : List AdminUser) → IsKeyed us → IsKeyed (at_row id f us)
  unfolding at_row
  at_row-IsKeyed [] k = k
  at_row-IsKeyed (u ∷ us) k = elim (Bool-cases (u.id == id)) [
    | inl e ↦ rw e (rw (keeps u) (any_id-at_row u.id us ∙ k.0), at_row-IsKeyed us k.1)
    | inr e ↦ rw e (any_id-at_row u.id us ∙ k.0, at_row-IsKeyed us k.1)
  ]

-- The row of an identifier, deleted or not, after a change of it.
module _ (id : Uuid) where
  pub find_row-at_row :
      (f : AdminUser → AdminUser) (keeps : (u : AdminUser) → (f u).id ≡ u.id) (us : List AdminUser)
      (u : AdminUser)
      → find_row (λ v. v.id == id) us ≡ some u
      → find_row (λ v. v.id == id) (at_row id f us) ≡ some (f u)
  unfolding find_row at_row
  find_row-at_row f keeps [] u h = cc
  find_row-at_row f keeps (v ∷ us) u h = elim (Bool-cases (v.id == id)) [
    | inl e ↦
        let e' : ((f v).id == id) ≡ true = rw (keeps v) e in
        let h' : some v ≡ some u = (simp e at h) in
        simp (e, e') (ap (λ x. some (f x)) (some-injective _ _ h'))
    | inr e ↦
        let h' : find_row (λ v. v.id == id) us ≡ some u = (simp e at h) in
        simp e (find_row-at_row f keeps us u h')
  ]

  pub find_row_id :
      (us : List AdminUser) (u : AdminUser)
      → find_row (is_row id) us ≡ some u
      → (v : AdminUser) × (find_row (λ v. v.id == id) us ≡ some v)
  unfolding find_row is_row
  find_row_id [] u h = cc
  find_row_id (v ∷ us) u h = elim (Bool-cases (v.id == id)) [
    | inl e ↦ (v, simp e refl)
    | inr e ↦
        let h' : find_row (is_row id) us ≡ some u = (simp e at h) in
        let (w, found) = find_row_id us u h' in (w, simp e found)
  ]
