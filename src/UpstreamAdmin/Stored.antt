-- ===== src/UpstreamAdmin/Stored.antt =====
-- What the table of the upstreams keeps after an update that moves one to another host.
use mathlib.Core.Option.{some-injective}
use tsa_proxy.Common.{
  ◌≡◌, refl, sym, ◌∙◌, ap, Bool, true, false, Option, none, some, List, [], ◌∷◌, ◌==◌, ==_iff,
  Bool-cases, inl, inr, str_eq,
}
use tsa_proxy.ApiError.{ok, answer, Result-cases, Answer-cases, ok-injective}
use tsa_proxy.Model.{Uuid}
use tsa_proxy.Auth.{Bytes}
use tsa_proxy.Upstream.Allowlist.{same_host}
use tsa_proxy.UpstreamAdmin.{
  Upstream, Config, Faults, encrypt_password, find_upstream, read_found, read_row, get_by_id,
  at_upstream, set_columns, update, ConfigBody, reject,
}
use tsa_proxy.UpstreamAdmin.Handlers.{
  UpstreamRequest, apply_request, save_upstream, update_upstream,
}
use tsa_proxy.UpstreamAdmin.Credentials.{IsMoved, apply_request-IsMoved}

-- The row of an identifier after a change of it.
pub find_upstream-at_upstream :
    (id : Uuid) (f : Upstream → Upstream) (keeps : (u : Upstream) → (f u).id ≡ u.id)
    (us : List Upstream) (u : Upstream)
    → find_upstream (λ v. v.id == id) us ≡ some u
    → find_upstream (λ v. v.id == id) (at_upstream id f us) ≡ some (f u)
unfolding find_upstream at_upstream
find_upstream-at_upstream id f keeps [] u h = cc
find_upstream-at_upstream id f keeps (v ∷ us) u h = elim (Bool-cases (v.id == id)) [
  | inl e ↦
      let e' : ((f v).id == id) ≡ true = rw (keeps v) e in
      let h' : some v ≡ some u = (simp e at h) in
      simp (e, e') (ap (λ x. some (f x)) (some-injective _ _ h'))
  | inr e ↦
      let h' : find_upstream (λ v. v.id == id) us ≡ some u = (simp e at h) in
      simp e (find_upstream-at_upstream id f keeps us u h')
]

-- The row that stands for a record after it was written, with the password encrypted.
abbrev pub IsWritten : Config → Faults → Upstream → Upstream → List Upstream → Type 0
IsWritten cfg f v row us =
    (stored : Option Bytes) × ((encrypt_password cfg f v.password ≡ ok stored)
      × (find_upstream (λ u. u.id == v.id) us ≡ some (set_columns v stored row)))

save-IsWritten :
    (cfg : Config) (f : Faults) (v row : Upstream) (cleared : Bool) (us : List Upstream)
    (b : ConfigBody)
    → find_upstream (λ u. u.id == v.id) us ≡ some row
    → (save_upstream cfg f v cleared us).reply ≡ answer b
    → IsWritten cfg f v row (save_upstream cfg f v cleared us).upstreams
unfolding save_upstream update reject set_columns
save-IsWritten cfg f v row cleared us b found h =
    elim (Result-cases (encrypt_password cfg f v.password)) [
      | inl e ↦ let h' = (rw (save_upstream, update, e) at h) in cc
      | inr (stored, e) ↦
          let h1 = (rw (save_upstream, update, e) at h) in
          elim (Bool-cases f.write_fails) [
            | inl d ↦ let h2 = (rw d at h1) in cc
            | inr d ↦
                let row_found =
                  find_upstream-at_upstream v.id (set_columns v stored) (λ u. refl) us row found in
                (stored, (e, rw (save_upstream, update, e) (rw d (rw found row_found))))
          ]
    ]

row_id :
    (id : Uuid) (us : List Upstream) (u : Upstream)
    → find_upstream (λ v. v.id == id) us ≡ some u
    → u.id ≡ id
unfolding find_upstream
row_id id [] u h = cc
row_id id (v ∷ us) u h = elim (Bool-cases (v.id == id)) [
  | inl e ↦
      let h' : some v ≡ some u = (simp e at h) in
      sym (ap (λ x. x.id) (some-injective _ _ h')) ∙ (==_iff v.id id).0 e
  | inr e ↦
      let h' : find_upstream (λ v. v.id == id) us ≡ some u = (simp e at h) in row_id id us u h'
]

read_row_found :
    (cfg : Config) (f : Faults) (id : Uuid) (us : List Upstream) (row u : Upstream)
    → find_upstream (λ v. v.id == id) us ≡ some row
    → get_by_id cfg f id us ≡ ok (some u)
    → (u.url ≡ row.url) × (u.id ≡ id)
unfolding get_by_id read_found read_row
read_row_found cfg f id us row u found h = elim (Bool-cases f.read_fails) [
  | inl d ↦ let h' = (rw (get_by_id, d) at h) in cc
  | inr d ↦
      let h' : ok (some (read_row cfg row)) ≡ ok (some u) = (rw (get_by_id, d, found) at h) in
      let same = some-injective _ _ (ok-injective h') in
      (sym (ap (λ x. x.url) same), sym (ap (λ x. x.id) same) ∙ row_id id us row found)
]

-- An update of an upstream to a URL on another host, where it is answered, has checked the URL
-- against the allowlist, and leaves in the table of the credentials that were stored for the old
-- host nothing: the password is the encryption of what the request gives, or none, and the username
-- is what the request gives, or none.
pub update_upstream-host :
    (cfg : Config) (f : Faults) (id : Uuid) (req : UpstreamRequest) (us : List Upstream)
    (row : Upstream) (b : ConfigBody)
    → find_upstream (λ u. u.id == id) us ≡ some row
    → str_eq req.url "" ≡ false
    → same_host cfg.net row.url req.url ≡ false
    → (update_upstream cfg f (some id) (some req) us).reply ≡ answer b
    → (v : Upstream) × (IsMoved cfg req id v
        × IsWritten cfg f v row (update_upstream cfg f (some id) (some req) us).upstreams)
unfolding update_upstream reject
update_upstream-host cfg f id req us row b found given other h =
    elim (Result-cases (get_by_id cfg f id us)) [
      | inl e ↦ let h' = (rw (update_upstream, e) at h) in cc
      | inr (none, e) ↦ let h' = (rw (update_upstream, e) at h) in cc
      | inr (some u, e) ↦
          let h1 = (rw (update_upstream, e) at h) in
          let read = read_row_found cfg f id us row u found e in
          let other' : same_host cfg.net u.url req.url ≡ false = rw read.0 other in
          elim (Answer-cases (apply_request cfg req u)) [
            | inl (x, a) ↦ let h2 = (rw a at h1) in cc
            | inr ((v, cleared), a) ↦
                let h2 = (rw a at h1) in
                let moved = apply_request-IsMoved cfg req u v cleared given other' a in
                let same : v.id ≡ id = moved.0 ∙ read.1 in
                let found' : find_upstream (λ w. w.id == v.id) us ≡ some row = rw same found in
                (
                  v,
                  (
                    (same, moved.1),
                    rw (update_upstream, e)
                        (rw a (save-IsWritten cfg f v row cleared us b found' h2)),
                  ),
                )
          ]
    ]
