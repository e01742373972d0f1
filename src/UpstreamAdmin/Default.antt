-- ===== src/UpstreamAdmin/Default.antt =====
-- Which upstream is the default after one was set.
use tsa_proxy.Common.{
  ◌≡◌, refl, sym, false, ◌&&◌, Option, none, some, List, [], ◌∷◌, ◌==◌, map, Bool-cases, inl, inr,
}
use tsa_proxy.ApiError.{ok, ok-injective}
use tsa_proxy.Model.{Uuid}
use tsa_proxy.UpstreamAdmin.{
  Upstream, Config, Faults, find_upstream, read_found, get_default, at_upstream, clear_default,
  mark_default, set_default,
}

-- The row of the identifier, if there is one, as the default.
abbrev pub marked : Option Upstream → Option Upstream
marked none = none
marked (some u) = some (mark_default u)

find-marked :
    (id : Uuid) (us : List Upstream)
    → find_upstream
        (λ u. u.is_default && u.is_active)
        (at_upstream id mark_default (map clear_default us))
      ≡ marked (find_upstream (λ u. u.id == id) us)
unfolding find_upstream at_upstream clear_default mark_default
find-marked id [] = refl
find-marked id (u ∷ us) = elim (Bool-cases (u.id == id)) [
  | inl e ↦ simp e refl
  | inr e ↦ simp e (find-marked id us)
]

-- After SetDefault, whatever was the default before, the default is the upstream of the identifier,
-- made active; where the identifier has no row there is no default any more.
pub get_default-set_default :
    (cfg : Config) (f f' : Faults) (id : Uuid) (us us' : List Upstream)
    → set_default f id us ≡ ok us'
    → f'.read_fails ≡ false
    → get_default cfg f' us' ≡ ok (read_found cfg (marked (find_upstream (λ u. u.id == id) us)))
unfolding set_default get_default
get_default-set_default cfg f f' id us us' h up = elim (Bool-cases f.write_fails) [
  | inl d ↦ let h' = (rw (set_default, d) at h) in cc
  | inr d ↦
      let h' : ok (at_upstream id mark_default (map clear_default us)) ≡ ok us' =
        (rw (set_default, d) at h) in
      rw (get_default, up) (rw (sym (ok-injective h')) (rw (find-marked id us) refl))
]
