-- ===== src/UpstreamAdmin/Credentials.antt =====
-- A credential that was stored for one host is not kept for another.
use tsa_proxy.Common.{
  String, ◌≡◌, ◌⊎◌, refl, sym, ◌∙◌, ap, Bool, false, not, ◌&&◌, Option, none, some, Option-cases,
  inl, inr, if-holds, str_eq,
}
use tsa_proxy.ApiError.{ok, Answer, answer, refuse, Result-cases}
use tsa_proxy.Model.{Uuid}
use tsa_proxy.Auth.{Bytes}
use tsa_proxy.Upstream.Allowlist.{validate_url, same_host}
use tsa_proxy.UpstreamAdmin.{Upstream, Config}
use tsa_proxy.UpstreamAdmin.Handlers.{
  UpstreamRequest, given_text, given_bytes, is_some, has_credentials, move_host, apply_url,
  chosen_text, chosen_bytes, apply_credentials, drop_half, apply_rest, rename, apply_request,
}

-- The credentials of a record are those of the request, or none at all.
abbrev pub IsReentered : UpstreamRequest → Upstream → Type 0
IsReentered req u =
    (u.password ≡ given_bytes req.password)
    × ((u.username ≡ none) ⊎ (u.username ≡ given_text req.username))

chosen_bytes-none : (p : Option Bytes) → chosen_bytes p none ≡ given_bytes p
unfolding chosen_bytes given_bytes
chosen_bytes-none none = refl
chosen_bytes-none (some p) = refl

chosen_text-none : (p : Option String) → chosen_text p none ≡ given_text p
unfolding chosen_text given_text
chosen_text-none none = refl
chosen_text-none (some p) = refl

kept_by_half :
    (req : UpstreamRequest) (cleared : Bool) (u : Upstream)
    → IsReentered req u
    → IsReentered req (drop_half cleared u)
unfolding drop_half
kept_by_half req cleared u h =
    if-holds (IsReentered req) (cleared && not (is_some u.password)) _ _ (h.0, inl refl) h

-- Without credentials, what is applied is what the request gives.
applied :
    (req : UpstreamRequest) (u : Upstream)
    → u.username ≡ none
    → u.password ≡ none
    → IsReentered req (apply_credentials req u)
unfolding apply_credentials
applied req u no_user no_pass = (
  ap (chosen_bytes req.password) no_pass ∙ chosen_bytes-none req.password,
  inr (ap (chosen_text req.username) no_user ∙ chosen_text-none req.username),
)

-- After a change of host there are no credentials.
moved_bare :
    (cfg : Config) (url : String) (u : Upstream)
    → same_host cfg.net u.url url ≡ false
    → ((move_host cfg url u).0.username ≡ none)
      × (((move_host cfg url u).0.password ≡ none) × ((move_host cfg url u).0.url ≡ url))
unfolding move_host has_credentials
moved_bare cfg url u other = elim (Option-cases u.username) [
  | inr (x, e) ↦ simp (move_host, has_credentials, other, e) (refl, (refl, refl))
  | inl e ↦ elim (Option-cases u.password) [
    | inr (x, g) ↦ simp (move_host, has_credentials, other, e, g) (refl, (refl, refl))
    | inl g ↦ simp (move_host, has_credentials, other, e, g) (refl, (refl, refl))
  ]
]

-- What a change of host makes of a record.
abbrev pub IsMoved : Config → UpstreamRequest → Uuid → Upstream → Type 0
IsMoved cfg req id v =
    (v.id ≡ id)
    × ((v.url ≡ req.url)
        × ((validate_url cfg.net req.url cfg.allowed_hosts ≡ ok tt) × IsReentered req v))

half_same :
    (cleared : Bool) (u : Upstream)
    → ((drop_half cleared u).id ≡ u.id) × ((drop_half cleared u).url ≡ u.url)
unfolding drop_half
half_same cleared u =
    if-holds {A = Upstream} (λ v. (v.id ≡ u.id) × (v.url ≡ u.url))
      (cleared && not (is_some u.password)) _ _ (refl, refl) (refl, refl)

moved_id : (cfg : Config) (url : String) (u : Upstream) → (move_host cfg url u).0.id ≡ u.id
unfolding move_host
moved_id cfg url u =
    if-holds {A = Upstream × Bool} (λ v. v.0.id ≡ u.id)
      (not (same_host cfg.net u.url url) && has_credentials u) _ _ refl refl

rename_same :
    (name : String) (u : Upstream) → ((rename name u).id ≡ u.id) × ((rename name u).url ≡ u.url)
unfolding rename
rename_same name u =
    if-holds {A = Upstream} (λ v. (v.id ≡ u.id) × (v.url ≡ u.url)) (str_eq name "") _ _ (refl, refl)
      (refl, refl)

abbrev changed_or : Upstream → Answer (Upstream × Bool) → Upstream
changed_or u (refuse e) = u
changed_or u (answer a) = a.0

pub apply_request-IsMoved :
    (cfg : Config) (req : UpstreamRequest) (u v : Upstream) (cleared : Bool)
    → str_eq req.url "" ≡ false
    → same_host cfg.net u.url req.url ≡ false
    → apply_request cfg req u ≡ answer (v, cleared)
    → IsMoved cfg req u.id v
unfolding apply_request apply_url apply_rest apply_credentials
apply_request-IsMoved cfg req u v cleared given other h =
    let start = rename req.name u in
    let same = rename_same req.name u in
    elim (Result-cases (validate_url cfg.net req.url cfg.allowed_hosts)) [
      | inl e ↦ let h' = (rw (apply_request, apply_url, given, e) at h) in cc
      | inr (unit, e) ↦
          let other' : same_host cfg.net start.url req.url ≡ false = (rw same.1 other) in
          let bare = moved_bare cfg req.url start other' in
          let moved = (move_host cfg req.url start).0 in
          let c = (move_host cfg req.url start).1 in
          let w = drop_half c (apply_credentials req moved) in
          let h' : answer (apply_rest req w, c) ≡ answer (v, cleared) =
            (rw (apply_request, apply_url, given, e) at h) in
          let is : apply_rest req w ≡ v = ap (changed_or u) h' in
          let half = half_same c (apply_credentials req moved) in
          rw (sym is) (
            half.0 ∙ (moved_id cfg req.url start ∙ same.0),
            (
              half.1 ∙ bare.1.1,
              (
                e,
                kept_by_half req c (apply_credentials req moved)
                    (applied req moved bare.0 bare.1.0),
              ),
            ),
          )
    ]
