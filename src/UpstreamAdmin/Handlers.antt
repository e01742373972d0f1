-- ===== src/UpstreamAdmin/Handlers.antt =====
-- internal/handler/admin/config.go: the endpoints of the upstreams. The default of the cache is
-- dropped in a goroutine, and the record of a change is an effect with whether credentials were
-- cleared.
use tsa_proxy.Common.{
  String, Bool, true, false, not, ◌&&◌, ◌||◌, Option, none, some, List, [], ◌∷◌, ◌++◌,
  if◌then◌else◌, str_eq,
}
use tsa_proxy.Common.Int.{ℤ, pos, ltb_ℤ, leb_ℤ}
use tsa_proxy.ApiError.{
  ok, failed, Answer, answer, refuse, err_bad_request, err_not_found, err_internal,
  validation_error,
}
use tsa_proxy.Model.{Uuid}
use tsa_proxy.Auth.{Bytes}
use tsa_proxy.Upstream.Allowlist.{validate_url, same_host}
use tsa_proxy.UpstreamAdmin.{
  Upstream, Config, Faults, get_by_id, list_all, create, update, set_default, ConfigEffect,
  invalidate_default_upstream, record_change, upstream_response, default_set, deleted, Handled,
  reject,
}

pub record UpstreamRequest : Type 0 where
  pub name : String
  pub url : String
  pub username : Option String
  pub password : Option Bytes
  pub timeout_ms : ℤ
  pub max_retries : ℤ
  pub is_active : Option Bool

-- An empty text stands for no credential.
unfoldable pub given_text : Option String → Option String
given_text none = none
given_text (some t) = if str_eq t "" then none else some t

unfoldable pub given_bytes : Option Bytes → Option Bytes
given_bytes none = none
given_bytes (some []) = none
given_bytes (some (c ∷ s)) = some (c ∷ s)

unfoldable pub active_upstreams : List Upstream → List Upstream
active_upstreams [] = []
active_upstreams (u ∷ us) = let rest = active_upstreams us in if u.is_active then u ∷ rest else rest

unfoldable pub list_upstreams : Config → Faults → List Upstream → Answer (List Upstream)
unfolding list_all active_upstreams
list_upstreams cfg f us = elim (list_all cfg f us) [
  | failed ↦ refuse err_internal
  | ok all ↦ answer (active_upstreams all)
]

abbrev pub is_some {ℓ} : {A : Type ℓ} → Option A → Bool
is_some none = false
is_some (some a) = true

unfoldable pub has_credentials : Upstream → Bool
has_credentials u = is_some u.username || is_some u.password

unfoldable pub new_upstream : UpstreamRequest → Upstream
unfolding given_text given_bytes
new_upstream req = record {
  id = 0;
  name = req.name;
  url = req.url;
  env_key_user = none;
  env_key_pass = none;
  username = given_text req.username;
  password = given_bytes req.password;
  has_password = false;
  timeout_ms = if leb_ℤ req.timeout_ms (pos 0) then pos 10000 else req.timeout_ms;
  max_retries = if ltb_ℤ req.max_retries (pos 0) then pos 1 else req.max_retries;
  is_active = false;
  is_default = false;
}

unfoldable pub store_upstream : Config → Faults → Upstream → List Upstream → Handled
unfolding create reject
store_upstream cfg f u us = elim (create cfg f u us) [
  | failed ↦ reject (refuse err_internal) us
  | ok (made, us') ↦ record {
    reply = answer (upstream_response made false);
    upstreams = us';
    effects = record_change "upstream.create" made.id false ∷ [];
  }
]

unfoldable pub create_upstream : Config → Faults → Option UpstreamRequest → List Upstream → Handled
unfolding reject validate_url store_upstream new_upstream
create_upstream cfg f none us = reject (refuse err_bad_request) us
create_upstream cfg f (some req) us =
    if str_eq req.name "" || str_eq req.url ""
    then reject (refuse (validation_error "name, url: required")) us
    else elim (validate_url cfg.net req.url cfg.allowed_hosts) [
      | failed ↦ reject (refuse (validation_error "url")) us
      | ok u ↦ store_upstream cfg f (new_upstream req) us
    ]

-- The new URL, and with it the credentials that do not belong to its host.
unfoldable pub move_host : Config → String → Upstream → Upstream × Bool
unfolding same_host has_credentials
move_host cfg url u =
    if not (same_host cfg.net u.url url) && has_credentials u
    then (record u { username = none; password = none; url = url }, true)
    else (record u { url = url }, false)

unfoldable pub apply_url : Config → String → Upstream → Answer (Upstream × Bool)
unfolding validate_url move_host
apply_url cfg url u =
    if str_eq url "" then answer (u, false) else elim (validate_url cfg.net url cfg.allowed_hosts) [
      | failed ↦ refuse (validation_error "url")
      | ok tt' ↦ answer (move_host cfg url u)
    ]

-- A field that the request lacks keeps its value, and one that is empty has none.
unfoldable pub chosen_text : Option String → Option String → Option String
unfolding given_text
chosen_text none current = current
chosen_text (some t) current = given_text (some t)

unfoldable pub chosen_bytes : Option Bytes → Option Bytes → Option Bytes
unfolding given_bytes
chosen_bytes none current = current
chosen_bytes (some p) current = given_bytes (some p)

unfoldable pub apply_credentials : UpstreamRequest → Upstream → Upstream
unfolding chosen_text chosen_bytes
apply_credentials req u = record u {
  username = chosen_text req.username u.username;
  password = chosen_bytes req.password u.password;
}

-- Half of a credential is none, after the host changed.
unfoldable pub drop_half : Bool → Upstream → Upstream
drop_half cleared u =
    if cleared && not (is_some u.password) then record u { username = none } else u

unfoldable pub apply_rest : UpstreamRequest → Upstream → Upstream
apply_rest req u = record u {
  timeout_ms = if ltb_ℤ (pos 0) req.timeout_ms then req.timeout_ms else u.timeout_ms;
  max_retries = if leb_ℤ (pos 0) req.max_retries then req.max_retries else u.max_retries;
  is_active = elim req.is_active [ none ↦ u.is_active | some b ↦ b ];
}

unfoldable pub rename : String → Upstream → Upstream
rename name u = if str_eq name "" then u else record u { name = name }

-- The changes of a request in their order, with whether credentials were cleared.
unfoldable pub apply_request : Config → UpstreamRequest → Upstream → Answer (Upstream × Bool)
unfolding apply_url apply_credentials drop_half apply_rest rename
apply_request cfg req u = elim (apply_url cfg req.url (rename req.name u)) [
  | refuse e ↦ refuse e
  | answer (moved, cleared) ↦
      answer (apply_rest req (drop_half cleared (apply_credentials req moved)), cleared)
]

unfoldable pub default_effects : Bool → List ConfigEffect
default_effects is_default = if is_default then invalidate_default_upstream ∷ [] else []

unfoldable pub save_upstream : Config → Faults → Upstream → Bool → List Upstream → Handled
unfolding update reject default_effects
save_upstream cfg f u cleared us = elim (update cfg f u us) [
  | failed ↦ reject (refuse err_not_found) us
  | ok none ↦ reject (refuse err_not_found) us
  | ok (some (saved, us')) ↦ record {
    reply = answer (upstream_response saved cleared);
    upstreams = us';
    effects =
        default_effects saved.is_default ++ (record_change "upstream.update" saved.id cleared ∷ []);
  }
]

unfoldable pub update_upstream :
    Config → Faults → Option Uuid → Option UpstreamRequest → List Upstream → Handled
unfolding reject get_by_id apply_request save_upstream
update_upstream cfg f none body us = reject (refuse err_bad_request) us
update_upstream cfg f (some id) none us = reject (refuse err_bad_request) us
update_upstream cfg f (some id) (some req) us = elim (get_by_id cfg f id us) [
  | failed ↦ reject (refuse err_not_found) us
  | ok none ↦ reject (refuse err_not_found) us
  | ok (some current) ↦ elim (apply_request cfg req current) [
    | refuse e ↦ reject (refuse e) us
    | answer (changed, cleared) ↦ save_upstream cfg f changed cleared us
  ]
]

unfoldable pub set_default_upstream : Faults → Option Uuid → List Upstream → Handled
unfolding reject set_default
set_default_upstream f none us = reject (refuse err_bad_request) us
set_default_upstream f (some id) us = elim (set_default f id us) [
  | failed ↦ reject (refuse err_internal) us
  | ok us' ↦ record {
    reply = answer default_set;
    upstreams = us';
    effects = invalidate_default_upstream ∷ record_change "upstream.set_default" id false ∷ [];
  }
]

-- The row of an update that finds none is left as it is, and the reply is that of a deletion.
unfoldable pub rows_after : List Upstream → Option (Upstream × List Upstream) → List Upstream
rows_after us none = us
rows_after us (some (u, us')) = us'

unfoldable pub delete_upstream : Config → Faults → Option Uuid → List Upstream → Handled
unfolding reject get_by_id update default_effects rows_after
delete_upstream cfg f none us = reject (refuse err_bad_request) us
delete_upstream cfg f (some id) us = elim (get_by_id cfg f id us) [
  | failed ↦ reject (refuse err_not_found) us
  | ok none ↦ reject (refuse err_not_found) us
  | ok (some u) ↦ elim (update cfg f (record u { is_active = false }) us) [
    | failed ↦ reject (refuse err_internal) us
    | ok o ↦ record {
      reply = answer deleted;
      upstreams = rows_after us o;
      effects = default_effects u.is_default ++ (record_change "upstream.delete" id false ∷ []);
    }
  ]
]
