-- ===== src/UpstreamAdmin.antt =====
-- internal/repository/postgres/upstreams.go and internal/handler/admin/config.go: the table of the
-- upstreams and its administration. A row has the password as it is stored, and a record that was
-- read has it decrypted; which calls the database fails is an argument.
use tsa_proxy.Common.{
  ℕ, zero, suc, String, Bool, true, false, not, ◌&&◌, ◌||◌, Option, none, some, List, [], ◌∷◌, ◌==◌,
  any, map, if◌then◌else◌, str_eq,
}
use tsa_proxy.Common.Int.{ℤ, pos, ltb_ℤ, leb_ℤ}
use tsa_proxy.ApiError.{
  Result, ok, failed, Answer, answer, refuse, err_bad_request, err_not_found, err_internal,
  validation_error,
}
use tsa_proxy.Model.{Uuid}
use tsa_proxy.Auth.{Bytes}
use tsa_proxy.SecretBox.{Aead, encrypt, decrypt}
use tsa_proxy.Upstream.Allowlist.{Net, validate_url, same_host}
pub mod Credentials
pub mod Stored
pub mod Handlers
pub mod Default

-- model.TSAUpstream less its dates.
pub record Upstream : Type 0 where
  pub id : Uuid
  pub name : String
  pub url : String
  pub env_key_user : Option String
  pub env_key_pass : Option String
  pub username : Option String
  pub password : Option Bytes
  pub has_password : Bool
  pub timeout_ms : ℤ
  pub max_retries : ℤ
  pub is_active : Bool
  pub is_default : Bool

-- The libraries and the configuration.
pub record Config : Type 0 where
  pub net : Net
  pub aead : Aead
  pub encryption_key : Option Bytes
  pub allowed_hosts : List String

-- What the calls of one request meet; `nonce_drawn` is what the encryption draws.
pub record Faults : Type 0 where
  pub read_fails : Bool
  pub write_fails : Bool
  pub nonce_drawn : Option Bytes
  pub fresh : Uuid

-- A password that cannot be decrypted is as none.
unfoldable pub readable : Result Bytes → Option Bytes
readable failed = none
readable (ok plain) = some plain

unfoldable pub decrypt_password : Config → Option Bytes → Option Bytes
unfolding readable decrypt
decrypt_password cfg none = none
decrypt_password cfg (some stored) = readable (decrypt cfg.aead stored cfg.encryption_key)

unfoldable pub is_stored : Option Bytes → Bool
is_stored none = false
is_stored (some []) = false
is_stored (some (c ∷ s)) = true

unfoldable pub read_row : Config → Upstream → Upstream
unfolding is_stored decrypt_password
read_row cfg u = record u {
  has_password = is_stored u.password;
  password = decrypt_password cfg u.password;
}

unfoldable pub some_stored : Result Bytes → Result (Option Bytes)
some_stored failed = failed
some_stored (ok stored) = ok (some stored)

unfoldable pub encrypt_password : Config → Faults → Option Bytes → Result (Option Bytes)
unfolding some_stored encrypt
encrypt_password cfg f none = ok none
encrypt_password cfg f (some plain) =
    some_stored (encrypt cfg.aead f.nonce_drawn plain cfg.encryption_key)

unfoldable pub find_upstream : (Upstream → Bool) → List Upstream → Option Upstream
find_upstream p [] = none
find_upstream p (u ∷ us) = if p u then some u else find_upstream p us

unfoldable pub read_found : Config → Option Upstream → Option Upstream
unfolding read_row
read_found cfg none = none
read_found cfg (some u) = some (read_row cfg u)

unfoldable pub get_by_id : Config → Faults → Uuid → List Upstream → Result (Option Upstream)
unfolding find_upstream read_found
get_by_id cfg f id us =
    if f.read_fails then failed else ok (read_found cfg (find_upstream (λ u. u.id == id) us))

unfoldable pub get_default : Config → Faults → List Upstream → Result (Option Upstream)
unfolding find_upstream read_found
get_default cfg f us =
    if f.read_fails
    then failed
    else ok (read_found cfg (find_upstream (λ u. u.is_default && u.is_active) us))

-- In the order of the table; the query sorts by default and name.
unfoldable pub list_all : Config → Faults → List Upstream → Result (List Upstream)
unfolding read_row
list_all cfg f us = if f.read_fails then failed else ok (map (read_row cfg) us)

unfoldable pub create :
    Config → Faults → Upstream → List Upstream → Result (Upstream × List Upstream)
unfolding encrypt_password read_row
create cfg f u us = elim (encrypt_password cfg f u.password) [
  | failed ↦ failed
  | ok stored ↦
      let row = record u {
        id = f.fresh;
        password = stored;
        is_active = true;
        is_default = false;
      } in
      if f.write_fails then failed else ok (read_row cfg row, row ∷ us)
]

-- The columns that an update sets: all but the identifier and the default.
unfoldable pub set_columns : Upstream → Option Bytes → Upstream → Upstream
set_columns u stored row = record u {
  id = row.id;
  password = stored;
  has_password = row.has_password;
  is_default = row.is_default;
}

unfoldable pub at_upstream : Uuid → (Upstream → Upstream) → List Upstream → List Upstream
at_upstream id f [] = []
at_upstream id f (u ∷ us) = (if u.id == id then f u else u) ∷ at_upstream id f us

unfoldable pub update :
    Config → Faults → Upstream → List Upstream → Result (Option (Upstream × List Upstream))
unfolding encrypt_password read_row set_columns at_upstream find_upstream
update cfg f u us = elim (encrypt_password cfg f u.password) [
  | failed ↦ failed
  | ok stored ↦ if f.write_fails then failed else elim (find_upstream (λ v. v.id == u.id) us) [
    | none ↦ ok none
    | some row ↦
        ok (
          some
            (read_row cfg (set_columns u stored row), at_upstream u.id (set_columns u stored) us))
  ]
]

unfoldable pub clear_default : Upstream → Upstream
clear_default u = record u { is_default = false }

unfoldable pub mark_default : Upstream → Upstream
mark_default u = record u { is_default = true; is_active = true }

-- One transaction: an identifier without a row leaves no default.
unfoldable pub set_default : Faults → Uuid → List Upstream → Result (List Upstream)
unfolding at_upstream clear_default mark_default
set_default f id us =
    if f.write_fails then failed else ok (at_upstream id mark_default (map clear_default us))

pub data ConfigEffect : Type 0 where
  invalidate_default_upstream : ConfigEffect
  record_change : String → Uuid → Bool → ConfigEffect

pub data ConfigBody : Type 0 where
  upstream_response : Upstream → Bool → ConfigBody
  default_set : ConfigBody
  deleted : ConfigBody

pub record Handled : Type 0 where
  pub reply : Answer ConfigBody
  pub upstreams : List Upstream
  pub effects : List ConfigEffect

unfoldable pub reject : Answer ConfigBody → List Upstream → Handled
reject e us = record { reply = e; upstreams = us; effects = [] }
