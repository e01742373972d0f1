-- ===== src/Auth/UrlToken/Cached.antt =====
-- The cache of URL tokens against the rows that its entries were made from.
use tsa_proxy.Common.{
  ◌≡◌, ◌-◌, ◌%◌, refl, false, ◌||◌, Option, none, some, if◌then◌else◌, str_eq, Bool-cases, inl, inr,
  arith,
}
use tsa_proxy.ApiError.{answer, refuse, err_unauthorized, err_tenant_suspended}
use tsa_proxy.Model.{Uuid, Time, TenantStatus, active, suspended, deleted}
use tsa_proxy.Auth.{Codec, Tenant, ApiCredential, tenant_status_text, is_barred}
use tsa_proxy.Auth.UrlToken.{
  is_past_text, is_past, token_cached, token_stored, token_entry, expiry_text,
}

-- Identifiers survive their text; a time survives it up to its second.
pub record IsFaithful (codec : Codec) : Type 0 where
  pub ids : (u : Uuid) → codec.uuid_parse (codec.uuid_string u) ≡ some u
  pub times : (t : Time) → codec.time_parse (codec.time_format t) ≡ some (t - t % 1000000000)

barred_texts :
    (s : TenantStatus)
    → (str_eq (tenant_status_text s) "suspended" || str_eq (tenant_status_text s) "deleted")
      ≡ is_barred s
unfolding tenant_status_text is_barred
barred_texts active = refl
barred_texts suspended = refl
barred_texts deleted = refl

-- The text of an expiry is in the past once the expiry is, and at most a second earlier.
past_text :
    (codec : Codec)
    → IsFaithful codec
    → (now : Time) (e : Option Time) → is_past_text codec now (expiry_text codec e) ≡ false
    → is_past now e ≡ false
unfolding is_past_text is_past expiry_text
past_text codec law now none h = refl
past_text codec law now (some t) h = let h' = (rw (law.times t) at h) in ground arith

entry_decision :
    (codec : Codec)
    → IsFaithful codec
    → (cred : ApiCredential) (tenant : Tenant) (now : Time)
    → token_cached codec (token_entry codec cred tenant) now ≡ (
        if is_barred tenant.status
        then refuse err_tenant_suspended
        else if is_past_text codec now (expiry_text codec cred.expires_at)
        then refuse err_unauthorized
        else answer (tenant.id, cred.id))
unfolding token_cached token_entry
entry_decision codec law cred tenant now =
    rw (token_cached, law.ids tenant.id)
      (rw (law.ids cred.id) (rw (barred_texts tenant.status) refl))

-- Who passes at some time with the entry that a row left in the cache passes at this time with that
-- row too, as it was when the entry was made, as the same tenant and the same credential. A later
-- change of the row is not seen by the entry.
pub token_cached-IsSafe :
    (codec : Codec) (law : IsFaithful codec) (cred : ApiCredential) (tenant : Tenant) (now : Time)
    (who : Uuid × Uuid)
    → token_cached codec (token_entry codec cred tenant) now ≡ answer who
    → token_stored cred tenant now ≡ answer who
unfolding token_stored
token_cached-IsSafe codec law cred tenant now who h =
    let h' = (rw (entry_decision codec law cred tenant now) at h) in
    elim (Bool-cases (is_barred tenant.status)) [
      | inl barred ↦ let h'' = (rw barred at h') in cc
      | inr free ↦ elim (Bool-cases (is_past_text codec now (expiry_text codec cred.expires_at))) [
        | inl past ↦ let h'' = (rw (free, past) at h') in cc
        | inr yet ↦
            let h'' = (rw (free, yet) at h') in
            rw (free, past_text codec law now cred.expires_at yet) h''
      ]
    ]
