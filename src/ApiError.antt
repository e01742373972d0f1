-- ===== src/ApiError.antt =====
-- internal/apierr/apierr.go: the errors that a client can receive, with their HTTP status and code,
-- and the results of the fallible calls. `Result` is a Go pair of a value and an `error` whose text
-- the code only logs; `Answer` is a pair of a value and an `*apierr.APIError`.
use tsa_proxy.Common.{ℕ, String, Option, none, some, ◌≡◌, refl, ◌⊎◌, inl, inr, ap}

pub record ApiError : Type 0 where
  pub status_code : ℕ
  pub code : String
  pub message : Option String

abbrev pub err_unauthorized : ApiError
err_unauthorized = record { status_code = 401; code = "invalid_credentials"; message = none }

abbrev pub err_admin_unauthorized : ApiError
err_admin_unauthorized = record { status_code = 401; code = "unauthorized"; message = none }

abbrev pub err_forbidden : ApiError
err_forbidden = record { status_code = 403; code = "forbidden"; message = none }

abbrev pub err_tenant_suspended : ApiError
err_tenant_suspended = record { status_code = 403; code = "tenant_suspended"; message = none }

abbrev pub err_ip_not_allowed : ApiError
err_ip_not_allowed = record { status_code = 403; code = "ip_not_allowed"; message = none }

abbrev pub err_quota_exceeded : ApiError
err_quota_exceeded = record { status_code = 429; code = "quota_exceeded"; message = none }

abbrev pub err_rate_limited : ApiError
err_rate_limited = record { status_code = 429; code = "rate_limited"; message = none }

abbrev pub err_upstream_unavailable : ApiError
err_upstream_unavailable = record {
  status_code = 502;
  code = "upstream_unavailable";
  message = none;
}

abbrev pub err_internal : ApiError
err_internal = record { status_code = 500; code = "internal_error"; message = none }

abbrev pub err_not_found : ApiError
err_not_found = record { status_code = 404; code = "not_found"; message = none }

abbrev pub err_bad_request : ApiError
err_bad_request = record { status_code = 400; code = "bad_request"; message = none }

abbrev pub err_conflict : ApiError
err_conflict = record { status_code = 409; code = "conflict"; message = none }

abbrev pub err_username_taken : ApiError
err_username_taken = record {
  status_code = 409;
  code = "username_taken";
  message = some "El nombre de usuario ya está en uso";
}

abbrev pub err_email_taken : ApiError
err_email_taken = record {
  status_code = 409;
  code = "email_taken";
  message = some "El email ya está en uso por otro usuario";
}

-- The three errors that handlers build on the spot.
abbrev pub err_invalid_content_type : ApiError
err_invalid_content_type = record {
  status_code = 415;
  code = "invalid_content_type";
  message = some "Content-Type must be application/timestamp-query";
}

abbrev pub err_request_too_large : ApiError
err_request_too_large = record { status_code = 413; code = "request_too_large"; message = none }

abbrev pub validation_error : String → ApiError
validation_error text = record { status_code = 400; code = "validation_error"; message = some text }

pub data Result {ℓ} (A : Type ℓ) : Type ℓ where
  ok : A → Result A
  failed : Result A

pub data Answer {ℓ} (A : Type ℓ) : Type ℓ where
  answer : A → Answer A
  refuse : ApiError → Answer A

pub Result-cases {ℓ} : {A : Type ℓ} (r : Result A) → (r ≡ failed) ⊎ ((a : A) × (r ≡ ok a))
Result-cases failed = inl refl
Result-cases (ok a) = inr (a, refl)

pub Answer-cases {ℓ} :
    {A : Type ℓ} (r : Answer A) → ((e : ApiError) × (r ≡ refuse e)) ⊎ ((a : A) × (r ≡ answer a))
Answer-cases (refuse e) = inl (e, refl)
Answer-cases (answer a) = inr (a, refl)

ok_or {ℓ} : {A : Type ℓ} → A → Result A → A
ok_or a (ok b) = b
ok_or a failed = a

pub ok-injective {ℓ} : {A : Type ℓ} {a b : A} → ok a ≡ ok b → a ≡ b
unfolding ok_or
ok-injective {a} h = ap (ok_or a) h
