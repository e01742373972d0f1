-- ===== src/RateLimit.antt =====
-- internal/repository/redis/ratelimit.go (CheckGlobal, CheckTenant) and
-- internal/middleware/ratelimit.go (Global, PerTenant). Redis is a parameter: its INCR and EXPIRE on a
-- state of its own. A key is its format and what is formatted into it; a reply that is not an error
-- is the counter, which INCR keeps above zero.
use tsa_proxy.Common.{
  ℕ, String, Bool, true, false, Option, none, some, List, [], ◌∷◌, ◌==◌, if◌then◌else◌,
}
use tsa_proxy.Common.Int.{ℤ, pos, ◌-ℤ◌, ltb_ℤ, leb_ℤ}
use tsa_proxy.ApiError.{Result, ok, failed, Answer, answer, refuse, err_rate_limited}
use tsa_proxy.Model.{Uuid}
pub mod Window

-- "rl:global:%d" of the Unix second, "rl:burst:%s" of the tenant.
pub data Key : Type 0 where
  global_key : ℕ → Key
  burst_key : Uuid → Key

pub record Redis : Type 1 where
  pub State : Type 0
  pub incr : Key → State → Result ℕ × State
  pub expire : Key → ℕ → State → Result (Unit {0}) × State

-- allowed, remaining, and whether the error is nil.
pub record Check : Type 0 where
  pub allowed : Bool
  pub remaining : ℤ
  pub is_ok : Bool

-- What the middleware does: pass on or refuse, with the headers it sets (limit, remaining, seconds to
-- retry after) and whether it records a failed request.
pub record Limited : Type 0 where
  pub verdict : Answer (Unit {0})
  pub limit_header : Option ℤ
  pub remaining_header : Option ℤ
  pub retry_after : Option ℕ
  pub recorded : Bool

-- `remaining := max - count`, but not below zero.
unfoldable pub remaining_of : ℤ → ℕ → ℤ
remaining_of max count = if ltb_ℤ (max -ℤ pos count) (pos 0) then pos 0 else max -ℤ pos count

unfoldable pub counted : ℤ → ℕ → Check
unfolding remaining_of
counted max count = record {
  allowed = leb_ℤ (pos count) max;
  remaining = remaining_of max count;
  is_ok = true;
}

unfoldable pub fail_open : ℤ → Check
fail_open max = record { allowed = true; remaining = max; is_ok = false }

-- The pipeline runs both commands and fails if one of them does.
unfoldable pub check_global : (R : Redis) → ℕ → ℤ → R.State → Check × R.State
unfolding counted fail_open
check_global R second max s =
    let key = global_key second in
    let after = (R.incr key s).1 in
    (
      elim (R.incr key s).0 [
        | failed ↦ fail_open max
        | ok count ↦ elim (R.expire key 2 after).0 [
          | failed ↦ fail_open max
          | ok _ ↦ counted max count
        ]
      ],
      (R.expire key 2 after).1,
    )

-- The Lua script of CheckTenant, which Redis runs as one step.
unfoldable pub burst_script : (R : Redis) → Key → R.State → Result ℕ × R.State
burst_script R key s =
    let after = (R.incr key s).1 in
    elim (R.incr key s).0 [
      | failed ↦ (failed, after)
      | ok current ↦
          if current == 1
          then (
            elim (R.expire key 60 after).0 [ failed ↦ failed | ok _ ↦ ok current ],
            (R.expire key 60 after).1,
          )
          else (ok current, after)
    ]

unfoldable pub check_tenant : (R : Redis) → Uuid → ℤ → R.State → Check × R.State
unfolding counted fail_open
check_tenant R tenant burst_limit s = (
  elim (burst_script R (burst_key tenant) s).0 [
    | failed ↦ fail_open burst_limit
    | ok count ↦ counted burst_limit count
  ],
  (burst_script R (burst_key tenant) s).1,
)

unfoldable pub limited_by : ℤ → ℕ → Bool → Check → Limited
limited_by max retry records c =
    if c.is_ok
    then if c.allowed
      then record {
        verdict = answer tt;
        limit_header = some max;
        remaining_header = some c.remaining;
        retry_after = none;
        recorded = false;
      }
      else record {
        verdict = refuse err_rate_limited;
        limit_header = some max;
        remaining_header = some c.remaining;
        retry_after = some retry;
        recorded = records;
      }
    else record {
      verdict = answer tt;
      limit_header = none;
      remaining_header = none;
      retry_after = none;
      recorded = false;
    }

unfoldable pub global : (R : Redis) → ℕ → ℤ → R.State → Limited × R.State
unfolding limited_by
global R second global_rps s =
    let checked = check_global R second global_rps s in
    (limited_by global_rps 1 false checked.0, checked.1)

-- The burst limit of the context; a missing one reads as zero.
unfoldable pub effective_limit : Option ℤ → ℤ
effective_limit none = pos 60
effective_limit (some l) = if leb_ℤ l (pos 0) then pos 60 else l

unfoldable pub per_tenant : (R : Redis) → Option Uuid → Option ℤ → R.State → Limited × R.State
unfolding limited_by effective_limit
per_tenant R none burst s = (
  record {
    verdict = answer tt;
    limit_header = none;
    remaining_header = none;
    retry_after = none;
    recorded = false;
  },
  s,
)
per_tenant R (some tenant) burst s =
    let limit = effective_limit burst in
    let checked = check_tenant R tenant limit s in (limited_by limit 60 true checked.0, checked.1)
