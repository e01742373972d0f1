-- ===== src/Tests/Stamping.antt =====
-- A request of a tenant with room in its bundles and a TSA that replies.
use tsa_proxy.Common.{
  ℕ, ◌≡◌, ◌⊎◌, ◌==◌, ◌&&◌, if◌then◌else◌, length, List, ◌↔◌, ◌+◌, ◌<◌, arith, refl, true, false,
  none, some, [], ◌∷◌,
}
use tsa_proxy.Common.Int.{pos}
use tsa_proxy.ApiError.{ok, failed, answer, refuse, err_quota_exceeded}
use tsa_proxy.Model.{TsaUpstream, TenantQuota}
use tsa_proxy.Upstream.Client.{received}
use tsa_proxy.Stamp.Effects.{Request, Stamped, Settings, Replies}
use tsa_proxy.Stamp.Process.{
  process, check_bag, get_cached_contracted, get_or_seed_consumed, cached_total, is_exhausted,
  quota_outcome,
}
use tsa_proxy.Stamp.Bag.{Bag, admit, record_admitted, Reach, start, after, opened, overlap_bound}
use tsa_proxy.Stamp.Quiet.{upserts, requests}
use tsa_proxy.Stamp.Tables.{written}
use tsa_proxy.Stamp.Usage.{Outcome, record_usage}
use tsa_proxy.Bundles.{MonthlyAggregate, total_consumption}
use tsa_proxy.Stamp.Accounting.{Accounts, attempt_limit, process-Accounts}
use tsa_proxy.Stamp.Answers.{IsExhausted, IsStamped, process-IsExhausted_iff, process-answer_iff}

abbrev tsa : TsaUpstream
tsa = record {
  id = 9;
  name = "tsa";
  url = "https://tsa.example/ts";
  env_key_user = none;
  env_key_pass = none;
  username = some "proxy";
  password = some "secret";
  timeout_ms = pos 8000;
  max_retries = pos 2;
  is_active = true;
  is_default = true;
}

abbrev pub settings : Settings
settings = record {
  upstream_url = "";
  upstream_username = "";
  upstream_password = "";
  upstream_timeout_ms = pos 8000;
  upstream_max_retries = pos 2;
  upstream_max_body = pos 32768;
}

-- 3 stamps are contracted and 2 are consumed, and the TSA replies with a 400.
abbrev pub replies : Replies
replies = record {
  has_cache = true;
  cached_quota = none;
  stored_quota = ok (some (record { tenant_id = 7; burst_per_minute = pos 60 }));
  cached_contracted = failed;
  stored_contracted = ok 3;
  cached_consumed = ok 2;
  stored_consumed = failed;
  cached_upstream = none;
  stored_upstream = ok (some tsa);
  getenv = λ _. "";
  exchange = λ _. received 400 (48 ∷ 3 ∷ []) 12;
  cancelled = λ _. false;
  total_latency_ms = 15;
  upstream_latency_ms = 12;
  now = 1000;
  year = 2025;
  month = 5;
  event_id = 100;
  split_host_port = λ _. none;
  geolocate = none;
  aggregate_written = true;
  notifier_enabled = true;
  throttle = ok true;
}

abbrev request : Request
request = record {
  body = 48 ∷ 1 ∷ [];
  tenant_id = 7;
  credential_id = 8;
  source_ip = "203.0.113.5";
  request_id = "r1";
  request_size = 2;
  user_agent = "";
}

abbrev stamped : Stamped
stamped = record {
  body = 48 ∷ 3 ∷ [];
  upstream_status = 400;
  latency_ms = 15;
  upstream_latency_ms = 12;
}

-- May 2025 has two requests of the tenant 7.
abbrev used_rows : List MonthlyAggregate
used_rows =
    record {
      tenant_id = 7;
      year = 2025;
      month = 5;
      total_requests = 2;
      successful_requests = 2;
      failed_requests = 0;
      rejected_requests = 0;
      total_latency_ms = 20;
    }
    ∷ []

process-Accounts_example :
    let (a, es) = process settings replies request in
    Accounts 7 (attempt_limit settings replies) a (upserts es) (requests es)
    × (total_consumption 7 (written true es used_rows)
        ≡ (if true && 7 == 7 then length (upserts es) else 0) + total_consumption 7 used_rows)
process-Accounts_example = process-Accounts settings replies request used_rows 7

process-IsExhausted_iff_example :
    ((process settings replies request).0 ≡ refuse err_quota_exceeded) ↔ IsExhausted replies request
process-IsExhausted_iff_example = process-IsExhausted_iff settings replies request

process-answer_iff_example :
    ((process settings replies request).0 ≡ answer stamped)
    ↔ IsStamped settings replies request stamped
process-answer_iff_example = process-answer_iff settings replies request stamped

abbrev quota : TenantQuota
quota = record { tenant_id = 7; burst_per_minute = pos 60 }

abbrev outcome : Outcome
outcome = quota_outcome request

abbrev stored : List MonthlyAggregate → List MonthlyAggregate
stored rows = written true (record_usage replies request outcome) rows

abbrev bag : List MonthlyAggregate → ℕ → ℕ → Bag
bag rows unrecorded admitted = record { rows = rows; unrecorded = unrecorded; admitted = admitted }

abbrev last_bag : Bag
last_bag = bag (stored (stored used_rows)) 0 2

-- Two requests that both read that two of three stamps are used, and are recorded later.
overlapping : Reach 7 3 2 (opened used_rows) last_bag
unfolding check_bag get_cached_contracted get_or_seed_consumed cached_total is_exhausted
    total_consumption
overlapping =
    after
      (after
        (after
          (after start
            (admit (bag used_rows 0 0) replies request quota refl refl refl refl (omega arith)))
          (admit (bag used_rows 1 1) replies request quota refl refl refl refl (omega arith)))
        (record_admitted (bag used_rows 2 2) replies request outcome 1 refl refl))
      (record_admitted (bag (stored used_rows) 1 2) replies request outcome 0 refl refl)

overlap_bound_example :
    (last_bag.admitted ≡ 0) ⊎ (total_consumption 7 used_rows + last_bag.admitted < 3 + 2)
overlap_bound_example = overlap_bound 7 3 2 used_rows last_bag (omega arith) overlapping
