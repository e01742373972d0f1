-- ===== src/Tests/Serving.antt =====
-- One request to /api/v1/timestamp through the whole chain.
use tsa_proxy.Common.{ℕ, ◌≡◌, ◌≢◌, ◌≤◌, ◌<◌, ◌↔◌, arith, some, List, [], ◌∷◌, length}
use tsa_proxy.Common.Int.{pos}
use tsa_proxy.ApiError.{ok, failed, answer}
use tsa_proxy.Model.{uuid_nil}
use tsa_proxy.Handler.{whole, Post, Context, Reply, read_body, handle, handle_tsp}
use tsa_proxy.Handler.Bodies.{read_body_iff}
use tsa_proxy.Handler.Handled.{IsReplied, handle_iff, handle_tsp-eq-handle}
use tsa_proxy.Routes.{Call, serve_timestamp}
use tsa_proxy.Routes.Guarded.{IsGuarded, serve_timestamp-IsGuarded}
use tsa_proxy.Tests.Stamping.{settings, replies}
use tsa_proxy.Tests.Guarding.{counters, no_counts, http_request, row_replies, plain, texts}

abbrev query : Post
query = record {
  content_type = "application/timestamp-query";
  body = whole (48 ∷ 1 ∷ []);
  user_agent = "curl";
  real_ip = "203.0.113.5";
  request_id = "r1";
}

abbrev context : Context
context = record { tenant = some 7; credential = some 8; client_ip = some "203.0.113.5" }

abbrev timestamp_reply : Reply
timestamp_reply = record {
  content_type = "application/timestamp-reply";
  request_id = "r1";
  body = 48 ∷ 3 ∷ [];
}

abbrev query_bytes : List ℕ
query_bytes = 48 ∷ 1 ∷ []

read_body_iff_example : (read_body (pos 16384) (whole query_bytes) ≡ answer query_bytes) ↔ (
    (whole query_bytes ≡ whole query_bytes)
    × (0 < length query_bytes)
    × (length query_bytes ≤ 16384))
read_body_iff_example = read_body_iff 16384 (whole query_bytes) query_bytes (omega arith)

handle_iff_example :
    ((handle settings (pos 16384) replies query context).0 ≡ answer timestamp_reply)
    ↔ IsReplied settings 16384 replies query context timestamp_reply
handle_iff_example = handle_iff settings 16384 replies query context timestamp_reply (omega arith)

some_tenant : context.tenant ≢ some uuid_nil
some_tenant h = cc

handle_tsp-eq-handle_example :
    handle_tsp settings (pos 16384) replies query context
    ≡ handle settings (pos 16384) replies query context
handle_tsp-eq-handle_example =
    handle_tsp-eq-handle settings (pos 16384) replies query context some_tenant

abbrev call : Call
call = record {
  http = http_request;
  post = query;
  second = 1000;
  global_rps = pos 100;
  max_request_body = pos 16384;
  keys = row_replies;
  cached_cidrs = λ _. failed;
  stored_cidrs = λ _. ok ("203.0.113.5" ∷ []);
  replies = replies;
}

serve_timestamp-IsGuarded_example :
    IsGuarded counters texts plain settings call no_counts
      (serve_timestamp counters texts plain settings call no_counts)
serve_timestamp-IsGuarded_example =
    serve_timestamp-IsGuarded counters texts plain settings call no_counts
