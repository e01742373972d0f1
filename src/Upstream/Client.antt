-- ===== src/Upstream/Client.antt =====
-- internal/upstream/client.go: one request to the external TSA, and its retries. The network is the
-- argument `exchange`, which says what each attempt meets; `cancelled n` says that the caller's
-- context ends during the wait before attempt n. What the client does is kept as a trace.
mod Steps
pub mod Retries
pub mod Cost
use tsa_proxy.Common.{
  ℕ, zero, suc, ◌+◌, ◌*◌, String, Bool, true, false, not, ◌&&◌, ◌||◌, Option, none, some, List, [],
  ◌∷◌, ltb, leb, if◌then◌else◌, str_eq, take, ◌++◌,
}
use tsa_proxy.Common.Int.{ℤ, pos, negsuc, leb_ℤ}

pub record Response : Type 0 where
  pub body : List ℕ
  pub http_status : ℕ
  pub latency_ms : ℕ

pub record SendParams : Type 0 where
  pub url : String
  pub username : String
  pub password : String
  pub max_retries : ℤ
  pub max_body : ℤ
  pub timeout : ℤ

-- The HTTP request of one attempt.
pub record Post : Type 0 where
  pub url : String
  pub content_type : String
  pub accept : String
  pub basic_auth : Option (String × String)
  pub body : List ℕ

-- What an attempt meets: the four places where doRequest returns, with the latency of the reply.
pub data Exchange : Type 0 where
  create_failed transport_failed read_failed : Exchange
  received : ℕ → List ℕ → ℕ → Exchange

pub data ClientEvent : Type 0 where
  wait_ms : ℕ → ClientEvent
  post : Post → ClientEvent

pub data SendError : Type 0 where
  context_done unavailable : SendError
  upstream_status : ℕ → SendError

-- `io.LimitReader(body, n)`: nothing is read when n is not positive.
unfoldable pub limit_reader : ℤ → List ℕ → List ℕ
limit_reader (pos n) body = take n body
limit_reader (negsuc n) body = []

unfoldable pub basic_auth_of : SendParams → Option (String × String)
basic_auth_of p =
    if not (str_eq p.username "") || not (str_eq p.password "")
    then some (p.username, p.password)
    else none

unfoldable pub post_of : List ℕ → SendParams → Post
unfolding basic_auth_of
post_of body p = record {
  url = p.url;
  content_type = "application/timestamp-query";
  accept = "application/timestamp-reply";
  basic_auth = basic_auth_of p;
  body = body;
}

-- doRequest: a Go pair of a response, or nil, and whether there is an error.
unfoldable pub do_request : SendParams → Exchange → Option Response × Bool
do_request p create_failed = (none, true)
do_request p transport_failed = (none, true)
do_request p read_failed = (none, true)
do_request p (received status body latency) = (
  some (record { body = limit_reader p.max_body body; http_status = status; latency_ms = latency }),
  false,
)

-- The request goes out unless it could not be built.
unfoldable pub posts_of : List ℕ → SendParams → Exchange → List ClientEvent
posts_of body p create_failed = []
posts_of body p transport_failed = post (post_of body p) ∷ []
posts_of body p read_failed = post (post_of body p) ∷ []
posts_of body p (received status reply latency) = post (post_of body p) ∷ []

-- `resp != nil && resp.HTTPStatus >= 400 && resp.HTTPStatus < 500`
unfoldable pub client_error : Option Response → Option ℕ
client_error none = none
client_error (some r) =
    if leb 400 r.http_status && ltb r.http_status 500 then some r.http_status else none

pub record Sent : Type 0 where
  pub response : Option Response
  pub error : Option SendError
  pub trace : List ClientEvent

abbrev pub also : List ClientEvent → Sent → Sent
also events s = record s { trace = events ++ s.trace }

-- What Send does with the pair that doRequest returned; `later` is the rest of the loop.
unfoldable pub after_request : Option Response × Bool → Sent → Sent
unfolding client_error
after_request (resp, false) later = record { response = resp; error = none; trace = [] }
after_request (resp, true) later = elim (client_error resp) [
  | none ↦ later
  | some status ↦ record { response = resp; error = some (upstream_status status); trace = [] }
]

-- `attempt > 0`: the pause before a retry.
unfoldable pub pause : ℕ → List ClientEvent
pause zero = []
pause (suc n) = wait_ms (suc n * 200) ∷ []

unfoldable pub is_cut : (ℕ → Bool) → ℕ → Bool
is_cut cancelled zero = false
is_cut cancelled (suc n) = cancelled (suc n)

-- The loop of Send, over the attempts that are left.
unfoldable pub send_from : (ℕ → Exchange) → (ℕ → Bool) → List ℕ → SendParams → ℕ → ℕ → Sent
send_from exchange cancelled body p zero attempt = record {
  response = none;
  error = some unavailable;
  trace = [];
}
send_from exchange cancelled body p (suc left) attempt =
    let later = send_from exchange cancelled body p left (suc attempt) in
    if is_cut cancelled attempt
    then record { response = none; error = some context_done; trace = pause attempt }
    else also (pause attempt ++ posts_of body p (exchange attempt))
        (after_request (do_request p (exchange attempt)) later)

-- `attempt := 0; attempt <= p.MaxRetries`
unfoldable pub rounds : ℤ → ℕ
rounds (pos n) = suc n
rounds (negsuc n) = 0

-- `if p.MaxBody <= 0 { p.MaxBody = 32768 }`
unfoldable pub with_max_body : SendParams → SendParams
with_max_body p = if leb_ℤ p.max_body (pos 0) then record p { max_body = pos 32768 } else p

unfoldable pub send : (ℕ → Exchange) → (ℕ → Bool) → List ℕ → SendParams → Sent
send exchange cancelled body p =
    send_from exchange cancelled body (with_max_body p) (rounds p.max_retries) 0
