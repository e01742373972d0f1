-- ===== src/Handler.antt =====
-- internal/handler/proxy/timestamp.go: Handle, HandleTSP and HandleByToken, from the HTTP request to
-- the reply. A reply that is an error is its ApiError, as apierr.WriteError writes it.
use tsa_proxy.Common.{
  ℕ, zero, suc, ◌+◌, ◌-◌, ◌^◌, String, Bool, true, false, not, ◌==◌, ◌||◌, Option, none, some, List,
  [], ◌∷◌, length, ltb, leb, take, if◌then◌else◌, str_eq,
}
use tsa_proxy.Common.Int.{ℤ, pos, negsuc, ltb_ℤ}
use tsa_proxy.ApiError.{
  ApiError, Result, ok, failed, Answer, answer, refuse, err_bad_request, err_invalid_content_type,
  err_request_too_large, err_unauthorized,
}
use tsa_proxy.Model.{Uuid, uuid_nil}
use tsa_proxy.Auth.{AuthEffect, Codec, HttpRequest, Identity}
use tsa_proxy.Auth.UrlToken.{TokenReplies, resolve_token}
use tsa_proxy.Stamp.Effects.{Request, Stamped, Settings, Replies, Effect}
use tsa_proxy.Stamp.Process.{process}
pub mod Bodies
pub mod Handled

-- The body of a request: all of it can be read, or reading fails after some bytes.
pub data Body : Type 0 where
  whole : List ℕ → Body
  broken : List ℕ → Body

pub record Post : Type 0 where
  pub content_type : String
  pub body : Body
  pub user_agent : String
  pub real_ip : String
  pub request_id : String

-- The values in the context that the handler reads, where they are there.
pub record Context : Type 0 where
  pub tenant : Option Uuid
  pub credential : Option Uuid
  pub client_ip : Option String

pub record Reply : Type 0 where
  pub content_type : String
  pub request_id : String
  pub body : List ℕ

-- `max + 1` of an int64.
unfoldable pub add_one : ℤ → ℤ
add_one (pos n) = if ltb (n + 1) (2 ^ 63) then pos (n + 1) else negsuc (2 ^ 63 - 1)
add_one (negsuc zero) = pos 0
add_one (negsuc (suc n)) = negsuc n

-- `io.ReadAll(io.LimitReader(body, limit))`: an error is met only before the limit.
unfoldable pub read_limited : ℤ → Body → Result (List ℕ)
read_limited (negsuc n) b = ok []
read_limited (pos n) (whole bytes) = ok (take n bytes)
read_limited (pos n) (broken bytes) = if ltb (length bytes) n then failed else ok (take n bytes)

unfoldable pub is_empty : List ℕ → Bool
is_empty [] = true
is_empty (b ∷ bs) = false

-- The body, or the error for it.
unfoldable pub read_body : ℤ → Body → Answer (List ℕ)
unfolding add_one read_limited is_empty
read_body max b = elim (read_limited (add_one max) b) [
  | failed ↦ refuse err_bad_request
  | ok bytes ↦
      if ltb_ℤ max (pos (length bytes))
      then refuse err_request_too_large
      else if is_empty bytes
      then refuse err_bad_request
      else answer bytes
]

unfoldable pub or_nil : Option Uuid → Uuid
or_nil none = uuid_nil
or_nil (some u) = u

unfoldable pub text_or_empty : Option String → String
text_or_empty none = ""
text_or_empty (some s) = s

unfoldable pub source_ip : Post → Context → String
unfolding text_or_empty
source_ip post ctx =
    if str_eq (text_or_empty ctx.client_ip) "" then post.real_ip else text_or_empty ctx.client_ip

unfoldable pub request_of : Post → Uuid → Uuid → String → List ℕ → Request
request_of post tenant credential ip bytes = record {
  body = bytes;
  tenant_id = tenant;
  credential_id = credential;
  source_ip = ip;
  request_id = post.request_id;
  request_size = length bytes;
  user_agent = post.user_agent;
}

unfoldable pub reply_of : Post → Answer Stamped → Answer Reply
reply_of post (refuse e) = refuse e
reply_of post (answer s) = answer (record {
  content_type = "application/timestamp-reply";
  request_id = post.request_id;
  body = s.body;
})

unfoldable pub processed : Settings → Replies → Post → Request → Answer Reply × List Effect
unfolding reply_of
processed cfg r post req = (reply_of post (process cfg r req).0, (process cfg r req).1)

unfoldable pub handle : Settings → ℤ → Replies → Post → Context → Answer Reply × List Effect
unfolding read_body or_nil source_ip request_of processed
handle cfg max r post ctx =
    if not (str_eq post.content_type "application/timestamp-query")
    then (refuse err_invalid_content_type, [])
    else elim (read_body max post.body) [
      | refuse e ↦ (refuse e, [])
      | answer bytes ↦ elim ctx.tenant [
        | none ↦ (refuse err_unauthorized, [])
        | some tenant ↦
            processed cfg r post
              (request_of post tenant (or_nil ctx.credential) (source_ip post ctx) bytes)
      ]
    ]

-- `!ok || tenantID == uuid.Nil`
unfoldable pub is_missing : Option Uuid → Bool
is_missing none = true
is_missing (some tenant) = tenant == uuid_nil

unfoldable pub handle_tsp : Settings → ℤ → Replies → Post → Context → Answer Reply × List Effect
unfolding read_body or_nil source_ip request_of processed is_missing
handle_tsp cfg max r post ctx =
    if not (str_eq post.content_type "application/timestamp-query")
    then (refuse err_invalid_content_type, [])
    else elim (read_body max post.body) [
      | refuse e ↦ (refuse e, [])
      | answer bytes ↦
          if is_missing ctx.tenant
          then (refuse err_unauthorized, [])
          else processed cfg r post (
              request_of post (or_nil ctx.tenant) (or_nil ctx.credential) (source_ip post ctx)
                bytes)
    ]

-- Every error of the body is a bad request here.
unfoldable pub handle_identified :
    Settings → ℤ → Replies → Post → Identity → Answer Reply × List Effect
unfolding read_body request_of processed
handle_identified cfg max r post who =
    if not (str_eq post.content_type "application/timestamp-query")
    then (refuse err_invalid_content_type, [])
    else elim (read_body max post.body) [
      | refuse e ↦ (refuse err_bad_request, [])
      | answer bytes ↦
          processed cfg r post (request_of post who.tenant_id who.credential_id who.client_ip bytes)
    ]

unfoldable pub handle_by_token :
    Codec
    → Settings
    → ℤ
    → TokenReplies
    → Replies
    → HttpRequest
    → Post
    → Answer Reply × List AuthEffect × List Effect
unfolding handle_identified
handle_by_token codec cfg max tokens r req post =
    let resolved = resolve_token codec req tokens in
    elim resolved.0 [
      | refuse e ↦ (refuse e, resolved.1, [])
      | answer who ↦
          let (reply, es) = handle_identified cfg max r post who in (reply, resolved.1, es)
    ]
