-- ===== src/Handler/Handled.antt =====
-- When the handlers reply with a stamp.
use tsa_proxy.Common.{
  ℕ, ◌+◌, ◌^◌, ◌≤◌, ◌<◌, ◌≡◌, ◌≢◌, ◌↔◌, ◌==◌, ==_iff, refl, true, some, List, length, str_eq,
  Bool-cases, Option-cases, inl, inr,
}
use tsa_proxy.Common.Int.{ℤ, pos}
use tsa_proxy.ApiError.{Answer, answer, refuse, Answer-cases}
use tsa_proxy.Model.{Uuid, uuid_nil}
use tsa_proxy.Stamp.Effects.{Stamped, Settings, Replies}
use tsa_proxy.Stamp.Process.{process}
use tsa_proxy.Handler.{
  whole, Post, Context, Reply, read_body, or_nil, source_ip, request_of, reply_of, processed,
  handle, is_missing, handle_tsp,
}
use tsa_proxy.Handler.Bodies.{read_body_iff}

reply_of_iff :
    (post : Post) (a : Answer Stamped) (reply : Reply)
    → (reply_of post a ≡ answer reply) ↔ (
        (s : Stamped) × (a ≡ answer s)
        × (reply ≡ record {
          content_type = "application/timestamp-reply";
          request_id = post.request_id;
          body = s.body;
        }))
unfolding reply_of
reply_of_iff post (refuse e) reply = ((λ h. cc), (λ (s, no_stamp, _). cc no_stamp))
reply_of_iff post (answer s) reply =
    ((λ h. (s, refl, cc h)), (λ (s', same, e). let same' : s ≡ s' = cc same in cc (same', e)))

-- A POST of a timestamp query with a body that fits, of a tenant in the context, which Process stamps.
pub record IsReplied (cfg : Settings) (max : ℕ) (r : Replies) (post : Post) (ctx : Context)
    (reply : Reply) : Type 0 where
  pub is_query : str_eq post.content_type "application/timestamp-query" ≡ true
  pub bytes : List ℕ
  pub is_whole : post.body ≡ whole bytes
  pub some_bytes : 0 < length bytes
  pub fits : length bytes ≤ max
  pub tenant : Uuid
  pub in_context : ctx.tenant ≡ some tenant
  pub stamped : Stamped
  pub is_stamped :
      (process cfg r (request_of post tenant (or_nil ctx.credential) (source_ip post ctx) bytes)).0
      ≡ answer stamped
  pub is_reply : reply ≡ record {
    content_type = "application/timestamp-reply";
    request_id = post.request_id;
    body = stamped.body;
  }

tenant_stage :
    (cfg : Settings) (max : ℕ) (r : Replies) (post : Post) (ctx : Context) (bytes : List ℕ)
    → str_eq post.content_type "application/timestamp-query" ≡ true
    → read_body (pos max) post.body ≡ answer bytes
    → (tenant : Uuid) → ctx.tenant ≡ some tenant
    → handle cfg (pos max) r post ctx
      ≡ processed cfg r post
          (request_of post tenant (or_nil ctx.credential) (source_ip post ctx) bytes)
unfolding handle
tenant_stage cfg max r post ctx bytes query body tenant there = rw (query, body) (rw there refl)

-- Handle replies with a stamp exactly to a POST with the content type of timestamp queries whose body
-- can be read whole, is not empty and not longer than the limit, of a tenant in the context, where
-- Process, called with the whole body and that tenant, gives the stamp.
pub handle_iff :
    (cfg : Settings) (max : ℕ) (r : Replies) (post : Post) (ctx : Context) (reply : Reply)
    → max + 1 < 2 ^ 63
    → ((handle cfg (pos max) r post ctx).0 ≡ answer reply) ↔ IsReplied cfg max r post ctx reply
unfolding handle processed
handle_iff cfg max r post ctx reply lt = (
  (λ h. elim (Bool-cases (str_eq post.content_type "application/timestamp-query")) [
    | inr other ↦ let h' = (rw other at h) in cc
    | inl query ↦ elim (Answer-cases (read_body (pos max) post.body)) [
      | inl (e, bad) ↦ let h' = (rw (query, bad) at h) in cc
      | inr (bytes, body) ↦ elim (Option-cases ctx.tenant) [
        | inl nobody ↦ let h' = (rw (query, body) at h) in let h'' = (rw nobody at h') in cc
        | inr (tenant, there) ↦
            let h' = (rw (tenant_stage cfg max r post ctx bytes query body tenant there) at h) in
            let (s, e, is) =
              (reply_of_iff post
                  (process cfg r
                    (request_of post tenant (or_nil ctx.credential) (source_ip post ctx) bytes)).0
                  reply).0
                h' in
            let (all_of, some_of, le) = (read_body_iff max post.body bytes lt).0 body in
            record {
              is_query = query;
              bytes = bytes;
              is_whole = all_of;
              some_bytes = some_of;
              fits = le;
              tenant = tenant;
              in_context = there;
              stamped = s;
              is_stamped = e;
              is_reply = is;
            }
      ]
    ]
  ]),
  (λ x.
      let body = (read_body_iff max post.body x.bytes lt).1 (x.is_whole, x.some_bytes, x.fits) in
      rw (tenant_stage cfg max r post ctx x.bytes x.is_query body x.tenant x.in_context) (
        (reply_of_iff post
            (process cfg r
              (request_of post x.tenant (or_nil ctx.credential) (source_ip post ctx) x.bytes)).0
            reply).1
          (x.stamped, x.is_stamped, x.is_reply))),
)

-- HandleTSP does what Handle does, unless the tenant in the context is the nil identifier.
pub handle_tsp-eq-handle :
    (cfg : Settings) (max : ℤ) (r : Replies) (post : Post) (ctx : Context)
    → ctx.tenant ≢ some uuid_nil
    → handle_tsp cfg max r post ctx ≡ handle cfg max r post ctx
unfolding handle handle_tsp
handle_tsp-eq-handle cfg max r post ctx real =
    elim (Bool-cases (str_eq post.content_type "application/timestamp-query")) [
      | inr other ↦ rw (handle, handle_tsp, other) refl
      | inl query ↦ elim (Answer-cases (read_body max post.body)) [
        | inl (e, bad) ↦ rw (handle, handle_tsp, query, bad) refl
        | inr (bytes, body) ↦ elim (Option-cases ctx.tenant) [
          | inl nobody ↦
              rw (handle, handle_tsp, query, body) (rw nobody (unfold is_missing in refl))
          | inr (tenant, there) ↦ elim (Bool-cases (tenant == uuid_nil)) [
            | inl zero_id ↦
                let e : tenant ≡ uuid_nil = (==_iff tenant uuid_nil).0 zero_id in
                elim (real (cc (there, e))) [ ]
            | inr some_id ↦
                rw (handle, handle_tsp, query, body)
                  (rw there (unfold is_missing or_nil in rw some_id refl))
          ]
        ]
      ]
    ]
