-- ===== src/Tests/Clients.antt =====
-- A TSA that is reached at the second attempt, and a name that resolves to one address.
use tsa_proxy.Common.{
  ℕ, zero, suc, ◌*◌, ◌-◌, ◌≤◌, ◌≡◌, ◌≢◌, ◌↔◌, ◌⊎◌, ◌+◌, ◌/◌, refl, arith, String, Bool, true, false,
  none, some, List, [], ◌∷◌, All, str_eq,
}
use tsa_proxy.Common.Int.{pos}
use tsa_proxy.ApiError.{ok}
use tsa_proxy.Upstream.Client.{
  Response, SendParams, Exchange, transport_failed, received, send, with_max_body, upstream_status,
}
use tsa_proxy.Upstream.Client.Retries.{
  attempts, FirstReply, IsSettled, send-FirstReply, send_no_status, send-IsSettled,
}
use tsa_proxy.Upstream.Client.Cost.{count_posts, total_wait, send_cost}
use tsa_proxy.Upstream.Address.{
  Ip, to4, is_private_or_reserved, ipv6_loopback, ipv6_unspecified, bytes_eq,
}
use tsa_proxy.Upstream.Address.Ranges.{IsBlocked, number, v4-IsBlocked_iff, v6_blocked_iff}
use tsa_proxy.Upstream.Allowlist.{Net, validate_url, safe_dial, public_addresses, first_address}
use tsa_proxy.Upstream.Allowlist.Ssrf.{
  IsPublic, IsPublicHost, IsAllowed, validate_url_iff, safe_dial-IsPublic,
}

abbrev late_reply : ℕ → Exchange
late_reply zero = transport_failed
late_reply (suc n) = received 200 (48 ∷ 3 ∷ []) 12

abbrev steady : ℕ → Bool
steady n = false

abbrev params : SendParams
params = record {
  url = "https://tsa.example/ts";
  username = "";
  password = "";
  max_retries = pos 2;
  max_body = pos 0;
  timeout = pos 8000;
}

abbrev reply : Response
reply = record { body = 48 ∷ 3 ∷ []; http_status = 200; latency_ms = 12 }

send-FirstReply_example :
    ((send late_reply steady (1 ∷ []) params).response ≡ some reply)
    ↔ FirstReply late_reply steady (with_max_body params) reply (attempts (pos 2)) 0
send-FirstReply_example = send-FirstReply late_reply steady (1 ∷ []) params reply

send_no_status_example : (send late_reply steady (1 ∷ []) params).error ≢ some (upstream_status 400)
send_no_status_example = send_no_status late_reply steady (1 ∷ []) params 400

send-IsSettled_example : IsSettled (send late_reply steady (1 ∷ []) params)
send-IsSettled_example = send-IsSettled late_reply steady (1 ∷ []) params

send_cost_example :
    (count_posts (send late_reply steady (1 ∷ []) params).trace ≤ attempts (pos 2))
    × (total_wait (send late_reply steady (1 ∷ []) params).trace
        ≤ 100 * attempts (pos 2) * (attempts (pos 2) - 1))
send_cost_example = send_cost late_reply steady (1 ∷ []) params

v4-IsBlocked_iff_example :
    (is_private_or_reserved (172 ∷ 31 ∷ 0 ∷ 1 ∷ []) ≡ true) ↔ IsBlocked (number 172 31 0 1)
v4-IsBlocked_iff_example =
    v4-IsBlocked_iff 172 31 0 1 (omega arith) (omega arith) (omega arith) (omega arith)

-- fd00::1, after its first two bytes.
abbrev tail_bytes : List ℕ
tail_bytes = 0 ∷ 0 ∷ 0 ∷ 0 ∷ 0 ∷ 0 ∷ 0 ∷ 0 ∷ 0 ∷ 0 ∷ 0 ∷ 0 ∷ 0 ∷ 1 ∷ []

unmapped : to4 (253 ∷ 0 ∷ tail_bytes) ≡ none
unfolding to4
unmapped = refl

v6_blocked_iff_example : (is_private_or_reserved (253 ∷ 0 ∷ tail_bytes) ≡ true) ↔ (
    (253 / 2 ≡ 126)
    ⊎ ((253 * 256 + 0) / 64 ≡ 1018)
    ⊎ (◌≡◌ {A = ℕ} 253 255)
    ⊎ (bytes_eq (253 ∷ 0 ∷ tail_bytes) ipv6_loopback ≡ true)
    ⊎ (bytes_eq (253 ∷ 0 ∷ tail_bytes) ipv6_unspecified ≡ true))
v6_blocked_iff_example = v6_blocked_iff 253 0 tail_bytes (omega arith) (omega arith) refl unmapped

-- Every name resolves to 203.0.113.5.
abbrev pub net : Net
net = record {
  parse_url = λ _. some (record { scheme = "https"; hostname = "tsa.example" });
  equal_fold = str_eq;
  trim_space = λ s. s;
  lookup_ip = λ _. ok ((203 ∷ 0 ∷ 113 ∷ 5 ∷ []) ∷ []);
  split_host_port = λ _. some ("tsa.example", "443");
}

validate_url_iff_example :
    (validate_url net "https://tsa.example/ts" ("tsa.example" ∷ []) ≡ ok tt) ↔ (
      (host : String) × IsAllowed net "https://tsa.example/ts" ("tsa.example" ∷ []) host
      × IsPublicHost net host)
validate_url_iff_example = validate_url_iff net "https://tsa.example/ts" ("tsa.example" ∷ [])

dialled : safe_dial net "tsa.example:443" ≡ some ((203 ∷ 0 ∷ 113 ∷ 5 ∷ []), "443")
unfolding safe_dial public_addresses first_address is_private_or_reserved to4
dialled = refl

safe_dial-IsPublic_example :
    (host : String) × (net.split_host_port "tsa.example:443" ≡ some (host, "443"))
    × ((others : List Ip) × (net.lookup_ip host ≡ ok ((203 ∷ 0 ∷ 113 ∷ 5 ∷ []) ∷ others))
        × All IsPublic ((203 ∷ 0 ∷ 113 ∷ 5 ∷ []) ∷ others))
safe_dial-IsPublic_example =
    safe_dial-IsPublic net "tsa.example:443" (203 ∷ 0 ∷ 113 ∷ 5 ∷ []) "443" dialled
