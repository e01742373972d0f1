-- ===== src/Lib.antt =====
-- tsa-proxy is an HTTP proxy in front of an external RFC 3161 timestamp authority. A request passes
-- the middlewares of its route (global rate limit, authentication, IP allowlist, rate limit of the
-- tenant), the handler checks its content type and body, and the flow of one stamp checks the
-- tenant's prepaid bundles, calls the authority and records the usage. Paths below are under
-- backend/internal.
--
-- Files, and the code that they model:
--   Common        shared names, Boolean tests, lists and Go's signed int over the native numbers
--   ApiError      apierr/apierr.go: the errors that clients get; Result is a Go value with an error,
--                 Answer a value or an *APIError
--   Model         model/model.go: the domain types
--   Bundles       repository/postgres/quotas.go: tables as lists of rows, queries as functions of
--                 them. get_bundles_with_consumption is GetBundlesWithConsumption, and so on;
--                 Aggregate is UpsertMonthlyAggregate
--   Alerts        service/proxy/service.go, checkBundleAlerts, on the notification log and the mails
--   Upstream      upstream/client.go (Client: send, do_request; Allowlist: safe_dial) and
--                 upstream/validate.go (Address, Allowlist)
--   Stamp         service/proxy/service.go: process is Process, record_usage is recordUsage. Replies
--                 holds what each call of the run replies, Effect what it changes, in order; a call
--                 in a goroutine stands where it is started. Tables applies the effects to the
--                 monthly aggregates, and Bag has the requests of one tenant that overlap between
--                 the check and the record, as steps that call these parts
--   RateLimit     repository/redis/ratelimit.go and middleware/ratelimit.go, over a Redis whose INCR
--                 and EXPIRE are an interface
--   IpAllowlist   middleware/ipallowlist.go
--   Auth          middleware/auth.go (ApiKey), basicauth.go (Basic), tsp.go (Tsp), and the token path
--                 of handler/proxy/timestamp.go (UrlToken); hashing and text encodings are the
--                 interface Codec
--   Handler       handler/proxy/timestamp.go
--   Routes        server/router.go: the chain of POST /api/v1/timestamp, which uses RateLimit, Auth,
--                 IpAllowlist, Handler and through it Stamp
--   AdminUsers    repository/postgres/admin_users.go: the platform's users as a list of rows with their
--                 roles and scopes
--   Password      service/auth/service.go: HashPassword and verifyArgon2id on bytes
--   AdminAuth     service/auth/service.go (Login: login is Login, verify_totp VerifyTOTP; Setup),
--                 middleware/adminauth.go (Admin) and handler/admin/auth.go (Http: handle_login is
--                 Login, and so on), over a store of keys with expiry and the table of AdminUsers.
--                 Sessions puts the endpoints into one step, and Steps, TwoFactors, SingleUse,
--                 Spent and Admitted prove what holds of them
--   Users         handler/admin/users.go, and Users.Scope handler/admin/scope.go
--   SecretBox     crypto/secretbox.go
--   UpstreamAdmin repository/postgres/upstreams.go and, in Handlers, handler/admin/config.go
--   Tenants       service/tenant/service.go: slugify, and in Lifecycle the service over
--                 repository/postgres/tenants.go
--   Tests         concrete inputs
--
-- Loops are structural: the retries of Send run over the attempts that are left, MaxRetries + 1 at the
-- start, which is all that the loop of the source makes. The loop of slugify over doubled dashes runs on
-- the length of the text, and Slug proves that it ends for its condition before.
--
-- Go's net, net/http, crypto and time packages, Redis, PostgreSQL, the mail provider and the geolocation
-- database are arguments of the definitions that use them. int and int64 are unbounded, but for the
-- limit of a request body, whose successor wraps around at 2 ^ 63. Log lines are left out.
--
-- A call that a database or Redis fails is an argument of the handler that makes it, and changes
-- nothing. Handlers of the administration run one after the other: requests that overlap are not
-- modelled there.
--
-- Not modelled: the handlers of tenants, the administration of credentials, quotas, addresses
-- and alerts, the rendering
-- of JSON, SQL reports, jobs, metrics, configuration and start-up, and the web panel.
pub mod AdminAuth
pub mod AdminUsers
pub mod Alerts
pub mod ApiError
pub mod Auth
pub mod Bundles
pub mod Common
pub mod Handler
pub mod IpAllowlist
pub mod Model
pub mod Password
pub mod RateLimit
pub mod Routes
pub mod SecretBox
pub mod Stamp
pub mod Tenants
pub mod Tests
pub mod Upstream
pub mod UpstreamAdmin
pub mod Users
