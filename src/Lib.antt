-- ===== src/Lib.antt =====
-- A formal model of modo, a Rust framework for web applications.
--
-- Parts and files. Paths are from the repository's root.
--   Base       Booleans, lists, text, dictionaries, tables of rows (Rows); Base/Errors is src/error/core.rs,
--              Base/Errors/Http src/error/http_error.rs.
--   Encoding   src/encoding/: base64url, base32 and hexadecimal text.
--   Cache      src/cache/lru.rs: `LruCache` with `get` and `put`. Lru/Spec is the abstract cache, a list
--              of entries in order of use; Lru/Refines relates the two, Lru/History runs them.
--   Http       the requests of the crate `http` as far as the others read them.
--   Server     src/server/host_router.rs: registering patterns (`host`), resolving the host of a request
--              (`resolve_host`), matching it (`match_host`) and dispatch (`call`).
--   Tenant     src/tenant/strategy.rs and id.rs (Strategy), src/tenant/domain.rs (Domain): the tenant of
--              a request, and the domain names that tenants claim, verify and route by.
--   Job        src/job/: the table `jobs` (Table), the writers of enqueuer.rs, worker.rs, reaper.rs and
--              cleanup.rs as functions on it, and in Lifecycle all their interleavings.
--   Auth       src/auth/session/ and src/auth/apikey/ (ApiKey/Store is the table of keys). Session/Token
--              and ApiKey/Token are tokens and their texts; Session/Store is store.rs, the table of
--              sessions; Session/Cookie is cookie/: Extractor is the state of a request with the handlers'
--              operations on it, Middleware the two phases of the layer around the service inside,
--              Requests whole requests; Session/Jwt is jwt/: Codec encodes and decodes tokens, Service
--              signs in, rotates and logs out, Middleware admits.
--   Client     src/client/: the device and the fingerprint of a client. Cookies is src/cookie/.
--   Webhook    src/webhook/signature.rs and secret.rs: the signature headers of a webhook.
--   Csrf       src/middleware/csrf.rs: the double-submit cookie.
--   Cron       src/cron/schedule.rs: schedules and durations.
--   Tier       src/tier/types.rs and guard.rs: features, limits and the guards on them.
--   Ip         src/ip/extract.rs: the address of a client behind proxies.
--
-- How code corresponds to definitions. A function keeps its name; a method is a function in the module
-- named for its type's file. State is passed: an operation of a store takes the table and returns its
-- result with the table. A SQL statement is a function on the list of rows that does what its text says,
-- and a table is one list because SQLite serialises writers. `Result` keeps the status and the message of
-- an error. Text is the list of its code points, bytes are numbers below 256, and a machine integer is a
-- number with its wrap-around written out. Loops are structural recursion, but for two with fuel: the
-- inner loop of the encoders has a unit for each bit in the buffer and takes at least five of them, and
-- the decimal text of an i64 has twenty units, one a digit.
--
-- Parameters. Code of other crates is an argument of what calls it: SHA-256, serde's text of a payload,
-- the URI builder, IP addresses and networks, the cron parser, the lower case of Unicode text, the DNS,
-- the constraints and errors of the database, JSON values, HMAC, the signing and printing of cookies, the
-- clock and random identifiers.
--
-- Not modelled: sockets, tasks, timers and permits, rendering, mail and the other parts that only call
-- services; rate limits and the remaining middleware; the lifetimes of sessions with which chrono panics;
-- failures of the database, where a file does not name them. Requests that run at the same time are
-- modelled for jobs (their statements interleave), not for sessions.
pub mod Base
pub mod Encoding
pub mod Cache
pub mod Csrf
pub mod Http
pub mod Client
pub mod Cookies
pub mod Webhook
pub mod Server
pub mod Tenant
pub mod Job
pub mod Auth
pub mod Cron
pub mod Ip
pub mod Tier
