-- ===== src/Lib.antt =====
-- SubHub collects proxy subscriptions, keeps their nodes in a store, tests them, and exports a
-- chosen part of them for proxy clients. This library models the core of the program.
--
-- Parts, and how they work together:
--   Model (core/src/model.rs): the struct `Proxy` and its predicates (Proxy), its identity
--     (`fingerprint`, Fingerprint), the guess of its region (Region), the counts and the status of a
--     subscription (Health), deduplication (`merge`, Merge), subscriptions and ids (Subscription).
--   Score (core/src/score.rs): `score_proxy`, by which sorting and Top-N rank nodes.
--   Ops (core/src/ops.rs): `apply` with its filters, thresholds, rename and sort (Transform),
--     `top_n_by_score` (TopN), `incremental_update` and `merge_subscriptions_by_source`, which bring
--     a fetch into the store (Update).
--   Parse (core/src/parse.rs): `parse_subscription`, which takes base64 layers off a document and
--     tries every format on it (Document), share links (`parse_uri`, Uri and Links, on
--     `split_authority`, Authority), the entries of a Clash configuration (Clash, Fields), the
--     outbounds of V2Ray and sing-box (V2ray, SingBox), and the usage block (Usage, with Dates).
--   Export (core/src/export.rs): the filter and the unique names ahead of every serialiser (Names),
--     and the serialisers up to the text of YAML or JSON: Clash, V2ray, SingBox with the plugin
--     options that they share (Plugin), and the lines for Surge (Surge).
--   SpeedTest (core/src/speedtest.rs): the TCP test of all nodes by a pool of workers (Pool) with its
--     caches of hosts and endpoints. `Pool.work` is the code from one access of the shared state to
--     the next, and Common.Workers interleaves such steps in any order.
--   Resources (core/src/resources.rs): the lists of test targets, and what the answers of the channels
--     and streaming services mean.
--   Server (server/src): `persist_results`, which writes test results onto the stored nodes
--     (lib.rs, Persist), the maintenance handlers and small decisions (handlers/maintenance.rs and
--     lib.rs, Maintenance), the way from the store to the serialiser (Selection), and the snapshot
--     in the database and what is loaded of it (db.rs and the start in lib.rs, Snapshot), and the
--     external engine (engine.rs, Engine): the leases of its ports (Ports), its configuration
--     (Config), the probes through it (Probe), and which probe runs for which node (Batches), up to
--     the results that `persist_results` is given.
--     Requests and Query (lib.rs) hold what is read ahead of that: the usage header, the checks round a
--     fetch, redacted URLs, the query of a shareable link, and the summary of a subscription.
--     Subscriptions (handlers/subscription.rs) has the handlers that add, paste, refresh, rename and
--     delete, each up to the speed test of the nodes that it returns; a refresh is two steps, so the
--     store may change between them. Backup (same file) is the export of the store and its import.
--     Nodes and Dashboard (handlers/nodes.rs) have the list of nodes with its pages, and the totals
--     with their rolling history.
--   Common: texts, decimal numbers, doubles, sorting and look-up that the parts share.
--   Examples: the theorems at concrete inputs.
--
-- How the code is read: a `String` is the list of its Unicode scalar values; an unsigned integer is
-- a natural number with its wrap-around or saturation written out; a `f64` is its 64 bits, with
-- comparisons defined on them; a `HashMap` is an association list in which the last entry of a key
-- counts, a `HashSet` a list; `sort_by` is a stable insertion sort, which any stable sort agrees
-- with when the comparison is an order; a change through `&mut` returns the new value; the global
-- counters are a record that is passed on; a failing `?` is the type `Result`.
--
-- Parameters, since they are not code of the repository: the Unicode tables (`Unicode`), the regex
-- engine (`RegexEngine`), rounded arithmetic (`Arithmetic`), the parser of IP addresses
-- (`IpParser`), percent decoding, base64, UTF-8 and the parsers of JSON and YAML texts (`Codecs`),
-- arithmetic and notation of doubles (`Doubles`), the digest of a text, the derived serialisers
-- (`Serde`), the HTTP client (`Client`), and the clock. The theorems hold for all their values.
--
-- Fuel: the search for a free name runs as many rounds as there are used names and one more, which
-- is enough since the candidates differ from each other. The batches of
-- the engine have as many rounds as nodes, which is enough since each has a node. `alloc_ports` has the
-- 64 rounds of the source. Every other loop is structural.
--
-- A parsed JSON or YAML value is the library's type `Value` by its public constructors (Model.Json); a
-- YAML mapping has text keys only, since no code looks at others. MAX_B64_DEPTH bounds the layers of
-- base64 that are taken off.
--
-- What the world says to a step (the resolver, a connection, a callback, a free port, a response, a
-- process that starts) is an argument of the step, so a theorem holds for all that it may say.
--
-- Not modelled: the text of exported YAML and JSON, the log lines, the sockets, processes, directories,
-- semaphores and time limits behind the answers of the world, routing and JSON answers of the HTTP
-- handlers, failing database statements, the desktop shell and the web UI.

pub mod Common
pub mod Model
pub mod Score
pub mod SpeedTest
pub mod Resources
pub mod Ops
pub mod Export
pub mod Parse
pub mod Server
mod Examples
