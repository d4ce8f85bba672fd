-- ===== src/Lib.antt =====
-- virt-db: a proxy in front of MySQL that answers configured SELECT statements from Redis, and the
-- admin service that keeps its configurations, nodes and metrics.
--
-- The parts, and how they work together.
-- A client's packets go through `handle_client` (server/src/serve/mod.rs), two loops that carry bytes
-- to the database and back. Each packet is read as a MySQL command (server/src/protocol/mod.rs) and
-- shown to `handle_request`, which takes the comments out of the statement and compares its tokens
-- (server/src/utils/sys_sql.rs) with the configurations that a job reloads (server/src/meta.rs). A
-- statement that one of them matches is looked up in Redis; on a hit the stored bytes are the answer,
-- on a miss the response of the database is collected and handed to a task that stores it
-- (server/src/sys_assistant_client.rs). What was executed is logged; another task sums up the logs and
-- registers them with the admin service (admin/src), whose users keep the configurations.
--
-- The files.
-- - Prelude: shared names, lists over the native numbers, texts as lists of code points, signed
--   integers and the casts between machine integers.
-- - Text, Text/Utf8: what the code uses of Rust's `str`: trim, starts_with, contains, to_uppercase,
--   and from_utf8 with the well-formed sequences of the Unicode standard; Text/Encoding has the form in
--   which a text is sent.
--   Text/Decimal is `to_string` of integers.
-- - Sql/Comments: `remove_comments` as `strip` and `remove_comments`; Spans, Many and Size hold the
--   proofs.
-- - Sql/Tokens: `normally`, `is_pattern_match` (its loop is `all_same`, its `match` is `is_same`),
--   `trim_tokens`, `is_sql_pattern_match`; Matching and Layout hold the proofs.
-- - Sql/Statement: `sql_to_pattern` and `replace_expr`; Shape holds the proofs.
-- - Server/Config: the configuration of server/src/sys_config.rs with `parse_config`, the addresses that
--   are made of it, and `main` of server/src/main.rs up to the accept loop; Starting holds the proofs.
-- - Server/Packet: `PacketType`, `Packet::packet_type`, `sequence_id`, `error_packet`.
-- - Server/Cache: the two key formats and the task of `enable_cache_task_handle_job`; Timed has its
--   loop with the time that passes between tasks; Keys and Freshness hold proofs.
-- - Server/Meta: `CacheConfigEntity`, and one round of `enable_meta_refresh_job`.
-- - Server/Metric: `AveragedCollection` (server/src/math/avg.rs) and the rows that `handle_metrics`
--   makes of a batch of logs; Batches has `handle_messages`, with what becomes of each batch, and Kept its
--   proofs; Average, Sorting, Groups, Rows, Permuted and Unordered hold the others.
-- - Server/Handler: `ProxyContext`, `Action` and the three methods of `VirtDBConnectionHandler`:
--   `handle_request`, `handle_response`, `handle_remote_response_finished`; Requests, Outcomes
--   and Configured hold the proofs.
-- - Server/Proxy: the two loops of `handle_client`, one round each: `client_step`, `remote_step`, and
--   `run` for a sequence of rounds; Steps, Traffic, Unknown, Invariant, Recording, Progress and Queries
--   hold the proofs.
-- - Server/Locks: where the two loops wait for each other: the handler's mutex, the channel of
--   contexts and the places of both loops, as a step relation; Queue, Deadlock, Polite and
--   Rest hold the proofs.
-- - Server/Serving: the task that fills the cache and the request that reads it, together; Fresh adds
--   the time between them, and Replay the connections at both ends.
-- - Server/System: `start` of server/src/server.rs with all connections, the task that fills the cache,
--   the reloads and the clock, under a schedule (`system_step`, `system_run`); Provenance,
--   Tracked, Sends, ClientRounds, RemoteRounds, Integrity, Preservation and Answers hold the proofs.
-- - Admin/Error, Admin/Token, Admin/User: `SysError`, `DataWrapper`, the tokens of
--   admin/src/utils/jwt.rs with `CurrentUser::from_request`, and `login`, `update_password` and (in
--   User/Info) `get_user_info` of admin/src/controller/user_controller.rs; Bearer and Passwords
--   hold the proofs.
-- - Admin/Node: `register` of admin/src/controller/vt_node_controller.rs and the check of
--   admin/src/job/vt_node_job.rs; Alive and Register hold the proofs.
-- - Admin/CacheConfig: `list`, and in Change `create` and `delete`, of
--   admin/src/controller/cache_config_controller.rs; Pages holds the proofs on `list`,
--   Unused those together with the reload of the server.
-- - Admin/Metric: the loop of `list_sql` of admin/src/controller/metric_history_controller.rs over the
--   statements of a page, and in Listing the whole handler with the text of its queries; Columns,
--   Results and Answered hold the proofs.
-- - Admin/Service: the services of admin/src/main.rs over one state: what is extracted from a request,
--   the handler it is given to (`dispatch`, `handle`), and runs of requests and checks of the nodes
--   (`admin_run`); Authorized, Changes and Sessions hold the proofs, and Caching with the proxy's reload.
-- - Registration: the rows of a proxy's batch as `register` of the admin service saves them; Counts
--   holds the proofs.
-- - Tests: the theorems at concrete inputs.
--
-- How the code is read.
-- Bytes and code points are native numbers. An `Instant` is a number of nanoseconds. An `i64` is an
-- integer; casts are written out. Panics are values: `panic`, `panicked`, or `none` where `unwrap`
-- fails. The clock's readings, the bytes that arrive, the replies of Redis and the success of a write
-- are arguments of a round. In the admin service a request is handled at once; its moment, the salt
-- that it draws and its peer's address are arguments. No recursion takes fuel but the digits of a
-- number: at most six hexadecimal ones of a code point, and at most 19 decimal ones of an `i64`.
--
-- Parameters.
-- The tokenizer, parser and printer of the crate sqlparser, Redis (the interface `Redis`, with the
-- documented laws of SETEX, EXISTS and GET as `RedisLaws`, and with time as `TimedLaws`) and the
-- tables of Unicode (uppercase mapping, printable characters). Of sqlparser's tokens and syntax trees the variants that the code
-- names are modelled; the others are kept by their text. In the admin service the tables of users,
-- metrics and configurations with their queries (`SysUsersLaws`, `ConfigsLaws`, and `DatabaseLaws`
-- with pages in any order), md5, jsonwebtoken (`JwtLaws`), serde_json and local times; in the metrics 64-bit floats (`Float`).
--
-- Not modelled: logging, the start of the admin service, sockets, the mutex of the client's writer,
-- a full channel of tasks or logs, what the data race on the static list of configurations does; in the
-- admin service bodies that do not decode, the JSON of responses, static files, and requests whose
-- handlers interleave.
mod Prelude
pub mod Text
pub mod Sql
pub mod Server
pub mod Admin
pub mod Registration
pub mod Tests
