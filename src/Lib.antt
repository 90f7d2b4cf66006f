-- ===== src/Lib.antt =====
-- Verification of proxybroker: finding, checking and serving public proxies.
--
-- The program grabs candidate proxies from the pages of providers, checks each one against judges
-- (src/checker.rs), keeps the working ones in a pool (src/server.rs, `Pool`), and serves clients
-- through them: a local server parses a client's request, takes a proxy from the pool, relays the
-- request, and on a failure that the client has not seen takes another. A watched file
-- (src/watch.rs) and the control requests change the pool meanwhile; a store (src/persist.rs)
-- remembers proxies between runs.
--
-- Which file models what:
--   Prelude      the shared names, Boolean tests, lists, membership, decidable equality
--   Text         the operations on strings and bytes of the standard library
--   Maps         `BTreeMap` and `HashMap` as association lists
--   Net          `IpAddr` and its tests
--   Float        `f64` as an interface; `nat_float` is an instance for tests
--   Types        src/types.rs; Types/Names has the theorem on names
--   Errors       src/error.rs
--   Proxy        src/proxy.rs: Record (state and recorders), Measures, Trust, Laws
--   Pool         src/server.rs, the pool. State: the records and the operations by address.
--                Select: `best_for` and the strategies. Steps: `try_select`, `try_get`, and `PoolOp`,
--                what another task does in one critical section. Get: `Pool::get`. The others prove:
--                Tiers, Ranking, Choice, BestFor, Strategies on selection; Checkout on `try_select`;
--                Waiting, Leasing, Totals on `get`; Contents on the operations by address.
--   Watch        src/watch.rs, `reconcile`
--   Server       src/server.rs, the server. Heads: reading and changing HTTP heads, with
--                `base64_encode` and `get_status_code` of src/utils.rs. Requests: the request and
--                its decisions, `parse_head`, and `tunnel_proto` of src/negotiator.rs. Relay:
--                `relay`. Handler: `handle_client`, `serve_control`, the history. Socks:
--                `parse_socks5_request`. Connection: `parse_client_request`, and the handler from the
--                first byte on. Headers, Credentials, Gate, Commit, Allowed, Secrets,
--                Answers, Accounts, Ends, Choices and Login prove.
--   Negotiator   src/negotiator.rs: Head reads the answer of a proxy, Handshakes has `negotiate` and
--                the handshake of each protocol, Tunnel and Opaque prove.
--   Connector    src/connector.rs: Dialing has `connect`; Outcomes and Ends prove.
--   Judges       src/judge.rs; Judges/Usable proves.
--   Checker      src/checker.rs: Check has `types_passed`, `check_one` and `check` over given attempts;
--                Setup has the retry policies, `Checker::new` and the names for the blocklists;
--                Response has the reading of a response and what is read off it, with
--                `request_headers` of src/utils.rs; Attempt has `attempt`, and `check_proxy`, the
--                check made of such attempts. Admission, Attempts, Verdict, Reading, Evidence,
--                Ready, Working and Confirmed prove.
--   Persist      src/persist.rs, `MemoryStore`
--   Parse        src/parse.rs, and the reading of addresses in src/utils.rs and src/resolver.rs: Scan
--                has the scanners, Extract has `ProviderSpec::extract` of src/provider.rs and
--                `parse_proxy_lines`, Files has `load_provider_dir` and `fetch`; Found and
--                Ends prove.
--   Stats        src/stats.rs: Collector has the state and its operations, Tally proves.
--   Broker       src/broker.rs: Builder has `FindQuery` and its builder; Grab has the sources of
--                `grab_task` and `find_task`; Pipeline has `check_stream` as a step relation;
--                Query has `find` and `check` up to the run that they begin. Sources, Grabbed,
--                Limits, Emitted, Complete, Progress and Proved prove.
--   Scheduler    src/scheduler.rs: Rechecker has the cadence and one pass of the loop of
--                `spawn_rechecker`; Bookkeeping, Tracking and Pooling prove.
--   Cli          src/bin/proxybroker.rs: Arguments has the queries that are made of the arguments,
--                Rendering and Emitter the output, Merged has `union_dedup` and proves; Written
--                proves.
--   Resolver     src/resolver.rs, but for `parse_ip_lenient`, which is in Parse/Extract
--   Tests        the theorems at concrete inputs
--
-- How the code is modelled. A mutex guards each operation of the pool, so an operation is one step
-- on the record `Pool`; what other tasks do between two critical sections is a list of `PoolOp`,
-- over which the theorems range. `Pool::get` takes from a list of `Round` what the environment
-- does in each round and waits (`waiting`) when the list runs out: eight rounds are enough once
-- the source has ended, since eight failed probes end the loop. `handle_client` takes a `Try` for
-- each attempt; its loop is recursion on the tries that are left, and so is that of the connector,
-- which takes a `DialTry`. A `Wire` says what the peers do during one relay. The dialling, the
-- negotiation and the reading of the status line have a timeout; a write of the relay and its
-- splicing have none, so each of these completes, fails or never ends (`Ending`), and a relay that
-- never ends has no outcome: its handler stays in it (`relaying`) and keeps its proxy. The writes
-- of a handler's own short answers are taken to end. The bytes that a peer sends are a list of
-- `Event`, which ends where the deadline falls. The loop of `strip_header` has one more than the
-- bytes of the head as fuel, of which each round takes at least two. Strings are lists of bytes,
-- and letter case and white space are those of ASCII; a text that is not UTF-8 stays as it is. A
-- `u32`, `u64` or `u16` is a number, with its wrap-around or saturation written out. The scans of
-- a text have one more than its bytes as fuel, and each match moves on by at least one, so that
-- they end by their own test. A step of `check_stream` is what one of its tasks, or its loop, does
-- between two points where another may run, so a run is any order of such steps. The channel to
-- the consumer is the list of what has been sent, with the number of those that the consumer has
-- received: a proxy is sent only while fewer than 256 (`channel_capacity`) wait in it, or once the
-- consumer has gone; receiving and hanging up are steps of the consumer. The generator of
-- `next_rand` is a field of the pool. The order of a `HashMap` is that of the list.
--
-- Parameters: `IpText` prints and reads addresses; `Float` is `f64`; `Regexes` and `Patterns` find
-- the matches of regular expressions; `Files` orders paths and reads specifications; `GeoDbs`
-- looks addresses up; `Urls` parses URLs, `Printing` prints numbers and serializes a proxy, and
-- `Codecs` decodes gzip and deflate; the SOCKS and TLS handshakes of libraries, the network, the
-- clock, the liveness probe of a proxy, the blocklists and the judges' answers stand in the
-- environment records. No law of any of them is assumed, but in Parse/Ends that a match is not
-- empty and lies in the text, and in Scheduler/Pooling that a check leaves the address of a proxy
-- alone. Between the tries of one client the history is read and written by that client alone.
--
-- Not modelled: accepting connections, shutdown, metrics, logging, serialization, the requests for
-- the pages of providers and their bundled list, `BrokerBuilder` and `rotating` in src/broker.rs,
-- src/geo.rs, src/mcp.rs, src/tui.rs, the parsing of arguments and the set-up of the server in
-- src/bin/proxybroker.rs, and the SQLite and Redis stores.
pub mod Prelude
pub mod Text
pub mod Maps
pub mod Net
pub mod Types
pub mod Float
pub mod Errors
pub mod Proxy
pub mod Pool
pub mod Watch
pub mod Server
pub mod Negotiator
pub mod Connector
pub mod Stats
pub mod Judges
pub mod Checker
pub mod Persist
pub mod Parse
pub mod Broker
pub mod Scheduler
pub mod Resolver
pub mod Cli
pub mod Tests
