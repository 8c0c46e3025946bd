-- ===== src/Lib.antt =====
-- WayPoint: a pool of browsers, the manager that keeps track of them, and the gateways in front.
--
-- The instance manager (apps/rust-instance-manager) keeps a map of instance descriptions behind one
-- mutex. Instances register, send heart beats (apps/rust-shared/src/utils.rs), and become parents
-- and children of each other; a proxy takes a browser by becoming its parent. A kill loop marks the
-- instances that are unhealthy, and whoever is killed takes its descendants along. In front of the
-- browsers stands an HTTP gateway (apps/rust-shared/src/socket_gateway) that reads the head of a
-- request, rewrites it and hands the connection to a server.
--
-- Files and code:
-- - Prelude: numbers, lists, texts (lists of code points) and `tonic::Status`.
-- - Proto: the messages of apps/proto-definition/instance_manager.proto.
-- - Dict: `HashMap<String, _>` as a list of entries with distinct keys.
-- - Manager: apps/rust-instance-manager/src/service.rs and traits.rs. World is `InnerService`; Traits is
--   traits.rs; Relations has the checks, Apply the writes and Cascade the kill loop over descendants
--   of `apply_to_instance_description`; Register is `insert_new_instance_description`; Rpc has the
--   methods of the three services; Health is `unhealth_instance`; KillLoop is `get_unhealth_instances`,
--   `kill_unhealth_instances` and the rounds of `start_kill_loop`; Lifetime has the reachable states;
--   Lifetime/Interleaved is a registration with others between its locks; Invariant says what a valid
--   state is; StatusPage is `create_status_page` and status_page.rs, with the page of a single instance
--   in Single and the handlers and their cache in Handlers.
-- - Gateway: apps/rust-shared/src/socket_gateway. Http is http_proxy.rs; Rewrite is
--   `HttpProxyConfig` of simple_gateway.rs and `start_http_proxy_connection`; Listen has the accept
--   loops of simple_gateway.rs.
-- - Container: apps/rust-instance-container/src. Chrome is `start_chrome` of browser/chrome.rs; the rest
--   is lib.rs and browser/main.rs up to the registration; Tasks has the tasks that `main` has
--   started by then, as a step relation, and Shutdown below it how the cancellation token ends them;
--   Proxy is `main` of browser/ephemeral_browser_proxy.rs.
-- - Client: HeartBeat is apps/rust-shared/src/utils.rs, EphemeralProxy is
--   apps/rust-instance-container/src/browser/ephemeral_browser_proxy.rs, run against Manager;
--   Version is `check_version` and `add_version` of apps/rust-shared/src/lib.rs; Cli is
--   apps/rust-instance-manager/src/cli.rs, run against Manager; Metrics is
--   apps/rust-shared/src/metrics/mod.rs, with what its posts change in Manager/Rpc/Metrics.
-- - Tests: small worlds and requests, and each theorem at one of them.
--
-- How the code is modelled:
-- - A handler is a function from the state to a result and a state; what it wrote before an error stays
--   written. Each handler holds the mutex throughout, so handlers follow each other; a registration,
--   which takes it three times, is three functions, run together in Lifetime and apart in
--   Lifetime/Interleaved.
-- - `get_timestamp_ms` is a function from the count of readings so far to milliseconds; no order of the
--   readings is assumed. Times are `u64`, whose subtraction wraps around as in a release build.
-- - The order in which a `HashMap` is iterated is that of its list of entries.
-- - The cascade runs on fuel: one more than the children on the stack and those that instances still alive
--   list. A round takes a child off the stack, or kills an instance and puts its children on it, so the
--   sum of both falls with every round; running out is the error `diverged`, which does not occur.
-- - Reading a request head is recursion over the bytes that the client sends before it stops.
-- - The proxy's calls carry what other clients do before them, as lists of events, and what becomes of
--   them: answered, answered in vain, or never arrived.
-- - A socket is the bytes that come before it fails; whether a server can be reached is a parameter, as
--   are Chrome's output, the URI parser, the templates of the pages and what chrono and `Debug` print.
-- - What comes at an accept loop is a list; a client that keeps its side open without ending its head
--   keeps the loop waiting.
--
-- Not modelled: timers, processes, TLS, reading the command line and the generated stubs, which are
-- libraries or glue; gateway metrics (socket_gateway/metrics.rs), which are not compiled; the HTML of the templates; what the metrics of the system are; the Python client.
pub mod Prelude
pub mod Proto
pub mod Dict
pub mod Manager
pub mod Gateway
pub mod Client
pub mod Tests
pub mod Container
