-- ===== src/Lib.antt =====
-- codaze: a gateway that sends the requests of its clients to an upstream over a pool of accounts. A
-- request selects an account, gets its token refreshed if that is due, is tried, and on a failure goes
-- to the next account; what the upstream answers decides for how long an account is blocked. The
-- paths below are from the repository's root.
--
-- Parts and files:
--   Prelude: helpers for tests, options, lists, orders, association lists, texts, their bytes in UTF-8,
--     decimal numbers, time and results.
--   Config: src/config.rs. Its root has the policies and modes, Args the arguments and the directories.
--   Classifier: the classes of src/classifier.rs.
--   Router: src/router.rs, `select_candidate` under the three policies.
--   Accounts: src/accounts. Types and Block are mod.rs: the records, the transitions of a block, the
--     local backoff. Lifecycle, Refresh, Wake and AuthInvalid are lifecycle.rs, the last with
--     `AppState::finish_refresh_failure` of src/app/mod.rs. Selection is selection.rs. Import and
--     Sync are disk.rs: the plans and how they are applied. Store is the state machine of all these
--     operations: `Step` has a constructor for each, `Reach` is a history from an empty store.
--   Json: the values of serde_json. Its objects keep their fields in order, as IndexMap does; a field
--     that is removed leaves its place to the last. Http: the header maps, and src/http_shape.rs.
--   Semantics: src/error_semantics.rs and the functions of
--     src/classifier.rs, and Failover.Step has `extract_retry_after` of src/responses/failure.rs.
--   Failover: src/failover.rs, `execute_with_failover_from_inner`: Step has the data and the
--     environment, Loop the body of the loop and the loop.
--     Settlement has the settlement of an account.
--   Models: src/models.rs. Normalization: src/request_normalization.rs.
--   Upstream: src/upstream. Fingerprint is fingerprint.rs; Headers and Sanitize are headers.rs, the
--     extra headers of a request and those of the upstream's answer. Requests is http.rs with the
--     `Provider` of mod.rs: the requests with their address and headers, up to the transport.
--   Failure: src/responses/failure.rs. GatewayErrors: src/gateway_errors.rs.
--   Responses: Events and Websocket.Errors are src/responses/websocket/errors.rs, Websocket.Protocol is
--     protocol.rs. Lines, Sse and Stream are src/responses/stream.rs: the lines of events,
--     `ResponsesSseState` with its buffer of bytes, and `ManagedResponseStream` with its polls.
--   Tests: the theorems at concrete inputs.
-- The loop of Failover calls the operations of Accounts one after the other, each under the lock of
-- the store; Accounts calls Router for the choice; Semantics gives the class and the time to wait
-- that Accounts turns into a block. Normalization, Upstream and Models shape a request before Failover
-- sends it; GatewayErrors, Failure and Responses shape what the client gets, and Stream settles the
-- account at the end of an answer.
--
-- How the code is modelled: a function that changes `&mut self` takes the store and returns it, next
-- to its answer. A change of one record is a function of its own, which `update` applies under the
-- id. A `HashMap` is an association list in the order of its iteration, a `HashSet` the list of its
-- members, a `PathBuf` the list of its components. A point in time and a duration are numbers of
-- nanoseconds since the epoch; an operation reads the clock once and takes the reading as an
-- argument, except a selection, whose four readings are `Readings`. `u32` counters saturate at
-- `u32_max`, the cursor at `usize_max` of a 64-bit machine.
-- The tasks beside the loop, the clock, the upstream and the disk are an environment `Env`, by the
-- state of a world that moves on at each wait; whenever the loop waits without the lock, the
-- environment may change the store in any way that a theorem's hypotheses allow. The loop runs on
-- fuel, one for each round; twice the number of accounts, and one, is enough for a loop that begins
-- with no account tried, as each round that goes on notes an account as tried or as refreshed by force.
--
-- A header map is a list of names in lower case and values, a name as often as it has values; a removed
-- or inserted name only changes its own values. A stream's buffer is a list of bytes; the loop over its
-- events runs on fuel for its length, since each event takes a byte or more. A poll of a stream is given
-- what the upstream has ready meanwhile, in order.
--
-- Parameters: `Chrono` is the conversion of durations by the crate chrono, `Parsers` are serde_json,
-- the date parser of chrono and the product of a decimal number and a unit in `f64`; the hash of
-- `stable_account_id` is that of the crate sha2. What chrono does outside its range is not modelled.
-- `HttpCrate` is the validation of names and values of headers, `Codec` and `Texts` are serde_json's
-- reading and writing, the identifier of an installation, the reasons of statuses and the texts of
-- errors; `CloseCodes` are the codes of tungstenite. The reading of a session's source is that of
-- codex_protocol, the equality of JSON values that of serde_json.
-- Not modelled: the scan of the accounts' directory and the writing of files, the network, the HTTP
-- handlers of src/app, the loop between the two sockets of src/responses/websocket/mod.rs and the wait
-- for the first event in src/responses/pre_stream.rs, the transports, retries and the websocket and
-- refresh clients of src/upstream. They are input and output, or compose what is modelled. Lines of the log are left out everywhere.
pub mod Prelude
pub mod Config
pub mod Classifier
pub mod Router
pub mod Accounts
pub mod Json
pub mod Semantics
pub mod Http
pub mod Models
pub mod Normalization
pub mod Upstream
pub mod Failover
pub mod Failure
pub mod GatewayErrors
pub mod Responses
pub mod Tests
