-- ===== src/Lib.antt =====
-- grindr.rs: a client of the Grindr API. A task of the client signs in, keeps the session fresh, and
-- sends requests under it; the tasks share one state, and the server and the other tasks act whenever
-- a task waits.
--
-- Prelude      tests, lists, bytes and a 32-bit view of integers. A text is its list of bytes, a
--              `u64` epoch wraps at 2^64, the `u32` counter of failures saturates.
-- Error        src/error.rs: the error enum, `from_code`, `refuses_client_version`, `From<wreq::Error>`;
--              Error/Show the texts of `Display`.
-- Captcha      src/captcha.rs: the actions of a captcha token.
-- Codec        what the code calls of serde_json, and the quoted form of a text: a parameter.
-- Rest         src/rest.rs: Rest/Block `block_kind` and its parts, Rest/ApiError `parse_api_error`,
--              `raw_or_blocked` and `parse_json`, Rest/Summary `summarize_error_body`, on Rest/Lossy
--              (`String::from_utf8_lossy`) and Rest/Search (`trim`, `find`).
-- Device       src/device.rs: the hardware table, `DeviceInfo::generate`, whose draws are arguments,
--              and Device/Hex, the format `{:016x}`.
-- Headers      src/headers.rs: the header sets in their order. Which texts are header values is
--              decided by the HTTP library, a parameter.
-- Auth         src/auth.rs: Auth/Session the types, Auth/Claims the restriction in a token,
--              Auth/Gate `RefreshGate`, Auth/State `AuthState`, whose methods are atomic steps, `Op`
--              being any of them; Auth/State/Tickets the state with the epochs that tasks hold,
--              Auth/State/Cell what it promises, without an epoch; Auth/Calls the calls: Refresh,
--              SignIn, Authorize; Auth/Flight many tasks that refresh by themselves, behind
--              `refresh_lock`, in any interleaving of their steps between the waits.
-- Auth/Debug   the `fmt::Debug` of a session and of a stored key, and what it hides.
-- Signing      src/signing.rs: the device key; curve, digest and base64 are the parameter `Crypto`.
-- World        `InnerClient` of src/rest.rs as one task sees it: a computation takes the world to a
--              result and a world. `Env` holds the clocks, the answers of the server and the acts of
--              the other tasks, all indexed by the number of waits so far, so a theorem for every
--              `Env` holds for every server and every interleaving at the awaits. World/Yields is a
--              logic of successful computations.
-- Request      src/request.rs, src/stream.rs and the device key of src/rest.rs: Request/Body the
--              request, Request/Attempt one attempt, Request/Exchange the loop of retries,
--              Request/Send `RequestBuilder` and `ensure_device_key`; Request/Trail a logic of the
--              requests that a computation leaves in `World.sent`.
-- Stream       src/stream/: Stream/Pump the task that reads the source of a streamed upload, over any
--              row of reads and any refusals; Stream/Body the body that the HTTP library polls, over
--              any row of polls; Stream/Pipe both with the channel between them, in any interleaving of
--              the turns of the pump, the polls and the drops; Stream/Watchdog the deadline of an
--              upload, over any row of checks.
-- Media        src/media.rs and src/media/: Media/Hosts the allowed hosts and the redirect policy,
--              Media/Request the checks on a url and the headers of each fetcher, Media/Transfer a
--              body that is read up to its ceiling, Media/Liveness the state that decides when a media
--              connection is retired, and any history of it, Media/Send `send_media`, on a world of
--              its own: its attempts, and the other tasks between them; on it Media/Fetch
--              `fetch_media` and Media/Stream `stream_media` and `MediaStream::chunk`.
-- Ws           src/ws.rs: Ws/Connect `connect_and_run` up to the open websocket, Ws/Messages the loop
--              on it, over any row of what its `select!` yields, Ws/Backoff how the task goes on
--              after a connection, over any row of connections, and Ws/Task the whole task, a machine
--              that goes from one wait to the next on the world of the client.
-- Client       src/client.rs: `sign_out`, `rotate_device`, `sign_out_rotating`, `reset_transport`;
--              Client/Emulation and Client/Transport what the HTTP library is told of the fingerprint
--              and the clients that it builds, Client/Handle how a client comes into being and starts
--              its websocket task, Client/Calls the methods that pass on.
-- Texts        what FingerprintCheck and TestServer use of the standard library: `split`, `sort`, `position`.
-- FingerprintCheck  examples/fingerprint_check.rs: FingerprintCheck/Expected the fingerprint that a
--              client has to show, Ja4 the fingerprint that is computed again, Checks and HeaderOrder
--              what the answer of the probe server is compared with, Run `main` and its exit code.
-- TestServer   src/testserver.rs: TestServer/State the replies that tests queue and the requests that are
--              recorded, Reply the routes, Media the files, Serve `serve` on a request whose head has been
--              read, Apart all tests on the one server, in any order of what happens under its locks, and
--              Relay the connections of src/media/relay.rs, which a test can mute.
-- Tests        a small server, runs of the calls, and instances of the main theorems.
--
-- The loop of `exchange` runs on the numbers of refreshes and of new signatures that are left, one
-- each: the flags `refreshed` and `resigned` of the code allow no more, so no fuel is needed.
-- Loops over the reads of a source, the polls of a body, the checks of a watchdog, the redirects of a
-- request and the chunks of a body are recursions on the list of what the library gave.
--
-- `chunks` of TestServer/Serve runs on as much fuel as its text has bytes, and no chunk is empty.
--
-- The task of the websocket is run for any number of steps.
--
-- Two operations of the auth state give a lock back before they are through: the session is stored
-- and then the refresh gate settled, and the failure of a refresh is counted in the gate and then
-- told to the listeners. The operations of Auth/State have both as one step and in their parts, the events
-- of Auth/State/Tickets so the second; Auth/Calls/Refresh has a wait between the parts of the second, and none
-- between those of the first, where the code has none. In Auth/Flight a task takes both as one step.
--
-- The redirects that a media request follows are those that the policy lets pass of a row that the
-- server gives; a connection is counted and its host looked up in two steps of the liveness state.
--
-- Not modelled: the channels that a client hands out, whose receivers are the library's; the lookup
-- and the connection themselves, which the layers of src/media/liveness.rs pass on; the captcha trait,
-- which the user implements; what src/testserver.rs and src/media/relay.rs do with their sockets and
-- their thread-local switches; what examples/fingerprint_check.rs prints, and the
-- other two example programs, which send a request or two. A timeout and an instant are numbers of
-- milliseconds.
mod Prelude
pub mod Error
pub mod Captcha
pub mod Codec
pub mod Rest
pub mod Device
pub mod Headers
pub mod Auth
pub mod Signing
pub mod World
pub mod Request
pub mod Stream
pub mod Media
pub mod Ws
pub mod Client
pub mod Texts
pub mod FingerprintCheck
pub mod TestServer
mod Tests
