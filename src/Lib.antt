-- ===== src/Lib.antt =====
-- Verification of the broker of KanaAI (crates/kanai-broker): the Rust process between the
-- native input shells and the local conversion backend; and of the ordering of candidates in
-- crates/kanai-core.
--
-- A client's bytes go through the framing layer into a request, the session broker runs the
-- request on its session and asks the backend, and a response goes back the same way.
--
-- - Frame.antt and Frame/: crates/kanai-broker/src/frame.rs. `FrameCodec` is `encode` and `decode`,
--   `FrameDecoder` is a record that `push` threads from byte to byte. The loop of `push` over
--   `take_frame` runs on fuel, two more than the bytes in the buffer before the new byte, while
--   every frame takes nine bytes at least.
-- - Protocol/: crates/kanai-broker/src/protocol.rs. Every request and response is a record, and
--   every `validate` is a function into `Result`. A string is the list of its code points, a
--   field name in an error is a string of the language. JSON is not modelled.
-- - Session/: crates/kanai-broker/src/session.rs, with `CancellationRegistry` and
--   `GenerationToken` of broker.rs. `SessionBroker` is a record. An `Arc<SessionEntry>` is an
--   address of its `store`, so that a token and an operation can hold an entry that is in the map
--   of sessions no more. An operation is a part before the backend is awaited (State, Begin, and
--   Create for the requests that make a session) and one behind it (Finish, Fallback). Handle puts
--   the parts together for a request that runs alone, Interleavings lets the parts of many
--   requests run in any order. There the test of the tombstones, the insertion of a session and its
--   registration are three steps, and `invalidate_all_sessions` is three (the code gives the locks
--   up in between); the other parts are one step each, or come write by write. Changes are the ways
--   in which the parts write (Operations, Replies and Handled). The conversion backend is a
--   parameter: a function from the command to any result, and a report of its health.
-- - Queue.antt and Queue/: crates/kanai-broker/src/queue.rs, the queue of optional work. The jobs
--   that workers have taken are part of its state, the coordinator's work on them is not.
-- - Quality.antt and Quality/: crates/kanai-core/src/ai.rs, the local-quality stage. Limits are the
--   configuration and its setters, Order the id orders, their resolution to positions and the walk
--   that applies one in place, Context the bounded context, Window the candidates (of types.rs) and
--   the keys of their windows, Scoring the scores of the fast policy, Decision the semantic
--   decisions, snapshots and plans, Cache the two caches, and Engine `LocalQualityEngine`, with
--   `rank_fast` in Engine/Fast. A method that takes `&mut` candidates returns them. An array of nine
--   places is a list of nine, an `f64` its bit pattern. The walk along a cycle runs on fuel, the
--   length of the order, while a cycle has no more places. Parameters: the hasher, as a function of
--   what it is fed; the addition of floats; the answers of the clock to each test of a deadline.
-- - Supervisor.antt and Supervisor/: crates/kanai-broker/src/runtime_supervisor.rs. Policy is the
--   configuration, Lifecycle and Exits have a function for each section that a caller or a task
--   runs under the lifecycle's lock, and Steps lets tasks of any generation run them in any order.
--   A child and a signal are numbers. What the adapter, the clock and the monitor's selection do
--   between those sections is left open: an argument, or the choice of the next step.
-- - Base/: the numbers' tests, lists, `Result`, maps and stores.
--
-- Machine numbers are natural numbers; where the code wraps or checks an addition this is written
-- out (`usize` and `u64` have 64 bits). The texts of error messages are tags (`Message`).
--
-- Not modelled: the synchronous broker of broker.rs, the enhancement coordinator, the transports
-- and services, the local model and its processes, the Mozc bridge, and the rest of kanai-core.
-- Debug output, serialization and anything behind an operating system's interface are left out.
pub mod Base
pub mod Frame
pub mod Protocol
pub mod Quality
pub mod Queue
pub mod Session
pub mod Supervisor
