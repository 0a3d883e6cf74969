-- ===== src/Session.antt =====
-- crates/kanai-broker/src/session.rs: the async owner of the sessions, with the cancellation
-- registry and the generation tokens of crates/kanai-broker/src/broker.rs.
-- Every part of an operation between two awaits of the backend is one function of the state; an
-- `Arc<SessionEntry>` is an address of the store, so `Arc::ptr_eq` is equality of addresses.
pub mod State
pub mod Tokens
pub mod Begin
pub mod Create
pub mod Finish
pub mod Fallback
pub mod Handle
pub mod Changes
pub mod Operations
pub mod Replies
pub mod Handled
pub mod Invariant
pub mod Interleavings
pub mod Beginnings
pub mod Epochs
pub mod Permanence
pub mod Coherence
pub mod Wire
pub mod Isolation
pub mod Registry
pub mod Takeover
mod RerankExamples
mod Examples
