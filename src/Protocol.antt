-- ===== src/Protocol.antt =====
-- crates/kanai-broker/src/protocol.rs: the versioned requests and responses of the broker.
pub mod Text
pub mod Candidates
pub mod Requests
pub mod Responses
pub mod Metrics
