-- ===== src/Quality.antt =====
-- The local-quality stage of crates/kanai-core/src/ai.rs: tiers and limits, candidate orders and
-- their application, the bounded context, candidate windows and their keys, semantic decisions,
-- and the engine with its caches.
pub mod Limits
pub mod Order
pub mod Floats
pub mod Context
pub mod Window
pub mod Decision
pub mod Scoring
pub mod Cache
pub mod Engine
mod Examples
mod EngineExamples
