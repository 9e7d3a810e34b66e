-- ===== src/Projection.antt =====
-- web/src/lib/assistant-projection.ts: a session's events as the messages of a read-only thread.
pub mod Parts
pub mod Access
pub mod Buckets
pub mod Status
pub mod Tools
pub mod Pairs
pub mod Titles
pub mod Items
pub mod Switch
pub mod Dispatch
pub mod Fold
pub mod Thread
mod Tests
