-- ===== src/History.antt =====
-- web/src/lib/session-history.ts: merging events, loading the pages, and the hook's state.
pub mod Merge
pub mod Load
pub mod Hook
mod Tests
