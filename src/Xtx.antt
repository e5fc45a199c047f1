-- ===== src/Xtx.antt =====
-- The executable specification of cross-collection transactions (internal/xtxspec).
pub mod Journal
pub mod Recovery
pub mod Coordinator
pub mod Prepare
pub mod Discovery
pub mod CrashSafety
