-- ===== src/Utils.antt =====
-- internal/utils, by file.
pub mod Format
pub mod Retry
pub mod Files
pub mod Tests
