-- ===== src/Session.antt =====
-- The session cache, inference/core/cache.c and inference/include/cache.h.
pub mod Types
pub mod Table
pub mod Prefix
pub mod Buffer
pub mod Disk
pub mod Path
