-- ===== src/Lock.antt =====
-- impl/freertos/mutex.h: `lock_guard` and `unique_lock`, over any mutex type.
pub mod Interface
pub mod UniqueLock
