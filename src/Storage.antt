-- ===== src/Storage.antt =====
-- operator/internal/storage: the keys under which snapshots and archives are stored.
pub mod Path
pub mod Backend
pub mod Retry
