-- ===== src/Lifecycle.antt =====
-- The pure state machine of operator/internal/lifecycle.
pub mod Facts
pub mod Decision
pub mod Reasons
pub mod Defaults
pub mod Builder
pub mod Timeouts
pub mod Next
pub mod Apply
pub mod Runs
