-- ===== src/Sandboxctl.antt =====
-- operator/internal/sandboxctl: the sidecar that runs beside the agent.
pub mod Snapshot
