-- ===== src/Controller.antt =====
-- operator/internal/controller: the reconciler, the slot scheduler and the collection of old storage.
pub mod Status
pub mod Probe
pub mod Slots
pub mod Pod
pub mod Children
pub mod Observe
pub mod RootKeys
pub mod Retention
