-- ===== src/Examples.antt =====
-- Tests and concrete instances of the theorems: a model of the parts of k8s.io/apimachinery that
-- the operator uses, sample environments, and the theorems at them.
mod Cluster
mod Lifecycle
mod Admission
mod Encoding
mod Agents
mod Templates
mod Retries
mod Controller
mod Equality
mod Storage
mod Probes
mod Slots
mod Freezes
mod Observation
mod Retention
mod Schedules
