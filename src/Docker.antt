-- ===== src/Docker.antt =====
-- docker-operator: the second program of the repository, which runs agents as Docker containers.
pub mod Bolt
pub mod Records
pub mod Store
pub mod Shield
pub mod CronAgents
pub mod Templates
pub mod Schedules
