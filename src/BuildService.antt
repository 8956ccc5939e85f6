-- ===== src/BuildService.antt =====
-- services/build-service: the service that compiles a submission in a pod.
pub mod Logs
pub mod Build
pub mod Pod
pub mod Truncate
mod Tests
