-- ===== src/Tracing.antt =====
-- Tracing: app/tracing.py of enterprise-api and workflow_runner/tracing.py of workflow-runner, which differ in
-- the name of the service and in the events, which only the second has.
pub mod Allowed
pub mod Clean
pub mod Provider
pub mod Loopback
