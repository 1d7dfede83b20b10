-- ===== src/Runner.antt =====
-- workflow-runner/workflow_runner: the audit log, the API client and the execution of one action.
pub mod Audit
pub mod Correlation
pub mod Client
pub mod Executor
pub mod Planner
pub mod Operator
