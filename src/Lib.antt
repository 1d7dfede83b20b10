-- ===== src/Lib.antt =====
-- The core of the Hermes enterprise deployment lab: an incident API whose action store applies each
-- runbook action at most once, a workflow runner that asks an operator's approval before it sends a
-- mutation to that API, the MCP server that offers both as tools, and a read-only agent workflow
-- with its evaluator.
--
-- Parts and files:
--   ActionStore, ActionStore/*      enterprise-api/app/store.py. `ActionStore` holds the records and their
--                                   two indices, `World` is a store with its file. `commit`, `reset`,
--                                   `get_by_key`, `list_for_incident`, `all_records` are the methods,
--                                   `load_unlocked` the loader, `reload` is
--                                   `_reload_if_file_backed_unlocked`, `open_store` the constructor.
--   Api, Api/*                      enterprise-api/app/main.py, auth.py and fixtures.py. Each handler is a
--                                   function with the name of the source's; `guard` is the checks of
--                                   `apply_incident_action` before its commit, `commit_reply` and
--                                   `conflicted` what follows it.
--   Approvals, Approvals/*          workflow-runner/workflow_runner/approvals.py. The methods of
--                                   `ApprovalStore` act on the `Disk` that holds the approval file;
--                                   `get_request` is `get`.
--   Runner/Executor                 workflow-runner/workflow_runner/executor.py. `apply_incident_action` is
--                                   `_apply_incident_action`, one function for each stage that ends it.
--   Runner/Client                   workflow-runner/workflow_runner/client.py and errors.py. `receive` is
--                                   `_request` from the answer of the transport on.
--   Runner/Audit                    workflow-runner/workflow_runner/audit.py.
--   Runner/Correlation              workflow-runner/workflow_runner/correlation.py, and its copy in
--                                   enterprise-api/app/correlation.py.
--   Runner/Planner, Runner/Planner/* workflow-runner/workflow_runner/planner.py.
--   Runner/Operator                 workflow-runner/workflow_runner/approval_operator.py.
--   Mcp, Mcp/*                      enterprise-mcp/enterprise_mcp: config.py (`Config`), context.py
--                                   (`Context`) and server.py (`Surface` is `build_server`, `Server` and
--                                   `Health` are the tools; `check_tool` is `check_enterprise_api`).
--   Wire, Wire/*                    the client of the runner over the handlers of the API: `deliver` is
--                                   the exchange in `_request` of client.py, `given_id` the ID that
--                                   enterprise-api/app/middleware.py gives to a request.
--   Agent, Agent/*                  agent_workflow: retrieval.py (`Retrieval`), graph.py (`Graph`, where
--                                   `invoke` runs the nodes in the order of the edges) and evaluation.py
--                                   (`Checks`, `Evaluation`).
--   Tracing, Tracing/*              workflow-runner/workflow_runner/tracing.py and its copy in
--                                   enterprise-api/app/tracing.py: what a span may carry (`Allowed`) and
--                                   the life of the provider (`Provider`).
--   Platform, Disk, Json, Base      what the parts share: the library functions they call (parameters,
--                                   with their documented laws in `IsLawful`), a JSON file, JSON values,
--                                   and helpers.
--   Tests                           the theorems at concrete inputs.
--
-- How they interact: the executor calls the approval store, the audit log and the API client. The
-- client is an interface over the state of whatever answers it. The tools of the MCP server make a
-- client from their settings and call the planner and the executor with it. The API keeps its records in the
-- action store. A handler of the API calls one store method, and the reply's count is a second.
-- Both stores take a thread lock and a file lock for a whole call, so one call is one step; runs of
-- several processes are sequences of steps on one file (`ActionStore/Shared`, `Approvals/Runs`). A
-- write may fail, and a failed write leaves the file as it was. A call may raise: errors are
-- values, and what was changed before the raise stays changed.
--
-- Bounds: every loop is structural recursion, so no fuel is used. Numbers are unbounded, as in
-- Python. Times are numbers of microseconds, and the clock, the random tokens and the UUIDs are
-- arguments.
--
-- Not modelled: the locks themselves, spans, logs, metrics, elapsed times and texts for people, the
-- HTTP and MCP transports, the API's health and metrics endpoints, the validation of request
-- bodies, the demo of the MCP server, the proof scripts and the infrastructure. Times beyond the
-- range of Python's datetime are not treated as errors.
pub mod Base
pub mod Json
pub mod Platform
pub mod Disk
pub mod ActionStore
pub mod Agent
pub mod Api
pub mod Approvals
pub mod Runner
pub mod Mcp
pub mod Tracing
pub mod Wire
mod Tests
