-- ===== src/Agent.antt =====
-- The agent workflow, agent_workflow/: the retriever, the graph of nodes, and the evaluator of its output.
pub mod Retrieval
pub mod Ranking
pub mod State
pub mod Checks
pub mod Evaluation
pub mod Inversion
pub mod Reviewed
pub mod Fit
pub mod Graph
pub mod Gated
pub mod Flat
pub mod Silent
pub mod Passing
pub mod Library
pub mod Left
pub mod Consistent
