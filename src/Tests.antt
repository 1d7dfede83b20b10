-- ===== src/Tests.antt =====
-- Concrete inputs for the theorems: a platform whose clock text is unary, two stores, two files.
mod Setup
mod Store
mod Approval
mod Handler
mod Run
mod Effect
mod Agents
mod Tools
mod Spans
mod Whole
