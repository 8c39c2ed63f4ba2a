-- ===== src/Tests.antt =====
-- Concrete inputs, runs on them, and the theorems applied to them.
mod Demo
mod Review
mod Gate
mod Evaluate
mod Workflow
mod Circuit
mod Outcome
mod Ingestion
mod Consultation
mod Rewriting
mod Retrieval
mod FunctionCalling
