-- ===== src/ClaimWorkflow.antt =====
-- src/ContentProcessorWorkflow/src: the runner of the claim workflow, steps/claim_processor.py, and
-- the documents of the claims, repositories/claim_processes.py.
pub mod Repository
pub mod Run
pub mod Ending
pub mod Documents
mod Tests
