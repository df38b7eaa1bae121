-- ===== src/QueueService.antt =====
-- src/ContentProcessorWorkflow/src/services/queue_service.py: the worker that takes claim requests
-- from a storage queue.
pub mod Payload
pub mod State
pub mod Blobs
pub mod Finalise
pub mod Renew
pub mod Process
pub mod Control
pub mod NoLoss
pub mod Frame
pub mod Tracking
pub mod Survival
pub mod Branches
pub mod Malformed
pub mod Success
pub mod RenewBound
pub mod PayloadLaws
pub mod Shutdown
mod Tests
