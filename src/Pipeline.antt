-- ===== src/Pipeline.antt =====
-- src/ContentProcessor/src/libs/pipeline: the content pipeline, whose steps hand a document on from
-- queue to queue.
pub mod Status
pub mod Handler
mod Tests
