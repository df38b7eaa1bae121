-- ===== src/Upload.antt =====
-- src/ContentProcessorAPI/app/utils/upload_validation.py: the file names and the kinds of uploads.
pub mod Filename
pub mod Safety
pub mod Validation
pub mod Acceptance
mod Tests
