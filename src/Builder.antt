-- ===== src/Builder.antt =====
-- server/job_builder.py: a Job out of catalog sessions and a template.
pub mod Records
pub mod Bundle
pub mod Staging
pub mod Wire
pub mod Build
pub mod Ids
pub mod Links
pub mod Staged
pub mod Compatible
pub mod Gates
mod Tests
