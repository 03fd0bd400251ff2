-- ===== src/Projects.antt =====
-- server/projects.py
pub mod Overrides
pub mod Records
pub mod Labels
pub mod Tables
pub mod Manager
pub mod Rebuild
pub mod Metadata
pub mod Seqs
pub mod Valid
pub mod Kept
pub mod Requests
pub mod Patched
pub mod Edits
pub mod TableLaws
pub mod Sync
pub mod Durable
pub mod Rows
pub mod PatchSync
pub mod Persist
pub mod Restart
pub mod Overwrite
mod Tests
