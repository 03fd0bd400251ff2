-- ===== src/Canonical.antt =====
-- server/canonical.py: the canonical form of params and the key of a node.
pub mod Texts
pub mod Sorting
pub mod Values
pub mod Stable
pub mod Print
pub mod Key
pub mod Alike
mod Tests
