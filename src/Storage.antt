-- ===== src/Storage.antt =====
-- server/storage.py: which cache entry belongs to which project, and what is evicted.
pub mod Reach
pub mod Order
pub mod Cleanup
pub mod Sweep
pub mod Described
pub mod Owners
pub mod Owned
pub mod Budget
pub mod Turns
pub mod Headroom
pub mod Delete
pub mod Purge
mod Tests
