-- ===== src/Runtime.antt =====
-- server/runtime.py: which nodes of a template a job has to run, and the run of a job.
pub mod Graph
pub mod Plan
pub mod Topo
pub mod Sorted
pub mod Fuel
pub mod Edges
pub mod Order
pub mod Inputs
pub mod Nodes
pub mod World
pub mod Execute
pub mod Job
pub mod Stages
pub mod Events
pub mod Safe
mod Tests
mod RunTests
mod Shadow
