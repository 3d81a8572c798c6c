-- ===== src/Tests.antt =====
-- Concrete runs: a kernel, a world and tasks to run on, and the theorems at such inputs.
pub mod Data
mod Select
mod Enqueue
mod Dispatch
mod Life
mod Setup
mod Interleave
mod User
mod Host
mod Round
