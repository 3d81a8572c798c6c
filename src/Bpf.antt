-- ===== src/Bpf.antt =====
-- main.bpf.c, the BPF half of the scheduler: its state, and a module for each group of operations.
pub mod State
pub mod Calls
pub mod Basic
pub mod Idle
pub mod Rules
pub mod Select
pub mod Dispatch
pub mod Enqueue
pub mod Tasks
pub mod Timer
pub mod Init
pub mod Invariant
pub mod Exit
pub mod Interleave
