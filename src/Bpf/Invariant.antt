-- ===== src/Bpf/Invariant.antt =====
-- The invariant of main.bpf.c over the orders of its callbacks and of the user-space calls.
pub mod Defs
pub mod Steps
pub mod Setup
pub mod Reach
pub mod Request
pub mod Running
