-- ===== src/Kernel.antt =====
-- The kernel as main.bpf.c sees it: the task, the masks that it names, the calls that it makes,
-- and the answers that it gets.
pub mod Types
pub mod Oracle
pub mod Observe
