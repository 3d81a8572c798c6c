-- ===== src/User.antt =====
-- The user-space half of the scheduler, in Go: goland_core and main.go.
pub mod Run
pub mod Message
pub mod Vruntime
pub mod Pool
pub mod Sched
pub mod Drain
pub mod Loop
pub mod System
pub mod Text
pub mod Topology
pub mod Channel
pub mod Start
pub mod Exit
