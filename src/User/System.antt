-- ===== src/User/System.antt =====
-- The two halves together: the turns of the loop of main.go, the callbacks of main.bpf.c between
-- them, and the messages that the ring buffers carry.
pub mod Steps
pub mod Sound
pub mod Handed
pub mod Round
use scx_goland_core.Base.{ℕ, ◌≡◌, Bool, List, [], ◌∷◌, length}
use scx_goland_core.Kernel.Oracle.{Kernel}
use scx_goland_core.Bpf.State.{World, Rodata, CpuCtx}
use scx_goland_core.Bpf.Invariant.Reach.{Step, loaded}
use scx_goland_core.User.Run.{ok}
use scx_goland_core.User.Message.{Bytes}
use scx_goland_core.User.Pool.{empty_pool}
use scx_goland_core.User.Sched.{Sched, Libbpf}
use scx_goland_core.User.Drain.{User, receive}
use scx_goland_core.User.Loop.{Control, loop_step}
use scx_goland_core.User.Loop.Control.{next_task, refill}

-- Both halves as they are loaded; which programs were found is open.
abbrev pub loaded_system : Rodata → List CpuCtx → Bool → Bool → Bool → User
loaded_system ro cpus selects preempts domains = record {
  pool = empty_pool;
  min_vruntime = 0;
  sched = record {
    queue = [];
    dispatch = [];
    has_select_cpu = selects;
    has_preempt_cpu = preempts;
    has_sibling_cpu = domains;
    world = loaded ro cpus;
  };
}

abbrev pub with_world : World → User → User
with_world w u = record u { sched = record (u.sched) { world = w } }

module _ ⦃b : Libbpf⦄ ⦃k : Kernel⦄ where
  -- A turn of the loop that ends with a value; a callback, a timer tick or a call of the other half;
  -- a message that comes in; or a message that the other half collects.
  pub data Turn : Control → User → Control → User → Type 0 where
    loop :
        (arrivals : ℕ → List Bytes) (waited : List Bytes) (c c' : Control) (u v : User)
        → loop_step arrivals waited c u ≡ ok (c', v)
        → Turn c u c' v
    callback :
        (c : Control) (u : User) (w : World) → Step u.sched.world w → Turn c u c (with_world w u)
    sent : (c : Control) (u : User) (m : Bytes) → Turn c u c (receive (m ∷ []) u)
    collected :
        (c : Control) (u : User) (m : Bytes) (rest : List Bytes)
        → u.sched.dispatch ≡ m ∷ rest
        → Turn c u c (record u { sched = record (u.sched) { dispatch = rest } })

  pub data Turns (s : User) : Control → User → Type 0 where
    begin : Turns s next_task s
    turn : {c c' : Control} {u v : User} → Turns s c u → Turn c u c' v → Turns s c' v
