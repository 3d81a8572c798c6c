-- ===== src/Bpf/State.antt =====
-- The global data and the maps of main.bpf.c, and the monad in which its functions run.
use scx_goland_core.Base.{ℕ, Bool, Option, List, ◌/◌, ◌+◌}
use scx_goland_core.Intf.{max_cpus, nsec_per_sec}
use scx_goland_core.Kernel.Types.{Trace}

abbrev pub shared_dsq : ℕ
shared_dsq = max_cpus

abbrev pub sched_dsq : ℕ
sched_dsq = max_cpus + 1

abbrev pub max_enqueued_tasks : ℕ
max_enqueued_tasks = 4096

-- The batch size that the program asks the kernel for, `.dispatch_max_batch`.
abbrev pub max_dispatch_slot : ℕ
max_dispatch_slot = max_enqueued_tasks / 8

abbrev pub usersched_timer_ns : ℕ
usersched_timer_ns = nsec_per_sec / 10

-- `const volatile`: set through the skeleton before the program is loaded.
pub record Rodata : Type 0 where
  pub usersched_pid : ℕ
  pub khugepaged_pid : ℕ
  pub switch_partial : Bool
  pub debug : Bool
  pub early_processing : Bool
  pub default_slice : ℕ
  pub builtin_idle : Bool
  pub smt_enabled : Bool

-- The counters are u64, `usersched_needed` is u32.
pub record Bss : Type 0 where
  pub usersched_last_run_at : ℕ
  pub nr_cpu_ids : ℕ
  pub nr_queued : ℕ
  pub nr_scheduled : ℕ
  pub nr_running : ℕ
  pub nr_online_cpus : ℕ
  pub nr_user_dispatches : ℕ
  pub nr_kernel_dispatches : ℕ
  pub nr_cancel_dispatches : ℕ
  pub nr_bounce_dispatches : ℕ
  pub nr_failed_dispatches : ℕ
  pub nr_sched_congested : ℕ
  pub usersched_needed : ℕ

-- A mask pointer is the number of the mask, or NULL.
pub record CpuCtx : Type 0 where
  pub l2_cpumask : Option ℕ
  pub l3_cpumask : Option ℕ

pub record TaskCtx : Type 0 where
  pub l2_cpumask : Option ℕ
  pub l3_cpumask : Option ℕ
  pub start_ts : ℕ
  pub stop_ts : ℕ
  pub exec_runtime : ℕ

-- `priority_tasks` maps a PID to a time slice, `running_task` a CPU to a PID, `cpu_ctx` holds the
-- context of each possible CPU, and `task_ctx` that of each task with storage, under its PID.
pub record World : Type 0 where
  pub ro : Rodata
  pub bss : Bss
  pub priority_tasks : List (ℕ × ℕ)
  pub running_task : List (ℕ × ℕ)
  pub cpu_ctx : List CpuCtx
  pub task_ctx : List (ℕ × TaskCtx)
  pub trace : Trace

abbrev pub M : Type 0 → Type 0
M A = World → A × World

abbrev pub pure : {A : Type 0} → A → M A
pure a w = (a, w)

infixl 5 ◌>>=◌ ◌>>◌
abbrev pub ◌>>=◌ : {A B : Type 0} → M A → (A → M B) → M B
◌>>=◌ m f w = let (a, w') = m w in f a w'

abbrev pub ◌>>◌ : {B : Type 0} → M (Unit {0}) → M B → M B
m >> k = m >>= λ _. k

abbrev pub get : {A : Type 0} → (World → A) → M A
get f w = (f w, w)

abbrev pub modify_bss : (Bss → Bss) → M (Unit {0})
modify_bss f w = (tt, record w { bss = f w.bss })
