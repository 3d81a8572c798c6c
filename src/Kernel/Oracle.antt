-- ===== src/Kernel/Oracle.antt =====
-- The kernel is a parameter: each answer may be any function of the calls made before it, so that
-- what other CPUs do between two calls of main.bpf.c is not restricted. The constants are those of
-- the kernel's headers.
use scx_goland_core.Base.{ℕ, Bool, Option}
use scx_goland_core.Kernel.Types.{Task, Mask, Trace}

pub record Kernel : Type 0 where
  pub task_from_pid : Trace → ℕ → Option Task
  pub task_cpu : Trace → ℕ → ℕ
  pub task_running : Trace → ℕ → Bool
  pub migration_disabled : Trace → ℕ → Bool
  pub test_and_clear_cpu_idle : Trace → ℕ → Bool
  pub pick_idle_cpu : Trace → Mask → ℕ → ℕ
  pub cpumask_test_cpu : Trace → ℕ → Mask → Bool
  pub cpumask_and : Trace → Mask → Mask → Mask → Bool
  pub cpumask_create : Trace → Option ℕ
  pub dsq_nr_queued : Trace → ℕ → ℕ
  pub dsq_move_to_local : Trace → ℕ → Bool
  pub dispatch_nr_slots : Trace → ℕ
  pub create_dsq : Trace → ℕ → ℕ
  pub ringbuf_reserve : Trace → Bool
  pub ringbuf_query : Trace → ℕ
  pub now : Trace → ℕ
  pub nr_cpu_ids : Trace → ℕ
  pub storage_create : Trace → ℕ → Bool
  pub timer_lookup : Trace → Bool
  pub timer_start : Trace → ℕ → ℕ
  pub current_flags : Trace → ℕ
  pub smp_processor_id : Trace → ℕ
  pub is_enq_cpu_selected : ℕ → Bool
  pub time_delta : ℕ → ℕ → ℕ
  pub slice_dfl : ℕ
  pub slice_inf : ℕ
  pub enq_head : ℕ
  pub enq_preempt : ℕ
  pub kick_idle : ℕ
  pub kick_preempt : ℕ
  pub pick_idle_core : ℕ
  pub wake_sync : ℕ
  pub dsq_local_on : ℕ
  pub task_queued : ℕ
  pub pf_exiting : ℕ
  pub pf_kthread : ℕ
  pub pf_wq_worker : ℕ
  pub pf_kswapd : ℕ
  pub pf_kcompactd : ℕ
