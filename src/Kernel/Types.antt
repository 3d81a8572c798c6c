-- ===== src/Kernel/Types.antt =====
-- What main.bpf.c names of the kernel, and the transcript of its calls.
use scx_goland_core.Base.{ℕ, Bool, List}
use scx_goland_core.Intf.{QueuedTaskCtx}

-- The fields of `struct task_struct` that main.bpf.c reads or writes.
pub record Task : Type 0 where
  pub pid : ℕ
  pub tgid : ℕ
  pub flags : ℕ
  pub nr_cpus_allowed : ℕ
  pub weight : ℕ  -- scx.weight
  pub dsq_vtime : ℕ  -- scx.dsq_vtime
  pub slice : ℕ  -- scx.slice
  pub scx_flags : ℕ  -- scx.flags

-- A pointer to a cpumask: the `cpus_ptr` of a task, one of the kernel's own masks, or one that
-- `bpf_cpumask_create` has handed out under a number.
pub data Mask : Type 0 where
  cpus_ptr : ℕ → Mask
  idle_smtmask : Mask
  online_cpumask : Mask
  bpf_cpumask : ℕ → Mask

pub data Error : Type 0 where
  invalid_cpu : ℕ → Error
  no_l2_cpumask no_l3_cpumask : Error
  no_usersched : ℕ → Error
  no_stats_timer no_timer_lookup no_scheduler_timer : Error
  no_pcpu_dsq : ℕ → ℕ → Error
  no_shared_dsq no_sched_dsq : ℕ → Error

-- A call with its arguments and, at the end, its answer.
pub data Event : Type 0 where
  task_from_pid : ℕ → Bool → Event
  task_release : ℕ → Event
  task_cpu : ℕ → ℕ → Event
  task_running : ℕ → Bool → Event
  migration_disabled : ℕ → Bool → Event
  test_and_clear_cpu_idle : ℕ → Bool → Event
  pick_idle_cpu : Mask → ℕ → ℕ → Event
  get_mask : Mask → Event
  put_mask : Mask → Event
  cpumask_test_cpu : ℕ → Mask → Bool → Event
  cpumask_and : Mask → Mask → Mask → Bool → Event
  cpumask_set_cpu : ℕ → Mask → Event
  cpumask_create : Bool → Event
  cpumask_release : ℕ → Event
  rcu_read_lock rcu_read_unlock : Event
  kick_cpu : ℕ → ℕ → Event
  dsq_insert : ℕ → ℕ → ℕ → ℕ → Event
  dsq_insert_vtime : ℕ → ℕ → ℕ → ℕ → ℕ → Event
  dsq_nr_queued : ℕ → ℕ → Event
  dsq_move_to_local : ℕ → Bool → Event
  dispatch_cancel : Event
  dispatch_nr_slots : ℕ → Event
  create_dsq : ℕ → ℕ → Event
  ringbuf_reserve : Bool → Event
  ringbuf_submit : QueuedTaskCtx → Event
  ringbuf_query : ℕ → Event
  now : ℕ → Event
  nr_cpu_ids : ℕ → Event
  storage_create : ℕ → Bool → Event
  timer_lookup : Bool → Event
  timer_init timer_set_callback : Event
  timer_start : ℕ → ℕ → Event
  current_flags : ℕ → Event
  smp_processor_id : ℕ → Event
  scx_error : Error → Event

-- The calls made so far, the newest first.
abbrev pub Trace : Type 0
Trace = List Event
