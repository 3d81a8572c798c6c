-- ===== src/Tests/Data.antt =====
-- A kernel with four CPUs of which CPU 1 is idle, a loaded program, and two tasks.
use scx_goland_core.Base.{true, false, none, some, List, [], ◌∷◌, ◌==◌, ◌+◌, if◌then◌else◌, length}
use scx_goland_core.Intf.{DispatchedTaskCtx, rl_cpu_any}
use scx_goland_core.Kernel.Types.{Task}
use scx_goland_core.Kernel.Oracle.{Kernel}
use scx_goland_core.Bpf.State.{World, Rodata, CpuCtx, TaskCtx}
use scx_goland_core.Bpf.Invariant.Reach.{loaded}

abbrev pub scheduler : Task
scheduler = record {
  pid = 100;
  tgid = 100;
  flags = 0;
  nr_cpus_allowed = 4;
  weight = 100;
  dsq_vtime = 0;
  slice = 0;
  scx_flags = 1;
}

abbrev pub worker : Task
worker = record {
  pid = 7;
  tgid = 7;
  flags = 0;
  nr_cpus_allowed = 4;
  weight = 100;
  dsq_vtime = 900;
  slice = 0;
  scx_flags = 1;
}

instance abbrev pub four_cpus : Kernel
four_cpus = record {
  task_from_pid =
      λ t pid. if pid == 100 then some scheduler else if pid == 7 then some worker else none;
  task_cpu = λ t pid. 2;
  task_running = λ t pid. false;
  migration_disabled = λ t pid. false;
  test_and_clear_cpu_idle = λ t cpu. cpu == 1;
  pick_idle_cpu = λ t m f. 1;
  cpumask_test_cpu = λ t cpu m. true;
  cpumask_and = λ t d a b. true;
  cpumask_create = λ t. some 5;
  dsq_nr_queued = λ t d. 0;
  dsq_move_to_local = λ t d. d == 1;
  dispatch_nr_slots = λ t. 8;
  create_dsq = λ t d. 0;
  ringbuf_reserve = λ t. true;
  ringbuf_query = λ t. 72;
  now = λ t. 1000 + length t;
  nr_cpu_ids = λ t. 4;
  storage_create = λ t pid. true;
  timer_lookup = λ t. true;
  timer_start = λ t ns. 0;
  current_flags = λ t. 0;
  smp_processor_id = λ t. 3;
  is_enq_cpu_selected = λ f. false;
  time_delta = λ a b. 200_000_000;
  slice_dfl = 20_000_000;
  slice_inf = 18_446_744_073_709_551_615;
  enq_head = 16;
  enq_preempt = 32;
  kick_idle = 1;
  kick_preempt = 2;
  pick_idle_core = 1;
  wake_sync = 16;
  dsq_local_on = 13_835_058_055_282_163_712;
  task_queued = 1;
  pf_exiting = 4;
  pf_kthread = 0x200000;
  pf_wq_worker = 0x20;
  pf_kswapd = 0x20000;
  pf_kcompactd = 0x10000;
}

-- The same kernel where the ring of queued tasks is full, and where no dispatch slot is left.
abbrev pub full_ring : Kernel
full_ring = record four_cpus { ringbuf_reserve = λ t. false }

abbrev pub no_slots : Kernel
no_slots = record four_cpus { dispatch_nr_slots = λ t. 0 }

abbrev pub settings : Rodata
settings = record {
  usersched_pid = 100;
  khugepaged_pid = 0;
  switch_partial = false;
  debug = false;
  early_processing = false;
  default_slice = 20_000_000;
  builtin_idle = true;
  smt_enabled = true;
}

abbrev pub bare_cpu : CpuCtx
bare_cpu = record { l2_cpumask = none; l3_cpumask = none }

abbrev pub cpus : List CpuCtx
cpus = bare_cpu ∷ bare_cpu ∷ bare_cpu ∷ bare_cpu ∷ []

abbrev pub old_ctx : TaskCtx
old_ctx = record {
  l2_cpumask = some 3;
  l3_cpumask = some 4;
  start_ts = 10;
  stop_ts = 20;
  exec_runtime = 500;
}

-- The worker has storage, and the map of the priority tasks holds it.
abbrev pub running_world : World
running_world = record (loaded settings cpus) {
  bss = record ((loaded settings cpus).bss) { nr_cpu_ids = 4; usersched_needed = 1 };
  task_ctx = (7, old_ctx) ∷ [];
  priority_tasks = (7, 5_000_000) ∷ [];
}

-- The same with the idle selection left to user space.
abbrev pub delegated_world : World
delegated_world = record running_world { ro = record settings { builtin_idle = false } }

abbrev pub to_cpu : DispatchedTaskCtx
to_cpu = record { pid = 7; cpu = 1; flags = 0; slice_ns = 5_000_000; vtime = 900 }

abbrev pub to_any : DispatchedTaskCtx
to_any = record to_cpu { cpu = rl_cpu_any }
