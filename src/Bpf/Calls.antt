-- ===== src/Bpf/Calls.antt =====
-- The calls of main.bpf.c into the kernel. Each asks the kernel parameter for its answer and
-- writes itself down in the transcript.
use scx_goland_core.Base.{ℕ, Bool, Option, ◌∷◌, is_some}
use scx_goland_core.Kernel.Types.{Task, Mask, cpus_ptr, Error, Event, Trace}
use scx_goland_core.Kernel.Oracle.{Kernel}
use scx_goland_core.Bpf.State.{M}

abbrev pub tell : Event → M (Unit {0})
tell e w = (tt, record w { trace = e ∷ w.trace })

abbrev pub ask : {A : Type 0} → (Trace → A) → (A → Event) → M A
ask answer event w = let a = answer w.trace in (a, record w { trace = event a ∷ w.trace })

abbrev pub task_release : Task → M (Unit {0})
task_release p = tell (Event.task_release p.pid)

abbrev pub kick_cpu : ℕ → ℕ → M (Unit {0})
kick_cpu cpu flags = tell (Event.kick_cpu cpu flags)

abbrev pub dsq_insert : Task → ℕ → ℕ → ℕ → M (Unit {0})
dsq_insert p dsq slice flags = tell (Event.dsq_insert p.pid dsq slice flags)

abbrev pub dsq_insert_vtime : Task → ℕ → ℕ → ℕ → ℕ → M (Unit {0})
dsq_insert_vtime p dsq slice vtime flags = tell (Event.dsq_insert_vtime p.pid dsq slice vtime flags)

abbrev pub scx_error : Error → M (Unit {0})
scx_error e = tell (Event.scx_error e)

abbrev pub cpus_of : Task → Mask
cpus_of p = cpus_ptr p.pid

module _ ⦃k : Kernel⦄ where
  abbrev pub task_from_pid : ℕ → M (Option Task)
  task_from_pid pid = ask (λ t. k.task_from_pid t pid) (λ a. Event.task_from_pid pid (is_some a))

  abbrev pub task_cpu : Task → M ℕ
  task_cpu p = ask (λ t. k.task_cpu t p.pid) (Event.task_cpu p.pid)

  abbrev pub task_running : Task → M Bool
  task_running p = ask (λ t. k.task_running t p.pid) (Event.task_running p.pid)

  abbrev pub is_migration_disabled : Task → M Bool
  is_migration_disabled p = ask (λ t. k.migration_disabled t p.pid) (Event.migration_disabled p.pid)

  abbrev pub test_and_clear_cpu_idle : ℕ → M Bool
  test_and_clear_cpu_idle cpu =
      ask (λ t. k.test_and_clear_cpu_idle t cpu) (Event.test_and_clear_cpu_idle cpu)

  abbrev pub scx_pick_idle_cpu : Mask → ℕ → M ℕ
  scx_pick_idle_cpu m flags = ask (λ t. k.pick_idle_cpu t m flags) (Event.pick_idle_cpu m flags)

  abbrev pub cpumask_test_cpu : ℕ → Mask → M Bool
  cpumask_test_cpu cpu m = ask (λ t. k.cpumask_test_cpu t cpu m) (Event.cpumask_test_cpu cpu m)

  abbrev pub cpumask_and : Mask → Mask → Mask → M Bool
  cpumask_and d a b = ask (λ t. k.cpumask_and t d a b) (Event.cpumask_and d a b)

  abbrev pub cpumask_create : M (Option ℕ)
  cpumask_create = ask k.cpumask_create (λ a. Event.cpumask_create (is_some a))

  abbrev pub dsq_nr_queued : ℕ → M ℕ
  dsq_nr_queued d = ask (λ t. k.dsq_nr_queued t d) (Event.dsq_nr_queued d)

  abbrev pub dsq_move_to_local : ℕ → M Bool
  dsq_move_to_local d = ask (λ t. k.dsq_move_to_local t d) (Event.dsq_move_to_local d)

  abbrev pub dispatch_nr_slots : M ℕ
  dispatch_nr_slots = ask k.dispatch_nr_slots Event.dispatch_nr_slots

  abbrev pub create_dsq : ℕ → M ℕ
  create_dsq d = ask (λ t. k.create_dsq t d) (Event.create_dsq d)

  abbrev pub ringbuf_reserve : M Bool
  ringbuf_reserve = ask k.ringbuf_reserve Event.ringbuf_reserve

  abbrev pub ringbuf_query : M ℕ
  ringbuf_query = ask k.ringbuf_query Event.ringbuf_query

  abbrev pub scx_now : M ℕ
  scx_now = ask k.now Event.now

  abbrev pub scx_nr_cpu_ids : M ℕ
  scx_nr_cpu_ids = ask k.nr_cpu_ids Event.nr_cpu_ids

  abbrev pub storage_create : Task → M Bool
  storage_create p = ask (λ t. k.storage_create t p.pid) (Event.storage_create p.pid)

  abbrev pub timer_lookup : M Bool
  timer_lookup = ask k.timer_lookup Event.timer_lookup

  abbrev pub timer_start : ℕ → M ℕ
  timer_start ns = ask (λ t. k.timer_start t ns) (Event.timer_start ns)

  abbrev pub current_flags : M ℕ
  current_flags = ask k.current_flags Event.current_flags

  abbrev pub smp_processor_id : M ℕ
  smp_processor_id = ask k.smp_processor_id Event.smp_processor_id
