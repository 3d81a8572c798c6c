-- ===== src/Bpf/Enqueue.antt =====
-- main.bpf.c: the enqueue callback.
pub mod Priority
pub mod Hands
pub mod Lifecycle
use scx_goland_core.Base.{
  ℕ, Bool, true, false, not, ◌&&◌, ◌||◌, Option, none, some, bit_or, ◌==◌, if◌then◌else◌, is_some,
}
use scx_goland_core.Base.Word.{is_neg, neg, ebusy, add64}
use scx_goland_core.Base.HashMap.{lookup}
use scx_goland_core.Intf.{QueuedTaskCtx}
use scx_goland_core.Kernel.Types.{Task, Event}
use scx_goland_core.Kernel.Oracle.{Kernel}
use scx_goland_core.Bpf.State.{
  M, pure, ◌>>=◌, ◌>>◌, get, modify_bss, TaskCtx, shared_dsq, sched_dsq,
}
use scx_goland_core.Bpf.Calls.{
  tell, cpus_of, kick_cpu, dsq_insert, dsq_insert_vtime, task_cpu, task_running, scx_pick_idle_cpu,
  ringbuf_reserve,
}
use scx_goland_core.Bpf.Basic.{
  cpu_to_dsq, try_lookup_task_ctx, is_usersched_task, is_belong_usersched_task, is_kthread,
  is_kswapd, is_khugepaged,
}
use scx_goland_core.Bpf.Idle.{kick_task_cpu}
use scx_goland_core.Bpf.Select.{try_direct_dispatch, count_kernel_dispatch}
use scx_goland_core.Bpf.Dispatch.{count_user_dispatch}

abbrev start_of : Option TaskCtx → ℕ
start_of none = 0
start_of (some c) = c.start_ts

abbrev stop_of : Option TaskCtx → ℕ
stop_of none = 0
stop_of (some c) = c.stop_ts

abbrev runtime_of : Option TaskCtx → ℕ
runtime_of none = 0
runtime_of (some c) = c.exec_runtime

module _ ⦃k : Kernel⦄ where
  unfoldable pub get_task_info : Task → ℕ → M QueuedTaskCtx
  get_task_info p enq_flags = do
    tctx ← try_lookup_task_ctx p
    cpu ← task_cpu p
    pure (record {
      pid = p.pid;
      cpu = cpu;
      nr_cpus_allowed = p.nr_cpus_allowed;
      flags = enq_flags;
      start_ts = start_of tctx;
      stop_ts = stop_of tctx;
      exec_runtime = runtime_of tctx;
      weight = p.weight;
      vtime = p.dsq_vtime;
      tgid = p.tgid;
    })

  unfoldable pub sched_congested : M (Unit {0})
  sched_congested = modify_bss (λ b. record b { nr_sched_congested = add64 b.nr_sched_congested 1 })

  -- `!__COMPAT_is_enq_cpu_selected(enq_flags) && !scx_bpf_task_running(p)`
  unfoldable pub is_queued_wakeup : Task → ℕ → M Bool
  is_queued_wakeup p enq_flags =
      if k.is_enq_cpu_selected enq_flags
      then pure false
      else (do running ← task_running p; pure (not running))

  unfoldable pub enqueue_usersched_thread : Task → M (Unit {0})
  enqueue_usersched_thread p = do
    dsq_insert p sched_dsq k.slice_inf k.enq_head
    prev ← task_cpu p
    kick_task_cpu p prev

  -- The kernel threads that go straight to the queue of their CPU.
  unfoldable pub enqueue_on_cpu : Task → ℕ → M (Unit {0})
  enqueue_on_cpu p enq_flags = do
    cpu ← task_cpu p
    dsq ← cpu_to_dsq cpu
    slice ← get (λ w. w.ro.default_slice)
    dsq_insert_vtime p dsq slice p.dsq_vtime enq_flags
    count_kernel_dispatch

  -- The attempt when select_cpu was skipped: the CPU, and whether the task was dispatched.
  unfoldable pub enqueue_wakeup : Task → ℕ → M (ℕ × Bool)
  enqueue_wakeup p enq_flags = do
    builtin ← get (λ w. w.ro.builtin_idle)
    wakeup ← if builtin then is_queued_wakeup p enq_flags else pure false
    if wakeup
        then (do prev ← task_cpu p; try_direct_dispatch p prev enq_flags)
        else pure (neg ebusy, false)

  -- The CPU for a priority task: an idle one, or else the one where it is.
  unfoldable pub pick_prio_cpu : Task → M ℕ
  pick_prio_cpu p = do
    cpu ← scx_pick_idle_cpu (cpus_of p) 0
    if cpu == neg ebusy then task_cpu p else pure cpu

  -- SCX_ENQ_HEAD if the task that was last seen running there is itself prioritized.
  unfoldable pub prio_flags : ℕ → M ℕ
  unfolding lookup
  prio_flags cpu = do
    running ← get (λ w. lookup cpu w.running_task)
    elim running [
      | none ↦ pure k.enq_preempt
      | some cur ↦ do
        elem ← get (λ w. lookup cur w.priority_tasks)
        pure (if is_some elem then k.enq_head else k.enq_preempt)
    ]

  unfoldable pub insert_prio : Task → ℕ → M (Unit {0})
  insert_prio p slice = do
    cpu ← pick_prio_cpu p
    if is_neg cpu then pure tt else (do
      flags ← prio_flags cpu
      dsq_insert p (bit_or k.dsq_local_on cpu) slice flags
      count_user_dispatch)

  unfoldable pub enqueue_prio : Task → M (Unit {0})
  unfolding lookup
  enqueue_prio p = do
    elem ← get (λ w. lookup p.pid w.priority_tasks)
    elim elem [ none ↦ pure tt | some slice ↦ insert_prio p slice ]

  -- The message to user space, or the shared queue where the ring has no room.
  unfoldable pub enqueue_message : Task → ℕ → M (Unit {0})
  enqueue_message p enq_flags = do
    room ← ringbuf_reserve
    if room
        then (do
          task ← get_task_info p enq_flags
          tell (Event.ringbuf_submit task)
          modify_bss (λ b. record b { nr_queued = add64 b.nr_queued 1 }))
        else (do
          sched_congested
          dsq_insert_vtime p shared_dsq k.slice_dfl p.dsq_vtime enq_flags
          count_kernel_dispatch)

  -- `out_kick`
  unfoldable pub enqueue_kick : Task → ℕ → M (Unit {0})
  enqueue_kick p cpu = do
    target ← if is_neg cpu then task_cpu p else pure cpu
    kick_task_cpu p target

  -- From the lookup in the map of the priority tasks on.
  unfoldable pub enqueue_rest : Task → ℕ → ℕ → M (Unit {0})
  enqueue_rest p enq_flags cpu = do enqueue_prio p; enqueue_message p enq_flags; enqueue_kick p cpu

  -- A task of the system at large.
  unfoldable pub enqueue_task : Task → ℕ → M (Unit {0})
  enqueue_task p enq_flags = do
    (cpu, dispatched) ← enqueue_wakeup p enq_flags
    if dispatched then kick_cpu cpu k.kick_idle else enqueue_rest p enq_flags cpu

  unfoldable pub goland_enqueue : Task → ℕ → M (Unit {0})
  goland_enqueue p enq_flags = do
    ro ← get (λ w. w.ro)
    if is_usersched_task ro p
        then pure tt
        else if is_belong_usersched_task ro p
        then enqueue_usersched_thread p
        else if is_kthread p && p.nr_cpus_allowed == 1 && ro.early_processing
        then enqueue_on_cpu p enq_flags
        else if is_kswapd p || is_khugepaged ro p
        then enqueue_on_cpu p enq_flags
        else enqueue_task p enq_flags
