-- ===== src/Bpf/Select.antt =====
-- main.bpf.c: direct dispatch to an idle CPU, the select_cpu callback, and the two programs that
-- user space calls to select and to preempt a CPU.
pub mod Direct
use scx_goland_core.Base.{
  ℕ, Bool, true, false, not, ◌&&◌, Option, none, some, bit_and, ◌==◌, if◌then◌else◌,
}
use scx_goland_core.Base.Word.{is_neg, neg, ebusy, einval, add64}
use scx_goland_core.Intf.{TaskCpuArg, PreemptCpuArg}
use scx_goland_core.Kernel.Types.{Task, Event}
use scx_goland_core.Kernel.Oracle.{Kernel}
use scx_goland_core.Bpf.State.{M, pure, ◌>>=◌, ◌>>◌, get, modify_bss, shared_dsq}
use scx_goland_core.Bpf.Calls.{
  tell, cpumask_test_cpu, cpus_of, kick_cpu, dsq_nr_queued, dsq_insert_vtime, current_flags,
  smp_processor_id, task_from_pid, task_release,
}
use scx_goland_core.Bpf.Basic.{cpu_to_dsq, is_usersched_task}
use scx_goland_core.Bpf.Idle.{pick_idle_cpu}

abbrev pub count_kernel_dispatch : M (Unit {0})
count_kernel_dispatch =
    modify_bss (λ b. record b { nr_kernel_dispatches = add64 b.nr_kernel_dispatches 1 })

module _ ⦃k : Kernel⦄ where
  -- `!nr_queued(SHARED_DSQ) && !nr_queued(cpu_to_dsq(cpu))`
  unfoldable pub queues_empty : ℕ → M Bool
  queues_empty cpu = do
    shared ← dsq_nr_queued shared_dsq
    if shared == 0
        then (do dsq ← cpu_to_dsq cpu; local ← dsq_nr_queued dsq; pure (local == 0))
        else pure false

  -- The insertion, once a CPU that the task may use is found.
  unfoldable pub insert_direct : Task → ℕ → ℕ → M (ℕ × Bool)
  insert_direct p cpu enq_flags = do
    empty ← queues_empty cpu
    if empty
        then (do
          dsq ← cpu_to_dsq cpu
          dsq_insert_vtime p dsq k.slice_dfl p.dsq_vtime enq_flags
          count_kernel_dispatch
          pure (cpu, true))
        else pure (cpu, false)

  -- From the test of the picked CPU on.
  unfoldable pub dispatch_on : Task → ℕ → ℕ → M (ℕ × Bool)
  dispatch_on p enq_flags cpu = if is_neg cpu then pure (cpu, false) else (do
    allowed ← cpumask_test_cpu cpu (cpus_of p)
    if allowed
        then insert_direct p cpu enq_flags
        else (do kick_cpu cpu k.kick_idle; pure (neg ebusy, false)))

  -- The result, and what goes through `*dispatched`.
  unfoldable pub try_direct_dispatch : Task → ℕ → ℕ → M (ℕ × Bool)
  try_direct_dispatch p prev enq_flags = do
    builtin ← get (λ w. w.ro.builtin_idle)
    if builtin
        then (do cpu ← pick_idle_cpu p prev; dispatch_on p enq_flags cpu)
        else pure (neg ebusy, false)

  unfoldable pub is_wake_sync : ℕ → M Bool
  is_wake_sync wake_flags = do
    flags ← current_flags
    pure (not (bit_and wake_flags k.wake_sync == 0) && bit_and flags k.pf_exiting == 0)

  -- The last line of select_cpu, reached with no idle CPU.
  unfoldable pub select_waker : ℕ → ℕ → M ℕ
  select_waker prev wake_flags = do
    sync ← is_wake_sync wake_flags
    if sync then smp_processor_id else pure prev

  unfoldable pub goland_select_cpu : Task → ℕ → ℕ → M ℕ
  goland_select_cpu p prev wake_flags = do
    usersched ← get (λ w. is_usersched_task w.ro p)
    if usersched then pure prev else (do
      (cpu, dispatched) ← try_direct_dispatch p prev 0
      if is_neg cpu then select_waker prev wake_flags else pure cpu)

  unfoldable pub do_preempt : PreemptCpuArg → M ℕ
  do_preempt input = do kick_cpu input.cpu_id k.kick_preempt; pure 0

  -- From the test of the task on; `none` is NULL.
  unfoldable pub select_for : TaskCpuArg → Option Task → M ℕ
  select_for input none = pure (neg einval)
  select_for input (some p) = do
    tell Event.rcu_read_lock
    cpu ← pick_idle_cpu p input.cpu
    tell Event.rcu_read_unlock
    task_release p
    pure cpu

  unfoldable pub rs_select_cpu : TaskCpuArg → M ℕ
  rs_select_cpu input = do p ← task_from_pid input.pid; select_for input p
