-- ===== src/Bpf/Dispatch.antt =====
-- main.bpf.c: the tasks that user space hands back, and the dispatch callback.
pub mod Drain
pub mod Consume
pub mod Insert
pub mod Batch
use scx_goland_core.Base.{
  ℕ, Bool, true, false, not, ◌&&◌, Option, none, some, List, [], ◌∷◌, ltb, ◌==◌, if◌then◌else◌,
  is_some,
}
use scx_goland_core.Base.Word.{add64}
use scx_goland_core.Base.HashMap.{lookup}
use scx_goland_core.Intf.{DispatchedTaskCtx, rl_cpu_any}
use scx_goland_core.Kernel.Types.{Task, Event, Error}
use scx_goland_core.Kernel.Oracle.{Kernel}
use scx_goland_core.Bpf.State.{M, pure, ◌>>=◌, ◌>>◌, get, modify_bss, shared_dsq, sched_dsq}
use scx_goland_core.Bpf.Calls.{
  tell, cpumask_test_cpu, cpus_of, kick_cpu, dsq_insert, dsq_insert_vtime, task_from_pid, task_cpu,
  task_release, scx_error, dispatch_nr_slots, dsq_move_to_local,
}
use scx_goland_core.Bpf.Basic.{
  cpu_to_dsq, update_priority_task_map, is_usersched_task, is_queued,
  test_and_clear_usersched_needed, set_usersched_needed, usersched_has_pending_tasks,
}
use scx_goland_core.Bpf.Idle.{kick_task_cpu}

abbrev pub count_user_dispatch : M (Unit {0})
count_user_dispatch =
    modify_bss (λ b. record b { nr_user_dispatches = add64 b.nr_user_dispatches 1 })

module _ ⦃k : Kernel⦄ where
  unfoldable pub insert_shared : DispatchedTaskCtx → Task → M (Unit {0})
  insert_shared task p = dsq_insert_vtime p shared_dsq task.slice_ns task.vtime task.flags

  unfoldable pub insert_target : DispatchedTaskCtx → Task → M (Unit {0})
  insert_target task p = do
    dsq ← cpu_to_dsq task.cpu
    dsq_insert_vtime p dsq task.slice_ns task.vtime task.flags
    count_user_dispatch

  -- A task with vtime 0 that is in the map of the priority tasks was inserted by enqueue.
  unfoldable pub insert_unless_prioritized : DispatchedTaskCtx → Task → M (Unit {0})
  unfolding lookup
  insert_unless_prioritized task p =
      if task.vtime == 0
      then (do
        elem ← get (λ w. lookup task.pid w.priority_tasks)
        if is_some elem then pure tt else insert_target task p)
      else insert_target task p

  -- The target CPU is one that the task may use.
  unfoldable pub dispatch_to_cpu : DispatchedTaskCtx → Task → M (Unit {0})
  dispatch_to_cpu task p = do
    insert_unless_prioritized task p
    update_priority_task_map task.pid task.vtime task.slice_ns
    still ← cpumask_test_cpu task.cpu (cpus_of p)
    if still then kick_cpu task.cpu k.kick_idle else (do
      tell Event.dispatch_cancel
      modify_bss (λ b. record b { nr_cancel_dispatches = add64 b.nr_cancel_dispatches 1 }))

  unfoldable pub dispatch_bounced : DispatchedTaskCtx → Task → ℕ → M (Unit {0})
  dispatch_bounced task p prev = do
    insert_shared task p
    modify_bss (λ b. record b { nr_bounce_dispatches = add64 b.nr_bounce_dispatches 1 })
    kick_task_cpu p prev

  -- Between the lookup of the task and `out_release`.
  unfoldable pub dispatch_found : DispatchedTaskCtx → Task → M (Unit {0})
  dispatch_found task p = do
    prev ← task_cpu p
    if task.cpu == rl_cpu_any then (do insert_shared task p; kick_task_cpu p prev) else (do
      allowed ← cpumask_test_cpu task.cpu (cpus_of p)
      if allowed then dispatch_to_cpu task p else dispatch_bounced task p prev)

  unfoldable pub dispatch_ref : DispatchedTaskCtx → Option Task → M (Unit {0})
  dispatch_ref task none = pure tt
  dispatch_ref task (some p) = do dispatch_found task p; task_release p

  unfoldable pub dispatch_task : DispatchedTaskCtx → M (Unit {0})
  dispatch_task task = do p ← task_from_pid task.pid; dispatch_ref task p

  -- `none` is a sample that is too short. True stands for 1, which asks the drain to stop.
  unfoldable pub handle_dispatched_task : Option DispatchedTaskCtx → M Bool
  handle_dispatched_task none = pure false
  handle_dispatched_task (some task) = do
    dispatch_task task
    slots ← dispatch_nr_slots
    pure (not (slots == 0))

  -- `bpf_user_ringbuf_drain` on the samples that wait, as bpf-helpers(7) says: it hands them to the
  -- callback in order, goes on after 0, and leaves the rest after 1.
  unfoldable pub drain : List (Option DispatchedTaskCtx) → M (Unit {0})
  drain [] = pure tt
  drain (s ∷ rest) = do
    stop ← handle_dispatched_task s
    elim stop [ true ↦ pure tt | false ↦ drain rest ]

  unfoldable pub dispatch_user_scheduler : M (Unit {0})
  dispatch_user_scheduler = do
    pid ← get (λ w. w.ro.usersched_pid)
    found ← task_from_pid pid
    elim found [
      | none ↦ scx_error (Error.no_usersched pid)
      | some p ↦ do
        slice ← get (λ w. w.ro.default_slice)
        dsq_insert p sched_dsq slice k.enq_head
        task_release p
    ]

  -- `if (prev && is_queued(prev) && !is_usersched_task(prev)) prev->scx.slice = SCX_SLICE_DFL;`
  unfoldable pub replenish : Option Task → M (Option Task)
  replenish none = pure none
  replenish (some prev) = do
    usersched ← get (λ w. is_usersched_task w.ro prev)
    pure (
        some
          (if is_queued prev && not usersched then record prev { slice = k.slice_dfl } else prev))

  -- What is left to do when no queue had a task.
  unfoldable pub dispatch_idle : ℕ → Option Task → M (Option Task)
  dispatch_idle cpu prev = do
    pending ← usersched_has_pending_tasks
    if pending
        then (do set_usersched_needed; kick_cpu cpu k.kick_idle; pure prev)
        else replenish prev

  -- The queues are asked in order, until one moves a task.
  unfoldable pub consume : ℕ → M Bool
  consume cpu = do
    dsq ← cpu_to_dsq cpu
    local ← dsq_move_to_local dsq
    if local then pure true else (do
      shared ← dsq_move_to_local shared_dsq
      if shared then pure true else dsq_move_to_local sched_dsq)

  unfoldable pub fire_up : M (Unit {0})
  fire_up = do
    needed ← test_and_clear_usersched_needed
    if needed then dispatch_user_scheduler else pure tt

  -- `prev` is returned with its slice as the callback leaves it.
  unfoldable pub goland_dispatch :
      ℕ → Option Task → List (Option DispatchedTaskCtx) → M (Option Task)
  goland_dispatch cpu prev samples = do
    fire_up
    drain samples
    consumed ← consume cpu
    if consumed then pure prev else dispatch_idle cpu prev
