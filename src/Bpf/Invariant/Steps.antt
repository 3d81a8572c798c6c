-- ===== src/Bpf/Invariant/Steps.antt =====
-- main.bpf.c, the callbacks of a running scheduler: the invariant across each.
use scx_goland_core.Base.{
  ℕ, Bool, true, false, Option, none, some, List, [], ◌∷◌, arith, is_some, ◌≡◌, if◌then◌else◌,
}
use scx_goland_core.Base.Word.{add64, sub64}
use scx_goland_core.Base.HashMap.{length-update-le, length-delete-le}
use scx_goland_core.Intf.{max_cpus, TaskCpuArg, DispatchedTaskCtx}
use scx_goland_core.Kernel.Types.{Task, Event}
use scx_goland_core.Kernel.Oracle.{Kernel}
use scx_goland_core.Bpf.State.{World, max_enqueued_tasks}
use scx_goland_core.Bpf.Calls.{task_cpu, cpumask_test_cpu, cpus_of}
use scx_goland_core.Bpf.Basic.{
  is_usersched_task, cpu_to_dsq, try_lookup_task_ctx, put_task_ctx, update_priority_task_map,
  set_usersched_needed, test_and_clear_usersched_needed, usersched_has_pending_tasks,
}
use scx_goland_core.Bpf.Basic.Flag.{bit_or_flag, bit_and_flag}
use scx_goland_core.Bpf.Idle.{kick_task_cpu}
use scx_goland_core.Bpf.Idle.Quiet.{Quiet}
use scx_goland_core.Bpf.Select.{goland_select_cpu, rs_select_cpu}
use scx_goland_core.Bpf.Select.Direct.{DirectOrQuiet, goland_select_cpu-cases, rs_select_cpu-Quiet}
use scx_goland_core.Bpf.Dispatch.{
  insert_shared, insert_target, insert_unless_prioritized, dispatch_to_cpu, dispatch_bounced,
  dispatch_found, dispatch_ref, dispatch_task, handle_dispatched_task, drain, fire_up,
  dispatch_user_scheduler, consume, dispatch_idle, replenish, goland_dispatch,
}
use scx_goland_core.Bpf.Enqueue.{
  enqueue_usersched_thread, enqueue_on_cpu, enqueue_wakeup, enqueue_prio, insert_prio,
  pick_prio_cpu, prio_flags, enqueue_message, get_task_info, sched_congested, enqueue_rest,
  enqueue_task, goland_enqueue,
}
use scx_goland_core.Bpf.Enqueue.Hands.{enqueue_wakeup-DirectOrQuiet, enqueue_kick-Quiet}
use scx_goland_core.Bpf.Tasks.{
  update_task_ctx, set_running_task, goland_runnable, goland_running, task_starts, goland_stopping,
  goland_cpu_release, goland_exit_task,
}
use scx_goland_core.Bpf.Timer.{usersched_timer_fn, heartbeat, wake_usersched}
use scx_goland_core.Bpf.Invariant.Defs.{Ghost, Invariant, Preserves, Carries}

module _ (g : Ghost) where
  Quiet-Preserves : (u v : World) → Quiet u v → Preserves g u v
  Quiet-Preserves u v q h = ground arith

  update_priority_task_map-Carries :
      (held pid vtime slice : ℕ) (w : World)
      → Carries g held w (update_priority_task_map pid vtime slice w).1
  unfolding update_priority_task_map
  update_priority_task_map-Carries held pid vtime slice w h = ground (
    arith,
    length-update-le max_enqueued_tasks pid slice w.priority_tasks,
    length-delete-le pid w.priority_tasks,
  )

  set_usersched_needed-Preserves : (w : World) → Preserves g w (set_usersched_needed w).1
  unfolding set_usersched_needed
  set_usersched_needed-Preserves w h = ground (arith, bit_or_flag w.bss.usersched_needed)

  update_task_ctx-Preserves :
      (p : Task) (f : _) (w : World) → Preserves g w (update_task_ctx p f w).1
  unfolding update_task_ctx put_task_ctx try_lookup_task_ctx
  update_task_ctx-Preserves p f w h = ground arith

  pub goland_runnable-Preserves : (p : Task) (w : World) → Preserves g w (goland_runnable p w).1
  unfolding goland_runnable
  goland_runnable-Preserves p w h =
      ground (arith, update_task_ctx-Preserves p (λ c. record c { exec_runtime = 0 }) w h)

  pub goland_cpu_release-Preserves :
      (p : Task) (w : World) → Preserves g w (goland_cpu_release p w).1
  unfolding goland_cpu_release
  goland_cpu_release-Preserves p w h = ground (arith, set_usersched_needed-Preserves w h)

  pub goland_exit_task-Preserves : (p : Task) (w : World) → Preserves g w (goland_exit_task p w).1
  unfolding goland_exit_task
  goland_exit_task-Preserves p w h = update_priority_task_map-Carries 0 p.pid 1 0 w h

module _ ⦃k : Kernel⦄ (g : Ghost) where
  DirectOrQuiet-Preserves :
      (p : Task) (flags : ℕ) (u : World) (r : (ℕ × Bool) × World)
      → DirectOrQuiet p flags u r
      → Preserves g u r.1
  DirectOrQuiet-Preserves p flags u ((cpu, true), v) d h = ground arith
  DirectOrQuiet-Preserves p flags u ((cpu, false), v) q h = Quiet-Preserves g u v q h

  pub goland_select_cpu-Preserves :
      (p : Task) (prev flags : ℕ) (w : World) → Preserves g w (goland_select_cpu p prev flags w).1
  goland_select_cpu-Preserves p prev flags w h =
      ground (arith, goland_select_cpu-cases p prev flags w)

  pub rs_select_cpu-Preserves : (a : TaskCpuArg) (w : World) → Preserves g w (rs_select_cpu a w).1
  rs_select_cpu-Preserves a w h = Quiet-Preserves g w _ (rs_select_cpu-Quiet a w) h

  -- The count of running tasks follows the starts and the stops of tasks other than the user-space
  -- scheduler.
  abbrev pub started : Task → World → Ghost
  started p w = if is_usersched_task w.ro p then g else record g { running = add64 g.running 1 }

  abbrev pub stopped : Task → World → Ghost
  stopped p w = if is_usersched_task w.ro p then g else record g { running = sub64 g.running 1 }

  pub goland_running-Preserves :
      (p : Task) (w : World) → Invariant g 0 w → Invariant (started p w) 0 (goland_running p w).1
  unfolding goland_running task_starts set_running_task update_task_ctx put_task_ctx
      try_lookup_task_ctx
  goland_running-Preserves p w h =
      ground (arith, length-update-le max_cpus (k.task_cpu w.trace p.pid) p.pid w.running_task)

  pub goland_stopping-Preserves :
      (p : Task) (w : World) → Invariant g 0 w → Invariant (stopped p w) 0 (goland_stopping p w).1
  unfolding goland_stopping update_task_ctx put_task_ctx try_lookup_task_ctx
  goland_stopping-Preserves p w h = ground arith

  pub usersched_timer_fn-Preserves : (w : World) → Preserves g w (usersched_timer_fn w).1
  unfolding usersched_timer_fn heartbeat wake_usersched set_usersched_needed
  usersched_timer_fn-Preserves w h = ground (arith, bit_or_flag w.bss.usersched_needed)

  dispatch_to_cpu-Carries :
      (held : ℕ) (task : DispatchedTaskCtx) (p : Task) (w : World)
      → Carries g held w (dispatch_to_cpu task p w).1
  unfolding dispatch_to_cpu insert_unless_prioritized insert_target cpu_to_dsq
  dispatch_to_cpu-Carries held task p w h =
      let v = (insert_unless_prioritized task p w).1 in
      ground (arith, update_priority_task_map-Carries g held task.pid task.vtime task.slice_ns v)

  dispatch_found-Carries :
      (held : ℕ) (task : DispatchedTaskCtx) (p : Task) (w : World)
      → Carries g held w (dispatch_found task p w).1
  unfolding dispatch_found dispatch_bounced insert_shared kick_task_cpu
  dispatch_found-Carries held task p w h =
      let v = (cpumask_test_cpu task.cpu (cpus_of p) (task_cpu p w).1).1 in
      ground (arith, dispatch_to_cpu-Carries held task p v)

  -- The reference that the lookup has just taken is given back.
  dispatch_ref-Preserves :
      (task : DispatchedTaskCtx) (p : Option Task) (w : World)
      → Preserves g w
          (dispatch_ref task p
            (record w { trace = Event.task_from_pid task.pid (is_some p) ∷ w.trace })).1
  unfolding dispatch_ref
  dispatch_ref-Preserves task none w h = ground arith
  dispatch_ref-Preserves task (some p) w h =
      let v : World = record w { trace = Event.task_from_pid task.pid true ∷ w.trace } in
      ground (arith, dispatch_found-Carries 1 task p v)

  pub handle-Preserves :
      (s : Option DispatchedTaskCtx) (w : World) → Preserves g w (handle_dispatched_task s w).1
  unfolding handle_dispatched_task dispatch_task
  handle-Preserves none w h = h
  handle-Preserves (some task) w h =
      ground (arith, dispatch_ref-Preserves task (k.task_from_pid w.trace task.pid) w)

  drain-Preserves :
      (samples : List (Option DispatchedTaskCtx)) (w : World) → Preserves g w (drain samples w).1
  unfolding drain
  drain-Preserves [] w h = h
  drain-Preserves (s ∷ rest) w h =
      let (stop, v) = handle_dispatched_task s w in
      ground (arith, handle-Preserves s w h, drain-Preserves rest v)

  pub consume-Preserves : (cpu : ℕ) (w : World) → Preserves g w (consume cpu w).1
  unfolding consume cpu_to_dsq
  consume-Preserves cpu w h = ground arith

  pub dispatch_idle-Preserves :
      (cpu : ℕ) (prev : Option Task) (w : World) → Preserves g w (dispatch_idle cpu prev w).1
  unfolding dispatch_idle usersched_has_pending_tasks set_usersched_needed replenish
  dispatch_idle-Preserves cpu none w h = ground (arith, bit_or_flag w.bss.usersched_needed)
  dispatch_idle-Preserves cpu (some p) w h = ground (arith, bit_or_flag w.bss.usersched_needed)

  enqueue_prio-Preserves : (p : Task) (w : World) → Preserves g w (enqueue_prio p w).1
  unfolding enqueue_prio insert_prio pick_prio_cpu prio_flags
  enqueue_prio-Preserves p w h = ground arith

  enqueue_message-Preserves :
      (p : Task) (flags : ℕ) (w : World) → Preserves g w (enqueue_message p flags w).1
  unfolding enqueue_message get_task_info sched_congested try_lookup_task_ctx
  enqueue_message-Preserves p flags w h = ground arith

  enqueue_rest-Preserves :
      (p : Task) (flags cpu : ℕ) (w : World) → Preserves g w (enqueue_rest p flags cpu w).1
  unfolding enqueue_rest
  enqueue_rest-Preserves p flags cpu w h =
      let u = (enqueue_prio p w).1 in
      let v = (enqueue_message p flags u).1 in
      Quiet-Preserves g v _ (enqueue_kick-Quiet p cpu v)
        (enqueue_message-Preserves p flags u (enqueue_prio-Preserves p w h))

  enqueue_on_cpu-Preserves :
      (p : Task) (flags : ℕ) (w : World) → Preserves g w (enqueue_on_cpu p flags w).1
  unfolding enqueue_on_cpu cpu_to_dsq
  enqueue_on_cpu-Preserves p flags w h = ground arith

  enqueue_task-Preserves :
      (p : Task) (flags : ℕ) (w : World) → Preserves g w (enqueue_task p flags w).1
  unfolding enqueue_task
  enqueue_task-Preserves p flags w h =
      let (r, v) = enqueue_wakeup p flags w in
      let valid =
        DirectOrQuiet-Preserves p flags w (r, v) (enqueue_wakeup-DirectOrQuiet p flags w) h in
      ground (arith, valid, enqueue_rest-Preserves p flags r.0 v)

  pub goland_enqueue-Preserves :
      (p : Task) (flags : ℕ) (w : World) → Preserves g w (goland_enqueue p flags w).1
  unfolding goland_enqueue enqueue_usersched_thread kick_task_cpu
  goland_enqueue-Preserves p flags w h =
      ground (arith, enqueue_on_cpu-Preserves p flags w h, enqueue_task-Preserves p flags w h)

-- The dispatch callback serves the request, and so keeps the invariant with none pending.
module _ ⦃k : Kernel⦄ (g : Ghost) (none_due : g.request ≡ 0) where
  fire_up-Preserves : (w : World) → Preserves g w (fire_up w).1
  unfolding fire_up test_and_clear_usersched_needed dispatch_user_scheduler
  fire_up-Preserves w h = ground (arith, bit_and_flag w.bss.usersched_needed)

  pub goland_dispatch-Preserves :
      (cpu : ℕ) (prev : Option Task) (samples : List (Option DispatchedTaskCtx)) (w : World)
      → Preserves g w (goland_dispatch cpu prev samples w).1
  unfolding goland_dispatch
  goland_dispatch-Preserves cpu prev samples w h =
      let u = (fire_up w).1 in
      let v = (drain samples u).1 in
      let x = (consume cpu v).1 in
      ground (
        arith,
        fire_up-Preserves w h,
        drain-Preserves g samples u,
        consume-Preserves g cpu v,
        dispatch_idle-Preserves g cpu prev x,
      )
