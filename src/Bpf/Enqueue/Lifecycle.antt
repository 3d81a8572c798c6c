-- ===== src/Bpf/Enqueue/Lifecycle.antt =====
-- main.bpf.c: a priority task from the dispatch that marks it to the enqueue that serves it.
use scx_goland_core.Base.{
  ℕ, Option, none, some, ◌≡◌, refl, ap, ◌∙◌, ◌&&◌, arith, ◌==◌, if◌then◌else◌, ◌⊎◌, inl, inr,
  Bool-cases,
}
use scx_goland_core.Intf.{DispatchedTaskCtx, rl_cpu_any}
use scx_goland_core.Base.HashMap.{lookup, fits}
use scx_goland_core.Kernel.Types.{Task}
use scx_goland_core.Kernel.Oracle.{Kernel}
use scx_goland_core.Bpf.State.{World, Bss, max_enqueued_tasks}
use scx_goland_core.Bpf.Basic.{update_priority_task_map}
use scx_goland_core.Bpf.Basic.Priority.{update_priority_task_map-refines}
use scx_goland_core.Bpf.Dispatch.{dispatch_task}
use scx_goland_core.Bpf.Dispatch.Insert.{
  Shared, Targeted, Placed, bounce_counted, dispatch_task-DispatchedAs,
}
use scx_goland_core.Bpf.Enqueue.{insert_prio, enqueue_prio}

module _ ⦃k : Kernel⦄ where
  -- What enqueue does for a task whose entry in the map is `slice`.
  enqueue_prio-lookup :
      (p : Task) (slice : Option ℕ) (w : World)
      → lookup p.pid w.priority_tasks ≡ slice
      → enqueue_prio p w ≡ elim slice [ none ↦ (tt, w) | some s ↦ insert_prio p s w ]
  unfolding enqueue_prio
  enqueue_prio-lookup p none w e = ground (arith, e)
  enqueue_prio-lookup p (some s) w e = ground (arith, e)

  -- What enqueue_prio does in `v` for the entry that the task had in `u`.
  abbrev pub AsBefore : Task → World → World → Type 0
  AsBefore p u v =
      enqueue_prio p v
      ≡ elim (lookup p.pid u.priority_tasks) [ none ↦ (tt, v) | some s ↦ insert_prio p s v ]

  -- What it does for a dispatch that updates the map.
  abbrev pub AsSent : DispatchedTaskCtx → Task → World → World → Type 0
  AsSent task p u v = enqueue_prio p v ≡ (
      if task.vtime == 0 && fits max_enqueued_tasks task.pid u.priority_tasks
      then insert_prio p task.slice_ns v
      else (tt, v))

  -- Where a dispatch has put a task, and what the next enqueue_prio does for it.
  abbrev pub PlacedAs : DispatchedTaskCtx → Task → World → World → Type 0
  PlacedAs task p u v =
      if task.cpu == rl_cpu_any
      then Shared task p u.bss u v × AsBefore p u v
      else (Shared task p (bounce_counted u.bss) u v × AsBefore p u v
          ⊎ Targeted task p u v × AsSent task p u v)

  Shared-AsBefore :
      (task : DispatchedTaskCtx) (p : Task) (b : Bss) (u v : World)
      → Shared task p b u v
      → AsBefore p u v
  Shared-AsBefore task p b u v h =
      enqueue_prio-lookup p (lookup p.pid u.priority_tasks) v (ap (lookup p.pid) h.priority_same)

  Targeted-AsSent :
      (task : DispatchedTaskCtx) (p : Task) (u v : World)
      → p.pid ≡ task.pid
      → Targeted task p u v
      → AsSent task p u v
  unfolding update_priority_task_map
  Targeted-AsSent task p u v same h =
      let e = update_priority_task_map-refines task.pid task.vtime task.slice_ns task.pid u in
      let entry = ap (lookup task.pid) h.priority_updated ∙ e in
      ground (arith, entry, same, enqueue_prio-lookup p (lookup p.pid v.priority_tasks) v refl)

  Placed-PlacedAs :
      (task : DispatchedTaskCtx) (p : Task) (u v : World)
      → p.pid ≡ task.pid
      → Placed task p u v
      → PlacedAs task p u v
  Placed-PlacedAs task p u v same h = elim (Bool-cases (task.cpu == rl_cpu_any)) [
    | inl e ↦
        let s : Shared task p u.bss u v = rw e at h in rw e (s, Shared-AsBefore task p u.bss u v s)
    | inr e ↦
        let placed : Shared task p (bounce_counted u.bss) u v ⊎ Targeted task p u v = rw e at h in
        rw e (elim placed [
          | inl s ↦ inl (s, Shared-AsBefore task p (bounce_counted u.bss) u v s)
          | inr t ↦ inr (t, Targeted-AsSent task p u v same t)
        ])
  ]

  -- For a message with the PID of a task: a dispatch that puts the task into the shared queue, with no CPU
  -- chosen or with a bounce, leaves what enqueue_prio does for it as its entry had it. A
  -- dispatch to a CPU that the mask of the task was found to hold decides it anew: with vtime 0 and room
  -- in the map of the priority tasks, enqueue_prio inserts the task with the slice of the message; with
  -- another vtime, or no room, it does nothing.
  pub dispatch_task-enqueue_prio :
      (task : DispatchedTaskCtx) (p : Task) (w : World)
      → k.task_from_pid w.trace task.pid ≡ some p
      → p.pid ≡ task.pid
      → PlacedAs task p w (dispatch_task task w).1
  dispatch_task-enqueue_prio task p w found same =
      Placed-PlacedAs task p w (dispatch_task task w).1 same
        ((rw found at (dispatch_task-DispatchedAs task w)).0)
