-- ===== src/Bpf/Tasks/Create.antt =====
-- main.bpf.c: the storage of a new task, and the end of a task.
use scx_goland_core.Base.{
  ℕ, suc, true, Option, none, some, ◌≡◌, arith, ◌==◌, ◌⊎◌, inl, inr, if◌then◌else◌, is_some,
  Option-cases,
}
use scx_goland_core.Base.Word.{neg, enomem}
use scx_goland_core.Base.HashMap.{lookup-replace}
use scx_goland_core.Kernel.Types.{Task}
use scx_goland_core.Kernel.Oracle.{Kernel}
use scx_goland_core.Kernel.Observe.{refused}
use scx_goland_core.Bpf.State.{World, TaskCtx}
use scx_goland_core.Bpf.Calls.{storage_create}
use scx_goland_core.Bpf.Basic.{put_task_ctx, try_lookup_task_ctx}
use scx_goland_core.Bpf.Basic.Priority.{priority_of, update_priority_task_map-refines}
use scx_goland_core.Bpf.Tasks.{
  calloc_cpumask, task_storage, empty_ctx, add_task_ctx, init_l3, init_masks, goland_init_task,
  goland_exit_task,
}
use scx_goland_core.Bpf.Tasks.Runtime.{ctx_of}

-- A task is gone from the map of the priority tasks when it exits, whatever the map held, and no
-- other task's entry changes.
goland_exit_task-priority :
    (p : Task) (other : ℕ) (w : World)
    → priority_of (goland_exit_task p w).1 other
      ≡ (if p.pid == other then none else priority_of w other)
unfolding goland_exit_task
goland_exit_task-priority p other w =
    ground (arith, update_priority_task_map-refines p.pid 1 0 other w)

module _ ⦃k : Kernel⦄ where
  -- Both masks stand, and the times are those of `c`.
  abbrev pub Ready : TaskCtx → Option TaskCtx → Type 0
  Ready c none = ⊥
  Ready c (some d) =
      (is_some d.l2_cpumask ≡ true)
      × (is_some d.l3_cpumask ≡ true)
      × (d.start_ts ≡ c.start_ts)
      × (d.stop_ts ≡ c.stop_ts)
      × (d.exec_runtime ≡ c.exec_runtime)

  -- Accepted, with every allocation made; or refused, with one allocation refused.
  abbrev pub InitDone : TaskCtx → Task → World → ℕ × World → Type 0
  InitDone c p u (err, v) =
      (err ≡ 0) × Ready c (ctx_of v p) × (refused v.trace ≡ refused u.trace)
      ⊎ ((err ≡ neg enomem) × (refused v.trace ≡ suc (refused u.trace)))

  init_l3-InitDone :
      (p : Task) (c : TaskCtx) (w : World)
      → is_some (ctx_of w p) ≡ true
      → is_some c.l2_cpumask ≡ true
      → InitDone c p w (init_l3 p c w)
  unfolding init_l3 calloc_cpumask put_task_ctx
  init_l3-InitDone p c w here l2 = elim (Option-cases (k.cpumask_create w.trace)) [
    | inl e ↦ inr (ground arith)
    | inr (m, e) ↦
        inl
          (ground (arith, lookup-replace p.pid p.pid (record c { l3_cpumask = some m }) w.task_ctx))
  ]

  init_masks-InitDone :
      (p : Task) (c : TaskCtx) (w : World)
      → is_some (ctx_of w p) ≡ true
      → InitDone c p w (init_masks p c w)
  unfolding init_masks calloc_cpumask put_task_ctx
  init_masks-InitDone p c w here = elim (Option-cases (k.cpumask_create w.trace)) [
    | inl e ↦ inr (ground arith)
    | inr (m, e) ↦
        let c' : TaskCtx = record c { l2_cpumask = some m } in
        let v = (put_task_ctx p c' (calloc_cpumask c.l2_cpumask w).1).1 in
        ground (arith, lookup-replace p.pid p.pid c' w.task_ctx, init_l3-InitDone p c' v)
  ]

  -- The times that a task starts from: those of its storage, or 0.
  abbrev pub ctx_or_empty : World → Task → TaskCtx
  ctx_or_empty w p = elim (ctx_of w p) [ none ↦ empty_ctx | some c ↦ c ]

  -- A new task is refused with -ENOMEM, and then the kernel has refused exactly one allocation; or
  -- it is accepted with 0, no allocation was refused, and it has storage in which both masks stand,
  -- with the times that it had before (0 for new storage).
  pub goland_init_task-InitDone :
      (p : Task) (w : World) → InitDone (ctx_or_empty w p) p w (goland_init_task p w)
  unfolding goland_init_task task_storage try_lookup_task_ctx
  goland_init_task-InitDone p w = elim (Option-cases (ctx_of w p)) [
    | inr (c, e) ↦ ground (arith, init_masks-InitDone p c w)
    | inl e ↦
        ground (arith, init_masks-InitDone p empty_ctx (add_task_ctx p (storage_create p w).1).1)
  ]
