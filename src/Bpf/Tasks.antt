-- ===== src/Bpf/Tasks.antt =====
-- main.bpf.c: the callbacks that follow a task through its life.
pub mod Create
pub mod Runtime
use scx_goland_core.Base.{
  ℕ, Bool, true, false, Option, none, some, List, [], ◌∷◌, ◌==◌, if◌then◌else◌, is_some,
}
use scx_goland_core.Base.Word.{neg, enomem, add64, sub64}
use scx_goland_core.Base.HashMap.{lookup, update}
use scx_goland_core.Intf.{max_cpus}
use scx_goland_core.Kernel.Types.{Task, Event}
use scx_goland_core.Kernel.Oracle.{Kernel}
use scx_goland_core.Bpf.State.{World, M, pure, ◌>>=◌, ◌>>◌, get, modify_bss, TaskCtx}
use scx_goland_core.Bpf.Calls.{tell, task_cpu, scx_now, cpumask_create, storage_create}
use scx_goland_core.Bpf.Basic.{
  put_task_ctx, try_lookup_task_ctx, is_usersched_task, is_belong_usersched_task,
  set_usersched_needed, update_priority_task_map,
}

-- `tctx = try_lookup_task_ctx(p); if (!tctx) return; *tctx = f(*tctx);`
unfoldable pub update_task_ctx : Task → (TaskCtx → TaskCtx) → M (Unit {0})
unfolding put_task_ctx try_lookup_task_ctx
update_task_ctx p f = do
  tctx ← try_lookup_task_ctx p
  elim tctx [ none ↦ pure tt | some c ↦ put_task_ctx p (f c) ]

-- bpf_map_update_elem(&running_task, &cpu, &pid, BPF_ANY)
unfoldable pub set_running_task : ℕ → ℕ → M (Unit {0})
unfolding update
set_running_task cpu pid w =
    (tt, record w { running_task = update max_cpus cpu pid w.running_task })

unfoldable pub goland_runnable : Task → M (Unit {0})
goland_runnable p = do
  usersched ← get (λ w. is_usersched_task w.ro p)
  if usersched then pure tt else update_task_ctx p (λ c. record c { exec_runtime = 0 })

abbrev task_started : ℕ → TaskCtx → TaskCtx
task_started now c = record c { start_ts = now }

abbrev task_stopped : ℕ → TaskCtx → TaskCtx
task_stopped now c = record c {
  stop_ts = now;
  exec_runtime = add64 c.exec_runtime (sub64 now c.start_ts);
}

module _ ⦃k : Kernel⦄ where
  abbrev count_running : M (Unit {0})
  count_running = modify_bss (λ b. record b { nr_running = add64 b.nr_running 1 })

  -- The start of a task other than the user-space scheduler's.
  unfoldable pub task_starts : Task → ℕ → M (Unit {0})
  task_starts p cpu = do
    set_running_task cpu p.pid
    count_running
    tctx ← try_lookup_task_ctx p
    if is_some tctx then (do now ← scx_now; update_task_ctx p (task_started now)) else pure tt

  unfoldable pub goland_running : Task → M (Unit {0})
  goland_running p = do
    cpu ← task_cpu p
    usersched ← get (λ w. is_usersched_task w.ro p)
    if usersched
        then (do now ← scx_now; modify_bss (λ b. record b { usersched_last_run_at = now }))
        else task_starts p cpu

  unfoldable pub goland_stopping : Task → M (Unit {0})
  goland_stopping p = do
    now ← scx_now
    cpu ← task_cpu p
    usersched ← get (λ w. is_usersched_task w.ro p)
    if usersched then pure tt else (do
      modify_bss (λ b. record b { nr_running = sub64 b.nr_running 1 })
      update_task_ctx p (task_stopped now))

-- The task is the one that is interrupted, `args->task`.
unfoldable pub goland_cpu_release : Task → M (Unit {0})
goland_cpu_release p = do
  belongs ← get (λ w. is_belong_usersched_task w.ro p)
  if belongs then set_usersched_needed else pure tt

module _ ⦃k : Kernel⦄ where
  -- The task as it leaves the callback.
  unfoldable pub goland_enable : Task → Task
  goland_enable p = record p { dsq_vtime = 0; slice = k.slice_dfl }

  abbrev release_old : Option ℕ → M (Unit {0})
  release_old none = pure tt
  release_old (some m) = tell (Event.cpumask_release m)

  -- Replace the mask behind a pointer: the error, and the pointer afterwards.
  unfoldable pub calloc_cpumask : Option ℕ → M (ℕ × Option ℕ)
  calloc_cpumask old = do
    mask ← cpumask_create
    elim mask [ none ↦ pure (neg enomem, old) | some m ↦ do release_old old; pure (0, some m) ]

  abbrev pub empty_ctx : TaskCtx
  empty_ctx = record {
    l2_cpumask = none;
    l3_cpumask = none;
    start_ts = 0;
    stop_ts = 0;
    exec_runtime = 0;
  }

  abbrev pub add_task_ctx : Task → M (Unit {0})
  add_task_ctx p w = (tt, record w { task_ctx = (p.pid, empty_ctx) ∷ w.task_ctx })

  -- bpf_task_storage_get with BPF_LOCAL_STORAGE_GET_F_CREATE: the storage that is there, or a
  -- zeroed one if the kernel can allocate it.
  unfoldable pub task_storage : Task → M (Option TaskCtx)
  task_storage p = do
    found ← try_lookup_task_ctx p
    elim found [
      | some c ↦ pure (some c)
      | none ↦ do
        made ← storage_create p
        if made then (do add_task_ctx p; pure (some empty_ctx)) else pure none
    ]

  -- The L3 mask, once the L2 mask stands.
  unfoldable pub init_l3 : Task → TaskCtx → M ℕ
  init_l3 p tctx = do
    (err, l3) ← calloc_cpumask tctx.l3_cpumask
    if err == 0 then (do put_task_ctx p (record tctx { l3_cpumask = l3 }); pure 0) else pure err

  unfoldable pub init_masks : Task → TaskCtx → M ℕ
  init_masks p tctx = do
    (err, l2) ← calloc_cpumask tctx.l2_cpumask
    if err == 0
        then (do
          put_task_ctx p (record tctx { l2_cpumask = l2 })
          init_l3 p (record tctx { l2_cpumask = l2 }))
        else pure err

  unfoldable pub goland_init_task : Task → M ℕ
  goland_init_task p = do
    tctx ← task_storage p
    elim tctx [ none ↦ pure (neg enomem) | some c ↦ init_masks p c ]

unfoldable pub goland_exit_task : Task → M (Unit {0})
goland_exit_task p = update_priority_task_map p.pid 1 0
