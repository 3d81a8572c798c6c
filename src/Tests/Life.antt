-- ===== src/Tests/Life.antt =====
-- The life of a task at concrete inputs.
use scx_goland_core.Base.{true, false, some, ◌≡◌, ◌+◌, ◌-◌, refl, arith}
use scx_goland_core.Base.HashMap.{lookup, fits}
use scx_goland_core.Intf.{max_cpus}
use scx_goland_core.Kernel.Oracle.{Kernel}
use scx_goland_core.Bpf.State.{World}
use scx_goland_core.Bpf.Basic.{is_usersched_task, try_lookup_task_ctx, put_task_ctx}
use scx_goland_core.Bpf.Tasks.{
  goland_running, goland_stopping, goland_init_task, task_starts, set_running_task, update_task_ctx,
}
use scx_goland_core.Bpf.Tasks.Runtime.{ctx_of, stopping-running}
use scx_goland_core.Bpf.Tasks.Create.{InitDone, ctx_or_empty, goland_init_task-InitDone}
use scx_goland_core.Tests.Data.{worker, running_world, four_cpus, old_ctx}

worker_storage : ctx_of running_world worker ≡ some old_ctx
unfolding lookup
worker_storage = refl

worker_not_usersched : is_usersched_task running_world.ro worker ≡ false
unfolding is_usersched_task
worker_not_usersched = refl

abbrev started_world : World
started_world = (goland_running worker running_world).1

started_not_usersched : is_usersched_task started_world.ro worker ≡ false
unfolding is_usersched_task goland_running task_starts set_running_task update_task_ctx put_task_ctx
    try_lookup_task_ctx
started_not_usersched = refl

started_at : Kernel.now four_cpus started_world.trace ≡ 1002
unfolding is_usersched_task goland_running task_starts set_running_task update_task_ctx put_task_ctx
    try_lookup_task_ctx
started_at = refl

stopping-running_example :
    ctx_of (goland_stopping worker started_world).1 worker
    ≡ some (record old_ctx {
      start_ts = 1001;
      stop_ts = Kernel.now four_cpus started_world.trace;
      exec_runtime = 500 + (Kernel.now four_cpus started_world.trace - 1001);
    })
stopping-running_example =
    stopping-running worker old_ctx running_world started_world worker_not_usersched
      started_not_usersched worker_storage refl (omega (arith, started_at))
      (omega (arith, started_at))

room_for_cpu : fits max_cpus 2 running_world.running_task ≡ true
unfolding lookup
room_for_cpu = refl

goland_init_task-InitDone_example :
    InitDone
      (ctx_or_empty running_world worker)
      worker
      running_world
      (goland_init_task worker running_world)
goland_init_task-InitDone_example = goland_init_task-InitDone worker running_world
