-- ===== src/Tests/Dispatch.antt =====
-- The dispatch callback at concrete inputs.
use scx_goland_core.Base.{◌⊎◌, [], refl, some, ◌≡◌, arith}
use scx_goland_core.Kernel.Observe.{kicks}
use scx_goland_core.Bpf.State.{World}
use scx_goland_core.Bpf.Dispatch.{dispatch_task, fire_up, consume, goland_dispatch}
use scx_goland_core.Bpf.Dispatch.Insert.{DispatchedAs, dispatch_task-DispatchedAs}
use scx_goland_core.Bpf.Dispatch.Consume.{
  Fired, fire_up-Fired, Found, NoneFound, Rests, goland_dispatch-Rests,
}
use scx_goland_core.Tests.Data.{worker, scheduler, running_world, four_cpus, to_cpu}

dispatch_task-DispatchedAs_example :
    DispatchedAs to_cpu (some worker) running_world (dispatch_task to_cpu running_world).1
dispatch_task-DispatchedAs_example = dispatch_task-DispatchedAs to_cpu running_world

fire_up-Fired_example :
    let v = (fire_up running_world).1 in
    (v.bss.usersched_needed ≡ 0) × Fired (some scheduler) running_world v
fire_up-Fired_example = fire_up-Fired running_world (omega arith)

-- The same with no request pending.
abbrev quiet_world : World
quiet_world = record running_world { bss = record (running_world.bss) { usersched_needed = 0 } }

goland_dispatch-Rests_example :
    let (prev', v) = goland_dispatch 2 (some worker) [] quiet_world in
    (Found 2 quiet_world v
      × (v.bss ≡ quiet_world.bss)
      × (kicks v.trace ≡ kicks quiet_world.trace)
      × (prev' ≡ some worker))
    ⊎ NoneFound 2 quiet_world v
      × Rests 2 (consume 2 quiet_world).1.trace quiet_world (some worker) prev' v
goland_dispatch-Rests_example = goland_dispatch-Rests 2 (some worker) quiet_world refl
