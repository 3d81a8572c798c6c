-- ===== src/Tests/Select.antt =====
-- The search for idle CPUs and direct dispatch, at concrete inputs.
use scx_goland_core.Base.{◌∷◌, ◌≡◌, refl, if◌then◌else◌}
use scx_goland_core.Base.Word.{is_neg}
use scx_goland_core.Intf.{TaskCpuArg}
use scx_goland_core.Kernel.Observe.{claimed}
use scx_goland_core.Bpf.Basic.{is_usersched_task}
use scx_goland_core.Bpf.Basic.{try_lookup_task_ctx, try_lookup_cpu_ctx}
use scx_goland_core.Bpf.Idle.{
  ◌orelse◌, try_claim, try_pick, try_domain, try_prev_core, pick_idle_core, pick_idle_any,
  search_idle, pick_in_domains, pick_with_cpu, pick_with_ctx, is_pinned, pick_idle_cpu,
}
use scx_goland_core.Bpf.Idle.Claims.{pick_idle_cpu-Claims}
use scx_goland_core.Bpf.Idle.Quiet.{Quiet, pick_idle_cpu-Quiet}
use scx_goland_core.Bpf.Select.{goland_select_cpu}
use scx_goland_core.Bpf.Select.Direct.{Selected, goland_select_cpu-cases}
use scx_goland_core.Tests.Data.{worker, running_world, four_cpus}

pick_idle_cpu-Claims_example : claimed (pick_idle_cpu worker 1 running_world).1.trace ≡ (
    if is_neg (pick_idle_cpu worker 1 running_world).0
    then claimed running_world.trace
    else (pick_idle_cpu worker 1 running_world).0 ∷ claimed running_world.trace)
pick_idle_cpu-Claims_example = pick_idle_cpu-Claims worker 1 running_world refl

pick_idle_cpu-Quiet_example : Quiet running_world (pick_idle_cpu worker 2 running_world).1
pick_idle_cpu-Quiet_example = pick_idle_cpu-Quiet worker 2 running_world

goland_select_cpu-cases_example :
    if is_usersched_task running_world.ro worker
    then goland_select_cpu worker 2 0 running_world ≡ (2, running_world)
    else Selected worker running_world (goland_select_cpu worker 2 0 running_world)
goland_select_cpu-cases_example = goland_select_cpu-cases worker 2 0 running_world

abbrev ask_for_worker : TaskCpuArg
ask_for_worker = record { pid = 7; cpu = 1; flags = 0 }

-- The core of CPU 2 is not idle, so the kernel's pick, CPU 1, is taken.
idle_cpu_found : (pick_idle_cpu worker 2 running_world).0 ≡ 1
unfolding pick_idle_cpu is_pinned try_lookup_task_ctx pick_with_ctx try_lookup_cpu_ctx pick_with_cpu
    pick_in_domains search_idle pick_idle_core pick_idle_any ◌orelse◌ try_prev_core try_claim
    try_domain try_pick
idle_cpu_found = refl
