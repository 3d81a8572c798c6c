-- ===== src/Tests/Interleave.antt =====
-- Dispatch callbacks of two CPUs in parts, and one as a whole, at concrete inputs.
use scx_goland_core.Base.{Option, none, some, List, [], ◌∷◌, ◌≡◌, refl, arith}
use scx_goland_core.Intf.{DispatchedTaskCtx}
use scx_goland_core.Kernel.Observe.{lookups}
use scx_goland_core.Bpf.Basic.{
  is_belong_usersched_task, set_usersched_needed, test_and_clear_usersched_needed,
}
use scx_goland_core.Bpf.Tasks.{goland_cpu_release}
use scx_goland_core.Bpf.Enqueue.{goland_enqueue}
use scx_goland_core.Bpf.Dispatch.{goland_dispatch}
use scx_goland_core.Bpf.Dispatch.Batch.{goland_dispatch-lookups}
use scx_goland_core.Bpf.Invariant.Defs.{IsValid, IsSettled}
use scx_goland_core.Bpf.Invariant.Reach.{loaded, cpu_release, enqueue}
use scx_goland_core.Bpf.Interleave.{
  Cpus, all_outside, clear_on, fire_on, Acts, here, next, whole, clear, fire, firing,
}
use scx_goland_core.Bpf.Interleave.Kept.{Acts-IsValid}
use scx_goland_core.Bpf.Interleave.Request.{NotLost, Acts-NotLost}
use scx_goland_core.Tests.Data.{
  worker, scheduler, running_world, four_cpus, settings, cpus, to_cpu, to_any,
}

abbrev samples : List (Option DispatchedTaskCtx)
samples = none ∷ some to_cpu ∷ some to_any ∷ some to_cpu ∷ []

-- The scheduler's CPU is taken away, which sets the flag.
abbrev released : Cpus
released = all_outside (goland_cpu_release scheduler (loaded settings cpus)).1

abbrev release_run : Acts (all_outside (loaded settings cpus)) released
release_run = next here (whole (cpu_release scheduler (loaded settings cpus)) refl)

released_needed : released.world.bss.usersched_needed ≡ 1
unfolding goland_cpu_release is_belong_usersched_task set_usersched_needed
released_needed = refl

-- CPU 0 clears the flag, then CPU 1 does and finds it clear, and a task becomes runnable before CPU 0
-- runs the scheduler.
abbrev cleared : Cpus
cleared = clear_on 0 samples released

abbrev both : Cpus
both = clear_on 1 [] cleared

abbrev waiting : Cpus
waiting = record both { world = (goland_enqueue worker 0 both.world).1 }

abbrev fired : Cpus
fired = fire_on 0 samples waiting

waiting_firing : waiting.phase 0 ≡ firing samples
unfolding goland_cpu_release is_belong_usersched_task set_usersched_needed
    test_and_clear_usersched_needed
waiting_firing = refl

abbrev dispatch_run : Acts released fired
dispatch_run =
    next
      (next (next (next here (clear 0 samples refl)) (clear 1 [] refl))
        (whole (enqueue worker 0 both.world) refl))
      (fire 0 samples waiting_firing)

Acts-IsValid_example : IsValid fired.world × IsSettled 0 fired.world
Acts-IsValid_example = Acts-IsValid settings cpus (
    next
      (next (next (next release_run (clear 0 samples refl)) (clear 1 [] refl))
        (whole (enqueue worker 0 both.world) refl))
      (fire 0 samples waiting_firing))

Acts-NotLost_example : NotLost released fired
Acts-NotLost_example = Acts-NotLost settings cpus release_run released_needed dispatch_run

goland_dispatch-lookups_example :
    lookups (goland_dispatch 2 (some worker) samples running_world).1.trace ≡ 2
goland_dispatch-lookups_example =
    goland_dispatch-lookups 2 (some worker) samples running_world (λ t few. omega arith)
