-- ===== src/Tests/Setup.antt =====
-- The set-up, the timer, the invariant and the writes of user space at concrete inputs.
use scx_goland_core.Base.{some, [], ◌&&◌, ◌≡◌, ◌+◌, ◌%◌, ◌^◌, refl, arith, is_some, get_elem?}
use scx_goland_core.Intf.{DomainArg}
use scx_goland_core.Bpf.State.{World}
use scx_goland_core.Bpf.Basic.{is_belong_usersched_task, set_usersched_needed}
use scx_goland_core.Bpf.Enqueue.{goland_enqueue}
use scx_goland_core.Bpf.Timer.{usersched_timer_fn}
use scx_goland_core.Bpf.Timer.Heartbeat.{
  Round, is_inactive, usersched_found, usersched_timer_fn-Round,
}
use scx_goland_core.Bpf.Init.{dsq_init, enable_sibling_cpu, goland_init}
use scx_goland_core.Bpf.Init.Queues.{QueuesReady, dsq_init-QueuesReady}
use scx_goland_core.Bpf.Init.Domains.{SiblingDone, enable_sibling_cpu-SiblingDone}
use scx_goland_core.Bpf.Invariant.Reach.{
  loaded, Reach, init, enqueue, cpu_release, running, stopping, here, next,
}
use scx_goland_core.Bpf.Invariant.Request.{Waits, start, step, Served, request-Served}
use scx_goland_core.Bpf.Dispatch.{goland_dispatch}
use scx_goland_core.Bpf.Tasks.{goland_cpu_release, goland_running, goland_stopping}
use scx_goland_core.Bpf.Invariant.Running.{starts, stops, nr_running-starts}
use scx_goland_core.Wrapper.{Skeleton}
use scx_goland_core.Tests.Data.{worker, scheduler, running_world, four_cpus, settings, cpus}

usersched_timer_fn-Round_example :
    let (r, v) = usersched_timer_fn running_world in
    (r ≡ 0)
    × Round (is_inactive running_world && is_some (usersched_found running_world)) running_world v
usersched_timer_fn-Round_example = usersched_timer_fn-Round running_world (omega arith)

dsq_init-QueuesReady_example :
    QueuesReady 4 running_world (dsq_init running_world).0 (dsq_init running_world).1
dsq_init-QueuesReady_example = dsq_init-QueuesReady running_world (omega arith)

abbrev l2_pair : DomainArg
l2_pair = record { lvl_id = 2; cpu_id = 1; sibling_cpu_id = 3 }

enable_sibling_cpu-SiblingDone_example :
    SiblingDone l2_pair
      (get_elem? running_world.cpu_ctx 1)
      running_world
      (enable_sibling_cpu l2_pair running_world)
enable_sibling_cpu-SiblingDone_example = enable_sibling_cpu-SiblingDone l2_pair running_world

abbrev initialized : World
initialized = (goland_init (loaded settings cpus)).1

-- The worker starts on its CPU and stops.
abbrev started_world : World
started_world = (goland_running worker initialized).1

abbrev work_run : Reach (loaded settings cpus) (goland_stopping worker started_world).1
work_run =
    next (next (next here (init (loaded settings cpus))) (running worker initialized))
      (stopping worker started_world)

nr_running-starts_example :
    ((goland_stopping worker started_world).1.bss.nr_running + stops work_run) % 2 ^ 64
    ≡ starts work_run % 2 ^ 64
nr_running-starts_example = nr_running-starts settings cpus work_run

-- The scheduler's CPU is taken away, which sets the flag; then a task becomes runnable.
abbrev released : World
released = (goland_cpu_release scheduler (loaded settings cpus)).1

abbrev release_run : Reach (loaded settings cpus) released
release_run = next here (cpu_release scheduler (loaded settings cpus))

released_needed : released.bss.usersched_needed ≡ 1
unfolding goland_cpu_release is_belong_usersched_task set_usersched_needed
released_needed = refl

abbrev waiting : World
waiting = (goland_enqueue worker 0 released).1

abbrev waiting_run : Waits released waiting
waiting_run = step start (enqueue worker 0 released) refl

request-Served_example :
    Served
      (four_cpus.task_from_pid waiting.trace waiting.ro.usersched_pid)
      waiting
      (goland_dispatch 2 (some worker) [] waiting).1
request-Served_example =
    request-Served settings cpus release_run released_needed waiting_run 2 (some worker) []

abbrev skeleton : Skeleton
skeleton = record { rodata = settings; bss = running_world.bss }
