-- ===== src/Bpf/Invariant/Reach.antt =====
-- main.bpf.c and wrapper.c: the entry points as the steps of one relation, in any order.
use scx_goland_core.Base.{ℕ, Bool, true, false, ◌≡◌, refl, ◌∙◌, Option, List, [], arith}
use scx_goland_core.Intf.{TaskCpuArg, DomainArg, PreemptCpuArg, DispatchedTaskCtx}
use scx_goland_core.Kernel.Types.{Task}
use scx_goland_core.Kernel.Oracle.{Kernel}
use scx_goland_core.Bpf.State.{World, Rodata, CpuCtx}
use scx_goland_core.Bpf.Select.{goland_select_cpu, rs_select_cpu, do_preempt}
use scx_goland_core.Bpf.Dispatch.{goland_dispatch}
use scx_goland_core.Bpf.Enqueue.{goland_enqueue}
use scx_goland_core.Bpf.Tasks.{
  goland_runnable, goland_running, goland_stopping, goland_cpu_release, goland_init_task,
  goland_exit_task,
}
use scx_goland_core.Bpf.Timer.{usersched_timer_fn}
use scx_goland_core.Bpf.Init.{goland_init, enable_sibling_cpu}
use scx_goland_core.Bpf.Invariant.Defs.{IsValid, IsSettled, Ghost, Invariant, Preserves}
use scx_goland_core.Bpf.Invariant.Steps.{
  started, stopped, goland_select_cpu-Preserves, rs_select_cpu-Preserves, goland_dispatch-Preserves,
  goland_enqueue-Preserves, goland_runnable-Preserves, goland_running-Preserves,
  goland_stopping-Preserves, goland_cpu_release-Preserves, goland_exit_task-Preserves,
  usersched_timer_fn-Preserves,
}
use scx_goland_core.Bpf.Invariant.Setup.{
  do_preempt-Preserves, goland_init_task-Preserves, enable_sibling_cpu-Preserves,
  goland_init-Preserves,
}
use scx_goland_core.Wrapper.{through, notify_complete, sub_nr_queued}

-- The program as it is loaded: zeroed data and empty maps.
abbrev pub loaded : Rodata → List CpuCtx → World
loaded ro cpus = record {
  ro = ro;
  bss = record {
    usersched_last_run_at = 0;
    nr_cpu_ids = 0;
    nr_queued = 0;
    nr_scheduled = 0;
    nr_running = 0;
    nr_online_cpus = 0;
    nr_user_dispatches = 0;
    nr_kernel_dispatches = 0;
    nr_cancel_dispatches = 0;
    nr_bounce_dispatches = 0;
    nr_failed_dispatches = 0;
    nr_sched_congested = 0;
    usersched_needed = 0;
  };
  priority_tasks = [];
  running_task = [];
  cpu_ctx = cpus;
  task_ctx = [];
  trace = [];
}

module _ ⦃k : Kernel⦄ where
  -- One callback, one tick of the timer, one program that user space runs, or one write of user
  -- space to the counters.
  pub data Step : World → World → Type 0 where
    init : (w : World) → Step w (goland_init w).1
    init_task : (p : Task) (w : World) → Step w (goland_init_task p w).1
    select_cpu :
        (p : Task) (prev flags : ℕ) (w : World) → Step w (goland_select_cpu p prev flags w).1
    enqueue : (p : Task) (flags : ℕ) (w : World) → Step w (goland_enqueue p flags w).1
    dispatch :
        (cpu : ℕ) (prev : Option Task) (samples : List (Option DispatchedTaskCtx)) (w : World)
        → Step w (goland_dispatch cpu prev samples w).1
    runnable : (p : Task) (w : World) → Step w (goland_runnable p w).1
    running : (p : Task) (w : World) → Step w (goland_running p w).1
    stopping : (p : Task) (w : World) → Step w (goland_stopping p w).1
    cpu_release : (p : Task) (w : World) → Step w (goland_cpu_release p w).1
    exit_task : (p : Task) (w : World) → Step w (goland_exit_task p w).1
    tick : (w : World) → Step w (usersched_timer_fn w).1
    select : (a : TaskCpuArg) (w : World) → Step w (rs_select_cpu a w).1
    preempt : (a : PreemptCpuArg) (w : World) → Step w (do_preempt a w).1
    sibling : (a : DomainArg) (w : World) → Step w (enable_sibling_cpu a w).1
    complete : (left : ℕ) (w : World) → Step w (through (notify_complete left) w)
    take_queued : (w : World) → Step w (through sub_nr_queued w)

  pub data Reach (s : World) : World → Type 0 where
    here : Reach s s
    next : {u v : World} → Reach s u → Step u v → Reach s v

  complete-Preserves :
      (g : Ghost) (left : ℕ) (w : World) → Preserves g w (through (notify_complete left) w)
  unfolding notify_complete
  complete-Preserves g left w h = ground arith

  take_queued-Preserves : (g : Ghost) (w : World) → Preserves g w (through sub_nr_queued w)
  unfolding sub_nr_queued
  take_queued-Preserves g w h = ground arith

  -- Only the dispatch callback serves a request for the user-space scheduler.
  abbrev pub serves : {u v : World} → Step u v → Bool
  serves (dispatch cpu prev samples w) = true
  serves _ = false

  -- What is known after a step, from what is known before.
  abbrev pub after : {u v : World} → Step u v → Ghost → Ghost
  after (running p w) g = started g p w
  after (stopping p w) g = stopped g p w
  after _ g = g

  pub Step-Invariant :
      (g : Ghost) {u v : World} (st : Step u v)
      → (serves st ≡ true → g.request ≡ 0)
      → Invariant g 0 u
      → Invariant (after st g) 0 v
  Step-Invariant g (init w) n h = goland_init-Preserves g w h
  Step-Invariant g (init_task p w) n h = goland_init_task-Preserves g p w h
  Step-Invariant g (select_cpu p prev flags w) n h = goland_select_cpu-Preserves g p prev flags w h
  Step-Invariant g (enqueue p flags w) n h = goland_enqueue-Preserves g p flags w h
  Step-Invariant g (dispatch cpu prev samples w) n h =
      goland_dispatch-Preserves g (n refl) cpu prev samples w h
  Step-Invariant g (runnable p w) n h = goland_runnable-Preserves g p w h
  Step-Invariant g (running p w) n h = goland_running-Preserves g p w h
  Step-Invariant g (stopping p w) n h = goland_stopping-Preserves g p w h
  Step-Invariant g (cpu_release p w) n h = goland_cpu_release-Preserves g p w h
  Step-Invariant g (exit_task p w) n h = goland_exit_task-Preserves g p w h
  Step-Invariant g (tick w) n h = usersched_timer_fn-Preserves g w h
  Step-Invariant g (select a w) n h = rs_select_cpu-Preserves g a w h
  Step-Invariant g (preempt a w) n h = do_preempt-Preserves g a w h
  Step-Invariant g (sibling a w) n h = enable_sibling_cpu-Preserves g a w h
  Step-Invariant g (complete left w) n h = complete-Preserves g left w h
  Step-Invariant g (take_queued w) n h = take_queued-Preserves g w h

  abbrev pub none_running : Ghost
  none_running = record { request = 0; running = 0 }

  pub loaded-Invariant :
      (ro : Rodata) (cpus : List CpuCtx) → Invariant none_running 0 (loaded ro cpus)
  loaded-Invariant ro cpus = ground arith

  -- What is known at the end of a run.
  abbrev pub ghost_of : {s w : World} → Reach s w → Ghost
  ghost_of here = none_running
  ghost_of (next r st) = after st (ghost_of r)

  pub after-request : (g : Ghost) {u v : World} (st : Step u v) → (after st g).request ≡ g.request
  after-request g (running p w) = ground arith
  after-request g (stopping p w) = ground arith
  after-request g (init w) = refl
  after-request g (init_task p w) = refl
  after-request g (select_cpu p prev flags w) = refl
  after-request g (enqueue p flags w) = refl
  after-request g (dispatch cpu prev samples w) = refl
  after-request g (runnable p w) = refl
  after-request g (cpu_release p w) = refl
  after-request g (exit_task p w) = refl
  after-request g (tick w) = refl
  after-request g (select a w) = refl
  after-request g (preempt a w) = refl
  after-request g (sibling a w) = refl
  after-request g (complete left w) = refl
  after-request g (take_queued w) = refl

  pub ghost_of-request : {s w : World} (r : Reach s w) → (ghost_of r).request ≡ 0
  ghost_of-request here = refl
  ghost_of-request (next r st) = after-request (ghost_of r) st ∙ ghost_of-request r

  pub Reach-keeps :
      {s w : World} → Invariant none_running 0 s → (r : Reach s w) → Invariant (ghost_of r) 0 w
  Reach-keeps h here = h
  Reach-keeps h (next r st) =
      Step-Invariant (ghost_of r) st (λ _. ghost_of-request r) (Reach-keeps h r)

  -- From the program as loaded, after any sequence of callbacks, timer ticks and user-space calls
  -- and for any answers of the kernel: the wake-up flag is 0 or 1, neither map is larger than its
  -- limit, and every counter that the program adds to fits in 64 bits.
  pub Reach-IsValid :
      (ro : Rodata) (cpus : List CpuCtx) {w : World} → Reach (loaded ro cpus) w → IsValid w
  Reach-IsValid ro cpus r = (Reach-keeps (loaded-Invariant ro cpus) r).valid

  -- From the program as loaded, after any sequence of callbacks, timer ticks and user-space calls
  -- and for any answers of the kernel: the references to tasks, the masks and the rcu sections that
  -- were acquired are all released, every slot of the ring buffer that was reserved is submitted,
  -- and the counters of cancelled dispatches and of congestion are the numbers of cancelled
  -- dispatches and of reservations that found the ring full, modulo 2^64.
  pub Reach-IsSettled :
      (ro : Rodata) (cpus : List CpuCtx) {w : World} → Reach (loaded ro cpus) w → IsSettled 0 w
  Reach-IsSettled ro cpus r = (Reach-keeps (loaded-Invariant ro cpus) r).settled
