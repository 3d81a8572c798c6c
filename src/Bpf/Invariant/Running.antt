-- ===== src/Bpf/Invariant/Running.antt =====
-- main.bpf.c, goland_running and goland_stopping: nr_running over a whole run.
use scx_goland_core.Base.{ℕ, ◌≡◌, ◌+◌, ◌%◌, ◌^◌, ◌<◌, List, refl, arith, if◌then◌else◌}
use scx_goland_core.Kernel.Oracle.{Kernel}
use scx_goland_core.Bpf.State.{World, Rodata, CpuCtx}
use scx_goland_core.Bpf.Basic.{is_usersched_task}
use scx_goland_core.Bpf.Invariant.Defs.{Ghost}
use scx_goland_core.Bpf.Invariant.Reach.{
  Step, init, init_task, select_cpu, enqueue, dispatch, runnable, running, stopping, cpu_release,
  exit_task, tick, select, preempt, sibling, complete, take_queued, Reach, here, next, after,
  ghost_of, Reach-keeps, loaded, loaded-Invariant,
}

module _ ⦃k : Kernel⦄ where
  -- The starts, and the stops, of tasks other than the user-space scheduler.
  abbrev pub start_of_step : {u v : World} → Step u v → ℕ
  start_of_step (running p w) = if is_usersched_task w.ro p then 0 else 1
  start_of_step _ = 0

  abbrev pub stop_of_step : {u v : World} → Step u v → ℕ
  stop_of_step (stopping p w) = if is_usersched_task w.ro p then 0 else 1
  stop_of_step _ = 0

  abbrev pub starts : {s w : World} → Reach s w → ℕ
  starts here = 0
  starts (next r st) = start_of_step st + starts r

  abbrev pub stops : {s w : World} → Reach s w → ℕ
  stops here = 0
  stops (next r st) = stop_of_step st + stops r

  -- The count `n`, after `a` starts and `b` stops.
  abbrev Agrees : ℕ → ℕ → ℕ → Type 0
  Agrees n a b = (n < 2 ^ 64) × ((n + b) % 2 ^ 64 ≡ a % 2 ^ 64)

  after-Agrees :
      (g : Ghost) {u v : World} (st : Step u v) (a b : ℕ)
      → Agrees g.running a b
      → Agrees (after st g).running (start_of_step st + a) (stop_of_step st + b)
  after-Agrees g (running p w) a b h = ground arith
  after-Agrees g (stopping p w) a b h = ground arith
  after-Agrees g (init w) a b h = ground arith
  after-Agrees g (init_task p w) a b h = ground arith
  after-Agrees g (select_cpu p prev flags w) a b h = ground arith
  after-Agrees g (enqueue p flags w) a b h = ground arith
  after-Agrees g (dispatch cpu prev samples w) a b h = ground arith
  after-Agrees g (runnable p w) a b h = ground arith
  after-Agrees g (cpu_release p w) a b h = ground arith
  after-Agrees g (exit_task p w) a b h = ground arith
  after-Agrees g (tick w) a b h = ground arith
  after-Agrees g (select i w) a b h = ground arith
  after-Agrees g (preempt i w) a b h = ground arith
  after-Agrees g (sibling i w) a b h = ground arith
  after-Agrees g (complete left w) a b h = ground arith
  after-Agrees g (take_queued w) a b h = ground arith

  ghost_of-Agrees : {s w : World} (r : Reach s w) → Agrees (ghost_of r).running (starts r) (stops r)
  ghost_of-Agrees here = (omega arith, refl)
  ghost_of-Agrees (next r st) =
      after-Agrees (ghost_of r) st (starts r) (stops r) (ghost_of-Agrees r)

  -- After any run of the loaded program, the count of running tasks and the stops of the run make
  -- up its starts, modulo 2^64: each start and each stop of a task other than the user-space
  -- scheduler is counted once, and no other step touches the count.
  pub nr_running-starts :
      (ro : Rodata) (cpus : List CpuCtx) {w : World} (r : Reach (loaded ro cpus) w)
      → (w.bss.nr_running + stops r) % 2 ^ 64 ≡ starts r % 2 ^ 64
  nr_running-starts ro cpus r =
      ground (arith, Reach-keeps (loaded-Invariant ro cpus) r, ghost_of-Agrees r)
