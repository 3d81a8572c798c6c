-- ===== src/Bpf/Tasks/Runtime.antt =====
-- main.bpf.c: the times that runnable, running and stopping keep for a task.
use scx_goland_core.Base.{
  ℕ, true, false, Option, none, some, ◌∷◌, ◌≡◌, ◌+◌, ◌-◌, ◌≤◌, ◌<◌, ◌^◌, arith, ◌==◌, inl, inr,
  if◌then◌else◌, Option-cases,
}
use scx_goland_core.Base.Word.{sub64}
use scx_goland_core.Base.HashMap.{lookup, fits, lookup-replace, lookup-update}
use scx_goland_core.Intf.{max_cpus}
use scx_goland_core.Kernel.Types.{Task, Event}
use scx_goland_core.Kernel.Oracle.{Kernel}
use scx_goland_core.Bpf.State.{World, TaskCtx}
use scx_goland_core.Bpf.Calls.{task_cpu, scx_now}
use scx_goland_core.Bpf.Basic.{put_task_ctx, try_lookup_task_ctx, is_usersched_task}
use scx_goland_core.Bpf.Tasks.{
  task_started, task_stopped, count_running, update_task_ctx, set_running_task, goland_runnable,
  task_starts, goland_running, goland_stopping,
}

abbrev pub ctx_of : World → Task → Option TaskCtx
ctx_of w p = lookup p.pid w.task_ctx

update_task_ctx-lookup :
    (p : Task) (f : TaskCtx → TaskCtx) (pid : ℕ) (w : World)
    → lookup pid (update_task_ctx p f w).1.task_ctx ≡ (
        if p.pid == pid
        then elim (lookup p.pid w.task_ctx) [ none ↦ none | some c ↦ some (f c) ]
        else lookup pid w.task_ctx)
unfolding update_task_ctx try_lookup_task_ctx put_task_ctx
update_task_ctx-lookup p f pid w = elim (Option-cases (lookup p.pid w.task_ctx)) [
  | inl e ↦ ground arith
  | inr (c, e) ↦ ground (arith, lookup-replace p.pid pid (f c) w.task_ctx)
]

-- Becoming runnable resets the execution time of the task, and of no other; the user-space
-- scheduler's is never touched.
goland_runnable-lookup :
    (p : Task) (pid : ℕ) (w : World)
    → lookup pid (goland_runnable p w).1.task_ctx ≡ (
        if p.pid == pid
        then elim (lookup p.pid w.task_ctx) [
          | none ↦ none
          | some c ↦ some (if is_usersched_task w.ro p then c else record c { exec_runtime = 0 })
        ]
        else lookup pid w.task_ctx)
unfolding goland_runnable
goland_runnable-lookup p pid w = elim (Option-cases (lookup p.pid w.task_ctx)) [
  | inl e ↦ ground (arith, update_task_ctx-lookup p (λ c. record c { exec_runtime = 0 }) pid w)
  | inr (c, e) ↦ ground (arith, update_task_ctx-lookup p (λ c. record c { exec_runtime = 0 }) pid w)
]

module _ ⦃k : Kernel⦄ where
  -- The time that the kernel gives when a task starts.
  abbrev pub start_time : World → Task → ℕ
  start_time w p = k.now (Event.task_cpu p.pid (k.task_cpu w.trace p.pid) ∷ w.trace)

  running-lookup :
      (p : Task) (c : TaskCtx) (w : World)
      → is_usersched_task w.ro p ≡ false
      → ctx_of w p ≡ some c
      → ctx_of (goland_running p w).1 p ≡ some (record c { start_ts = start_time w p })
  unfolding goland_running task_starts set_running_task try_lookup_task_ctx
  running-lookup p c w other e =
      let (cpu, v1) = task_cpu p w in
      let v2 = (scx_now (count_running (set_running_task cpu p.pid v1).1).1).1 in
      ground (arith, update_task_ctx-lookup p (task_started (start_time w p)) p.pid v2)

  stopping-lookup :
      (p : Task) (c : TaskCtx) (w : World)
      → is_usersched_task w.ro p ≡ false
      → ctx_of w p ≡ some c
      → ctx_of (goland_stopping p w).1 p ≡ some (task_stopped (k.now w.trace) c)
  unfolding goland_stopping
  stopping-lookup p c w other e =
      let v1 = (task_cpu p (scx_now w).1).1 in
      let v2 : World = record v1 {
        bss = record (v1.bss) { nr_running = sub64 v1.bss.nr_running 1 };
      } in
      ground (arith, update_task_ctx-lookup p (task_stopped (k.now w.trace)) p.pid v2)

  -- A task other than the user-space scheduler that has storage, starts, and later stops, with its
  -- storage left alone between the two, is charged exactly the time between the two readings of the
  -- clock, on top of what it had, if the clock does not run backwards and the sum of the run time
  -- and the second reading fits in 64 bits.
  pub stopping-running :
      (p : Task) (c : TaskCtx) (w u : World)
      → is_usersched_task w.ro p ≡ false
      → is_usersched_task u.ro p ≡ false
      → ctx_of w p ≡ some c
      → ctx_of u p ≡ ctx_of (goland_running p w).1 p
      → start_time w p ≤ k.now u.trace
      → c.exec_runtime + k.now u.trace < 2 ^ 64
      → ctx_of (goland_stopping p u).1 p
        ≡ some (record c {
          start_ts = start_time w p;
          stop_ts = k.now u.trace;
          exec_runtime = c.exec_runtime + (k.now u.trace - start_time w p);
        })
  stopping-running p c w u other other' e between later small =
      let c' : TaskCtx = record c { start_ts = start_time w p } in
      ground (arith, running-lookup p c w, stopping-lookup p c' u)

  -- For a task other than the user-space scheduler, with the count of running tasks below 2^64 - 1
  -- and left alone between the two: starting takes it up by one, and stopping takes it back.
  nr_running-stopping :
      (p : Task) (w u : World)
      → is_usersched_task w.ro p ≡ false
      → is_usersched_task u.ro p ≡ false
      → w.bss.nr_running + 1 < 2 ^ 64
      → u.bss.nr_running ≡ (goland_running p w).1.bss.nr_running
      → ((goland_running p w).1.bss.nr_running ≡ w.bss.nr_running + 1)
        × ((goland_stopping p u).1.bss.nr_running ≡ w.bss.nr_running)
  unfolding goland_running goland_stopping task_starts set_running_task update_task_ctx put_task_ctx
      try_lookup_task_ctx
  nr_running-stopping p w u other other' small same = ground arith

  -- For a task other than the user-space scheduler, with the map left alone between the two:
  -- starting records the task as the one that runs on its CPU, if the map has the CPU or room for
  -- it; stopping leaves that record, and every other, as it is.
  running_task-stopping :
      (p : Task) (cpu : ℕ) (w u : World)
      → is_usersched_task w.ro p ≡ false
      → fits max_cpus (k.task_cpu w.trace p.pid) w.running_task ≡ true
      → u.running_task ≡ (goland_running p w).1.running_task
      → lookup cpu (goland_stopping p u).1.running_task
        ≡ (if k.task_cpu w.trace p.pid == cpu then some p.pid else lookup cpu w.running_task)
  unfolding goland_running goland_stopping task_starts set_running_task update_task_ctx put_task_ctx
      try_lookup_task_ctx
  running_task-stopping p cpu w u other room same =
      ground (arith, lookup-update max_cpus (k.task_cpu w.trace p.pid) cpu p.pid w.running_task)
