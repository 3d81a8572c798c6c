-- ===== src/Bpf/Dispatch/Insert.antt =====
-- main.bpf.c, dispatch_task: where a task that user space hands back ends up.
use scx_goland_core.Base.{
  ℕ, suc, Bool, true, false, Option, none, some, ◌∷◌, ◌≡◌, refl, ◌+◌, ◌<◌, arith, ◌==◌, ◌⊎◌, ◌&&◌,
  if◌then◌else◌, is_some,
}
use scx_goland_core.Base.Word.{add64}
use scx_goland_core.Base.HashMap.{lookup, update, delete}
use scx_goland_core.Intf.{DispatchedTaskCtx, rl_cpu_any}
use scx_goland_core.Kernel.Types.{Task, Event}
use scx_goland_core.Kernel.Oracle.{Kernel}
use scx_goland_core.Kernel.Observe.{Insert, inserts, cancels, passed, task_gets, task_puts}
use scx_goland_core.Bpf.State.{World, Bss, shared_dsq, max_enqueued_tasks}
use scx_goland_core.Bpf.Calls.{cpumask_test_cpu, cpus_of, task_cpu}
use scx_goland_core.Bpf.Basic.{cpu_to_dsq, update_priority_task_map}
use scx_goland_core.Bpf.Idle.{kick_task_cpu}
use scx_goland_core.Bpf.Select.Direct.{dsq_of}
use scx_goland_core.Bpf.Dispatch.{
  insert_shared, insert_target, insert_unless_prioritized, dispatch_to_cpu, dispatch_bounced,
  dispatch_found, dispatch_ref, dispatch_task,
}

abbrev pub insert_into : ℕ → DispatchedTaskCtx → Task → Insert
insert_into dsq task p = record {
  pid = p.pid;
  dsq = dsq;
  slice = task.slice_ns;
  flags = task.flags;
}

-- The task goes to the shared queue, with the counters of `bss`.
pub record Shared (task : DispatchedTaskCtx) (p : Task) (bss : Bss) (u v : World) : Type 0 where
  pub inserted : inserts v.trace ≡ insert_into shared_dsq task p ∷ inserts u.trace
  pub counted : v.bss ≡ bss
  pub priority_same : v.priority_tasks ≡ u.priority_tasks
  pub not_cancelled : cancels v.trace ≡ cancels u.trace

-- Enqueue has already inserted this task.
abbrev pub is_done : DispatchedTaskCtx → World → Bool
is_done task u = task.vtime == 0 && is_some (lookup task.pid u.priority_tasks)

abbrev pub bounce_counted : Bss → Bss
bounce_counted b = record b { nr_bounce_dispatches = add64 b.nr_bounce_dispatches 1 }

abbrev pub user_counted : Bool → Bss → Bss
user_counted true b = b
user_counted false b = record b { nr_user_dispatches = add64 b.nr_user_dispatches 1 }

abbrev pub cancel_counted : Bss → Bss
cancel_counted b = record b { nr_cancel_dispatches = add64 b.nr_cancel_dispatches 1 }

-- The task goes to the queue of the CPU that user space chose, unless it is there already.
pub record Targeted (task : DispatchedTaskCtx) (p : Task) (u v : World) : Type 0 where
  pub allowed : passed task.cpu p.pid u.trace < passed task.cpu p.pid v.trace
  pub inserted : inserts v.trace ≡ (
      if is_done task u
      then inserts u.trace
      else insert_into (dsq_of task.cpu) task p ∷ inserts u.trace)
  pub counted :
      (v.bss ≡ user_counted (is_done task u) u.bss) × (cancels v.trace ≡ cancels u.trace)
      ⊎ (v.bss ≡ cancel_counted (user_counted (is_done task u) u.bss))
        × (cancels v.trace ≡ suc (cancels u.trace))
  pub priority_updated : v.priority_tasks ≡ (
      if task.vtime == 0
      then update max_enqueued_tasks task.pid task.slice_ns u.priority_tasks
      else delete task.pid u.priority_tasks)

-- With no CPU chosen, the shared queue; else the shared queue and one more bounce, or the target.
abbrev pub Placed : DispatchedTaskCtx → Task → World → World → Type 0
Placed task p u v =
    if task.cpu == rl_cpu_any
    then Shared task p u.bss u v
    else (Shared task p (bounce_counted u.bss) u v ⊎ Targeted task p u v)

module _ ⦃k : Kernel⦄ where
  dispatch_to_cpu-Targeted :
      (task : DispatchedTaskCtx) (p : Task) (u w : World)
      → passed task.cpu p.pid u.trace < passed task.cpu p.pid w.trace
      → inserts w.trace ≡ inserts u.trace
      → cancels w.trace ≡ cancels u.trace
      → w.bss ≡ u.bss
      → w.priority_tasks ≡ u.priority_tasks
      → Targeted task p u (dispatch_to_cpu task p w).1
  unfolding dispatch_to_cpu insert_unless_prioritized insert_target update_priority_task_map
      cpu_to_dsq
  dispatch_to_cpu-Targeted task p u w a i c b q = ground arith

  dispatch_found-Placed :
      (task : DispatchedTaskCtx) (p : Task) (u : World)
      → Placed task p u (dispatch_found task p u).1
  unfolding dispatch_found dispatch_bounced insert_shared kick_task_cpu
  dispatch_found-Placed task p u = ground (
    arith,
    dispatch_to_cpu-Targeted task p u (cpumask_test_cpu task.cpu (cpus_of p) (task_cpu p u).1).1,
  )

  -- The references to tasks that a run takes, it gives back.
  abbrev pub Balanced : World → World → Type 0
  Balanced u v = task_gets v.trace + task_puts u.trace ≡ task_gets u.trace + task_puts v.trace

  dispatch_found-Balanced :
      (task : DispatchedTaskCtx) (p : Task) (u : World) → Balanced u (dispatch_found task p u).1
  unfolding dispatch_found dispatch_to_cpu insert_unless_prioritized insert_target
      update_priority_task_map cpu_to_dsq dispatch_bounced insert_shared kick_task_cpu
  dispatch_found-Balanced task p u = ground arith

  -- What a dispatch does, for the task that its PID names.
  abbrev pub DispatchedAs : DispatchedTaskCtx → Option Task → World → World → Type 0
  DispatchedAs task none u v =
      (v ≡ record u { trace = Event.task_from_pid task.pid false ∷ u.trace })
  DispatchedAs task (some p) u v = Placed task p u v × Balanced u v

  -- A PID that names no task is ignored. A task with no CPU chosen is inserted once into the shared
  -- queue. A task with a chosen CPU is inserted once into the shared queue, which counts one
  -- bounce; or its mask was found to hold the CPU, and it is inserted once into the queue of that
  -- CPU, which counts one user dispatch (neither, if its vtime is 0 and it is in the map of the
  -- priority tasks), the map is updated by its vtime, and a cancelled dispatch is counted if and
  -- only if one is issued. Each task reference is given back.
  pub dispatch_task-DispatchedAs :
      (task : DispatchedTaskCtx) (u : World)
      → DispatchedAs task (k.task_from_pid u.trace task.pid) u (dispatch_task task u).1
  unfolding dispatch_task dispatch_ref
  dispatch_task-DispatchedAs task u = go (k.task_from_pid u.trace task.pid)
    where
      go :
          (found : Option Task)
          → DispatchedAs task found u
              (dispatch_ref task found
                (record u { trace = Event.task_from_pid task.pid (is_some found) ∷ u.trace })).1
      go none = refl
      go (some p) =
          let w : World = record u { trace = Event.task_from_pid task.pid true ∷ u.trace } in
          ground (arith, dispatch_found-Placed task p w, dispatch_found-Balanced task p w)
