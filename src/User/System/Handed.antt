-- ===== src/User/System/Handed.antt =====
-- main.go and main.bpf.c: a task that a turn of the loop takes out of the pool, up to the queue of a CPU.
use scx_goland_core.Base.{
  ℕ, ◌+◌, ◌≤◌, ◌<◌, ◌^◌, ◌≡◌, ◌≢◌, refl, ap, ◌∙◌, ◌==◌, false, inl, inr, Bool-cases, Option, some,
  List, [], ◌∷◌, map, arith, subst, sym,
}
use scx_goland_core.Intf.{DispatchedTaskCtx, rl_cpu_any}
use scx_goland_core.Kernel.Types.{Task, Event}
use scx_goland_core.Kernel.Oracle.{Kernel}
use scx_goland_core.Bpf.State.{World, Bss}
use scx_goland_core.Bpf.Calls.{dispatch_nr_slots}
use scx_goland_core.Bpf.Dispatch.{dispatch_task, handle_dispatched_task, drain}
use scx_goland_core.Bpf.Dispatch.Insert.{
  Shared, Targeted, bounce_counted, Placed, DispatchedAs, dispatch_task-DispatchedAs,
}
use scx_goland_core.User.Run.{Returns, Returns-map}
use scx_goland_core.User.Message.{Bytes, QueuedTask}
use scx_goland_core.User.Message.Layout.{dispatched_sample}
use scx_goland_core.User.Vruntime.{slice_ns_default, slice_ns_min}
use scx_goland_core.User.Pool
use scx_goland_core.User.Pool.{get_task_from_pool}
use scx_goland_core.User.Pool.Ring.{IsValid, contents}
use scx_goland_core.User.Sched.{Sched, Libbpf, minus_one}
use scx_goland_core.User.Drain.{User}
use scx_goland_core.User.Loop.{next_task, loop_step}
use scx_goland_core.User.Loop.Dispatched.{Fits, Sent, Dispatched, read_for, search}
use scx_goland_core.User.Loop.First.{loop_step-FirstLeft}

Shared-later :
    (task : DispatchedTaskCtx) (p : Task) (bss : Bss) (u v : World) (n : ℕ)
    → Shared task p bss u v
    → Shared task p bss u (record v { trace = Event.dispatch_nr_slots n ∷ v.trace })
Shared-later task p bss u v n h = record {
  inserted = h.inserted;
  counted = h.counted;
  priority_same = h.priority_same;
  not_cancelled = h.not_cancelled;
}

Targeted-later :
    (task : DispatchedTaskCtx) (p : Task) (u v : World) (n : ℕ)
    → Targeted task p u v
    → Targeted task p u (record v { trace = Event.dispatch_nr_slots n ∷ v.trace })
Targeted-later task p u v n h = record {
  allowed = h.allowed;
  inserted = h.inserted;
  counted = h.counted;
  priority_updated = h.priority_updated;
}

module _ ⦃k : Kernel⦄ where
  -- The question for the slots that are left changes nothing of this.
  Placed-later :
      (task : DispatchedTaskCtx) (p : Task) (u v : World) (n : ℕ)
      → Placed task p u v
      → Placed task p u (record v { trace = Event.dispatch_nr_slots n ∷ v.trace })
  Placed-later task p u v n h = elim (Bool-cases (task.cpu == rl_cpu_any)) [
    | inl e ↦ rw e (Shared-later task p u.bss u v n (rw e at h))
    | inr e ↦ rw e (elim (rw e at h) [
      | inl shared ↦ inl (Shared-later task p (bounce_counted u.bss) u v n shared)
      | inr target ↦ inr (Targeted-later task p u v n target)
    ])
  ]

  DispatchedAs-found :
      (task : DispatchedTaskCtx) (found : Option Task) (p : Task) (u v : World)
      → found ≡ some p
      → DispatchedAs task found u v
      → Placed task p u v
  DispatchedAs-found task found p u v e h = (subst (λ f. DispatchedAs task f u v) e h).0

  drain-single :
      (task : DispatchedTaskCtx) (w : World)
      → (drain (some task ∷ []) w).1 ≡ (dispatch_nr_slots (dispatch_task task w).1).1
  unfolding drain handle_dispatched_task
  drain-single task w = ground arith

  -- The only sample that waits is dispatched, whatever slots are left.
  drain-Placed :
      (task : DispatchedTaskCtx) (p : Task) (w : World)
      → k.task_from_pid w.trace task.pid ≡ some p
      → Placed task p w (drain (some task ∷ []) w).1
  drain-Placed task p w e =
      let v = (dispatch_task task w).1 in
      subst (Placed task p w) (sym (drain-single task w)) (
        Placed-later task p w v (k.dispatch_nr_slots v.trace) (
          DispatchedAs-found task (k.task_from_pid w.trace task.pid) p w v e
            (dispatch_task-DispatchedAs task w)))

-- What is asked for a task, and what the next dispatch callback makes of it in the state `w`.
pub record Handed ⦃k : Kernel⦄ (t : QueuedTask) (p : Task) (w : World) (v : User) : Type 0 where
  pub task : DispatchedTaskCtx
  pub same_task : (task.pid ≡ t.pid) × (task.flags ≡ t.flags) × (task.vtime ≡ t.vtime)
  pub slice_bounds : (slice_ns_min ≤ task.slice_ns) × (task.slice_ns ≤ slice_ns_default)
  pub waiting : map dispatched_sample v.sched.dispatch ≡ some task ∷ []
  pub placed : Placed task p w (drain (map dispatched_sample v.sched.dispatch) w).1

module _ ⦃b : Libbpf⦄ ⦃k : Kernel⦄ where
  Sent-Handed :
      (t : QueuedTask) (p : Task) (w : World) (cpu : ℕ) (s : Sched) (u v : User)
      → u.sched.dispatch ≡ []
      → k.task_from_pid w.trace t.pid ≡ some p
      → Sent (read_for t cpu u.sched.world.bss) s u v
      → Handed t p w v
  Sent-Handed t p w cpu s u v none_waits named sent =
      let task = read_for t cpu u.sched.world.bss in
      let one : map dispatched_sample v.sched.dispatch ≡ some task ∷ [] =
        ap (λ z. map dispatched_sample z.dispatch) sent.appended
        ∙ (rw none_waits (ap (λ z. z ∷ []) sent.read)) in
      record {
        task = task;
        same_task = (refl, refl, refl);
        slice_bounds = sent.slice_bounds;
        waiting = one;
        placed = subst (λ z. Placed task p w (drain z w).1) (sym one) (drain-Placed task p w named);
      }

  Dispatched-Handed :
      (t : QueuedTask) (p : Task) (w : World) (u v : User)
      → ((x : World) → b.urb_fails x ≡ false)
      → u.sched.dispatch ≡ []
      → k.task_from_pid w.trace t.pid ≡ some p
      → Dispatched t u v
      → Handed t p w v
  Dispatched-Handed t p w u v works none_waits named (inl (e, same)) =
      absurd (ground (arith, works (search t u.sched).1))
  Dispatched-Handed t p w u v works none_waits named (inr (e, sent)) =
      let s : Sched = record (u.sched) { world = (search t u.sched).1 } in
      Sent-Handed t p w (search t u.sched).0 s u v none_waits named sent

  -- A turn of the outer loop with a valid pool that holds tasks and no message that waits, where the
  -- counts of tasks do not wrap, the first task is not the one with PID -1, the ring buffer of user space
  -- works, and the kernel knows the task by its PID: exactly one message waits afterwards, for this task,
  -- with its flags and vtime and a slice between half a millisecond and five milliseconds; and whatever
  -- the state of main.bpf.c when a dispatch callback drains the ring, and however many slots it has, the
  -- task is inserted once, into the shared queue if no CPU was chosen, else into the shared queue with a
  -- bounce or into the queue of the chosen CPU (not if enqueue has inserted it already).
  pub loop_step-Handed :
      (arrivals : ℕ → List Bytes) (waited : List Bytes) (t : Pool.Task) (ts : List Pool.Task)
      (p : Task) (w : World) (u : User)
      → IsValid u.pool
      → contents u.pool ≡ t ∷ ts
      → Fits t.queued
      → t.queued.pid ≢ minus_one
      → u.sched.world.bss.nr_queued + u.sched.world.bss.nr_scheduled + 1 < 2 ^ 64
      → ((x : World) → b.urb_fails x ≡ false)
      → u.sched.dispatch ≡ []
      → k.task_from_pid w.trace t.queued.pid ≡ some p
      → Returns (λ r. Handed t.queued p w r.1) (loop_step arrivals waited next_task u)
  loop_step-Handed arrivals waited t ts p w u valid first fits id small works none_waits named =
      Returns-map (λ r. Handed t.queued p w r.1) (loop_step arrivals waited next_task u)
        (loop_step-FirstLeft arrivals waited t ts u valid first fits id small)
        (λ r left.
          Dispatched-Handed t.queued p w (record u { pool = (get_task_from_pool u.pool).1 }) r.1
            works none_waits named left.dispatched)
