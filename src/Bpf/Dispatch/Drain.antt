-- ===== src/Bpf/Dispatch/Drain.antt =====
-- main.bpf.c, handle_dispatched_task: how much of the ring of user space one callback takes.
use scx_goland_core.Base.{
  ℕ, suc, Option, none, some, List, [], ◌∷◌, ◌≡◌, ◌≢◌, refl, ◌+◌, arith, ◌==◌, if◌then◌else◌,
}
use scx_goland_core.Intf.{DispatchedTaskCtx}
use scx_goland_core.Kernel.Types.{Task, Trace}
use scx_goland_core.Kernel.Oracle.{Kernel}
use scx_goland_core.Kernel.Observe.{lookups}
use scx_goland_core.Bpf.State.{World}
use scx_goland_core.Bpf.Calls.{task_from_pid, dispatch_nr_slots}
use scx_goland_core.Bpf.Basic.{cpu_to_dsq, update_priority_task_map}
use scx_goland_core.Bpf.Idle.{kick_task_cpu}
use scx_goland_core.Bpf.Dispatch.{
  insert_shared, insert_target, insert_unless_prioritized, dispatch_to_cpu, dispatch_bounced,
  dispatch_found, dispatch_ref, dispatch_task, handle_dispatched_task, drain,
}

abbrev pub valid_samples : List (Option DispatchedTaskCtx) → ℕ
valid_samples [] = 0
valid_samples (none ∷ rest) = valid_samples rest
valid_samples (some s ∷ rest) = suc (valid_samples rest)

module _ ⦃k : Kernel⦄ where
  dispatch_found-lookups :
      (task : DispatchedTaskCtx) (p : Task) (w : World)
      → lookups (dispatch_found task p w).1.trace ≡ lookups w.trace
  unfolding dispatch_found dispatch_to_cpu insert_unless_prioritized insert_target
      update_priority_task_map cpu_to_dsq dispatch_bounced insert_shared kick_task_cpu
  dispatch_found-lookups task p w = ground arith

  dispatch_ref-lookups :
      (task : DispatchedTaskCtx) (p : Option Task) (w : World)
      → lookups (dispatch_ref task p w).1.trace ≡ lookups w.trace
  unfolding dispatch_ref
  dispatch_ref-lookups task none w = refl
  dispatch_ref-lookups task (some p) w = dispatch_found-lookups task p w

  pub dispatch_task-lookups :
      (task : DispatchedTaskCtx) (w : World)
      → lookups (dispatch_task task w).1.trace ≡ suc (lookups w.trace)
  unfolding dispatch_task
  dispatch_task-lookups task w =
      dispatch_ref-lookups task (k.task_from_pid w.trace task.pid) (task_from_pid task.pid w).1

  -- While dispatch slots are left, a drain looks up (and so dispatches) exactly one task if some
  -- valid sample waits, however many there are, and none if there is no valid one.
  drain_one :
      (samples : List (Option DispatchedTaskCtx)) (w : World)
      → ((t : Trace) → k.dispatch_nr_slots t ≢ 0)
      → lookups (drain samples w).1.trace
        ≡ (if valid_samples samples == 0 then lookups w.trace else suc (lookups w.trace))
  unfolding drain handle_dispatched_task
  drain_one [] w slots = refl
  drain_one (none ∷ rest) w slots = drain_one rest w slots
  drain_one (some s ∷ rest) w slots =
      let v = (dispatch_task s w).1 in ground (arith, slots v.trace, dispatch_task-lookups s w)

  -- With no dispatch slot left, a drain goes on through every sample and dispatches all the valid
  -- ones.
  drain_all :
      (samples : List (Option DispatchedTaskCtx)) (w : World)
      → ((t : Trace) → k.dispatch_nr_slots t ≡ 0)
      → lookups (drain samples w).1.trace ≡ valid_samples samples + lookups w.trace
  unfolding drain handle_dispatched_task
  drain_all [] w slots = omega arith
  drain_all (none ∷ rest) w slots = drain_all rest w slots
  drain_all (some s ∷ rest) w slots =
      let v = (dispatch_task s w).1 in
      ground (
        arith,
        slots v.trace,
        dispatch_task-lookups s w,
        drain_all rest (dispatch_nr_slots v).1 slots,
      )
