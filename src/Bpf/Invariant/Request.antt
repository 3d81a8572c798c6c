-- ===== src/Bpf/Invariant/Request.antt =====
-- main.bpf.c: a request for the user-space scheduler, from set_usersched_needed to the dispatch
-- callback that runs it.
use scx_goland_core.Base.{
  ℕ, true, Option, none, some, List, [], ◌∷◌, ◌≡◌, ◌∙◌, refl, false, ◌≤◌, ◌<◌, arith, length,
  Option-cases, inl, inr,
}
use scx_goland_core.Intf.{DispatchedTaskCtx}
use scx_goland_core.Kernel.Types.{Task, Event}
use scx_goland_core.Kernel.Oracle.{Kernel}
use scx_goland_core.Kernel.Observe.{errors, times_inserted}
use scx_goland_core.Bpf.State.{World, Rodata, CpuCtx, sched_dsq, pure}
use scx_goland_core.Bpf.Basic.{
  cpu_to_dsq, update_priority_task_map, test_and_clear_usersched_needed,
  usersched_has_pending_tasks, set_usersched_needed,
}
use scx_goland_core.Bpf.Rules.{if-run}
use scx_goland_core.Bpf.Idle.{kick_task_cpu}
use scx_goland_core.Bpf.Dispatch.{
  insert_shared, insert_target, insert_unless_prioritized, dispatch_to_cpu, dispatch_bounced,
  dispatch_found, dispatch_ref, dispatch_task, handle_dispatched_task, drain, fire_up,
  dispatch_user_scheduler, consume, dispatch_idle, replenish, goland_dispatch,
}
use scx_goland_core.Bpf.Invariant.Defs.{Ghost, Invariant}
use scx_goland_core.Bpf.Invariant.Reach.{
  Reach, Step, serves, after, after-request, Step-Invariant, Reach-keeps, loaded-Invariant,
  ghost_of, loaded,
}

-- Insertions and error reports are not taken back.
pub record Grows (u v : World) : Type 0 where
  pub inserts_grow : (pid dsq : ℕ) → times_inserted pid dsq u.trace ≤ times_inserted pid dsq v.trace
  pub errors_grow : length (errors u.trace) ≤ length (errors v.trace)

module _ ⦃k : Kernel⦄ where
  -- From a state in which a request for the user-space scheduler is pending: the steps before the
  -- next dispatch callback.
  pub data Waits (s : World) : World → Type 0 where
    start : Waits s s
    step : {u v : World} → Waits s u → (st : Step u v) → serves st ≡ false → Waits s v

  Waits-keeps :
      {s w : World} (g : Ghost)
      → Invariant g 0 s
      → g.request ≡ 1
      → Waits s w
      → (g' : Ghost) × Invariant g' 0 w × (g'.request ≡ 1)
  Waits-keeps g h e start = (g, h, e)
  Waits-keeps g h e (step t st n) =
      let (g', h', e') = Waits-keeps g h e t in
      (after st g', Step-Invariant g' st (λ y. ground (arith, n, y)) h', after-request g' st ∙ e')

  -- A request for the user-space scheduler that is pending in some reachable state is still pending
  -- after any sequence of steps without a dispatch callback.
  Waits-needed :
      (ro : Rodata) (cpus : List CpuCtx) {s w : World}
      → Reach (loaded ro cpus) s
      → s.bss.usersched_needed ≡ 1
      → Waits s w
      → w.bss.usersched_needed ≡ 1
  Waits-needed ro cpus r e t =
      let sound = Reach-keeps (loaded-Invariant ro cpus) r in
      let g : Ghost = record (ghost_of r) { request = 1 } in
      let (g', kept, due) =
        Waits-keeps g
          (record {
            valid = sound.valid;
            settled = sound.settled;
            requested = omega arith;
            running_counted = sound.running_counted;
          })
          refl t in
      ground (arith, kept, due)

  dispatch_found-Grows :
      (task : DispatchedTaskCtx) (p : Task) (w : World) → Grows w (dispatch_found task p w).1
  unfolding dispatch_found dispatch_to_cpu insert_unless_prioritized insert_target
      update_priority_task_map cpu_to_dsq dispatch_bounced insert_shared kick_task_cpu
  dispatch_found-Grows task p w = record {
    inserts_grow = λ pid dsq. ground arith;
    errors_grow = ground arith;
  }

  handle-Grows : (s : Option DispatchedTaskCtx) (w : World) → Grows w (handle_dispatched_task s w).1
  unfolding handle_dispatched_task dispatch_task dispatch_ref
  handle-Grows none w = record { inserts_grow = λ pid dsq. omega arith; errors_grow = omega arith }
  handle-Grows (some task) w = elim (Option-cases (k.task_from_pid w.trace task.pid)) [
    | inl e ↦ rw e (record { inserts_grow = λ pid dsq. omega arith; errors_grow = omega arith })
    | inr (p, e) ↦
        let v : World = record w { trace = Event.task_from_pid task.pid true ∷ w.trace } in
        let g = dispatch_found-Grows task p v in
        rw e
          (record { inserts_grow = λ pid dsq. g.inserts_grow pid dsq; errors_grow = g.errors_grow })
  ]

  drain-Grows :
      (samples : List (Option DispatchedTaskCtx)) (w : World) → Grows w (drain samples w).1
  unfolding drain
  drain-Grows [] w = record { inserts_grow = λ pid dsq. omega arith; errors_grow = omega arith }
  drain-Grows (s ∷ rest) w =
      let (stop, v) = handle_dispatched_task s w in
      let g = handle-Grows s w in
      let g' = drain-Grows rest v in
      record {
        inserts_grow = λ pid dsq. ground (arith, g.inserts_grow pid dsq, g'.inserts_grow pid dsq);
        errors_grow = ground (arith, g.errors_grow, g'.errors_grow);
      }

  consume-Grows : (cpu : ℕ) (w : World) → Grows w (consume cpu w).1
  unfolding consume cpu_to_dsq
  consume-Grows cpu w = record {
    inserts_grow = λ pid dsq. ground arith;
    errors_grow = ground arith;
  }

  dispatch_idle-Grows :
      (cpu : ℕ) (prev : Option Task) (w : World) → Grows w (dispatch_idle cpu prev w).1
  unfolding dispatch_idle usersched_has_pending_tasks set_usersched_needed replenish
  dispatch_idle-Grows cpu none w = record {
    inserts_grow = λ pid dsq. ground arith;
    errors_grow = ground arith;
  }
  dispatch_idle-Grows cpu (some p) w = record {
    inserts_grow = λ pid dsq. ground arith;
    errors_grow = ground arith;
  }

  -- The request is served for the scheduler's task: it is inserted into its own queue once more
  -- than before; with no such task one error more is reported.
  abbrev pub Served : Option Task → World → World → Type 0
  Served (some p) u v =
      times_inserted p.pid sched_dsq u.trace < times_inserted p.pid sched_dsq v.trace
  Served none u v = length (errors u.trace) < length (errors v.trace)

  Served-Grows : (p : Option Task) (u v w : World) → Served p u v → Grows v w → Served p u w
  Served-Grows (some p) u v w s g = ground (arith, g.inserts_grow p.pid sched_dsq)
  Served-Grows none u v w s g = ground (arith, g.errors_grow)

  fire_up-Served :
      (w : World)
      → w.bss.usersched_needed ≡ 1
      → Served (k.task_from_pid w.trace w.ro.usersched_pid) w (fire_up w).1
  unfolding fire_up test_and_clear_usersched_needed dispatch_user_scheduler
  fire_up-Served w h = elim (Option-cases (k.task_from_pid w.trace w.ro.usersched_pid)) [
    | inl e ↦ rw e (ground arith)
    | inr (p, e) ↦ rw e (ground arith)
  ]

  goland_dispatch-Served :
      (cpu : ℕ) (prev : Option Task) (samples : List (Option DispatchedTaskCtx)) (w : World)
      → w.bss.usersched_needed ≡ 1
      → Served (k.task_from_pid w.trace w.ro.usersched_pid) w (goland_dispatch cpu prev samples w).1
  unfolding goland_dispatch
  goland_dispatch-Served cpu prev samples w h =
      let u = (fire_up w).1 in
      let v = (drain samples u).1 in
      let (consumed, x) = consume cpu v in
      let p = k.task_from_pid w.trace w.ro.usersched_pid in
      let served =
        Served-Grows p w v x (Served-Grows p w u v (fire_up-Served w h) (drain-Grows samples u))
          (consume-Grows cpu v) in
      if-run (λ r. Served p w r.1) consumed (pure prev) (dispatch_idle cpu prev) x (λ _. served)
        (λ _. Served-Grows p w x _ served (dispatch_idle-Grows cpu prev x))

  -- A request for the user-space scheduler, made in any reachable state, survives whatever comes
  -- before the next dispatch callback, on any CPU, and that callback serves it: it inserts the
  -- task of the user-space scheduler into the scheduler's queue, or reports an error if there is
  -- no such task.
  pub request-Served :
      (ro : Rodata) (cpus : List CpuCtx) {s w : World}
      → Reach (loaded ro cpus) s
      → s.bss.usersched_needed ≡ 1
      → Waits s w
      → (cpu : ℕ) (prev : Option Task) (samples : List (Option DispatchedTaskCtx))
      → Served (k.task_from_pid w.trace w.ro.usersched_pid) w (goland_dispatch cpu prev samples w).1
  request-Served ro cpus {s} {w} r e t cpu prev samples =
      goland_dispatch-Served cpu prev samples w (Waits-needed ro cpus r e t)
