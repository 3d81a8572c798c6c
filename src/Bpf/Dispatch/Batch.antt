-- ===== src/Bpf/Dispatch/Batch.antt =====
-- main.bpf.c, goland_dispatch: how many tasks one callback hands back, with the batch size that the
-- program asks for.
use scx_goland_core.Base.{
  ℕ, suc, ◌+◌, ◌≤◌, ◌<◌, ◌≡◌, ◌≢◌, refl, ap, arith, Option, none, some, List, [], ◌∷◌, length, ◌⊎◌,
  inl, inr, ◌==◌, if◌then◌else◌, Bool-cases, Option-cases,
}
use scx_goland_core.Intf.{DispatchedTaskCtx, rl_cpu_any}
use scx_goland_core.Kernel.Types.{Task, Trace}
use scx_goland_core.Kernel.Oracle.{Kernel}
use scx_goland_core.Kernel.Observe.{inserts, lookups}
use scx_goland_core.Bpf.State.{World, max_dispatch_slot}
use scx_goland_core.Bpf.Basic.{
  cpu_to_dsq, test_and_clear_usersched_needed, usersched_has_pending_tasks, set_usersched_needed,
}
use scx_goland_core.Bpf.Dispatch.{
  dispatch_task, handle_dispatched_task, drain, fire_up, dispatch_user_scheduler, consume,
  dispatch_idle, replenish, goland_dispatch,
}
use scx_goland_core.Bpf.Dispatch.Insert.{
  Shared, Targeted, bounce_counted, Placed, DispatchedAs, dispatch_task-DispatchedAs,
}
use scx_goland_core.Bpf.Dispatch.Drain.{valid_samples, dispatch_task-lookups}

-- At most one task more is inserted.
abbrev AtMostOne : World → World → Type 0
AtMostOne u v = length (inserts v.trace) ≤ suc (length (inserts u.trace))

Placed-AtMostOne :
    (task : DispatchedTaskCtx) (p : Task) (u v : World) → Placed task p u v → AtMostOne u v
Placed-AtMostOne task p u v h = elim (Bool-cases (task.cpu == rl_cpu_any)) [
  | inl e ↦ let s : Shared task p u.bss u v = rw e at h in omega (arith, ap length s.inserted)
  | inr e ↦
      let placed : Shared task p (bounce_counted u.bss) u v ⊎ Targeted task p u v = rw e at h in
      elim placed [
        | inl s ↦ omega (arith, ap length s.inserted)
        | inr t ↦ ground (arith, ap length t.inserted)
      ]
]

module _ ⦃k : Kernel⦄ where
  DispatchedAs-AtMostOne :
      (task : DispatchedTaskCtx) (found : Option Task) (u v : World)
      → DispatchedAs task found u v
      → AtMostOne u v
  DispatchedAs-AtMostOne task none u v h = omega (arith, ap (λ w. length (inserts w.trace)) h)
  DispatchedAs-AtMostOne task (some p) u v h = Placed-AtMostOne task p u v h.0

  -- What the kernel says of the slots that are left: there are some as long as fewer tasks than the batch
  -- size have been inserted since the callback began, with `base` insertions before it.
  abbrev pub HasSlots : ℕ → Type 0
  HasSlots base =
      (t : Trace) → length (inserts t) < base + max_dispatch_slot → k.dispatch_nr_slots t ≢ 0

  drain-lookups :
      (base : ℕ) (samples : List (Option DispatchedTaskCtx)) (w : World)
      → HasSlots base
      → length (inserts w.trace) + 1 < base + max_dispatch_slot
      → lookups (drain samples w).1.trace
        ≡ (if valid_samples samples == 0 then lookups w.trace else suc (lookups w.trace))
  unfolding drain handle_dispatched_task
  drain-lookups base [] w slots few = refl
  drain-lookups base (none ∷ rest) w slots few = drain-lookups base rest w slots few
  drain-lookups base (some s ∷ rest) w slots few =
      let v = (dispatch_task s w).1 in
      let one =
        DispatchedAs-AtMostOne s (k.task_from_pid w.trace s.pid) w v
          (dispatch_task-DispatchedAs s w) in
      ground (arith, slots v.trace (omega (arith, one)), dispatch_task-lookups s w)

  user_scheduler-lookups :
      (w : World)
      → (length (inserts (dispatch_user_scheduler w).1.trace) ≤ suc (length (inserts w.trace)))
        × (lookups (dispatch_user_scheduler w).1.trace ≡ suc (lookups w.trace))
  unfolding dispatch_user_scheduler
  user_scheduler-lookups w = elim (Option-cases (k.task_from_pid w.trace w.ro.usersched_pid)) [
    | inl e ↦ rw e (ground arith)
    | inr (p, e) ↦ rw e (ground arith)
  ]

  fire_up-lookups :
      (w : World)
      → (length (inserts (fire_up w).1.trace) ≤ suc (length (inserts w.trace)))
        × (lookups (fire_up w).1.trace
            ≡ (if w.bss.usersched_needed == 1 then suc (lookups w.trace) else lookups w.trace))
  unfolding fire_up test_and_clear_usersched_needed
  fire_up-lookups w =
      let (cleared, v) = test_and_clear_usersched_needed w in
      ground (arith, user_scheduler-lookups v)

  consume-lookups : (cpu : ℕ) (w : World) → lookups (consume cpu w).1.trace ≡ lookups w.trace
  unfolding consume cpu_to_dsq
  consume-lookups cpu w = ground arith

  dispatch_idle-lookups :
      (cpu : ℕ) (prev : Option Task) (w : World)
      → lookups (dispatch_idle cpu prev w).1.trace ≡ lookups w.trace
  unfolding dispatch_idle usersched_has_pending_tasks set_usersched_needed replenish
  dispatch_idle-lookups cpu none w = ground arith
  dispatch_idle-lookups cpu (some p) w = ground arith

  -- Where the kernel has slots left as long as fewer than 512 tasks, the batch size of the program, have
  -- been inserted since the callback began: one dispatch callback looks up the scheduler's task if a
  -- request for it is pending, and besides exactly one task that user space hands back if a valid sample
  -- waits, however many there are, and none if there is no valid one.
  pub goland_dispatch-lookups :
      (cpu : ℕ) (prev : Option Task) (samples : List (Option DispatchedTaskCtx)) (w : World)
      → HasSlots (length (inserts w.trace))
      → lookups (goland_dispatch cpu prev samples w).1.trace
        ≡ (if w.bss.usersched_needed == 1 then 1 else 0)
          + (if valid_samples samples == 0 then 0 else 1)
          + lookups w.trace
  unfolding goland_dispatch
  goland_dispatch-lookups cpu prev samples w slots =
      let u = (fire_up w).1 in
      let fired = fire_up-lookups w in
      let v = (drain samples u).1 in
      let drained =
        drain-lookups (length (inserts w.trace)) samples u slots (omega (arith, fired.0)) in
      let x = (consume cpu v).1 in
      ground (arith, fired, drained, consume-lookups cpu v, dispatch_idle-lookups cpu prev x)
