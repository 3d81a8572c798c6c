-- ===== src/Bpf/Dispatch/Consume.antt =====
-- main.bpf.c, the dispatch callback: the queues that it consumes and the user-space scheduler.
use scx_goland_core.Base.{
  ap, Bool, Bool-cases, not, ◌||◌, ltb, [], ℕ, true, false, Option, none, some, ◌∷◌, ◌≡◌, ◌+◌, ◌≤◌,
  arith, ◌==◌, ◌⊎◌, inl, inr, if◌then◌else◌, Option-cases,
}
use scx_goland_core.Kernel.Types.{Task, Error, Trace}
use scx_goland_core.Kernel.Oracle.{Kernel}
use scx_goland_core.Kernel.Observe.{inserts, moves, kicks, errors, task_gets, task_puts}
use scx_goland_core.Bpf.State.{World, shared_dsq, sched_dsq}
use scx_goland_core.Bpf.Basic.{
  cpu_to_dsq, is_usersched_task, is_queued, set_usersched_needed, test_and_clear_usersched_needed,
  usersched_has_pending_tasks,
}
use scx_goland_core.Bpf.Basic.Flag.{bit_or_flag, bit_and_flag}
use scx_goland_core.Bpf.Select.Direct.{dsq_of}
use scx_goland_core.Bpf.Dispatch.{
  dispatch_user_scheduler, replenish, dispatch_idle, consume, fire_up, drain, goland_dispatch,
}

module _ ⦃k : Kernel⦄ where
  -- The queues are asked in the order CPU, shared, scheduler, each only when the one before had
  -- nothing, and the result tells whether the last one asked had a task.
  consume_order :
      (cpu : ℕ) (w : World)
      → let (found, v) = consume cpu w in
        (found ≡ true) × (moves v.trace ≡ (dsq_of cpu, true) ∷ moves w.trace)
        ⊎ (found ≡ true)
          × (moves v.trace ≡ (shared_dsq, true) ∷ (dsq_of cpu, false) ∷ moves w.trace)
        ⊎ (moves v.trace
            ≡ (sched_dsq, found) ∷ (shared_dsq, false) ∷ (dsq_of cpu, false) ∷ moves w.trace)
  unfolding consume cpu_to_dsq
  consume_order cpu w = ground arith

  -- What fire_up leaves when a request is pending, for the scheduler's task: an error report, or
  -- one insertion into the scheduler's own queue, and the reference given back.
  abbrev pub Fired : Option Task → World → World → Type 0
  Fired none u v =
      (inserts v.trace ≡ inserts u.trace)
      × (errors v.trace ≡ Error.no_usersched u.ro.usersched_pid ∷ errors u.trace)
      × (task_gets v.trace ≡ task_gets u.trace)
  Fired (some p) u v =
      (inserts v.trace
        ≡ record { pid = p.pid; dsq = sched_dsq; slice = u.ro.default_slice; flags = k.enq_head }
          ∷ inserts u.trace)
      × (errors v.trace ≡ errors u.trace)
      × (task_gets v.trace + task_puts u.trace ≡ task_gets u.trace + task_puts v.trace)

  -- If the flag is 0 or 1: a pending request inserts the user-space scheduler into its own queue, with the default slice;
  -- with none pending nothing is called. In both cases no request is pending afterwards.
  pub fire_up-Fired :
      (w : World)
      → w.bss.usersched_needed ≤ 1
      → let v = (fire_up w).1 in
        (v.bss.usersched_needed ≡ 0)
        × (if w.bss.usersched_needed == 1
            then Fired (k.task_from_pid w.trace w.ro.usersched_pid) w v
            else (v.trace ≡ w.trace))
  unfolding fire_up test_and_clear_usersched_needed dispatch_user_scheduler
  fire_up-Fired w h = elim (Option-cases (k.task_from_pid w.trace w.ro.usersched_pid)) [
    | inl e ↦ rw e (ground (arith, bit_and_flag w.bss.usersched_needed))
    | inr (p, e) ↦ rw e (ground (arith, bit_and_flag w.bss.usersched_needed))
  ]

  -- The previous task after the callback: only its slice may change.
  abbrev pub Kept : World → Option Task → Option Task → Type 0
  Kept w none prev' = prev' ≡ none
  Kept w (some p) prev' =
      if is_usersched_task w.ro p
      then prev' ≡ some p
      else (if is_queued p
          then prev' ≡ some (record p { slice = k.slice_dfl })
          else (prev' ≡ some p))

  -- Tasks are counted as scheduled, or bytes of messages to user space wait at the end of `t`.
  abbrev pub is_pending : Trace → World → Bool
  is_pending t w = not (w.bss.nr_scheduled == 0) || ltb 0 (k.ringbuf_query t)

  -- No queue had a task: a request and a kick if work is pending at the end of `t`, or else at most a new
  -- slice.
  abbrev pub Rests : ℕ → Trace → World → Option Task → Option Task → World → Type 0
  Rests cpu t w prev prev' v =
      if is_pending t w
      then (v.bss ≡ record (w.bss) { usersched_needed = 1 })
        × (kicks v.trace ≡ (cpu, k.kick_idle) ∷ kicks w.trace)
        × (prev' ≡ prev)
      else (v.bss ≡ w.bss) × (kicks v.trace ≡ kicks w.trace) × Kept w prev prev'

  dispatch_idle-Rests :
      (cpu : ℕ) (prev : Option Task) (w : World)
      → w.bss.usersched_needed ≤ 1
      → let (prev', v) = dispatch_idle cpu prev w in
        Rests cpu w.trace w prev prev' v × (moves v.trace ≡ moves w.trace)
  unfolding dispatch_idle usersched_has_pending_tasks set_usersched_needed replenish
  dispatch_idle-Rests cpu none w h = ground (arith, bit_or_flag w.bss.usersched_needed)
  dispatch_idle-Rests cpu (some p) w h = ground (arith, bit_or_flag w.bss.usersched_needed)

  fire_up_none : (w : World) → w.bss.usersched_needed ≡ 0 → (fire_up w).1 ≡ w
  unfolding fire_up test_and_clear_usersched_needed
  fire_up_none w h = ground (arith, bit_and_flag w.bss.usersched_needed)

  consume_frame :
      (cpu : ℕ) (w : World)
      → let v = (consume cpu w).1 in
        (v.bss ≡ w.bss) × (v.ro ≡ w.ro) × (kicks v.trace ≡ kicks w.trace)
  unfolding consume cpu_to_dsq
  consume_frame cpu w = ground arith

  -- One of the three queues had a task.
  abbrev pub Found : ℕ → World → World → Type 0
  Found cpu w v =
      (moves v.trace ≡ (dsq_of cpu, true) ∷ moves w.trace)
      ⊎ (moves v.trace ≡ (shared_dsq, true) ∷ (dsq_of cpu, false) ∷ moves w.trace)
      ⊎ (moves v.trace
          ≡ (sched_dsq, true) ∷ (shared_dsq, false) ∷ (dsq_of cpu, false) ∷ moves w.trace)

  abbrev pub NoneFound : ℕ → World → World → Type 0
  NoneFound cpu w v =
      moves v.trace ≡ (sched_dsq, false) ∷ (shared_dsq, false) ∷ (dsq_of cpu, false) ∷ moves w.trace

  -- A dispatch callback with no request pending and no sample waiting asks the queue of the CPU, the
  -- shared queue and the queue of the scheduler in this order, each only if the one before had nothing.
  -- If one had a task, the counters, the flag and the previous task stay as they are, and no CPU is
  -- kicked. If none had, and then tasks are counted as scheduled or messages wait for user space, the flag
  -- is set, the CPU is kicked, and the previous task keeps its slice. If there is no such work, the
  -- counters and the flag stay and no CPU is kicked, and the previous task is given the default slice if
  -- it still wants to run and is not the user-space scheduler, and else stays as it is.
  pub goland_dispatch-Rests :
      (cpu : ℕ) (prev : Option Task) (w : World)
      → w.bss.usersched_needed ≡ 0
      → let (prev', v) = goland_dispatch cpu prev [] w in
        (Found cpu w v × (v.bss ≡ w.bss) × (kicks v.trace ≡ kicks w.trace) × (prev' ≡ prev))
        ⊎ NoneFound cpu w v × Rests cpu (consume cpu w).1.trace w prev prev' v
  unfolding goland_dispatch drain
  goland_dispatch-Rests cpu prev w h = rw (fire_up_none w h) (elim (Bool-cases (consume cpu w).0) [
    | inl found ↦ ground (arith, consume_order cpu w, consume_frame cpu w)
    | inr none_found ↦
        let u = (consume cpu w).1 in
        let frame = consume_frame cpu w in
        let rests =
          dispatch_idle-Rests cpu prev u (omega (arith, ap (λ b. b.usersched_needed) frame.0, h)) in
        ground (arith, consume_order cpu w, frame, rests)
  ])
