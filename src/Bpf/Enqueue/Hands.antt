-- ===== src/Bpf/Enqueue/Hands.antt =====
-- main.bpf.c, the enqueue callback: how often it hands a task on.
use scx_goland_core.Intf.{QueuedTaskCtx}
use scx_goland_core.Base.{
  suc, List, [], ◌∷◌, ◌==◌, ℕ, Bool, true, false, ◌≡◌, ◌+◌, arith, ◌⊎◌, inl, inr, if◌then◌else◌,
  is_some, Option-cases,
}
use scx_goland_core.Base.HashMap.{lookup}
use scx_goland_core.Kernel.Types.{Task}
use scx_goland_core.Kernel.Oracle.{Kernel}
use scx_goland_core.Kernel.Observe.{Insert, inserts, submitted}
use scx_goland_core.Bpf.State.{World}
use scx_goland_core.Bpf.Calls.{task_cpu}
use scx_goland_core.Bpf.Basic.{cpu_to_dsq, try_lookup_task_ctx, is_usersched_task}
use scx_goland_core.Bpf.Idle.{kick_task_cpu}
use scx_goland_core.Bpf.Idle.Quiet.{Quiet}
use scx_goland_core.Bpf.Select.Direct.{DirectOrQuiet, try_direct_dispatch-DirectOrQuiet}
use scx_goland_core.Bpf.Enqueue.{
  get_task_info, sched_congested, is_queued_wakeup, enqueue_usersched_thread, enqueue_on_cpu,
  enqueue_wakeup, pick_prio_cpu, prio_flags, insert_prio, enqueue_prio, enqueue_message,
  enqueue_kick, enqueue_rest, enqueue_task, goland_enqueue,
}

abbrev pub times_inserted : ℕ → List Insert → ℕ
times_inserted q [] = 0
times_inserted q (i ∷ rest) = let n = times_inserted q rest in if q == i.pid then suc n else n

abbrev pub times_sent : ℕ → List QueuedTaskCtx → ℕ
times_sent q [] = 0
times_sent q (m ∷ rest) = let n = times_sent q rest in if q == m.pid then suc n else n

-- How often the task with the PID was inserted into a queue or sent to user space.
abbrev pub handed : ℕ → World → ℕ
handed q w = times_inserted q (inserts w.trace) + times_sent q (submitted w.trace)

-- The run hands the task with PID `pid` on `n` times, and no other, and leaves the map of the priority
-- tasks alone.
pub record Hands (pid n : ℕ) (u v : World) : Type 0 where
  pub count : (q : ℕ) → handed q v ≡ (if q == pid then n else 0) + handed q u
  pub priority_same : v.priority_tasks ≡ u.priority_tasks

module _ ⦃k : Kernel⦄ where
  enqueue_usersched_thread-Hands :
      (p : Task) (w : World) → Hands p.pid 1 w (enqueue_usersched_thread p w).1
  unfolding enqueue_usersched_thread kick_task_cpu
  enqueue_usersched_thread-Hands p w = ground arith

  enqueue_on_cpu-Hands :
      (p : Task) (flags : ℕ) (w : World) → Hands p.pid 1 w (enqueue_on_cpu p flags w).1
  unfolding enqueue_on_cpu cpu_to_dsq
  enqueue_on_cpu-Hands p flags w = ground arith

  enqueue_message-Hands :
      (p : Task) (flags : ℕ) (w : World) → Hands p.pid 1 w (enqueue_message p flags w).1
  unfolding enqueue_message get_task_info try_lookup_task_ctx sched_congested
  enqueue_message-Hands p flags w = ground arith

  pub enqueue_kick-Quiet : (p : Task) (cpu : ℕ) (w : World) → Quiet w (enqueue_kick p cpu w).1
  unfolding enqueue_kick kick_task_cpu
  enqueue_kick-Quiet p cpu w = ground arith

  insert_prio-Hands :
      (p : Task) (slice : ℕ) (w : World)
      → Hands p.pid 0 w (insert_prio p slice w).1 ⊎ Hands p.pid 1 w (insert_prio p slice w).1
  unfolding insert_prio pick_prio_cpu prio_flags
  insert_prio-Hands p slice w = ground arith

  -- Whether the task is handed on once more than others.
  abbrev pub HandsOn : Bool → ℕ → World → World → Type 0
  HandsOn true pid u v = Hands pid 1 u v ⊎ Hands pid 2 u v
  HandsOn false pid u v = Hands pid 1 u v

  abbrev pub is_prio : Task → World → Bool
  is_prio p w = is_some (lookup p.pid w.priority_tasks)

  Hands-HandsOn : (b : Bool) (pid : ℕ) (u v : World) → Hands pid 1 u v → HandsOn b pid u v
  Hands-HandsOn true pid u v h = inl h
  Hands-HandsOn false pid u v h = h

  enqueue_prio-Hands :
      (p : Task) (w : World)
      → if is_prio p w
        then (Hands p.pid 0 w (enqueue_prio p w).1 ⊎ Hands p.pid 1 w (enqueue_prio p w).1)
        else Hands p.pid 0 w (enqueue_prio p w).1
  unfolding enqueue_prio
  enqueue_prio-Hands p w = elim (Option-cases (lookup p.pid w.priority_tasks)) [
    | inl e ↦ ground arith
    | inr (slice, e) ↦ ground (arith, insert_prio-Hands p slice w)
  ]

  enqueue_rest-HandsOn :
      (p : Task) (flags cpu : ℕ) (w : World)
      → HandsOn (is_prio p w) p.pid w (enqueue_rest p flags cpu w).1
  unfolding enqueue_rest
  enqueue_rest-HandsOn p flags cpu w =
      let v = (enqueue_prio p w).1 in
      let x = (enqueue_message p flags v).1 in
      ground
        (arith, enqueue_prio-Hands p w, enqueue_message-Hands p flags v, enqueue_kick-Quiet p cpu x)

  pub enqueue_wakeup-DirectOrQuiet :
      (p : Task) (flags : ℕ) (w : World) → DirectOrQuiet p flags w (enqueue_wakeup p flags w)
  unfolding enqueue_wakeup is_queued_wakeup
  enqueue_wakeup-DirectOrQuiet p flags w =
      let (prev, v) = task_cpu p (is_queued_wakeup p flags w).1 in
      ground (arith, try_direct_dispatch-DirectOrQuiet p prev flags v)

  DirectOrQuiet-cases :
      (p : Task) (flags : ℕ) (w : World) (r : (ℕ × Bool) × World)
      → DirectOrQuiet p flags w r
      → if r.0.1 then Hands p.pid 1 w r.1 else Hands p.pid 0 w r.1
  DirectOrQuiet-cases p flags w ((cpu, true), v) d = ground arith
  DirectOrQuiet-cases p flags w ((cpu, false), v) q = ground arith

  enqueue_task-HandsOn :
      (p : Task) (flags : ℕ) (w : World) → HandsOn (is_prio p w) p.pid w (enqueue_task p flags w).1
  unfolding enqueue_task
  enqueue_task-HandsOn p flags w =
      let (cpu, v) = enqueue_wakeup p flags w in
      ground (
        arith,
        DirectOrQuiet-cases p flags w (enqueue_wakeup p flags w)
            (enqueue_wakeup-DirectOrQuiet p flags w),
        enqueue_rest-HandsOn p flags cpu.0 v,
      )

  -- Enqueue never loses a task. A task other than the user-space scheduler is handed on under its own
  -- PID, by an insertion into a dispatch queue or a message to user space, exactly once if it is not in
  -- the map of the priority tasks, and once or twice if it is; no other PID is inserted or sent, and the
  -- map stays as it is. For the user-space scheduler itself nothing happens.
  pub goland_enqueue-HandsOn :
      (p : Task) (flags : ℕ) (w : World)
      → let w' = (goland_enqueue p flags w).1 in
        if is_usersched_task w.ro p then w' ≡ w else HandsOn (is_prio p w) p.pid w w'
  unfolding goland_enqueue
  goland_enqueue-HandsOn p flags w = ground (
    arith,
    Hands-HandsOn (is_prio p w) p.pid w (enqueue_on_cpu p flags w).1
        (enqueue_on_cpu-Hands p flags w),
    Hands-HandsOn (is_prio p w) p.pid w (enqueue_usersched_thread p w).1
        (enqueue_usersched_thread-Hands p w),
    enqueue_task-HandsOn p flags w,
  )
