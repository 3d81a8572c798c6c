-- ===== src/User/System/Sound.antt =====
-- The two halves together: what holds after any sequence of turns.
use scx_goland_core.Base.{
  ℕ, ap, ◌==◌, Bool, Option, none, some, List, [], ◌∷◌, ltb, Bool-cases, inl, inr,
}
use scx_goland_core.Kernel.Oracle.{Kernel}
use scx_goland_core.Bpf.State.{World, Rodata, CpuCtx}
use scx_goland_core.Bpf.Invariant.Defs
use scx_goland_core.Bpf.Invariant.Reach.{Reach-IsValid, Reach-IsSettled}
use scx_goland_core.Bpf.Invariant.Reach.Reach.{here, next}
use scx_goland_core.User.Run.{Ends, Ends-bind}
use scx_goland_core.User.Message.{QueuedTask, Bytes}
use scx_goland_core.User.Pool.{Task, Pool, task_pool_size, get_task_from_pool}
use scx_goland_core.User.Pool.Order.{IsSorted}
use scx_goland_core.User.Pool.Ring.{IsValid, contents, empty_pool-IsValid}
use scx_goland_core.User.Pool.Take.{take_first, get_task_from_pool-Taken}
use scx_goland_core.User.Sched.{Libbpf, minus_one, block_til_ready_for_dequeue}
use scx_goland_core.User.Drain.{User, drain_queued_task}
use scx_goland_core.User.Loop.{Control, loop_step, fill_turn, after_take, dispatch_next}
use scx_goland_core.User.Loop.Control.{next_task, refill}
use scx_goland_core.User.System.Turn.{loop, callback, sent, collected}
use scx_goland_core.User.System.Turns.{begin, turn}
use scx_goland_core.User.System.Steps.{AllReadable, Sound, drain-Sound, dispatch_next-Sound}
use scx_goland_core.User.System.{Turn, Turns, loaded_system}

module _ ⦃b : Libbpf⦄ ⦃k : Kernel⦄ where
  after_take-Sound :
      (s : World) (t : Option QueuedTask) (u : User)
      → Sound s u
      → Ends (λ r. Sound s (r.1)) (after_take t u)
  unfolding after_take
  after_take-Sound s none u h = h
  after_take-Sound s (some t) u h = elim (Bool-cases (t.pid == minus_one)) [
    | inl e ↦ rw e h
    | inr e ↦ rw e (
        Ends-bind (λ r. Sound s (r.1)) (dispatch_next t u) _ (dispatch_next-Sound s t u h)
          (λ v x. x))
  ]

  fill_turn-Sound :
      (s : World) (arrivals : ℕ → List Bytes) (waited : List Bytes) (u : User)
      → Sound s u
      → Ends (λ r. Sound s (r.1)) (fill_turn arrivals waited u)
  unfolding fill_turn block_til_ready_for_dequeue
  fill_turn-Sound s arrivals waited u h =
      Ends-bind (λ r. Sound s (r.1)) (drain_queued_task arrivals task_pool_size 0 u) _
        (drain-Sound s arrivals u h)
        (λ r x. elim (Bool-cases (r.0 == 0)) [
          | inl e ↦ rw e (record {
            valid = x.valid;
            sorted = x.sorted;
            readable = x.readable;
            reached = x.reached;
          })
          | inr e ↦ rw e x
        ])

  IsSorted-rest :
      (p : Pool)
      → IsValid p
      → IsSorted (contents p)
      → IsSorted (contents ((get_task_from_pool p).1))
  IsSorted-rest p v h =
      rw (ap (λ z. z.1) (get_task_from_pool-Taken p v).first) (rest (contents p) h)
    where
      rest : (ts : List Task) → IsSorted ts → IsSorted ((take_first ts).1)
      rest [] h = tt
      rest (t ∷ ts) h = h.1

  loop_step-Sound :
      (s : World) (arrivals : ℕ → List Bytes) (waited : List Bytes) (c : Control) (u : User)
      → Sound s u
      → Ends (λ r. Sound s (r.1)) (loop_step arrivals waited c u)
  unfolding loop_step
  loop_step-Sound s arrivals waited next_task u h =
      let r = get_task_from_pool u.pool in
      after_take-Sound s (r.0) (record u { pool = r.1 })
        (record {
          valid = (get_task_from_pool-Taken u.pool h.valid).valid;
          sorted = IsSorted-rest u.pool h.valid h.sorted;
          readable = h.readable;
          reached = h.reached;
        })
  loop_step-Sound s arrivals waited refill u h = elim (Bool-cases (ltb u.pool.count 10)) [
    | inl e ↦ rw e (fill_turn-Sound s arrivals waited u h)
    | inr e ↦ rw e h
  ]

  Turn-Sound : (s : World) (c c' : Control) (u v : User) → Turn c u c' v → Sound s u → Sound s v
  Turn-Sound s c c' u v (loop arrivals waited _ _ _ _ e) h =
      rw e at (loop_step-Sound s arrivals waited c u h)
  Turn-Sound s c c' u v (callback _ _ w st) h = record {
    valid = h.valid;
    sorted = h.sorted;
    readable = h.readable;
    reached = next h.reached st;
  }
  Turn-Sound s c c' u v (sent _ _ m) h = record {
    valid = h.valid;
    sorted = h.sorted;
    readable = h.readable;
    reached = h.reached;
  }
  Turn-Sound s c c' u v (collected _ _ m rest e) h = record {
    valid = h.valid;
    sorted = h.sorted;
    readable = (rw e at h.readable).1;
    reached = h.reached;
  }

  Turns-Sound :
      (s : User) (c : Control) (u : User)
      → Sound s.sched.world s
      → Turns s c u
      → Sound s.sched.world u
  Turns-Sound s c u h begin = h
  Turns-Sound s c' v h (turn {c} {u = u} r t) =
      Turn-Sound s.sched.world c c' u v t (Turns-Sound s c u h r)

  -- What holds at any time.
  pub record Consistent (u : User) : Type 0 where
    pub pool_valid : IsValid u.pool
    pub pool_sorted : IsSorted (contents u.pool)
    pub dispatch_readable : AllReadable u.sched.dispatch
    pub world_valid : Defs.IsValid u.sched.world
    pub world_settled : Defs.IsSettled 0 u.sched.world

  -- From both halves as loaded, after any sequence of turns of the loop, callbacks, timer ticks,
  -- calls and messages, for any answers of the kernel and of libbpfgo: the ring of the pool is
  -- valid, its tasks lie in order, each message that waits for the other half is long enough to be
  -- read there, and the data of main.bpf.c are within their bounds and agree with the calls it made.
  pub Turns-Consistent :
      (ro : Rodata) (cpus : List CpuCtx) (selects preempts domains : Bool) (c : Control) (u : User)
      → Turns (loaded_system ro cpus selects preempts domains) c u
      → Consistent u
  Turns-Consistent ro cpus selects preempts domains c u r =
      let h =
        Turns-Sound (loaded_system ro cpus selects preempts domains) c u
          (record { valid = empty_pool-IsValid; sorted = tt; readable = tt; reached = here }) r in
      record {
        pool_valid = h.valid;
        pool_sorted = h.sorted;
        dispatch_readable = h.readable;
        world_valid = Reach-IsValid ro cpus h.reached;
        world_settled = Reach-IsSettled ro cpus h.reached;
      }
