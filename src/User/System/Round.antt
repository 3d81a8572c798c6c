-- ===== src/User/System/Round.antt =====
-- main.go and main.bpf.c: from the messages of ten or more tasks to the queue of the first one.
use scx_goland_core.Base.{
  some, ℕ, ◌+◌, ◌≤◌, ◌<◌, ◌^◌, ◌≡◌, ◌∙◌, refl, ap, subst, ◌==◌, true, false, List, [], ◌∷◌, arith,
  length, take, ltb,
}
use scx_goland_core.Intf.{QueuedTaskCtx}
use scx_goland_core.Kernel.Types.{Task}
use scx_goland_core.Kernel.Oracle.{Kernel}
use scx_goland_core.Bpf.State.{World}
use scx_goland_core.User.Run.{Run, ok, ◌>>=◌, Returns, Returns-bind, Ends, Alike, Alike-ok}
use scx_goland_core.User.Message.{Bytes}
use scx_goland_core.User.Pool
use scx_goland_core.User.Pool.{task_pool_size}
use scx_goland_core.User.Pool.Order.{IsSorted}
use scx_goland_core.User.Pool.Ring.{IsValid, window, contents, length-window}
use scx_goland_core.User.Sched.{Libbpf}
use scx_goland_core.User.Drain.{User, drain_queued_task}
use scx_goland_core.User.Drain.Absorb.{
  take-all, absorb, AllSent, messages, uncounted, room, Absorbed, drain_queued_task-Absorbed,
}
use scx_goland_core.User.Drain.Named.{IsNamed, Holds, absorb-Holds}
use scx_goland_core.User.Loop.{Control, fill_turn, loop_step}
use scx_goland_core.User.Loop.Control.{next_task, refill}
use scx_goland_core.User.System.Handed.{Handed, loop_step-Handed}

uncounted-le :
    (n : ℕ) (w : World)
    → ((uncounted n w).bss.nr_queued ≤ w.bss.nr_queued)
      × ((uncounted n w).bss.nr_scheduled ≡ w.bss.nr_scheduled)
uncounted-le n w = (omega arith, refl)

none_stored : (p : Pool.Pool) → p.count ≡ 0 → contents p ≡ []
none_stored p e = ap (window p.slots p.head) e

-- An empty pool takes in all the messages, which do not fill it.
drain-Absorbed :
    (padding : Bytes) (u : User) (qs : List QueuedTaskCtx) (m : ℕ) (ts : List Pool.Task)
    → 4 ≤ length padding
    → IsValid u.pool
    → u.pool.count ≡ 0
    → AllSent qs
    → length qs < 4095
    → u.sched.queue ≡ messages qs padding
    → absorb qs u.min_vruntime [] ≡ ok (m, ts)
    → Returns
        (λ r. Absorbed 0 u qs padding r (m, ts))
        (drain_queued_task (λ i. []) task_pool_size 0 u)
drain-Absorbed padding u qs m ts enough v none_held sent few e made =
    let all : take (room u) qs ≡ qs = take-all (room u) qs (omega (arith, none_held)) in
    Alike-ok (Absorbed 0 u qs padding) (drain_queued_task (λ i. []) task_pool_size 0 u) (m, ts)
      (subst (Alike (Absorbed 0 u qs padding) (drain_queued_task (λ i. []) task_pool_size 0 u))
        (ap (λ z. absorb z u.min_vruntime (contents u.pool)) all
          ∙ (ap (absorb qs u.min_vruntime) (none_stored u.pool none_held) ∙ made))
        (drain_queued_task-Absorbed padding enough u qs v sent e))

-- What is given: an empty pool, and messages that wait, more than nine and not too many for it.
pub record Ready (padding : Bytes) (qs : List QueuedTaskCtx) (u : User) : Type 0 where
  pub padded : 4 ≤ length padding
  pub valid : IsValid u.pool
  pub none_held : u.pool.count ≡ 0
  pub sent : AllSent qs
  pub enough : 10 ≤ length qs
  pub fits : length qs < 4095
  pub queued : u.sched.queue ≡ messages qs padding
  pub none_waits : u.sched.dispatch ≡ []
  pub small : u.sched.world.bss.nr_queued + u.sched.world.bss.nr_scheduled + 1 < 2 ^ 64

-- After the first turn.
record Filled (u : User) (ts : List Pool.Task) (n : ℕ) (v : User) : Type 0 where
  valid : IsValid v.pool
  stored : contents v.pool ≡ ts
  none_waits : v.sched.dispatch ≡ u.sched.dispatch
  world_after : v.sched.world ≡ uncounted n u.sched.world

-- The reference list of a run that ends with a value.
absorbed-Holds :
    (qs : List QueuedTaskCtx) (m : ℕ) (z : ℕ × List Pool.Task)
    → AllSent qs
    → absorb qs m [] ≡ ok z
    → Holds (length qs) z
absorbed-Holds qs m z s e =
    let h = absorb-Holds qs m 0 [] s (record { all_named = tt; sorted = tt; counted = refl }) in
    let same : length qs + 0 ≡ length qs = omega arith in
    subst (λ n. Holds n z) same (subst (Ends (Holds (length qs + 0))) e h)

not_few : (n : ℕ) → 10 ≤ n → ltb n 10 ≡ false
not_few n h = ground arith

module _ ⦃b : Libbpf⦄ ⦃k : Kernel⦄ where
  Absorbed-Filled :
      (padding : Bytes) (u v : User) (qs : List QueuedTaskCtx) (m num : ℕ) (ts : List Pool.Task)
      → Absorbed 0 u qs padding (num, v) (m, ts)
      → Filled u ts (length (take (room u) qs)) v
  Absorbed-Filled padding u v qs m num ts a = record {
    valid = a.valid;
    stored = a.stored;
    none_waits = ap (λ z. z.dispatch) a.sched_after;
    world_after = ap (λ z. z.world) a.sched_after;
  }

  first_turn :
      (padding : Bytes) (u : User) (qs : List QueuedTaskCtx) (m : ℕ) (ts : List Pool.Task)
      → Ready padding qs u
      → absorb qs u.min_vruntime [] ≡ ok (m, ts)
      → Returns
          (λ r. (r.0 ≡ refill) × Filled u ts (length (take (room u) qs)) r.1)
          (loop_step (λ i. []) [] refill u)
  unfolding loop_step fill_turn
  first_turn padding u qs m ts r made =
      let few_held : ltb u.pool.count 10 ≡ true = ground (arith, r.none_held) in
      rw few_held (
        Returns-bind (λ z. (z.0 ≡ refill) × Filled u ts (length (take (room u) qs)) z.1)
          (drain_queued_task (λ i. []) task_pool_size 0 u) _
          (drain-Absorbed padding u qs m ts r.padded r.valid r.none_held r.sent r.fits r.queued
            made)
          (λ a h.
            let some_taken : (a.0 == 0) ≡ false =
              ground (arith, h.answer, r.none_held, r.enough, r.fits) in
            rw some_taken (refl, Absorbed-Filled padding u a.1 qs m a.0 ts h)))

  second_turn :
      (u v : User) (ts : List Pool.Task) (n : ℕ)
      → 10 ≤ length ts
      → Filled u ts n v
      → loop_step (λ i. []) [] refill v ≡ ok (next_task, v)
  unfolding loop_step
  second_turn u v ts n enough f =
      let many : ltb v.pool.count 10 ≡ false =
        not_few v.pool.count (
          omega (arith, length-window v.pool.slots v.pool.head v.pool.count, ap length f.stored)) in
      rw many refl

  -- The turns that fill an empty pool, find it filled, and take its first task.
  abbrev pub three_turns : (ℕ → List Bytes) → List Bytes → User → Run (Control × User)
  three_turns arrivals waited u = loop_step (λ i. []) [] refill u >>= λ x.
      (loop_step (λ i. []) [] x.0 x.1 >>= λ y. loop_step arrivals waited y.0 y.1)

  third_turn :
      (arrivals : ℕ → List Bytes) (waited : List Bytes) (u v : User) (t : Pool.Task)
      (ts : List Pool.Task) (n : ℕ) (p : Task) (w : World)
      → u.sched.world.bss.nr_queued + u.sched.world.bss.nr_scheduled + 1 < 2 ^ 64
      → u.sched.dispatch ≡ []
      → ((x : World) → b.urb_fails x ≡ false)
      → k.task_from_pid w.trace t.queued.pid ≡ some p
      → IsNamed t.queued
      → Filled u (t ∷ ts) n v
      → Returns (λ r. Handed t.queued p w r.1) (loop_step arrivals waited next_task v)
  third_turn arrivals waited u v t ts n p w small none_waits works found named f =
      let fewer = uncounted-le n u.sched.world in
      let same_world = ap (λ z. z.bss) f.world_after in
      loop_step-Handed arrivals waited t ts p w v f.valid f.stored
        (record {
          pid_fits = named.pid_fits;
          flags_fits = named.flags_fits;
          vtime_fits = named.vtime_fits;
        })
        named.named (rw same_world (omega (arith, small, fewer))) works (f.none_waits ∙ none_waits)
        found

  -- The messages of ten or more tasks, of which no field is out of range, wait for an empty pool, which
  -- they do not fill; the counts of tasks do not wrap, and the tasks make no division by zero: let
  -- `t ∷ ts` be the list in which each of them in turn is put in order, which is then as long, and no
  -- task of which precedes one before it. Three turns of the loop, in the first two of which no message
  -- comes in, take them in and dispatch `t`. Where the ring buffer works, nothing else was sent, and the
  -- kernel knows the PID of `t` in a state of main.bpf.c: exactly one message waits afterwards, for `t`,
  -- with its flags and vtime and a slice between half a millisecond and five milliseconds. In that state
  -- a drain of the ring, as it is in goland_dispatch, places it: in the shared queue, once, if the message
  -- names no CPU; else in the shared queue, once, with a bounce, or in the queue of its CPU, once, but not
  -- at all if its vtime is 0 and its PID is in the map of the priority tasks, as for a task that enqueue
  -- has inserted.
  pub three_turns-Handed :
      (arrivals : ℕ → List Bytes) (waited : List Bytes) (padding : Bytes) (u : User)
      (qs : List QueuedTaskCtx) (m : ℕ) (t : Pool.Task) (ts : List Pool.Task) (p : Task) (w : World)
      → Ready padding qs u
      → absorb qs u.min_vruntime [] ≡ ok (m, t ∷ ts)
      → ((x : World) → b.urb_fails x ≡ false)
      → k.task_from_pid w.trace t.queued.pid ≡ some p
      → (length (t ∷ ts) ≡ length qs)
        × IsSorted (t ∷ ts)
        × Returns (λ r. Handed t.queued p w r.1) (three_turns arrivals waited u)
  three_turns-Handed arrivals waited padding u qs m t ts p w r made works found =
      let h = absorbed-Holds qs u.min_vruntime (m, t ∷ ts) r.sent made in
      let n = length (take (room u) qs) in
      (
        h.counted,
        h.sorted,
        Returns-bind (λ z. Handed t.queued p w z.1) (loop_step (λ i. []) [] refill u) _
            (first_turn padding u qs m (t ∷ ts) r made)
            (λ x f.
              let second = second_turn u x.1 (t ∷ ts) n (omega (arith, h.counted, r.enough)) f.1 in
              let third =
                third_turn arrivals waited u x.1 t ts n p w r.small r.none_waits works found
                  h.all_named.0 f.1 in
              rw (f.0, second) third),
      )
