-- ===== src/User/Loop/Starved.antt =====
-- main.go: the loop that fills the pool, where fewer than ten tasks are there.
use scx_goland_core.Base.{
  ℕ, suc, ◌+◌, ◌≤◌, ◌<◌, ◌≡◌, refl, ap, ◌∙◌, subst, ◌==◌, true, false, List, [], ◌∷◌, ◌++◌, arith,
  length, take, ltb,
}
use scx_goland_core.Intf.{QueuedTaskCtx}
use scx_goland_core.Kernel.Oracle.{Kernel}
use scx_goland_core.User.Run.{
  ok, Ends, Ends-bind, Ends-map, Returns, Returns-bind, Returns-map, Alike, Alike-ok,
}
use scx_goland_core.User.Message.{Bytes}
use scx_goland_core.User.Message.RoundTrip.{queued_task}
use scx_goland_core.User.Vruntime.{updated_enqueue_task}
use scx_goland_core.User.Pool.{Task, task_pool_size}
use scx_goland_core.User.Pool.Order.{length-insert_sorted}
use scx_goland_core.User.Pool.Ring.{IsValid, contents, length-window}
use scx_goland_core.User.Sched.{Libbpf, block_til_ready_for_dequeue}
use scx_goland_core.User.Drain.{User, drain_queued_task}
use scx_goland_core.User.Drain.Ends.{take_sorted, updated-Ends}
use scx_goland_core.User.Drain.Absorb.{
  take-all, drop-all, absorb, AllSent, messages, room, Absorbed, drain_queued_task-Absorbed,
}
use scx_goland_core.User.Loop.{fill_turn, loop_step}
use scx_goland_core.User.Loop.Control.{refill}

take_sorted-length :
    (q : QueuedTaskCtx) (m : ℕ) (ts : List Task)
    → Ends (λ z. length z.1 ≡ suc (length ts)) (take_sorted (queued_task q) m ts)
take_sorted-length q m ts =
    Ends-bind (λ z. length z.1 ≡ suc (length ts)) (updated_enqueue_task m (queued_task q)) _
      (updated-Ends m (queued_task q))
      (λ r k. length-insert_sorted (record { queued = r.1; deadline = r.0; timestamp = 0 }) ts)

absorb-length :
    (qs : List QueuedTaskCtx) (m : ℕ) (ts : List Task)
    → Ends (λ z. length z.1 ≡ length qs + length ts) (absorb qs m ts)
absorb-length [] m ts = omega arith
absorb-length (q ∷ qs) m ts =
    Ends-bind (λ z. length z.1 ≡ suc (length qs) + length ts) (take_sorted (queued_task q) m ts) _
      (take_sorted-length q m ts)
      (λ r k.
        Ends-map (λ z. length z.1 ≡ suc (length qs) + length ts) (absorb qs r.0 r.1)
          (absorb-length qs r.0 r.1) (λ z j. omega (arith, j, k)))

absorbed-length :
    (qs : List QueuedTaskCtx) (m : ℕ) (ts : List Task) (z : ℕ × List Task)
    → absorb qs m ts ≡ ok z
    → length z.1 ≡ length qs + length ts
absorbed-length qs m ts z e =
    subst (Ends (λ x. length x.1 ≡ length qs + length ts)) e (absorb-length qs m ts)

-- The pool of `v` holds `ts`, fewer than ten, no message waits, and nothing was sent since `u`.
pub record Starved (u : User) (ts : List Task) (v : User) : Type 0 where
  pub stored : contents v.pool ≡ ts
  pub few : v.pool.count < 10
  pub none_left : v.sched.queue ≡ []
  pub dispatch_same : v.sched.dispatch ≡ u.sched.dispatch
  pub valid : IsValid v.pool

Absorbed-Starved :
    (padding : Bytes) (u : User) (qs : List QueuedTaskCtx) (r : ℕ × User) (m : ℕ) (ts : List Task)
    → length qs ≤ room u
    → length ts < 10
    → Absorbed 0 u qs padding r (m, ts)
    → Starved u ts (r.1)
Absorbed-Starved padding u qs r m ts fits few a = record {
  stored = a.stored;
  few =
      omega (
        arith,
        length-window (r.1).pool.slots (r.1).pool.head (r.1).pool.count,
        ap length a.stored,
      );
  none_left =
      ap (λ z. z.queue) a.sched_after ∙ ap (λ l. messages l padding) (drop-all (room u) qs fits);
  dispatch_same = ap (λ z. z.dispatch) a.sched_after;
  valid = a.valid;
}

-- The drain of a pool that the messages do not fill.
drain-Starved :
    (padding : Bytes) (u : User) (qs : List QueuedTaskCtx) (m : ℕ) (ts : List Task)
    → 4 ≤ length padding
    → IsValid u.pool
    → AllSent qs
    → u.sched.queue ≡ messages qs padding
    → absorb qs u.min_vruntime (contents u.pool) ≡ ok (m, ts)
    → length ts < 10
    → Returns
        (λ r. (r.0 ≡ length qs) × Starved u ts (r.1))
        (drain_queued_task (λ i. []) task_pool_size 0 u)
drain-Starved padding u qs m ts enough v sent e made few =
    let fits : length qs < room u = ground (
      arith,
      few,
      absorbed-length qs u.min_vruntime (contents u.pool) (m, ts) made,
      length-window u.pool.slots u.pool.head u.pool.count,
    ) in
    let all : take (room u) qs ≡ qs = take-all (room u) qs (omega (arith, fits)) in
    Returns-map (λ r. (r.0 ≡ length qs) × Starved u ts (r.1))
      (drain_queued_task (λ i. []) task_pool_size 0 u)
      (Alike-ok (Absorbed 0 u qs padding) (drain_queued_task (λ i. []) task_pool_size 0 u) (m, ts)
        (subst (Alike (Absorbed 0 u qs padding) (drain_queued_task (λ i. []) task_pool_size 0 u))
          (ap (λ z. absorb z u.min_vruntime (contents u.pool)) all ∙ made)
          (drain_queued_task-Absorbed padding enough u qs v sent e)))
      (λ r a. (
        ground (arith, a.answer, fits),
        Absorbed-Starved padding u qs r m ts (omega (arith, fits)) few a,
      ))

module _ ⦃b : Libbpf⦄ ⦃k : Kernel⦄ where
  -- A later turn: the drain takes in nothing, the goroutine blocks, and after `ms` have come in it is
  -- again in the loop, with the oldest of them behind the others.
  abbrev pub StaysBlocked : User → List Task → User → Type 0
  StaysBlocked u ts v =
      Returns (λ d. (d.0 ≡ 0) × Starved u ts (d.1)) (drain_queued_task (λ i. []) task_pool_size 0 v)
      × ((m : Bytes) (ms : List Bytes)
          → Returns
              (λ r.
                (r.0 ≡ refill)
                × ((r.1).sched.dispatch ≡ u.sched.dispatch)
                × (contents (r.1).pool ≡ ts)
                × ((r.1).sched.queue ≡ ms ++ (m ∷ [])))
              (loop_step (λ i. []) (m ∷ ms) refill v))

  later_drain :
      (padding : Bytes) (u v : User) (ts : List Task)
      → 4 ≤ length padding
      → Starved u ts v
      → Returns
          (λ d. (d.0 ≡ 0) × Starved u ts (d.1))
          (drain_queued_task (λ i. []) task_pool_size 0 v)
  later_drain padding u v ts enough s =
      let held = length-window v.pool.slots v.pool.head v.pool.count in
      Returns-map (λ d. (d.0 ≡ 0) × Starved u ts (d.1))
        (drain_queued_task (λ i. []) task_pool_size 0 v)
        (drain-Starved padding v [] v.min_vruntime (contents v.pool) enough s.valid tt s.none_left
          refl (omega (arith, held, s.few)))
        (λ d h. (
          h.0,
          record {
            stored = h.1.stored ∙ s.stored;
            few = h.1.few;
            none_left = h.1.none_left;
            dispatch_same = h.1.dispatch_same ∙ s.dispatch_same;
            valid = h.1.valid;
          },
        ))

  later_turn :
      (padding : Bytes) (u v : User) (ts : List Task)
      → 4 ≤ length padding
      → Starved u ts v
      → StaysBlocked u ts v
  unfolding loop_step fill_turn block_til_ready_for_dequeue
  later_turn padding u v ts enough s = (
    later_drain padding u v ts enough s,
    λ m ms.
        let few : ltb v.pool.count 10 ≡ true = ground (arith, s.few) in
        rw few (
          Returns-bind
            (λ r.
              (r.0 ≡ refill)
              × ((r.1).sched.dispatch ≡ u.sched.dispatch)
              × (contents (r.1).pool ≡ ts)
              × ((r.1).sched.queue ≡ ms ++ (m ∷ [])))
            (drain_queued_task (λ i. []) task_pool_size 0 v) _ (later_drain padding u v ts enough s)
            (λ d h.
              let idle : (d.0 == 0) ≡ true = ground (arith, h.0) in
              rw (idle, h.1.none_left) (refl, h.1.dispatch_same, h.1.stored, refl))),
  )

  -- The goroutine is in the loop that fills the pool; one or more messages wait, each with its padding,
  -- and none comes in; they make no division by zero, and with their tasks the valid pool has fewer than
  -- ten. The turn takes them all in and dispatches nothing. From then on each drain finds no message, so
  -- that the goroutine blocks with these tasks in the pool until messages come in, and then it is in the
  -- loop again, still with the same tasks and nothing dispatched.
  pub loop_step-Starved :
      (padding : Bytes) (u : User) (q : QueuedTaskCtx) (qs : List QueuedTaskCtx) (m : ℕ)
      (ts : List Task)
      → 4 ≤ length padding
      → IsValid u.pool
      → AllSent (q ∷ qs)
      → u.sched.queue ≡ messages (q ∷ qs) padding
      → absorb (q ∷ qs) u.min_vruntime (contents u.pool) ≡ ok (m, ts)
      → length ts < 10
      → Returns
          (λ r. (r.0 ≡ refill) × Starved u ts (r.1) × StaysBlocked u ts (r.1))
          (loop_step (λ i. []) [] refill u)
  unfolding loop_step fill_turn
  loop_step-Starved padding u q qs m ts enough v sent e made few =
      let held = length-window u.pool.slots u.pool.head u.pool.count in
      let all = absorbed-length (q ∷ qs) u.min_vruntime (contents u.pool) (m, ts) made in
      let few_held : ltb u.pool.count 10 ≡ true = ground (arith, held, all, few) in
      rw few_held (
        Returns-bind (λ r. (r.0 ≡ refill) × Starved u ts (r.1) × StaysBlocked u ts (r.1))
          (drain_queued_task (λ i. []) task_pool_size 0 u) _
          (drain-Starved padding u (q ∷ qs) m ts enough v sent e made few)
          (λ d h.
            let some_taken : (d.0 == 0) ≡ false = ground (arith, h.0) in
            rw some_taken (refl, h.1, later_turn padding u (d.1) ts enough h.1)))
