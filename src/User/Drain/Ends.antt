-- ===== src/User/Drain/Ends.antt =====
-- main.go, DrainQueuedTask: the loop ends.
use scx_goland_core.Base.{
  ℕ, zero, suc, ◌+◌, ◌-◌, ◌≤◌, ◌<◌, ◌≡◌, refl, ap, ◌∙◌, Bool, true, false, List, arith, length,
  ◌==◌, if◌then◌else◌, Bool-cases, inl, inr, sym,
}
use scx_goland_core.User.Run.{
  Run, ok, ◌>>=◌, Ends, Ends-bind, Ends-map, Alike, Alike-bind, Alike-refl, Alike-Ends,
  Alike-Returns,
}
use scx_goland_core.User.Message.{QueuedTask, Bytes}
use scx_goland_core.User.Vruntime.{updated_enqueue_task, start_vtime}
use scx_goland_core.User.Pool.{Task, Pool, task_pool_size, insert_task_to_pool}
use scx_goland_core.User.Pool.Order.{
  insert_sorted, IsSorted, insert_sorted-IsSorted, length-insert_sorted,
}
use scx_goland_core.User.Pool.Ring.{IsValid, contents, length-window}
use scx_goland_core.User.Pool.Insert.{Inserted, insert_task_to_pool-Inserted}
use scx_goland_core.User.Sched.{Sched, dequeue_task, minus_one}
use scx_goland_core.User.Sched.Dequeue.{Dequeued, dequeue_task-Dequeued}
use scx_goland_core.User.Drain.{User, is_full, take_in, receive, drain_queued_task}

pub is_full-count : (p : Pool) → IsValid p → is_full p ≡ (p.count == task_pool_size - 1)
is_full-count p v = ground (arith, v.tail_after)

-- An insertion with room adds one task.
pub Inserted-room :
    (t : Task) (p : Pool) (r : Pool × Bool)
    → p.count < task_pool_size - 1
    → Inserted t p r
    → contents (r.0) ≡ insert_sorted t (contents p)
Inserted-room t p r room i = ground (arith, i.answer, i.stored)

pub Inserted-count :
    (t : Task) (p : Pool) (r : Pool × Bool)
    → p.count < task_pool_size - 1
    → Inserted t p r
    → (r.0).count ≡ p.count + 1
Inserted-count t p r room i =
    let l = length-window (r.0).slots (r.0).head (r.0).count in
    omega (
      arith,
      sym l,
      ap length (Inserted-room t p r room i),
      length-insert_sorted t (contents p),
      length-window p.slots p.head p.count,
    )

-- The reference for one task: the list kept in order gains it.
abbrev pub take_sorted : QueuedTask → ℕ → List Task → Run (ℕ × List Task)
take_sorted task min_vruntime ts = do
  (deadline, task', min_after) ← updated_enqueue_task min_vruntime task
  ok (min_after, insert_sorted (record { queued = task'; deadline = deadline; timestamp = 0 }) ts)

pub record Took (u v : User) (s : ℕ × List Task) : Type 0 where
  pub valid : IsValid v.pool
  pub counted : v.pool.count ≡ u.pool.count + 1
  pub sched_same : v.sched ≡ u.sched
  pub min_same : v.min_vruntime ≡ s.0
  pub stored : contents v.pool ≡ s.1
  pub sorted : IsSorted (contents u.pool) → IsSorted (contents v.pool)

pub updated-Ends : (m : ℕ) (task : QueuedTask) → Ends (λ r. Unit) (updated_enqueue_task m task)
unfolding updated_enqueue_task start_vtime
updated-Ends m task = ground arith

pub take_in-Took :
    (task : QueuedTask) (u : User)
    → IsValid u.pool
    → u.pool.count < task_pool_size - 1
    → Alike (Took u) (take_in task u) (take_sorted task u.min_vruntime (contents u.pool))
unfolding take_in
take_in-Took task u v room =
    Alike-bind (Took u) (updated_enqueue_task u.min_vruntime task)
      (updated_enqueue_task u.min_vruntime task) _ _
      (Alike-refl (updated_enqueue_task u.min_vruntime task) (updated-Ends u.min_vruntime task))
      (λ a b e.
        let t : Task = record { queued = b.1; deadline = b.0; timestamp = 0 } in
        rw e (
          Alike-Returns (Took u) (insert_task_to_pool t u.pool) _ _
            (insert_task_to_pool-Inserted t u.pool v)
            (λ r i. record {
              valid = i.valid;
              counted = Inserted-count t u.pool r room i;
              sched_same = refl;
              min_same = refl;
              stored = Inserted-room t u.pool r room i;
              sorted = λ h.
                  rw (Inserted-room t u.pool r room i)
                    (insert_sorted-IsSorted t (contents u.pool) h);
            })))

-- What the round with the result `count` so far has taken from the channel.
abbrev pub dequeued : (ℕ → List Bytes) → ℕ → User → QueuedTask × Sched
dequeued arrivals count u = dequeue_task (receive (arrivals count) u).sched

pub taken :
    (arrivals : ℕ → List Bytes) (count : ℕ) (u : User)
    → Dequeued (receive (arrivals count) u).sched (dequeued arrivals count u)
taken arrivals count u = dequeue_task-Dequeued (receive (arrivals count) u).sched

-- A property of the drain: it holds of a full pool, of a round that finds no task, and of a round
-- that takes a task in if it holds of the rest.
module _ (arrivals : ℕ → List Bytes) (Q : ℕ → User → ℕ × User → Type 0)
    (full : (count : ℕ) (u : User) → IsValid u.pool → is_full u.pool ≡ true → Q count u (0, u))
    (empty : (count : ℕ) (u : User)
      → IsValid u.pool
      → is_full u.pool ≡ false
      → Q count u (count, record u { sched = (dequeued arrivals count u).1 }))
    (more : (count : ℕ) (u w : User) (r : ℕ × User)
      → IsValid w.pool
      → w.pool.count ≡ u.pool.count + 1
      → w.sched ≡ (dequeued arrivals count u).1
      → ((dequeued arrivals count u).0.pid == minus_one) ≡ false
      → (IsSorted (contents u.pool) → IsSorted (contents w.pool))
      → Q (count + 1) w r
      → Q count u r) where
  drain_round :
      (fuel count : ℕ) (u : User)
      → IsValid u.pool
      → is_full u.pool ≡ false
      → ((w : User)
          → IsValid w.pool
          → w.pool.count ≡ u.pool.count + 1
          → Ends (Q (count + 1) w) (drain_queued_task arrivals fuel (count + 1) w))
      → Ends (Q count u) (drain_queued_task arrivals (suc fuel) count u)
  unfolding drain_queued_task
  drain_round fuel count u v e next =
      let r = dequeued arrivals count u in
      let w : User = record u { sched = r.1 } in
      let room : u.pool.count < task_pool_size - 1 =
        ground (arith, is_full-count u.pool v, v.count_bound) in
      elim (Bool-cases ((r.0).pid == minus_one)) [
        | inl p ↦ rw (e, p) (empty count u v e)
        | inr p ↦
            rw (e, p)
              (Ends-bind (Q count u) (take_in (r.0) w) _
                (Alike-Ends
                  (λ x.
                    IsValid x.pool
                    × (x.pool.count ≡ u.pool.count + 1)
                    × (x.sched ≡ r.1)
                    × (IsSorted (contents u.pool) → IsSorted (contents x.pool)))
                  (take_in (r.0) w) _ (take_in-Took (r.0) w v room)
                  (λ x s t. (t.valid, t.counted, t.sched_same, t.sorted)))
                (λ x h.
                  Ends-map (Q count u) (drain_queued_task arrivals fuel (count + 1) x)
                    (next x (h.0) (h.1)) (λ q d. more count u x q (h.0) (h.1) (h.2) p (h.3) d)))
      ]

  pub drain_rule :
      (fuel count : ℕ) (u : User)
      → IsValid u.pool
      → task_pool_size ≤ u.pool.count + 1 + fuel
      → Ends (Q count u) (drain_queued_task arrivals fuel count u)
  unfolding drain_queued_task
  drain_rule zero count u v b =
      let e : is_full u.pool ≡ true = ground (arith, is_full-count u.pool v, v.count_bound) in
      rw e (full count u v e)
  drain_rule (suc fuel) count u v b = elim (Bool-cases (is_full u.pool)) [
    | inl e ↦ rw e (full count u v e)
    | inr e ↦ drain_round fuel count u v e (λ w x c. drain_rule fuel (count + 1) w x (omega arith))
  ]

-- What the drain has done, which had the result `count` before.
pub record Drained (count : ℕ) (u : User) (r : ℕ × User) : Type 0 where
  pub valid : IsValid ((r.1).pool)
  pub grown : u.pool.count ≤ (r.1).pool.count
  pub answer : r.0 ≡ (if is_full (r.1).pool then 0 else count + ((r.1).pool.count - u.pool.count))
  pub dispatch_same : (r.1).sched.dispatch ≡ u.sched.dispatch

-- Whatever messages wait and come in, the drain of a valid pool ends within 4096 rounds, with a
-- result or the panic of a division by zero. It keeps the pool valid, takes no task out and
-- dispatches nothing; its result is the number of tasks that it has put in, but 0 if the pool is
-- full afterwards.
pub drain_queued_task-Drained :
    (arrivals : ℕ → List Bytes) (u : User)
    → IsValid u.pool
    → Ends (Drained 0 u) (drain_queued_task arrivals task_pool_size 0 u)
drain_queued_task-Drained arrivals u v =
    drain_rule arrivals Drained
      (λ count u v e. record {
        valid = v;
        grown = omega arith;
        answer = rw e refl;
        dispatch_same = refl;
      })
      (λ count u v e. record {
        valid = v;
        grown = omega arith;
        answer = rw e (omega arith);
        dispatch_same = (taken arrivals count u).dispatch_same;
      })
      (λ count u w r x c s p o d. record {
        valid = d.valid;
        grown = omega (arith, d.grown);
        answer = ground (arith, d.answer, d.grown);
        dispatch_same =
            d.dispatch_same ∙ (ap (λ z. z.dispatch) s ∙ (taken arrivals count u).dispatch_same);
      })
      task_pool_size 0 u v (omega arith)
