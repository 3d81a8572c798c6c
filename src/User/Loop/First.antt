-- ===== src/User/Loop/First.antt =====
-- main.go: a turn of the outer loop with tasks in the pool.
use scx_goland_core.Base.{ℕ, ◌+◌, ◌<◌, ◌^◌, ◌≡◌, ◌≢◌, refl, ap, ◌==◌, false, some, List, ◌∷◌, arith}
use scx_goland_core.Kernel.Oracle.{Kernel}
use scx_goland_core.User.Run.{Returns, Returns-bind}
use scx_goland_core.User.Pool.{Task, get_task_from_pool}
use scx_goland_core.User.Pool.Ring.{IsValid, contents}
use scx_goland_core.User.Pool.Take.{get_task_from_pool-Taken}
use scx_goland_core.User.Sched.{Libbpf, minus_one}
use scx_goland_core.User.Drain.{User}
use scx_goland_core.User.Loop.{Control, next_task, dispatch_next, after_take, loop_step}
use scx_goland_core.User.Loop.Dispatched.{
  Fits, Dispatched, Dispatched-pool, dispatch_next-Dispatched,
}

module _ ⦃b : Libbpf⦄ ⦃k : Kernel⦄ where
  -- The first task has left the pool, and is dispatched.
  pub record FirstLeft (t : Task) (ts : List Task) (u : User) (r : Control × User) : Type 0 where
    pub control_same : r.0 ≡ next_task
    pub dispatched : Dispatched t.queued (record u { pool = (get_task_from_pool u.pool).1 }) (r.1)
    pub pool_after : (r.1).pool ≡ (get_task_from_pool u.pool).1
    pub others_left : contents (r.1).pool ≡ ts
    pub valid : IsValid (r.1).pool

  -- A turn of the outer loop with a valid pool that holds tasks, where the counts of tasks do not wrap
  -- and the first task is not the one with PID -1. The first task leaves the pool, and the others stay
  -- in their order. If the ring buffer of user space has failed, nothing is sent. Else one message is
  -- sent, behind those that wait: the other half reads in it the PID, the flags and the vtime of the
  -- task, a slice between half a millisecond and five milliseconds, and a CPU: the answer of
  -- rs_select_cpu for the task, RL_CPU_ANY if that is negative, and CPU 0 if the program was not found
  -- or its call fails. The number of tasks that are left in the pool is written to nr_scheduled, and
  -- but for that the data is as rs_select_cpu leaves it.
  pub loop_step-FirstLeft :
      (arrivals : ℕ → List (List ℕ)) (waited : List (List ℕ)) (t : Task) (ts : List Task) (u : User)
      → IsValid u.pool
      → contents u.pool ≡ t ∷ ts
      → Fits t.queued
      → t.queued.pid ≢ minus_one
      → u.sched.world.bss.nr_queued + u.sched.world.bss.nr_scheduled + 1 < 2 ^ 64
      → Returns (FirstLeft t ts u) (loop_step arrivals waited next_task u)
  unfolding loop_step after_take
  loop_step-FirstLeft arrivals waited t ts u v e fits named small =
      let taken = get_task_from_pool-Taken u.pool v in
      let p = (get_task_from_pool u.pool).1 in
      let first : (get_task_from_pool u.pool).0 ≡ some t.queued =
        rw e at (ap (λ z. z.0) taken.first) in
      let others : contents p ≡ ts = rw e at (ap (λ z. z.1) taken.first) in
      let n : (t.queued.pid == minus_one) ≡ false = ground arith in
      let same : (w : User) → Dispatched t.queued (record u { pool = p }) w → w.pool ≡ p =
        λ w d. Dispatched-pool t.queued (record u { pool = p }) w d in
      rw (first, n)
        (Returns-bind (FirstLeft t ts u) (dispatch_next t.queued (record u { pool = p })) _
          (dispatch_next-Dispatched t.queued (record u { pool = p }) fits small)
          (λ w d. record {
            control_same = refl;
            dispatched = d;
            pool_after = same w d;
            others_left = rw (same w d) others;
            valid = rw (same w d) taken.valid;
          }))
