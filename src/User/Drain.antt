-- ===== src/User/Drain.antt =====
-- main.go: DrainQueuedTask.
pub mod Ends
pub mod Absorb
pub mod Named
use scx_goland_core.Base.{ℕ, zero, suc, ◌+◌, ◌%◌, Bool, List, [], ◌∷◌, ◌++◌, ◌==◌, if◌then◌else◌}
use scx_goland_core.User.Run.{Run, ok, out_of_fuel, ◌>>=◌}
use scx_goland_core.User.Message.{QueuedTask, Bytes}
use scx_goland_core.User.Vruntime.{updated_enqueue_task}
use scx_goland_core.User.Pool.{Task, Pool, task_pool_size, insert_task_to_pool}
use scx_goland_core.User.Sched.{Sched, dequeue_task, minus_one}

-- The globals of main.go, and the loaded program.
pub record User : Type 0 where
  pub pool : Pool
  pub min_vruntime : ℕ
  pub sched : Sched

abbrev pub is_full : Pool → Bool
is_full p = (p.tail + 1) % task_pool_size == p.head

-- What the loop does with a task; no answer is asked of the insertion.
unfoldable pub take_in : QueuedTask → User → Run User
take_in task u = do
  (deadline, task', min_after) ← updated_enqueue_task u.min_vruntime task
  (pool, held) ←
      insert_task_to_pool (record { queued = task'; deadline = deadline; timestamp = 0 }) u.pool
  ok (record u { pool = pool; min_vruntime = min_after })

-- Messages that come in on the channel.
abbrev pub receive : List Bytes → User → User
receive ms u = record u { sched = record (u.sched) { queue = u.sched.queue ++ ms } }

-- `arrivals i` are the messages that come in before round `i`. The loop has no bound in Go, and is
-- given `fuel` rounds.
unfoldable pub drain_queued_task : (ℕ → List Bytes) → ℕ → ℕ → User → Run (ℕ × User)
drain_queued_task arrivals zero count u = if is_full u.pool then ok (0, u) else out_of_fuel
drain_queued_task arrivals (suc fuel) count u =
    let start = receive (arrivals count) u in
    let (task, s) = dequeue_task start.sched in
    let v : User = record start { sched = s } in
    let rest = take_in task v >>= drain_queued_task arrivals fuel (count + 1) in
    if is_full u.pool then ok (0, u) else (if task.pid == minus_one then ok (count, v) else rest)
