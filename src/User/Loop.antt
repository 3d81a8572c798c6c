-- ===== src/User/Loop.antt =====
-- main.go: the loop of the scheduler, as a machine whose steps are the turns of its two loops.
pub mod Dispatched
pub mod First
pub mod Starved
use scx_goland_core.Base.{
  ℕ, ◌+◌, ◌==◌, Bool, true, false, Option, none, some, List, ltb, if◌then◌else◌,
}
use scx_goland_core.Base.Word.{add64}
use scx_goland_core.Kernel.Oracle.{Kernel}
use scx_goland_core.Bpf.State.{World}
use scx_goland_core.Wrapper.{Skeleton, through, notify_complete, get_nr_queued, get_nr_scheduled}
use scx_goland_core.User.Run.{Run, ok, ◌>>=◌}
use scx_goland_core.User.Message.{QueuedTask, DispatchedTask, Bytes, new_dispatched_task}
use scx_goland_core.User.Vruntime.{slice_ns_default, slice_ns_min, div64, max64}
use scx_goland_core.User.Pool.{Pool, task_pool_size, get_task_from_pool}
use scx_goland_core.User.Sched.{
  Sched, Libbpf, minus_one, dispatch_task, select_cpu, block_til_ready_for_dequeue,
}
use scx_goland_core.User.Drain.{User, drain_queued_task}

-- `core.GetNrQueued() + core.GetNrScheduled() + 1`
abbrev pub nr_waiting : World → ℕ
nr_waiting w =
    let s : Skeleton = record { rodata = w.ro; bss = w.bss } in
    add64 (add64 (get_nr_queued s) (get_nr_scheduled s)) 1

-- `max(SLICE_NS_DEFAULT/nrWaiting, SLICE_NS_MIN)`
unfoldable pub time_slice : World → Run ℕ
time_slice w = div64 slice_ns_default (nr_waiting w) >>= λ share. ok (max64 share slice_ns_min)

-- Where the goroutine is: at the outer loop, or in the loop that fills the pool.
pub data Control : Type 0 where
  next_task : Control
  refill : Control

module _ ⦃b : Libbpf⦄ ⦃k : Kernel⦄ where
  -- With a task that came out of the pool.
  unfoldable pub dispatch_next : QueuedTask → User → Run User
  dispatch_next t u = do
    let (selected, cpu, s) = select_cpu t u.sched
    slice_ns ← time_slice s.world
    let task = record (new_dispatched_task t) { vtime = t.vtime; slice_ns = slice_ns; cpu = cpu }
    let (sent, s') = dispatch_task task s
    let w = through (notify_complete u.pool.count) s'.world
    ok (record u { sched = if sent then record s' { world = w } else s' })

  unfoldable pub after_take : Option QueuedTask → User → Run (Control × User)
  after_take none u = ok (refill, u)
  after_take (some t) u =
      let rest = dispatch_next t u >>= λ v. ok (next_task, v) in
      if t.pid == minus_one then ok (next_task, u) else rest

  -- A turn of the loop `for uint64(taskPoolCount) < 10`. `waited` are the messages that come in
  -- while it blocks.
  unfoldable pub fill_turn : (ℕ → List Bytes) → List Bytes → User → Run (Control × User)
  fill_turn arrivals waited u = do
    (num, v) ← drain_queued_task arrivals task_pool_size 0 u
    let blocked = record v { sched = block_til_ready_for_dequeue waited v.sched }
    ok (refill, if num == 0 then blocked else v)

  unfoldable pub loop_step : (ℕ → List Bytes) → List Bytes → Control → User → Run (Control × User)
  loop_step arrivals waited next_task u =
      let (t, p) = get_task_from_pool u.pool in after_take t (record u { pool = p })
  loop_step arrivals waited refill u =
      let turn = fill_turn arrivals waited u in
      if ltb u.pool.count 10 then turn else ok (next_task, u)
