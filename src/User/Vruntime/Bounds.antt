-- ===== src/User/Vruntime/Bounds.antt =====
-- main.go, updatedEnqueueTask: where the new virtual run time and the deadline of a task lie.
use scx_goland_core.Base.{ℕ, ◌+◌, ◌*◌, ◌^◌, ◌≤◌, ◌<◌, ◌≡◌, ◌==◌, ◌&&◌, arith, if◌then◌else◌}
use scx_goland_core.User.Run.{panic, Returns}
use scx_goland_core.User.Message.{QueuedTask}
use scx_goland_core.User.Vruntime.{updated_enqueue_task, charge, max64, slice_ns_default}

-- No sum reaches 2^64: the largest vtime so far, a slice of the smallest weight, the charge of the
-- task and the longest run time that counts.
abbrev pub Small : ℕ → QueuedTask → Type 0
Small min_vruntime t = max64 min_vruntime t.vtime + charge t + 1_000_000_000 < 2 ^ 64

-- The deadline and the task afterwards, for a task `t` that came in at `min_vruntime`.
pub record Placed (min_vruntime : ℕ) (t : QueuedTask) (r : ℕ × QueuedTask × ℕ) : Type 0 where
  pub min_grows : r.2 ≡ max64 min_vruntime t.vtime
  pub not_behind : r.2 ≤ r.1.vtime + slice_ns_default
  pub not_before : t.vtime + charge t ≤ r.1.vtime
  pub not_ahead : r.1.vtime ≤ r.2 + charge t + slice_ns_default * 100
  pub deadline_after : r.1.vtime ≤ r.0
  pub deadline_near : r.0 ≤ r.1.vtime + slice_ns_default * 100
  pub rest_same : record (r.1) { vtime = t.vtime } ≡ t

-- A task with vtime 0 and weight 0 makes the scheduler panic, by a division by zero. Any other task,
-- where the sums stay below 2^64: minVruntime becomes the larger of itself and the task's vtime; the
-- new vtime is at most one slice behind it, at least the old vtime with the charge for the last run,
-- and at most 100 slices and the charge ahead of minVruntime; the deadline lies at most 100 slices
-- after the new vtime; no other field of the task changes.
pub updated_enqueue_task-Placed :
    (min_vruntime : ℕ) (t : QueuedTask)
    → Small min_vruntime t
    → if t.vtime == 0 && t.weight == 0
      then updated_enqueue_task min_vruntime t ≡ panic
      else Returns (Placed min_vruntime t) (updated_enqueue_task min_vruntime t)
unfolding updated_enqueue_task
updated_enqueue_task-Placed min_vruntime t small = ground arith
