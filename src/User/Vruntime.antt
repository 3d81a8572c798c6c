-- ===== src/User/Vruntime.antt =====
-- main.go: the virtual run time of a queued task, and its deadline.
pub mod Bounds
use scx_goland_core.Base.{ℕ, ◌+◌, ◌-◌, ◌*◌, ◌/◌, ◌%◌, ◌^◌, Bool, ltb, ◌==◌, if◌then◌else◌}
use scx_goland_core.Base.Word.{add64, sub64}
use scx_goland_core.User.Run.{Run, ok, panic, ◌>>=◌}
use scx_goland_core.User.Message.{QueuedTask}

abbrev pub slice_ns_default : ℕ
slice_ns_default = 5000 * 1000

abbrev pub slice_ns_min : ℕ
slice_ns_min = 500 * 1000

unfoldable pub saturating_sub : ℕ → ℕ → ℕ
saturating_sub a b = if ltb b a then a - b else 0

-- `a / b` of uint64, which panics at 0.
abbrev pub div64 : ℕ → ℕ → Run ℕ
div64 a b = if b == 0 then panic else ok (a / b)

-- `min` of uint64
abbrev pub min64 : ℕ → ℕ → ℕ
min64 a b = if ltb b a then b else a

-- `max` of uint64
abbrev pub max64 : ℕ → ℕ → ℕ
max64 a b = if ltb a b then b else a

-- The vtime of a task with none, of one that is too far behind, and of any other.
unfoldable pub start_vtime : ℕ → QueuedTask → Run ℕ
start_vtime local t =
    if t.vtime == 0
    then (div64 (slice_ns_default * 100) t.weight >>= λ share. ok (add64 local share))
    else ok (if ltb t.vtime local then local else t.vtime)

-- `(t.StopTs - t.StartTs) * t.Weight / 100`, each step modulo 2^64
abbrev pub charge : QueuedTask → ℕ
charge t = sub64 t.stop_ts t.start_ts * t.weight % 2 ^ 64 / 100

-- The deadline, the task with its new vtime, and minVruntime afterwards.
unfoldable pub updated_enqueue_task : ℕ → QueuedTask → Run (ℕ × QueuedTask × ℕ)
unfolding start_vtime saturating_sub
updated_enqueue_task min_vruntime t = do
  let min_after = max64 min_vruntime t.vtime
  let local = saturating_sub min_after slice_ns_default
  start ← start_vtime local t
  let vtime = add64 start (charge t)
  let deadline = add64 vtime (min64 t.sum_exec_runtime (slice_ns_default * 100))
  ok (deadline, record t { vtime = vtime }, min_after)
