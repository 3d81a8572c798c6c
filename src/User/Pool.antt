-- ===== src/User/Pool.antt =====
-- main.go: the task pool, a ring of 4096 slots that insertion keeps in the order of LessQueuedTask.
-- Indices stay below twice the size, so Go's int does not overflow.
pub mod Order
pub mod Ring
pub mod Insert
pub mod Take
pub mod Runs
use scx_goland_core.Base.{
  ℕ, zero, suc, ◌+◌, ◌-◌, ◌%◌, ◌^◌, Bool, true, false, Option, none, some, List, [], ◌∷◌, get_or,
  set, replicate, ltb, leb, ◌==◌, if◌then◌else◌,
}
use scx_goland_core.User.Run.{Run, ok, out_of_fuel, ◌>>=◌}
use scx_goland_core.User.Message.{QueuedTask}

abbrev pub task_pool_size : ℕ
task_pool_size = 4096

pub record Task : Type 0 where
  pub queued : QueuedTask
  pub deadline : ℕ
  pub timestamp : ℕ

-- `a < b` of int32: the patterns from 2^31 on are the negative numbers.
abbrev pub lt32 : ℕ → ℕ → Bool
lt32 a b = ltb ((a + 2 ^ 31) % 2 ^ 32) ((b + 2 ^ 31) % 2 ^ 32)

unfoldable pub less_queued_task : Task → Task → Bool
less_queued_task a b =
    if a.deadline == b.deadline
    then (if a.timestamp == b.timestamp
        then lt32 a.queued.pid b.queued.pid
        else ltb a.timestamp b.timestamp)
    else ltb a.deadline b.deadline

-- taskPool, taskPoolCount, taskPoolHead and taskPoolTail
pub record Pool : Type 0 where
  pub slots : List Task
  pub count : ℕ
  pub head : ℕ
  pub tail : ℕ

-- A slot that was never written. Its QueuedTask is a nil pointer in Go, which nothing reads.
abbrev pub zero_task : Task
zero_task = record {
  queued = record {
    pid = 0;
    cpu = 0;
    nr_cpus_allowed = 0;
    flags = 0;
    start_ts = 0;
    stop_ts = 0;
    sum_exec_runtime = 0;
    weight = 0;
    vtime = 0;
    tgid = 0;
  };
  deadline = 0;
  timestamp = 0;
}

abbrev pub slot : List Task → ℕ → Task
slot slots i = get_or slots i zero_task

-- The pool when the program starts.
abbrev pub empty_pool : Pool
empty_pool = record { slots = replicate task_pool_size zero_task; count = 0; head = 0; tail = 0 }

-- The loop that looks for the first task that the new one precedes, by the rounds left.
unfoldable pub find_index : Pool → Task → ℕ → ℕ → ℕ
find_index p t zero i = p.tail
find_index p t (suc rounds) i =
    let idx = (p.head + i) % task_pool_size in
    let rest = find_index p t rounds (i + 1) in
    if less_queued_task t (slot p.slots idx) then idx else rest

-- The loop `for cur != insertIdx` that moves the tasks behind the new one up by a slot. It has no
-- bound in Go, and is given `fuel` rounds.
unfoldable pub shift : ℕ → List Task → ℕ → ℕ → Run (List Task)
shift zero slots cur insert_idx = if cur == insert_idx then ok slots else out_of_fuel
shift (suc fuel) slots cur insert_idx =
    let next = (cur + task_pool_size - 1) % task_pool_size in
    let rest = shift fuel (set slots cur (slot slots next)) next insert_idx in
    if cur == insert_idx then ok slots else rest

unfoldable pub insert_task_to_pool : Task → Pool → Run (Pool × Bool)
insert_task_to_pool t p = if leb (task_pool_size - 1) p.count then ok (p, false) else (do
  let insert_idx = find_index p t p.count 0
  slots ← shift task_pool_size p.slots p.tail insert_idx
  ok (
    record {
      slots = set slots insert_idx t;
      count = p.count + 1;
      head = p.head;
      tail = (p.tail + 1) % task_pool_size;
    },
    true,
  ))

-- `none` is nil.
unfoldable pub get_task_from_pool : Pool → Option QueuedTask × Pool
get_task_from_pool p = if p.head == p.tail then (none, p) else (
  some (slot p.slots p.head).queued,
  record p { head = (p.head + 1) % task_pool_size; count = p.count - 1 },
)
