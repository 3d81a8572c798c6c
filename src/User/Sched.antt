-- ===== src/User/Sched.antt =====
-- goland_core: the operations of Sched (task.go, obj.go) and the accessors of bss.go on a loaded
-- program. The BPF programs that user space calls run as main.bpf.c has them.
pub mod Dequeue
use scx_goland_core.Base.{
  ℕ, ◌+◌, ◌-◌, ◌^◌, Bool, true, false, Option, none, some, List, [], ◌∷◌, ◌++◌, ltb, ◌==◌, ◌&&◌,
  not, if◌then◌else◌,
}
use scx_goland_core.Intf.{TaskCpuArg, PreemptCpuArg, DomainArg, rl_cpu_any}
use scx_goland_core.Kernel.Oracle.{Kernel}
use scx_goland_core.Bpf.State.{World}
use scx_goland_core.Bpf.Select.{rs_select_cpu, do_preempt}
use scx_goland_core.Bpf.Init
use scx_goland_core.Wrapper.{through, sub_nr_queued}
use scx_goland_core.User.Message.{QueuedTask, DispatchedTask, Bytes, fast_decode, fast_encode}

-- The channels are lists, the oldest message first. A program that was not found is a nil pointer.
pub record Sched : Type 0 where
  pub queue : List Bytes
  pub dispatch : List Bytes
  pub has_select_cpu : Bool
  pub has_preempt_cpu : Bool
  pub has_sibling_cpu : Bool
  pub world : World

-- What libbpfgo answers: whether a call of `Run` fails before the program runs, and whether the
-- user ring buffer has failed.
pub record Libbpf : Type 0 where
  pub run_fails : World → Bool
  pub urb_fails : World → Bool

-- -1 of int32
abbrev pub minus_one : ℕ
minus_one = 2 ^ 32 - 1

-- A QueuedTask of zeros with PID -1
abbrev pub no_task : QueuedTask
no_task = record {
  pid = minus_one;
  cpu = 0;
  nr_cpus_allowed = 0;
  flags = 0;
  start_ts = 0;
  stop_ts = 0;
  sum_exec_runtime = 0;
  weight = 0;
  vtime = 0;
  tgid = 0;
}

abbrev pub decoded : Option QueuedTask → Sched → QueuedTask × Sched
decoded none s = (no_task, s)
decoded (some task) s = (task, record s { world = through sub_nr_queued s.world })

abbrev pub dequeue_from : List Bytes → Sched → QueuedTask × Sched
dequeue_from [] s = (no_task, s)
dequeue_from (t ∷ rest) s = decoded (fast_decode t) (record s { queue = rest })

unfoldable pub dequeue_task : Sched → QueuedTask × Sched
dequeue_task s = dequeue_from s.queue s

-- The oldest message is taken and put back, behind the others.
abbrev pub rotate : List Bytes → List Bytes
rotate [] = []
rotate (t ∷ rest) = rest ++ (t ∷ [])

unfoldable pub ready_for_dequeue : Sched → Bool × Sched
ready_for_dequeue s = (not (is_empty s.queue), record s { queue = rotate s.queue })
  where
    is_empty : List Bytes → Bool
    is_empty [] = true
    is_empty (t ∷ rest) = false

-- The call returns when a message is there; `ms` are those that come in meanwhile. Its context never
-- ends. With no message in the channel and none in `ms`, which is where the call waits on, the function
-- leaves the channel as it is.
unfoldable pub block_til_ready_for_dequeue : List Bytes → Sched → Sched
block_til_ready_for_dequeue ms s = record s { queue = rotate (s.queue ++ ms) }

module _ ⦃b : Libbpf⦄ where
  -- True stands for nil, no error. The send waits while the channel is full, which is not modelled.
  unfoldable pub dispatch_task : DispatchedTask → Sched → Bool × Sched
  dispatch_task t s =
      if b.urb_fails s.world
      then (false, s)
      else (true, record s { dispatch = s.dispatch ++ (fast_encode t ∷ []) })

  module _ ⦃k : Kernel⦄ where
    -- The result of the program is a uint32.
    abbrev pub cpu_of_result : ℕ → ℕ
    cpu_of_result r = if ltb 2147483647 r then rl_cpu_any else r

    -- Whether there is no error, and the CPU.
    unfoldable pub select_cpu : QueuedTask → Sched → Bool × ℕ × Sched
    select_cpu t s =
        if s.has_select_cpu && not (b.run_fails s.world)
        then (let (r, w) =
              rs_select_cpu (record { pid = t.pid; cpu = t.cpu; flags = t.flags }) s.world in
            (true, cpu_of_result r, record s { world = w }))
        else (false, 0, s)

    unfoldable pub preempt_cpu : ℕ → Sched → Bool × Sched
    preempt_cpu cpu s =
        if s.has_preempt_cpu && not (b.run_fails s.world)
        then (let (r, w) = do_preempt (record { cpu_id = cpu }) s.world in
            (r == 0, record s { world = w }))
        else (false, s)

    unfoldable pub enable_sibling_cpu : ℕ → ℕ → ℕ → Sched → Bool × Sched
    enable_sibling_cpu lvl cpu sibling s =
        if s.has_sibling_cpu && not (b.run_fails s.world)
        then (let (r, w) =
              Init.enable_sibling_cpu
                (record { lvl_id = lvl; cpu_id = cpu; sibling_cpu_id = sibling }) s.world in
            (r == 0, record s { world = w }))
        else (false, s)
