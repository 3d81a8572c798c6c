-- ===== src/Tests/User.antt =====
-- The Go half at concrete inputs.
use scx_goland_core.Base.{
  replicate, length-replicate, ℕ, ◌≡◌, ◌++◌, refl, arith, true, false, some, List, [], ◌∷◌, ◌==◌,
  if◌then◌else◌,
}
use scx_goland_core.Intf.{QueuedTaskCtx}
use scx_goland_core.User.Run.{ok, Returns, Ends, Alike}
use scx_goland_core.User.Message.{QueuedTask, Bytes, fast_decode}
use scx_goland_core.User.Message.Layout.{queued_bytes}
use scx_goland_core.User.Message.RoundTrip.{QueuedFits, queued_task, fast_decode-queued_bytes}
use scx_goland_core.User.Vruntime.{updated_enqueue_task}
use scx_goland_core.User.Vruntime.Bounds.{Placed, updated_enqueue_task-Placed}
use scx_goland_core.User.Pool.{Task, task_pool_size, empty_pool}
use scx_goland_core.User.Pool.Ring.{IsValid, empty_pool-IsValid}
use scx_goland_core.User.Pool.Runs.{Op, insert, take, run_pool, run_list, run_pool-run_list}
use scx_goland_core.User.Sched.{Libbpf}
use scx_goland_core.User.Drain.{User, receive, drain_queued_task}
use scx_goland_core.User.Drain.Ends.{Drained, drain_queued_task-Drained}
use scx_goland_core.User.Drain.Absorb.{absorb, messages, Absorbed, drain_queued_task-Absorbed}
use scx_goland_core.User.Loop.Control.{next_task, refill}
use scx_goland_core.User.Loop.{loop_step}
use scx_goland_core.User.Loop.Dispatched.{Fits}
use scx_goland_core.User.Loop.First.{FirstLeft, loop_step-FirstLeft}
use scx_goland_core.User.Loop.Starved.{Starved, StaysBlocked, loop_step-Starved}
use scx_goland_core.User.System.{loaded_system}
use scx_goland_core.User.System.Turns.{begin, turn}
use scx_goland_core.User.System.Turn.{sent}
use scx_goland_core.User.System.Sound.{Consistent, Turns-Consistent}
use scx_goland_core.User.Topology.Domains.{Topology, init_cache_domains}
use scx_goland_core.User.Topology.Domains.Linked.{AllOf, CacheLinked}
use scx_goland_core.User.Topology.Domains.Done.{init_cache_domains-Done}
use scx_goland_core.User.Topology.Walk.{Entry, index2, shared_cpu_list, get_topology}
use scx_goland_core.User.Topology.Walk.Scanned.{Scanned, get_topology-Scanned}
use scx_goland_core.Tests.Data.{running_world, four_cpus, settings, cpus}

-- The message of the worker, with its padding.
abbrev pub worker_message : QueuedTaskCtx
worker_message = record {
  pid = 7;
  cpu = 2;
  nr_cpus_allowed = 4;
  flags = 1;
  start_ts = 10;
  stop_ts = 20;
  exec_runtime = 500;
  weight = 100;
  vtime = 900;
  tgid = 7;
}

abbrev pub worker_fits : QueuedFits worker_message
worker_fits = record {
  pid_fits = omega arith;
  cpu_fits = omega arith;
  cpus_fits = omega arith;
  flags_fits = omega arith;
  start_fits = omega arith;
  stop_fits = omega arith;
  runtime_fits = omega arith;
  weight_fits = omega arith;
  vtime_fits = omega arith;
  tgid_fits = omega arith;
}

abbrev pub padding : Bytes
padding = 0 ∷ 0 ∷ 0 ∷ 0 ∷ []

fast_decode-queued_bytes_example :
    fast_decode (queued_bytes worker_message padding) ≡ some (queued_task worker_message)
fast_decode-queued_bytes_example = fast_decode-queued_bytes worker_message padding worker_fits

abbrev waiting_task : QueuedTask
waiting_task = queued_task worker_message

updated_enqueue_task-Placed_example :
    Returns (Placed 1000 waiting_task) (updated_enqueue_task 1000 waiting_task)
updated_enqueue_task-Placed_example = updated_enqueue_task-Placed 1000 waiting_task (omega arith)

abbrev task_at : ℕ → Task
task_at deadline = record { queued = waiting_task; deadline = deadline; timestamp = 0 }

abbrev two_and_one : List Op
two_and_one = insert (task_at 9) ∷ insert (task_at 4) ∷ take ∷ []

run_pool-run_list_example : run_pool two_and_one empty_pool ≡ ok (run_list two_and_one [])
run_pool-run_list_example = run_pool-run_list two_and_one

instance abbrev pub healthy : Libbpf
healthy = record { run_fails = λ w. false; urb_fails = λ w. false }

-- An empty pool, with the message of the worker in the channel.
abbrev pub one_waits : User
one_waits = record {
  pool = empty_pool;
  min_vruntime = 1000;
  sched = record {
    queue = messages (worker_message ∷ []) padding;
    dispatch = [];
    has_select_cpu = true;
    has_preempt_cpu = true;
    has_sibling_cpu = true;
    world = running_world;
  };
}

abbrev pub one_more : ℕ → List Bytes
one_more i = if i == 1 then messages (worker_message ∷ []) padding else []

drain_queued_task-Drained_example :
    Ends (Drained 0 one_waits) (drain_queued_task one_more task_pool_size 0 one_waits)
drain_queued_task-Drained_example = drain_queued_task-Drained one_more one_waits empty_pool-IsValid

drain_queued_task-Absorbed_example :
    Alike
      (Absorbed 0 one_waits (worker_message ∷ []) padding)
      (drain_queued_task (λ i. []) task_pool_size 0 one_waits)
      (absorb (worker_message ∷ []) 1000 [])
drain_queued_task-Absorbed_example =
    drain_queued_task-Absorbed padding (omega arith) one_waits (worker_message ∷ [])
      empty_pool-IsValid ((worker_fits, omega arith), tt) refl

abbrev worker_placed : Task
worker_placed = record {
  queued = record waiting_task { vtime = 910 };
  deadline = 1410;
  timestamp = 0;
}

loop_step-Starved_example :
    Returns
      (λ r.
        (r.0 ≡ refill)
        × Starved one_waits (worker_placed ∷ []) (r.1)
        × StaysBlocked one_waits (worker_placed ∷ []) (r.1))
      (loop_step (λ i. []) [] refill one_waits)
unfolding updated_enqueue_task
loop_step-Starved_example =
    loop_step-Starved padding one_waits worker_message [] 1000 (worker_placed ∷ []) (omega arith)
      empty_pool-IsValid ((worker_fits, omega arith), tt) refl refl (omega arith)

abbrev waiting_fits : Fits waiting_task
waiting_fits = record { pid_fits = omega arith; flags_fits = omega arith; vtime_fits = omega arith }

-- The same with the worker in the pool.
abbrev one_pooled : User
one_pooled = record one_waits {
  pool = record { slots = replicate task_pool_size (task_at 9); count = 1; head = 5; tail = 6 };
}

abbrev one_pooled-IsValid : IsValid one_pooled.pool
one_pooled-IsValid = record {
  size = length-replicate task_pool_size (task_at 9);
  head_inside = omega arith;
  count_bound = omega arith;
  tail_after = refl;
}

loop_step-FirstLeft_example :
    Returns (FirstLeft (task_at 9) [] one_pooled) (loop_step one_more [] next_task one_pooled)
loop_step-FirstLeft_example =
    loop_step-FirstLeft one_more [] (task_at 9) [] one_pooled one_pooled-IsValid refl waiting_fits
      (omega arith) (omega arith)

abbrev started : User
started = loaded_system settings cpus true true true

Turns-Consistent_example : Consistent (receive (queued_bytes worker_message padding ∷ []) started)
Turns-Consistent_example =
    Turns-Consistent settings cpus true true true next_task _
      (turn begin (sent next_task started (queued_bytes worker_message padding)))

abbrev two_pairs : Topology
two_pairs = record {
  l2 = ([], 0 ∷ 1 ∷ []) ∷ ([], 2 ∷ 3 ∷ []) ∷ [];
  l3 = ([], 0 ∷ 1 ∷ 2 ∷ 3 ∷ []) ∷ [];
}

init_cache_domains-Done_example :
    let r = init_cache_domains (true, two_pairs) (true, two_pairs) one_waits.sched in
    (r.0 ≡ true)
    × AllOf (CacheLinked 2 (r.1).world) two_pairs.l2
    × AllOf (CacheLinked 3 (r.1).world) two_pairs.l3
init_cache_domains-Done_example =
    init_cache_domains-Done (λ w. refl) (λ t. refl) 4 two_pairs two_pairs one_waits.sched
      (record { program_found = refl; cpus_known = refl })
      ((omega arith, (omega arith, tt)), ((omega arith, (omega arith, tt)), tt))
      ((omega arith, (omega arith, (omega arith, (omega arith, tt)))), tt)

-- "/cache/index2/shared_cpu_list" with "0-1" and a newline
abbrev pair_file : Entry
pair_file = record {
  fails = false;
  path = index2 ++ shared_cpu_list;
  content = some (48 ∷ 45 ∷ 49 ∷ 10 ∷ []);
}

get_topology-Scanned_example : Returns (Scanned (pair_file ∷ [])) (get_topology (pair_file ∷ []))
get_topology-Scanned_example = get_topology-Scanned (pair_file ∷ []) (refl, tt)
