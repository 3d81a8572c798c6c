-- ===== src/Tests/Round.antt =====
-- Ten tasks on their way through the Go half, at a concrete input.
use scx_goland_core.Base.{◌≡◌, ◌≢◌, refl, arith, replicate, length, List, [], ◌∷◌}
use scx_goland_core.Intf.{QueuedTaskCtx}
use scx_goland_core.User.Run.{Returns}
use scx_goland_core.User.Message.RoundTrip.{QueuedFits, queued_task}
use scx_goland_core.User.Vruntime.{updated_enqueue_task}
use scx_goland_core.User.Pool.{Task, less_queued_task}
use scx_goland_core.User.Pool.Order.{IsSorted}
use scx_goland_core.User.Pool.Ring.{empty_pool-IsValid}
use scx_goland_core.User.Sched.{minus_one}
use scx_goland_core.User.Drain.{User}
use scx_goland_core.User.Drain.Absorb.{messages, AllSent}
use scx_goland_core.User.System.Handed.{Handed}
use scx_goland_core.User.System.Round.{Ready, three_turns, three_turns-Handed}
use scx_goland_core.Tests.Data.{running_world, worker, four_cpus}
use scx_goland_core.Tests.User.{worker_message, worker_fits, padding, healthy, one_waits, one_more}

abbrev ten : List QueuedTaskCtx
ten = replicate 10 worker_message

abbrev worker_sent : QueuedFits worker_message × (worker_message.pid ≢ minus_one)
worker_sent = (worker_fits, omega arith)

abbrev ten_sent : AllSent ten
ten_sent = (
  worker_sent,
  (
    worker_sent,
    (
      worker_sent,
      (
        worker_sent,
        (
          worker_sent,
          (worker_sent, (worker_sent, (worker_sent, (worker_sent, (worker_sent, tt))))),
        ),
      ),
    ),
  ),
)

abbrev ten_wait : User
ten_wait = record one_waits { sched = record (one_waits.sched) { queue = messages ten padding } }

abbrev ten_wait-Ready : Ready padding ten ten_wait
ten_wait-Ready = record {
  padded = omega arith;
  valid = empty_pool-IsValid;
  none_held = refl;
  sent = ten_sent;
  enough = omega arith;
  fits = omega arith;
  queued = refl;
  none_waits = refl;
  small = omega arith;
}

-- The worker, with its vtime and deadline.
abbrev worker_task : Task
worker_task = record {
  queued = record (queued_task worker_message) { vtime = 910 };
  deadline = 1410;
  timestamp = 0;
}

three_turns-Handed_example :
    (length (worker_task ∷ replicate 9 worker_task) ≡ length ten)
    × IsSorted (worker_task ∷ replicate 9 worker_task)
    × Returns
        (λ r. Handed worker_task.queued worker running_world r.1)
        (three_turns one_more [] ten_wait)
unfolding updated_enqueue_task less_queued_task
three_turns-Handed_example =
    three_turns-Handed one_more [] padding ten_wait ten 1000 worker_task (replicate 9 worker_task)
      worker running_world ten_wait-Ready refl (λ x. refl) refl
