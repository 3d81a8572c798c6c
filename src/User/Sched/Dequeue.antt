-- ===== src/User/Sched/Dequeue.antt =====
-- goland_core/task.go, DequeueTask: what it takes, whatever the messages are.
use scx_goland_core.Base.{
  ◌+◌, ◌≤◌, ◌≡◌, refl, ◌==◌, Option, none, some, List, [], ◌∷◌, arith, length, if◌then◌else◌, ◌⊎◌,
  inl, inr,
}
use scx_goland_core.Wrapper.{through, sub_nr_queued}
use scx_goland_core.User.Message.{QueuedTask, Bytes, fast_decode}
use scx_goland_core.User.Sched.{Sched, minus_one, decoded, dequeue_from, dequeue_task}

-- At most one message is taken, and one is where there is a task; nothing is dispatched.
pub record Dequeued (s : Sched) (r : QueuedTask × Sched) : Type 0 where
  pub dispatch_same : (r.1).dispatch ≡ s.dispatch
  pub shrinks : length (r.1).queue + (if (r.0).pid == minus_one then 0 else 1) ≤ length s.queue
  pub world_after : ((r.1).world ≡ s.world) ⊎ ((r.1).world ≡ through sub_nr_queued s.world)

decoded-Dequeued :
    (t : Option QueuedTask) (m : Bytes) (rest : List Bytes) (s : Sched)
    → Dequeued (record s { queue = m ∷ rest }) (decoded t (record s { queue = rest }))
decoded-Dequeued none m rest s = record {
  dispatch_same = refl;
  shrinks = omega arith;
  world_after = inl refl;
}
decoded-Dequeued (some t) m rest s = record {
  dispatch_same = refl;
  shrinks = ground arith;
  world_after = inr refl;
}

dequeue_from-Dequeued :
    (ms : List Bytes) (s : Sched)
    → Dequeued (record s { queue = ms }) (dequeue_from ms (record s { queue = ms }))
dequeue_from-Dequeued [] s = record {
  dispatch_same = refl;
  shrinks = omega arith;
  world_after = inl refl;
}
dequeue_from-Dequeued (m ∷ rest) s = decoded-Dequeued (fast_decode m) m rest s

pub dequeue_task-Dequeued : (s : Sched) → Dequeued s (dequeue_task s)
unfolding dequeue_task
dequeue_task-Dequeued s = dequeue_from-Dequeued s.queue s
