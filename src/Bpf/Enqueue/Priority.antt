-- ===== src/Bpf/Enqueue/Priority.antt =====
-- main.bpf.c, the enqueue callback: priority tasks, and what is sent to user space.
use scx_goland_core.Base.{
  ◌-◌, ◌^◌, ◌==◌, ℕ, Bool, true, false, none, some, ◌∷◌, ◌≡◌, refl, ap, ◌∙◌, arith, bit_or, inl,
  inr, if◌then◌else◌, is_some, Bool-cases,
}
use scx_goland_core.Base.Word.{is_neg, add64, neg, ebusy}
use scx_goland_core.Bpf.Calls.{cpus_of}
use scx_goland_core.Bpf.Enqueue.Hands.{enqueue_kick-Quiet}
use scx_goland_core.Base.HashMap.{lookup}
use scx_goland_core.Intf.{QueuedTaskCtx}
use scx_goland_core.Kernel.Types.{Task, Event}
use scx_goland_core.Kernel.Oracle.{Kernel}
use scx_goland_core.Kernel.Observe.{Insert, inserts, submitted}
use scx_goland_core.Bpf.State.{World, shared_dsq}
use scx_goland_core.Bpf.Basic.{
  try_lookup_task_ctx, is_usersched_task, is_belong_usersched_task, is_kthread, is_kswapd,
  is_khugepaged,
}
use scx_goland_core.Bpf.Enqueue.{
  get_task_info, sched_congested, is_queued_wakeup, enqueue_wakeup, pick_prio_cpu, prio_flags,
  insert_prio, enqueue_prio, enqueue_message, enqueue_rest, enqueue_task, goland_enqueue,
}

-- Whether the PID that was last written to running_task for the CPU is in the map of the priority tasks;
-- its task may have stopped since.
abbrev pub last_prio : World → ℕ → Bool
last_prio w cpu = elim (lookup cpu w.running_task) [
  | none ↦ false
  | some cur ↦ is_some (lookup cur w.priority_tasks)
]

-- The times that are sent for a task, 0 where it has no storage.
abbrev pub times_of : Task → World → ℕ × ℕ × ℕ
times_of p w = elim (lookup p.pid w.task_ctx) [
  | none ↦ (0, 0, 0)
  | some c ↦ (c.start_ts, c.stop_ts, c.exec_runtime)
]

module _ ⦃k : Kernel⦄ where
  -- The CPU that the kernel picks as idle, or where it answers -EBUSY, the CPU of the task.
  abbrev pub prio_cpu : Task → World → ℕ
  prio_cpu p w =
      let idle = k.pick_idle_cpu w.trace (cpus_of p) 0 in
      if idle == 2 ^ 32 - 16
      then k.task_cpu (Event.pick_idle_cpu (cpus_of p) 0 idle ∷ w.trace) p.pid
      else idle

  -- The insertion of a priority task on the local queue of a CPU, from `u` to `v`.
  pub record Local (p : Task) (slice cpu : ℕ) (u v : World) : Type 0 where
    pub cpu_valid : is_neg cpu ≡ false
    pub inserted :
        inserts v.trace
        ≡ record {
          pid = p.pid;
          dsq = bit_or k.dsq_local_on cpu;
          slice = slice;
          flags = if last_prio u cpu then k.enq_head else k.enq_preempt;
        }
          ∷ inserts u.trace
    pub counted : v.bss ≡ record (u.bss) { nr_user_dispatches = add64 u.bss.nr_user_dispatches 1 }

  -- A priority task with its slice from the map goes to the local queue of one CPU: the one that the
  -- kernel picks as idle, or the CPU of the task where it answers -EBUSY (-16). It goes to the head of
  -- that queue if the PID that running_task has for the CPU is in the map of the priority tasks, whether
  -- or not its task still runs there, and else it preempts the running task; one user dispatch is
  -- counted. Where that CPU is negative nothing is inserted and nothing counted.
  pub insert_prio-Local :
      (p : Task) (slice : ℕ) (w : World)
      → let cpu = prio_cpu p w in
        let w' = (insert_prio p slice w).1 in
        if is_neg cpu
        then (inserts w'.trace ≡ inserts w.trace) × (w'.bss ≡ w.bss)
        else Local p slice cpu w w'
  unfolding insert_prio pick_prio_cpu prio_flags
  insert_prio-Local p slice w = ground arith

  -- The message to user space carries what the kernel and the task's storage hold of the task.
  pub record Message (p : Task) (flags : ℕ) (w : World) (m : QueuedTaskCtx) : Type 0 where
    pub pid_sent : m.pid ≡ p.pid
    pub tgid_sent : m.tgid ≡ p.tgid
    pub vtime_sent : m.vtime ≡ p.dsq_vtime
    pub weight_sent : m.weight ≡ p.weight
    pub cpus_sent : m.nr_cpus_allowed ≡ p.nr_cpus_allowed
    pub flags_sent : m.flags ≡ flags
    pub times_sent : (m.start_ts, m.stop_ts, m.exec_runtime) ≡ times_of p w

  -- What a message leaves: `room` tells whether the ring buffer had a slot.
  abbrev pub Sent : Bool → Task → ℕ → World → World → Type 0
  Sent true p flags u v =
      (inserts v.trace ≡ inserts u.trace)
      × (v.bss ≡ record (u.bss) { nr_queued = add64 u.bss.nr_queued 1 })
      × ((m : QueuedTaskCtx) × Message p flags u m × (submitted v.trace ≡ m ∷ submitted u.trace))
  Sent false p flags u v =
      (submitted v.trace ≡ submitted u.trace)
      × (v.bss ≡ record (u.bss) {
        nr_sched_congested = add64 u.bss.nr_sched_congested 1;
        nr_kernel_dispatches = add64 u.bss.nr_kernel_dispatches 1;
      })
      × (inserts v.trace
          ≡ record { pid = p.pid; dsq = shared_dsq; slice = k.slice_dfl; flags = flags }
            ∷ inserts u.trace)

  -- Where the ring buffer has room, one message is sent and counted as queued, and nothing is
  -- inserted. Where it is full, congestion and one kernel dispatch are counted, and the task is
  -- inserted into the shared queue in place of a message.
  pub enqueue_message-Sent :
      (p : Task) (flags : ℕ) (w : World)
      → Sent (k.ringbuf_reserve w.trace) p flags w (enqueue_message p flags w).1
  unfolding enqueue_message get_task_info sched_congested try_lookup_task_ctx
  enqueue_message-Sent p flags w = elim (Bool-cases (k.ringbuf_reserve w.trace)) [
    | inl room ↦ rw room (refl, refl, (_, ground arith, refl))
    | inr full ↦ ground arith
  ]

  enqueue_wakeup_off :
      (p : Task) (flags : ℕ) (w : World)
      → w.ro.builtin_idle ≡ false
      → enqueue_wakeup p flags w ≡ ((neg ebusy, false), w)
  unfolding enqueue_wakeup is_queued_wakeup
  enqueue_wakeup_off p flags w off = ground arith

  -- The tests of enqueue that no special task passes.
  pub record IsOrdinary (p : Task) (w : World) : Type 0 where
    pub not_usersched : is_usersched_task w.ro p ≡ false
    pub not_its_thread : is_belong_usersched_task w.ro p ≡ false
    pub not_kthread : is_kthread p ≡ false
    pub not_kswapd : is_kswapd p ≡ false
    pub not_khugepaged : is_khugepaged w.ro p ≡ false

  enqueue_ordinary :
      (p : Task) (flags : ℕ) (w : World)
      → IsOrdinary p w
      → w.ro.builtin_idle ≡ false
      → goland_enqueue p flags w ≡ enqueue_rest p flags (neg ebusy) w
  unfolding goland_enqueue enqueue_task
  enqueue_ordinary p flags w o off = ground (arith, enqueue_wakeup_off p flags w off)

  -- The insertion of a priority task into the local queue of the CPU.
  abbrev pub prio_insert : Task → ℕ → ℕ → World → Insert
  prio_insert p slice cpu w = record {
    pid = p.pid;
    dsq = bit_or k.dsq_local_on cpu;
    slice = slice;
    flags = if last_prio w cpu then k.enq_head else k.enq_preempt;
  }

  inserted_prio :
      (p : Task) (slice : ℕ) (w : World)
      → lookup p.pid w.priority_tasks ≡ some slice
      → is_neg (k.pick_idle_cpu w.trace (cpus_of p) 0) ≡ false
      → inserts (enqueue_prio p w).1.trace
        ≡ prio_insert p slice (k.pick_idle_cpu w.trace (cpus_of p) 0) w ∷ inserts w.trace
  unfolding enqueue_prio
  inserted_prio p slice w e idle = ground (arith, insert_prio-Local p slice w)

  inserted_full :
      (p : Task) (flags : ℕ) (w : World)
      → k.ringbuf_reserve w.trace ≡ false
      → inserts (enqueue_message p flags w).1.trace
        ≡ record { pid = p.pid; dsq = shared_dsq; slice = k.slice_dfl; flags = flags }
          ∷ inserts w.trace
  inserted_full p flags w e = ground (arith, enqueue_message-Sent p flags w)

  -- An ordinary priority task that meets a full ring buffer is inserted twice by one enqueue, with
  -- the built-in idle selection off and an idle CPU for the task: first into the local queue of that
  -- CPU, with the slice of the map, and then once more into the shared queue, with the default slice.
  pub goland_enqueue_twice :
      (p : Task) (flags slice : ℕ) (w : World)
      → IsOrdinary p w
      → w.ro.builtin_idle ≡ false
      → lookup p.pid w.priority_tasks ≡ some slice
      → is_neg (k.pick_idle_cpu w.trace (cpus_of p) 0) ≡ false
      → k.ringbuf_reserve (enqueue_prio p w).1.trace ≡ false
      → inserts (goland_enqueue p flags w).1.trace
        ≡ record { pid = p.pid; dsq = shared_dsq; slice = k.slice_dfl; flags = flags }
          ∷ prio_insert p slice (k.pick_idle_cpu w.trace (cpus_of p) 0) w
          ∷ inserts w.trace
  unfolding enqueue_rest
  goland_enqueue_twice p flags slice w o off prio idle full =
      let u = (enqueue_prio p w).1 in
      let v = (enqueue_message p flags u).1 in
      rw (enqueue_ordinary p flags w o off) (
        (enqueue_kick-Quiet p (neg ebusy) v).no_insert
        ∙ inserted_full p flags u full
        ∙ ap (λ l. record { pid = p.pid; dsq = shared_dsq; slice = k.slice_dfl; flags = flags } ∷ l)
            (inserted_prio p slice w prio idle))
