-- ===== src/Bpf/Invariant/Defs.antt =====
-- The global data and the maps of main.bpf.c: what the invariant asks of them, and of the calls
-- that come in pairs or that a counter follows.
use scx_goland_core.Base.{ℕ, ◌+◌, ◌≤◌, ◌<◌, ◌^◌, ◌≡◌, ◌%◌, length}
use scx_goland_core.Intf.{max_cpus}
use scx_goland_core.Kernel.Observe.{
  submitted, reserved, missed, cancels, task_gets, task_puts, mask_gets, mask_puts, rcu_locks,
  rcu_unlocks,
}
use scx_goland_core.Bpf.State.{World, Bss, max_enqueued_tasks}

pub record Counters (b : Bss) : Type 0 where
  pub flag : b.usersched_needed ≤ 1
  pub queued_fits : b.nr_queued < 2 ^ 64
  pub running_fits : b.nr_running < 2 ^ 64
  pub user_fits : b.nr_user_dispatches < 2 ^ 64
  pub kernel_fits : b.nr_kernel_dispatches < 2 ^ 64
  pub cancel_fits : b.nr_cancel_dispatches < 2 ^ 64
  pub bounce_fits : b.nr_bounce_dispatches < 2 ^ 64
  pub congested_fits : b.nr_sched_congested < 2 ^ 64

pub record IsValid (w : World) : Type 0 where
  pub counters : Counters w.bss
  pub priority_bound : length w.priority_tasks ≤ max_enqueued_tasks
  pub running_bound : length w.running_task ≤ max_cpus

-- All but `held` of the references to tasks that were acquired are released. Every mask of the
-- kernel and every rcu section that was acquired is released, every slot of the ring buffer that
-- was reserved is submitted, and two counters agree with the calls.
pub record IsSettled (held : ℕ) (w : World) : Type 0 where
  pub tasks_released : task_gets w.trace ≡ held + task_puts w.trace
  pub masks_released : mask_gets w.trace ≡ mask_puts w.trace
  pub rcu_closed : rcu_locks w.trace ≡ rcu_unlocks w.trace
  pub slots_submitted : reserved w.trace ≡ length (submitted w.trace)
  pub cancels_counted : w.bss.nr_cancel_dispatches ≡ cancels w.trace % 2 ^ 64
  pub congestion_counted : w.bss.nr_sched_congested ≡ missed w.trace % 2 ^ 64

-- What the steps so far say of a state: whether a request for the user-space scheduler must be
-- pending (1), and how many tasks run.
pub record Ghost : Type 0 where
  pub request : ℕ
  pub running : ℕ

pub record Invariant (g : Ghost) (held : ℕ) (w : World) : Type 0 where
  pub valid : IsValid w
  pub settled : IsSettled held w
  pub requested : g.request ≤ w.bss.usersched_needed
  pub running_counted : w.bss.nr_running ≡ g.running

-- The invariant carries over from `u` to `v`, between entry points and within one that holds
-- references.
abbrev pub Carries : Ghost → ℕ → World → World → Type 0
Carries g held u v = Invariant g held u → Invariant g held v

abbrev pub Preserves : Ghost → World → World → Type 0
Preserves g u v = Carries g 0 u v

-- The calls that the invariant counts are as before, and so are all the data.
pub record Steady (u v : World) : Type 0 where
  pub bss_same : v.bss ≡ u.bss
  pub priority_same : v.priority_tasks ≡ u.priority_tasks
  pub running_same : v.running_task ≡ u.running_task
  pub gets_same : task_gets v.trace ≡ task_gets u.trace
  pub puts_same : task_puts v.trace ≡ task_puts u.trace
  pub mask_gets_same : mask_gets v.trace ≡ mask_gets u.trace
  pub mask_puts_same : mask_puts v.trace ≡ mask_puts u.trace
  pub locks_same : rcu_locks v.trace ≡ rcu_locks u.trace
  pub unlocks_same : rcu_unlocks v.trace ≡ rcu_unlocks u.trace
  pub reserved_same : reserved v.trace ≡ reserved u.trace
  pub submitted_same : submitted v.trace ≡ submitted u.trace
  pub missed_same : missed v.trace ≡ missed u.trace
  pub cancels_same : cancels v.trace ≡ cancels u.trace
