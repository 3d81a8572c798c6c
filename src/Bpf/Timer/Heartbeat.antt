-- ===== src/Bpf/Timer/Heartbeat.antt =====
-- main.bpf.c, usersched_timer_fn: one round of the heartbeat.
use scx_goland_core.Base.{
  suc, Bool, ◌&&◌, Option, ◌∷◌, ◌≡◌, ◌+◌, ◌≤◌, arith, leb, inl, inr, if◌then◌else◌, is_some,
  Option-cases,
}
use scx_goland_core.Kernel.Types.{Task, Event}
use scx_goland_core.Kernel.Oracle.{Kernel}
use scx_goland_core.Kernel.Observe.{task_gets, task_puts, rcu_locks, rcu_unlocks, armed, inserts}
use scx_goland_core.Bpf.State.{World, usersched_timer_ns}
use scx_goland_core.Bpf.Basic.{set_usersched_needed}
use scx_goland_core.Bpf.Basic.Flag.{bit_or_flag}
use scx_goland_core.Bpf.Timer.{wake_usersched, heartbeat, usersched_timer_fn}

module _ ⦃k : Kernel⦄ where
  -- Whether the user-space scheduler has not run for a period of the timer.
  abbrev pub is_inactive : World → Bool
  is_inactive w = leb usersched_timer_ns (k.time_delta (k.now w.trace) w.bss.usersched_last_run_at)

  -- What holds after each round of the timer; `wake` tells whether the scheduler is asked for.
  pub record Round (wake : Bool) (u v : World) : Type 0 where
    pub rearmed : armed v.trace ≡ suc (armed u.trace)
    pub flag : v.bss.usersched_needed ≡ (if wake then 1 else u.bss.usersched_needed)
    pub nothing_inserted : inserts v.trace ≡ inserts u.trace
    pub tasks_balanced :
        task_gets v.trace + task_puts u.trace ≡ task_gets u.trace + task_puts v.trace
    pub rcu_balanced :
        rcu_locks v.trace + rcu_unlocks u.trace ≡ rcu_locks u.trace + rcu_unlocks v.trace

  -- The task of the user-space scheduler, looked up within the rcu section of the heartbeat.
  abbrev pub usersched_found : World → Option Task
  usersched_found w =
      k.task_from_pid (Event.rcu_read_lock ∷ Event.now (k.now w.trace) ∷ w.trace) w.ro.usersched_pid

  -- If the flag is 0 or 1: each round of the timer arms it once more, with or without an error, and
  -- returns 0. A request for the user-space scheduler is made exactly when it has not run for a
  -- period and its task exists; otherwise the flag stays. Nothing is inserted; task references and
  -- rcu sections are given back.
  pub usersched_timer_fn-Round :
      (w : World)
      → w.bss.usersched_needed ≤ 1
      → let (r, v) = usersched_timer_fn w in
        (r ≡ 0) × Round (is_inactive w && is_some (usersched_found w)) w v
  unfolding usersched_timer_fn heartbeat wake_usersched set_usersched_needed
  usersched_timer_fn-Round w h = elim (Option-cases (usersched_found w)) [
    | inl e ↦ ground (arith, bit_or_flag w.bss.usersched_needed)
    | inr (p, e) ↦ ground (arith, bit_or_flag w.bss.usersched_needed)
  ]
