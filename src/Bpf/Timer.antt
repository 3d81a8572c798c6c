-- ===== src/Bpf/Timer.antt =====
-- main.bpf.c: the heartbeat that wakes the user-space scheduler.
pub mod Heartbeat
use scx_goland_core.Base.{ℕ, Bool, true, false, Option, none, some, leb, ◌==◌, if◌then◌else◌}
use scx_goland_core.Base.Word.{is_neg, neg, esrch}
use scx_goland_core.Kernel.Types.{Task, Event, Error}
use scx_goland_core.Kernel.Oracle.{Kernel}
use scx_goland_core.Bpf.State.{M, pure, ◌>>=◌, ◌>>◌, get, usersched_timer_ns}
use scx_goland_core.Bpf.Calls.{
  tell, cpus_of, kick_cpu, scx_now, scx_error, scx_pick_idle_cpu, task_from_pid, task_release,
  timer_lookup, timer_start,
}
use scx_goland_core.Bpf.Basic.{set_usersched_needed}

module _ ⦃k : Kernel⦄ where
  -- `none` is NULL.
  unfoldable pub wake_usersched : Option Task → M (Unit {0})
  wake_usersched none = pure tt
  wake_usersched (some p) = do
    set_usersched_needed
    cpu ← scx_pick_idle_cpu (cpus_of p) 0
    if is_neg cpu then pure tt else kick_cpu cpu k.kick_idle
    task_release p

  unfoldable pub heartbeat : M (Unit {0})
  heartbeat = do
    tell Event.rcu_read_lock
    pid ← get (λ w. w.ro.usersched_pid)
    p ← task_from_pid pid
    wake_usersched p
    tell Event.rcu_read_unlock

  unfoldable pub usersched_timer_fn : M ℕ
  usersched_timer_fn = do
    now ← scx_now
    last ← get (λ w. w.bss.usersched_last_run_at)
    if leb usersched_timer_ns (k.time_delta now last) then heartbeat else pure tt
    err ← timer_start usersched_timer_ns
    if err == 0 then pure tt else scx_error Error.no_stats_timer
    pure 0

  unfoldable pub usersched_timer_init : M ℕ
  usersched_timer_init = do
    found ← timer_lookup
    if found
        then (do
          tell Event.timer_init
          tell Event.timer_set_callback
          err ← timer_start usersched_timer_ns
          if err == 0 then pure tt else scx_error Error.no_scheduler_timer
          pure err)
        else (do scx_error Error.no_timer_lookup; pure (neg esrch))
