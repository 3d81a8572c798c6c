-- ===== src/Bpf/Select/Direct.antt =====
-- main.bpf.c: direct dispatch and the callers of the idle search.
use scx_goland_core.Base.{
  ◌+◌, ℕ, Bool, true, false, ◌∷◌, ◌≡◌, arith, ltb, inl, inr, ◌⊎◌, Option-cases, if◌then◌else◌,
}
use scx_goland_core.Base.Word.{is_neg, add64}
use scx_goland_core.Intf.{TaskCpuArg, max_cpus}
use scx_goland_core.Kernel.Types.{Task, Event}
use scx_goland_core.Kernel.Oracle.{Kernel}
use scx_goland_core.Kernel.Observe.{
  inserts, submitted, reserved, missed, cancels, task_gets, task_puts, mask_gets, mask_puts,
  rcu_locks, rcu_unlocks,
}
use scx_goland_core.Bpf.State.{World, pure, shared_dsq}
use scx_goland_core.Bpf.Calls.{tell, task_from_pid}
use scx_goland_core.Bpf.Basic.{cpu_to_dsq, is_usersched_task}
use scx_goland_core.Bpf.Rules.{Keeps, if-run}
use scx_goland_core.Bpf.Idle.{pick_idle_cpu}
use scx_goland_core.Bpf.Idle.Quiet.{Quiet, Quiet-IsPreorder, pick_idle_cpu-Quiet}
use scx_goland_core.Bpf.Select.{
  queues_empty, insert_direct, dispatch_on, try_direct_dispatch, is_wake_sync, select_waker,
  goland_select_cpu, select_for, rs_select_cpu,
}

-- The queue of a CPU number; a number out of range stands for the shared queue.
abbrev pub dsq_of : ℕ → ℕ
dsq_of cpu = if ltb cpu max_cpus then cpu else shared_dsq

-- One direct dispatch of `p` to `cpu`, from `u` to `v`.
pub record Direct ⦃k : Kernel⦄ (p : Task) (flags cpu : ℕ) (u v : World) : Type 0 where
  pub cpu_valid : is_neg cpu ≡ false
  pub inserted :
      inserts v.trace
      ≡ record { pid = p.pid; dsq = dsq_of cpu; slice = k.slice_dfl; flags = flags }
        ∷ inserts u.trace
  pub counted : v.bss ≡ record (u.bss) { nr_kernel_dispatches = add64 u.bss.nr_kernel_dispatches 1 }
  pub no_submit : submitted v.trace ≡ submitted u.trace
  pub ro_same : v.ro ≡ u.ro
  pub priority_same : v.priority_tasks ≡ u.priority_tasks
  pub running_same : v.running_task ≡ u.running_task
  pub task_ctx_same : v.task_ctx ≡ u.task_ctx
  pub no_reserve : reserved v.trace ≡ reserved u.trace
  pub no_miss : missed v.trace ≡ missed u.trace
  pub no_cancel : cancels v.trace ≡ cancels u.trace
  pub tasks_balanced : task_gets v.trace + task_puts u.trace ≡ task_gets u.trace + task_puts v.trace
  pub rcu_balanced :
      rcu_locks v.trace + rcu_unlocks u.trace ≡ rcu_locks u.trace + rcu_unlocks v.trace
  pub masks_balanced : mask_gets v.trace + mask_puts u.trace ≡ mask_gets u.trace + mask_puts v.trace

-- A run that reports whether it dispatched.
abbrev pub DirectOrQuiet : ⦃k : Kernel⦄ → Task → ℕ → World → (ℕ × Bool) × World → Type 0
DirectOrQuiet p flags u ((cpu, true), v) = Direct p flags cpu u v
DirectOrQuiet p flags u ((cpu, false), v) = Quiet u v

module _ ⦃k : Kernel⦄ where
  dispatch_on-DirectOrQuiet :
      (p : Task) (flags cpu : ℕ) (w : World) → DirectOrQuiet p flags w (dispatch_on p flags cpu w)
  unfolding dispatch_on insert_direct queues_empty cpu_to_dsq
  dispatch_on-DirectOrQuiet p flags cpu w = ground arith

  Quiet-DirectOrQuiet :
      (p : Task) (flags : ℕ) (u v : World) (r : (ℕ × Bool) × World)
      → Quiet u v
      → DirectOrQuiet p flags v r
      → DirectOrQuiet p flags u r
  Quiet-DirectOrQuiet p flags u v ((cpu, true), w) q d = ground arith
  Quiet-DirectOrQuiet p flags u v ((cpu, false), w) q d = ground arith

  -- When direct dispatch reports success, it has inserted the task exactly once, into the queue of
  -- the CPU that it returns (a valid number) with the default slice, has counted one kernel
  -- dispatch and changed no other counter. When it reports failure, no datum has changed and
  -- nothing is inserted.
  pub try_direct_dispatch-DirectOrQuiet :
      (p : Task) (prev flags : ℕ) (w : World)
      → DirectOrQuiet p flags w (try_direct_dispatch p prev flags w)
  unfolding try_direct_dispatch
  try_direct_dispatch-DirectOrQuiet p prev flags w =
      let q = pick_idle_cpu-Quiet p prev w in
      let (cpu, v) = pick_idle_cpu p prev w in
      ground (arith, q, dispatch_on-DirectOrQuiet p flags cpu v)

  select_waker-Quiet : (prev flags : ℕ) → Keeps Quiet (select_waker prev flags)
  unfolding select_waker is_wake_sync
  select_waker-Quiet prev flags w = ground arith

  -- What select_cpu leaves, once it has tried direct dispatch.
  abbrev pub Selected : Task → World → ℕ × World → Type 0
  Selected p w (cpu, w') = Direct p 0 cpu w w' ⊎ Quiet w w'

  after_dispatch :
      (p : Task) (prev flags : ℕ) (w : World) (r : (ℕ × Bool) × World)
      → DirectOrQuiet p 0 w r
      → Selected p w ((if is_neg r.0.0 then select_waker prev flags else pure r.0.0) r.1)
  after_dispatch p prev flags w ((cpu, true), v) d = rw d.cpu_valid (inl d)
  after_dispatch p prev flags w ((cpu, false), v) q =
      if-run (Selected p w) (is_neg cpu) _ _ v
        (λ _. inr (Quiet-IsPreorder.chain w v _ q (select_waker-Quiet prev flags v))) (λ _. inr q)

  -- The select_cpu callback inserts a task at most once. The user-space scheduler is sent back to
  -- its CPU and nothing happens; any other task is either inserted once, into the queue of the CPU
  -- that the callback returns, or no datum changes.
  pub goland_select_cpu-cases :
      (p : Task) (prev flags : ℕ) (w : World)
      → if is_usersched_task w.ro p
        then goland_select_cpu p prev flags w ≡ (prev, w)
        else Selected p w (goland_select_cpu p prev flags w)
  unfolding goland_select_cpu
  goland_select_cpu-cases p prev flags w = ground (
    arith,
    after_dispatch p prev flags w (try_direct_dispatch p prev 0 w)
        (try_direct_dispatch-DirectOrQuiet p prev 0 w),
  )

  -- The program that user space calls to select a CPU changes no datum and inserts nothing; every
  -- task reference, mask and rcu section that it takes is given back, also where the search fails
  -- and where the task does not exist.
  pub rs_select_cpu-Quiet : (input : TaskCpuArg) (w : World) → Quiet w (rs_select_cpu input w).1
  unfolding rs_select_cpu select_for
  rs_select_cpu-Quiet input w = elim (Option-cases (k.task_from_pid w.trace input.pid)) [
    | inl e ↦ ground arith
    | inr (p, e) ↦ ground (
      arith,
      pick_idle_cpu-Quiet p input.cpu (tell Event.rcu_read_lock (task_from_pid input.pid w).1).1,
    )
  ]
