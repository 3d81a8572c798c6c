-- ===== src/Bpf/Init.antt =====
-- main.bpf.c: the set-up of the queues, of the cache domains, and of the scheduling class.
pub mod Domains
pub mod Queues
use scx_goland_core.Base.{
  ℕ, zero, suc, ◌+◌, Bool, true, false, Option, none, some, List, ◌==◌, if◌then◌else◌, set,
}
use scx_goland_core.Base.Word.{neg, enoent, enomem, einval}
use scx_goland_core.Intf.{DomainArg}
use scx_goland_core.Kernel.Types.{online_cpumask, bpf_cpumask, Event, Error}
use scx_goland_core.Kernel.Oracle.{Kernel}
use scx_goland_core.Bpf.State.{
  World, M, pure, ◌>>=◌, ◌>>◌, get, modify_bss, CpuCtx, shared_dsq, sched_dsq,
}
use scx_goland_core.Bpf.Calls.{tell, cpumask_test_cpu, create_dsq, scx_error, scx_nr_cpu_ids}
use scx_goland_core.Bpf.Basic.{cpu_to_dsq, try_lookup_cpu_ctx}
use scx_goland_core.Bpf.Tasks.{calloc_cpumask}
use scx_goland_core.Bpf.Timer.{usersched_timer_init}

module _ ⦃k : Kernel⦄ where
  -- The loop `bpf_for(i, 0, nr_cpu_ids)`, by the rounds left.
  unfoldable pub count_online : ℕ → ℕ → ℕ → M ℕ
  count_online zero i cpus = pure cpus
  count_online (suc rounds) i cpus = do
    online ← cpumask_test_cpu i online_cpumask
    count_online rounds (i + 1) (if online then cpus + 1 else cpus)

  unfoldable pub get_nr_online_cpus : M ℕ
  get_nr_online_cpus = do
    tell (Event.get_mask online_cpumask)
    n ← get (λ w. w.bss.nr_cpu_ids)
    cpus ← count_online n 0 0
    tell (Event.put_mask online_cpumask)
    pure cpus

  -- One `scx_bpf_create_dsq` with its error message; the result is 0 or the error.
  unfoldable pub create_or_report : ℕ → (ℕ → Error) → M ℕ
  create_or_report dsq failed = do
    err ← create_dsq dsq
    if err == 0 then pure tt else scx_error (failed err)
    pure err

  -- The loop over the CPUs, by the rounds left.
  unfoldable pub create_pcpu_dsqs : ℕ → ℕ → M ℕ
  create_pcpu_dsqs zero cpu = pure 0
  create_pcpu_dsqs (suc rounds) cpu = do
    dsq ← cpu_to_dsq cpu
    err ← create_or_report dsq (Error.no_pcpu_dsq cpu)
    let rest = create_pcpu_dsqs rounds (cpu + 1)
    if err == 0 then rest else pure err

  unfoldable pub dsq_init : M ℕ
  dsq_init = do
    online ← get_nr_online_cpus
    modify_bss (λ b. record b { nr_online_cpus = online })
    n ← get (λ w. w.bss.nr_cpu_ids)
    err ← create_pcpu_dsqs n 0
    if err == 0
        then (do
          err ← create_or_report shared_dsq Error.no_shared_dsq
          if err == 0 then create_or_report sched_dsq Error.no_sched_dsq else pure err)
        else pure err

  -- The error, and the pointer afterwards.
  unfoldable pub init_cpumask : Option ℕ → M (ℕ × Option ℕ)
  init_cpumask (some mask) = pure (0, some mask)
  init_cpumask none = do
    (err, mask) ← calloc_cpumask none
    pure (elim mask [ none ↦ (neg enomem, none) | some m ↦ (err, some m) ])

  abbrev put_cpu_ctx : ℕ → CpuCtx → M (Unit {0})
  put_cpu_ctx cpu c w = (tt, record w { cpu_ctx = set w.cpu_ctx cpu c })

  -- `mask = *pmask; if (mask) bpf_cpumask_set_cpu(sibling, mask);` in its rcu section
  unfoldable pub set_sibling : ℕ → Option ℕ → M (Unit {0})
  set_sibling sibling none = do tell Event.rcu_read_lock; tell Event.rcu_read_unlock
  set_sibling sibling (some m) = do
    tell Event.rcu_read_lock
    tell (Event.cpumask_set_cpu sibling (bpf_cpumask m))
    tell Event.rcu_read_unlock

  -- The rest once the level is chosen: `mask` is the pointer, `write` puts it back.
  unfoldable pub enable_on : ℕ → Option ℕ → (Option ℕ → M (Unit {0})) → M ℕ
  enable_on sibling mask write = do
    (err, made) ← init_cpumask mask
    write made
    if err == 0 then (do set_sibling sibling made; pure err) else pure err

  unfoldable pub enable_level : DomainArg → CpuCtx → M ℕ
  enable_level input c =
      if input.lvl_id == 2
      then enable_on input.sibling_cpu_id c.l2_cpumask
          (λ m. put_cpu_ctx input.cpu_id (record c { l2_cpumask = m }))
      else if input.lvl_id == 3
      then enable_on input.sibling_cpu_id c.l3_cpumask
          (λ m. put_cpu_ctx input.cpu_id (record c { l3_cpumask = m }))
      else pure (neg einval)

  -- From the test of the CPU's context on; `none` is NULL.
  unfoldable pub enable_found : DomainArg → Option CpuCtx → M ℕ
  enable_found input none = pure (neg enoent)
  enable_found input (some c) = enable_level input c

  unfoldable pub enable_sibling_cpu : DomainArg → M ℕ
  enable_sibling_cpu input = do found ← try_lookup_cpu_ctx input.cpu_id; enable_found input found

  unfoldable pub goland_init : M ℕ
  goland_init = do
    n ← scx_nr_cpu_ids
    modify_bss (λ b. record b { nr_cpu_ids = n })
    err ← dsq_init
    if err == 0 then usersched_timer_init else pure err
