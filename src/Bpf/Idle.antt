-- ===== src/Bpf/Idle.antt =====
-- main.bpf.c: the search for an idle CPU, and the wake-up of a CPU for a task.
pub mod Claims
pub mod Quiet
use scx_goland_core.Base.{ℕ, Bool, true, false, ◌&&◌, ◌||◌, Option, none, some, ◌==◌, if◌then◌else◌}
use scx_goland_core.Base.Word.{is_neg, neg, ebusy, enoent}
use scx_goland_core.Kernel.Types.{Task, Mask, bpf_cpumask, idle_smtmask, Error, Event}
use scx_goland_core.Kernel.Oracle.{Kernel}
use scx_goland_core.Bpf.State.{World, M, pure, ◌>>=◌, ◌>>◌, get, TaskCtx, CpuCtx}
use scx_goland_core.Bpf.Calls.{
  tell, is_migration_disabled, test_and_clear_cpu_idle, scx_pick_idle_cpu, cpumask_and,
  cpumask_test_cpu, cpus_of, kick_cpu, scx_error,
}
use scx_goland_core.Bpf.Basic.{try_lookup_task_ctx, try_lookup_cpu_ctx}

-- A `goto out_put_cpumask` with `cpu` set is `some cpu`; `none` goes on to the next attempt.
infixr 4 ◌orelse◌
unfoldable pub ◌orelse◌ : M (Option ℕ) → M (Option ℕ) → M (Option ℕ)
a orelse b = do found ← a; elim found [ some cpu ↦ pure (some cpu) | none ↦ b ]

-- `if (!l2_domain) l2_domain = (struct bpf_cpumask *)p->cpus_ptr;`
abbrev pub domain_or_task : Option ℕ → Task → Mask
domain_or_task (some m) p = bpf_cpumask m
domain_or_task none p = cpus_of p

module _ ⦃k : Kernel⦄ where
  unfoldable pub try_claim : ℕ → M (Option ℕ)
  try_claim cpu = do idle ← test_and_clear_cpu_idle cpu; pure (if idle then some cpu else none)

  -- `cpu = scx_bpf_pick_idle_cpu(mask, flags); if (cpu >= 0) goto out_put_cpumask;`
  unfoldable pub try_pick : Mask → ℕ → M (Option ℕ)
  try_pick m flags = do
    cpu ← scx_pick_idle_cpu m flags
    pure (if is_neg cpu then none else some cpu)

  unfoldable pub try_domain : Option Mask → ℕ → M (Option ℕ)
  try_domain none flags = pure none
  try_domain (some m) flags = try_pick m flags

  -- `prev_cpu` itself, if its whole core is idle.
  unfoldable pub try_prev_core : ℕ → M (Option ℕ)
  try_prev_core prev = do
    full ← cpumask_test_cpu prev idle_smtmask
    if full then try_claim prev else pure none

  -- The four attempts at a full-idle core.
  unfoldable pub pick_idle_core : Task → ℕ → Option Mask → Option Mask → M (Option ℕ)
  pick_idle_core p prev l2 l3 =
      try_prev_core prev
      orelse try_domain l2 k.pick_idle_core
      orelse try_domain l3 k.pick_idle_core
      orelse try_pick (cpus_of p) k.pick_idle_core

  -- The four attempts at any idle CPU.
  unfoldable pub pick_idle_any : Task → ℕ → Option Mask → Option Mask → M (Option ℕ)
  pick_idle_any p prev l2 l3 =
      try_claim prev orelse try_domain l2 0 orelse try_domain l3 0 orelse try_pick (cpus_of p) 0

  unfoldable pub search_idle : Task → ℕ → Option Mask → Option Mask → M ℕ
  search_idle p prev l2 l3 = do
    smt ← get (λ w. w.ro.smt_enabled)
    found ←
        (if smt then pick_idle_core p prev l2 l3 else pure none) orelse pick_idle_any p prev l2 l3
    elim found [ some cpu ↦ pure cpu | none ↦ pure (neg ebusy) ]

  -- The task's own mask of a level, narrowed to the domain: NULL (`some none`) where that leaves
  -- no CPU, and `none` where the task has no mask.
  unfoldable pub task_domain : Error → Task → Option ℕ → Mask → M (Option (Option Mask))
  task_domain missing p none domain = do scx_error missing; pure none
  task_domain missing p (some m) domain = do
    some_cpu ← cpumask_and (bpf_cpumask m) (cpus_of p) domain
    pure (some (if some_cpu then some (bpf_cpumask m) else none))

  -- The search proper, once both domains are known; `none` is the missing mask of the task.
  unfoldable pub search_domains : Task → ℕ → Option Mask → Option (Option Mask) → M ℕ
  search_domains p prev l2 none = pure (neg enoent)
  search_domains p prev l2 (some l3) = search_idle p prev l2 l3

  unfoldable pub narrow_l3 : Task → ℕ → Option ℕ → Mask → Option (Option Mask) → M ℕ
  narrow_l3 p prev own l3_domain none = pure (neg enoent)
  narrow_l3 p prev own l3_domain (some l2) = do
    l3 ← task_domain Error.no_l3_cpumask p own l3_domain
    search_domains p prev l2 l3

  -- From the choice of the domains up to `out_put_cpumask`.
  unfoldable pub pick_in_domains : Task → ℕ → TaskCtx → CpuCtx → M ℕ
  pick_in_domains p prev tctx cctx = do
    let l2_domain = domain_or_task cctx.l2_cpumask p
    let l3_domain = domain_or_task cctx.l3_cpumask p
    all_cpus ← get (λ w. p.nr_cpus_allowed == w.bss.nr_cpu_ids)
    if all_cpus then search_idle p prev (some l2_domain) (some l3_domain) else (do
      l2 ← task_domain Error.no_l2_cpumask p tctx.l2_cpumask l2_domain
      narrow_l3 p prev tctx.l3_cpumask l3_domain l2)

  -- From the lookup of the CPU's context on; `none` is NULL.
  unfoldable pub pick_with_cpu : Task → ℕ → TaskCtx → Option CpuCtx → M ℕ
  pick_with_cpu p prev tctx none = pure (neg enoent)
  pick_with_cpu p prev tctx (some cctx) = do
    tell (Event.get_mask idle_smtmask)
    cpu ← pick_in_domains p prev tctx cctx
    tell (Event.put_mask idle_smtmask)
    pure cpu

  unfoldable pub pick_with_ctx : Task → ℕ → Option TaskCtx → M ℕ
  pick_with_ctx p prev none = pure (neg enoent)
  pick_with_ctx p prev (some tctx) = do
    cctx ← try_lookup_cpu_ctx prev
    pick_with_cpu p prev tctx cctx

  -- `p->nr_cpus_allowed == 1 || is_migration_disabled(p)`
  unfoldable pub is_pinned : Task → M Bool
  is_pinned p = if p.nr_cpus_allowed == 1 then pure true else is_migration_disabled p

  unfoldable pub pick_idle_cpu : Task → ℕ → M ℕ
  pick_idle_cpu p prev = do
    pinned ← is_pinned p
    if pinned
        then (do
          found ← try_claim prev
          elim found [ some cpu ↦ pure cpu | none ↦ pure (neg ebusy) ])
        else (do tctx ← try_lookup_task_ctx p; pick_with_ctx p prev tctx)

  unfoldable pub kick_task_cpu : Task → ℕ → M (Unit {0})
  kick_task_cpu p cpu = do
    allowed ← cpumask_test_cpu cpu (cpus_of p)
    if allowed then kick_cpu cpu k.kick_idle else (do
      kick_cpu cpu k.kick_idle
      other ← scx_pick_idle_cpu (cpus_of p) 0
      if is_neg other then pure tt else kick_cpu other k.kick_idle)
