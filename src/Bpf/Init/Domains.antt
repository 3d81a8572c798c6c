-- ===== src/Bpf/Init/Domains.antt =====
-- main.bpf.c: the domains that enable_sibling_cpu builds, one sibling CPU at a time.
use scx_goland_core.Base.{
  ℕ, Bool, true, false, Option, none, some, ◌∷◌, ◌≡◌, refl, ◌+◌, arith, ◌==◌, inl, inr,
  if◌then◌else◌, get_elem?, set, Option-cases,
}
use scx_goland_core.Base.Word.{neg, enoent, enomem, einval}
use scx_goland_core.Intf.{DomainArg}
use scx_goland_core.Kernel.Types.{bpf_cpumask}
use scx_goland_core.Kernel.Oracle.{Kernel}
use scx_goland_core.Kernel.Observe.{added_cpus, rcu_locks, rcu_unlocks}
use scx_goland_core.Bpf.State.{World, CpuCtx}
use scx_goland_core.Bpf.Basic.{try_lookup_cpu_ctx}
use scx_goland_core.Bpf.Tasks.{calloc_cpumask}
use scx_goland_core.Bpf.Init.{
  init_cpumask, set_sibling, enable_on, enable_level, enable_found, enable_sibling_cpu,
}

-- The mask of one cache level.
abbrev pub level_mask : ℕ → CpuCtx → Option ℕ
level_mask lvl c = if lvl == 2 then c.l2_cpumask else c.l3_cpumask

abbrev pub is_level : ℕ → Bool
is_level lvl = if lvl == 2 then true else lvl == 3

-- The context of a CPU after the call: the mask of the level is `m`, the other level's is as it was.
abbrev pub with_level : ℕ → Option ℕ → CpuCtx → CpuCtx
with_level lvl m c = if lvl == 2 then record c { l2_cpumask = m } else record c { l3_cpumask = m }

abbrev pub RcuBalanced : World → World → Type 0
RcuBalanced u v = rcu_locks v.trace + rcu_unlocks u.trace ≡ rcu_locks u.trace + rcu_unlocks v.trace

module _ ⦃k : Kernel⦄ where
  -- The mask that the level has afterwards: the one that stands, or a new one if there is memory.
  abbrev pub made_mask : Option ℕ → World → Option ℕ
  made_mask (some m) w = some m
  made_mask none w = k.cpumask_create w.trace

  -- The effect for a CPU that exists and a level that exists, by the mask afterwards.
  abbrev pub Enabled : DomainArg → CpuCtx → Option ℕ → World → ℕ × World → Type 0
  Enabled input c none u (err, v) =
      (err ≡ neg enomem)
      × (added_cpus v.trace ≡ added_cpus u.trace)
      × (v.cpu_ctx ≡ set u.cpu_ctx input.cpu_id (with_level input.lvl_id none c))
      × RcuBalanced u v
  Enabled input c (some m) u (err, v) =
      (err ≡ 0)
      × (added_cpus v.trace ≡ (input.sibling_cpu_id, bpf_cpumask m) ∷ added_cpus u.trace)
      × (v.cpu_ctx ≡ set u.cpu_ctx input.cpu_id (with_level input.lvl_id (some m) c))
      × RcuBalanced u v

  -- What the program returns and leaves, for each context that the CPU may have.
  abbrev pub SiblingDone : DomainArg → Option CpuCtx → World → ℕ × World → Type 0
  SiblingDone input none u r = (r ≡ (neg enoent, u))
  SiblingDone input (some c) u r = elim (is_level input.lvl_id) [
    | false ↦ (r ≡ (neg einval, u))
    | true ↦ Enabled input c (made_mask (level_mask input.lvl_id c) u) u r
  ]

  enable_level-Enabled :
      (input : DomainArg) (c : CpuCtx) (w : World)
      → SiblingDone input (some c) w (enable_level input c w)
  unfolding enable_level enable_on init_cpumask calloc_cpumask set_sibling
  enable_level-Enabled input c w = elim (Option-cases (k.cpumask_create w.trace)) [
    | inl e ↦ ground arith
    | inr (m, e) ↦ ground arith
  ]

  enable_found-SiblingDone :
      (input : DomainArg) (c : Option CpuCtx) (w : World)
      → SiblingDone input c w (enable_found input c w)
  unfolding enable_found
  enable_found-SiblingDone input none w = refl
  enable_found-SiblingDone input (some c) w = enable_level-Enabled input c w

  -- A CPU with no context is refused with -ENOENT, and then a level other than 2 and 3 with
  -- -EINVAL, with nothing changed. Otherwise the mask of that level alone is created if it does not
  -- stand, and the sibling is added to it and 0 returned; without memory nothing is added and
  -- -ENOMEM returned. Each rcu section is closed.
  pub enable_sibling_cpu-SiblingDone :
      (input : DomainArg) (w : World)
      → SiblingDone input (get_elem? w.cpu_ctx input.cpu_id) w (enable_sibling_cpu input w)
  unfolding enable_sibling_cpu try_lookup_cpu_ctx
  enable_sibling_cpu-SiblingDone input w =
      enable_found-SiblingDone input (get_elem? w.cpu_ctx input.cpu_id) w
